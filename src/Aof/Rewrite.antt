-- ===== src/Aof/Rewrite.antt =====
-- store/aof.go: the log file, its writes and its rewrite. `Rewrite` is two steps, which are its two
-- critical sections: other commands run between them.
use redis_glass.Prelude.{
  ℕ, Bool, true, false, Option, none, some, [], ◌++◌, length, Bytes, ℤ, if◌then◌else◌,
}
use redis_glass.Store.{Store}
use redis_glass.Aof.{Command, encode}
use redis_glass.Aof.Snapshot.{write_snapshot}

pub data FsyncPolicy : Type 0 where
  every_sec always never : FsyncPolicy

-- `file` is what the log file holds, and `synced` how many of its bytes an fsync has forced to the
-- disk. `open` says whether the handle is open: after some failures of a rewrite it is not.
pub record Aof : Type 0 where
  pub file : Bytes
  pub synced : ℕ
  pub is_open : Bool
  pub fsync : FsyncPolicy
  pub rewriting : Bool
  pub rewrite_buf : Bytes
  pub rewrite_running : Bool

-- `NewAOF` on a file with this content.
abbrev pub new : Bytes → FsyncPolicy → Aof
new file fsync = record {
  file = file;
  synced = length file;
  is_open = true;
  fsync = fsync;
  rewriting = false;
  rewrite_buf = [];
  rewrite_running = false;
}

-- `Sync` on an open file.
unfoldable pub sync : Aof → Aof
sync a = record a { synced = length a.file }

unfoldable pub sync_after_write : FsyncPolicy → Aof → Aof
unfolding sync
sync_after_write always a = sync a
sync_after_write every_sec a = a
sync_after_write never a = a

unfoldable pub mirror : Bytes → Aof → Aof
mirror buf a = record a {
  rewrite_buf = if a.rewriting then a.rewrite_buf ++ buf else a.rewrite_buf;
}

-- `writeLocked`; the flag says whether it succeeded. A write to a closed file fails.
unfoldable pub write_locked : Command → Aof → Bool × Aof
unfolding sync_after_write mirror
write_locked c a =
    if a.is_open
    then (
      true,
      mirror (encode c) (sync_after_write a.fsync (record a { file = a.file ++ encode c })),
    )
    else (false, a)

-- The first critical sections of `Rewrite`, up to `s.Snapshot()`; nothing where one is running.
unfoldable pub rewrite_begin : Store → Aof → Option (Store × Aof)
rewrite_begin s a =
    if a.rewrite_running
    then none
    else some (s, record a { rewrite_running = true; rewriting = true; rewrite_buf = [] })

-- How the rest of `Rewrite` ends: at a step that fails, in the order of the steps, or well. Where the
-- rename fails, reopening the old file may fail too.
pub data Outcome : Type 0 where
  open_temp write_temp append_buffer flush_temp sync_temp close_temp close_live : Outcome
  rename_temp : Bool → Outcome
  reopen : Outcome
  complete : Outcome

stop_mirroring : Aof → Aof
stop_mirroring a = record a { rewriting = false; rewrite_buf = [] }

-- The closure `rewriteErr`, from the opening of the temporary file on.
unfoldable pub rewrite_write : ℤ → Store → Outcome → Aof → Aof
unfolding stop_mirroring
rewrite_write now snap open_temp a = a
rewrite_write now snap write_temp a = a
rewrite_write now snap append_buffer a = a
rewrite_write now snap flush_temp a = stop_mirroring a
rewrite_write now snap sync_temp a = stop_mirroring a
rewrite_write now snap close_temp a = stop_mirroring a
rewrite_write now snap close_live a = record (stop_mirroring a) { is_open = false }
rewrite_write now snap (rename_temp reopened) a = record (stop_mirroring a) { is_open = reopened }
rewrite_write now snap reopen a =
    let file = write_snapshot now snap ++ a.rewrite_buf in
    record (stop_mirroring a) { file = file; synced = length file; is_open = false }
rewrite_write now snap complete a =
    let file = write_snapshot now snap ++ a.rewrite_buf in
    record (stop_mirroring a) { file = file; synced = length file; is_open = true }

-- The clean-up behind the closure, and the deferred reset.
clean_up : Aof → Aof
unfolding stop_mirroring
clean_up a = record (if a.rewriting then stop_mirroring a else a) { rewrite_running = false }

unfoldable pub rewrite_finish : ℤ → Store → Outcome → Aof → Aof
unfolding rewrite_write clean_up
rewrite_finish now snap outcome a = clean_up (rewrite_write now snap outcome a)
