-- ===== src/Aof/Durable.antt =====
-- store/aof.go: what an fsync has forced to the disk.
use redis_glass.Prelude.{
  ◌≡◌, refl, ap, arith, Bool, true, false, some, List, if-second, length, ℕ, ℤ, pos, leb_ℤ,
  if◌then◌else◌,
}
use mathlib.Core.Path.{subst}
use redis_glass.Store.{Store}
use redis_glass.Aof.{Command}
use redis_glass.Aof.Rewrite.{
  Aof, FsyncPolicy, always, every_sec, Outcome, sync, sync_after_write, mirror, write_locked,
  rewrite_begin, rewrite_finish,
}
use redis_glass.Aof.Node.{Node, Step, command, forget, begin, finish, Reach, here, next}

-- `Sync` and `Flush`; a file that is closed is not synced.
unfoldable pub sync_locked : Aof → Bool × Aof
unfolding sync
sync_locked a = if a.is_open then (true, sync a) else (false, a)

-- A tick of `StartFsyncLoop`, whose error is logged only; the loop runs under `every_sec` alone.
unfoldable pub fsync_tick : FsyncPolicy → Aof → Aof
unfolding sync_locked
fsync_tick every_sec a = (sync_locked a).1
fsync_tick _ a = a

-- Whether a tick of `StartAutoRewrite` starts a rewrite, by the threshold and the size of the file.
unfoldable pub is_rewrite_due : ℤ → ℕ → Bool
is_rewrite_due threshold size =
    if leb_ℤ threshold (pos 0) then false else leb_ℤ threshold (pos size)

-- Under `always`, the whole file is on the disk.
pub record IsDurable (a : Aof) : Type 0 where
  pub policy : a.fsync ≡ always
  pub synced : a.synced ≡ length a.file

write_locked-IsDurable : (c : Command) (a : Aof) → IsDurable a → IsDurable (write_locked c a).1
unfolding write_locked mirror sync_after_write sync
write_locked-IsDurable c a d =
    if-second IsDurable a.is_open (true, _) (false, a)
      (rw d.policy (record { policy = refl; synced = refl })) d

rewrite_begin-IsDurable :
    (s : Store) (a : Aof) (snap : Store) (b : Aof)
    → rewrite_begin s a ≡ some (snap, b)
    → IsDurable a
    → IsDurable b
unfolding rewrite_begin
rewrite_begin-IsDurable s a snap b e d = record {
  policy = ground (arith, d.policy);
  synced = ground (arith, d.synced);
}

rewrite_finish-IsDurable :
    (now : ℤ) (snap : Store) (outcome : Outcome) (a : Aof)
    → IsDurable a
    → IsDurable (rewrite_finish now snap outcome a)
unfolding rewrite_finish
rewrite_finish-IsDurable now snap outcome a d = record {
  policy = ground (arith, d.policy);
  synced = ground (arith, d.synced);
}

Step-IsDurable : {m n : Node} {ds : List Command} → Step m ds n → IsDurable m.aof → IsDurable n.aof
Step-IsDurable (command n now c s a r t w) d =
    subst IsDurable (ap (λ (x : Bool × Aof). x.1) w) (write_locked-IsDurable c n.aof d)
Step-IsDurable (forget n now k e l x) d = d
Step-IsDurable (begin n snap a p b) d = rewrite_begin-IsDurable n.store n.aof snap a b d
Step-IsDurable (finish n now snap outcome p) d = rewrite_finish-IsDurable now snap outcome n.aof d

-- With the policy `always`, from a log that was on the disk, however commands, deletions of expired
-- keys and rewrites interleave, and however each rewrite ends, all that the log holds has been forced to
-- the disk.
pub Reach-IsDurable :
    (m : Node) {cs : List Command} (n : Node) → IsDurable m.aof → Reach m cs n → IsDurable n.aof
Reach-IsDurable m n d here = d
Reach-IsDurable m n d (next {m = t} r st) = Step-IsDurable st (Reach-IsDurable m t d r)
