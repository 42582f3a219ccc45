-- ===== src/Aof/Node.antt =====
-- store/aof.go: commands that succeed and are logged, deletions of expired keys and rewrites, in any
-- order, and what it means for the log file to be exact. Two things are no steps here: a command whose
-- entry the log refuses (a rewrite that failed has closed the file), and the deletion of a key that a
-- `Set` has replaced between the two locks of a `Get`.
use redis_glass.Prelude.{
  ◌≡◌, Bool, codes, bytes_eq, if◌then◌else◌, true, false, Option, none, some, List, [], ◌∷◌, ◌++◌,
  Bytes, lookup, ℤ,
}
use redis_glass.Store.{Entry, Store, ok, is_expired, delete_expired}
use redis_glass.Aof.{Command, encode_log, replay_command}
use redis_glass.Aof.Snapshot.{write_snapshot}
use redis_glass.Aof.Rewrite.{Aof, Outcome, write_locked, rewrite_begin, rewrite_finish}

-- The server's data, and the snapshot that a running rewrite is writing out.
pub record Node : Type 0 where
  pub store : Store
  pub aof : Aof
  pub pending : Option Store

abbrev is_stored : Option Entry → Bool
is_stored none = false
is_stored (some e) = true

abbrev first_is_stored : List Bytes → Store → Bool
first_is_stored [] s = false
first_is_stored (k ∷ ks) s = is_stored (lookup k s.strings)

-- Whether a command has what it acts on: EXPIRE asks that its key is stored (otherwise it replies 0,
-- and is `errSkipAOFLog`), and no other command asks for anything.
unfoldable pub has_target : Command → Store → Bool
has_target (cmd, args) s = if bytes_eq cmd (codes "EXPIRE") then first_is_stored args s else true

-- One step of the node. A command mutates the store and is logged in one critical section
-- (`mutateAndLog`); a reader or the sampler may delete an expired key at any time. A step is labelled with
-- the command that it logs.
pub data Step : Node → List Command → Node → Type 0 where
  command :
      (n : Node) (now : ℤ) (c : Command) (s : Store) (a : Aof)
      → replay_command now c n.store ≡ (ok tt, s)
      → has_target c n.store ≡ true
      → write_locked c n.aof ≡ (true, a)
      → Step n (c ∷ []) (record n { store = s; aof = a })
  forget :
      (n : Node) (now : ℤ) (k : Bytes) (e : Entry)
      → lookup k n.store.strings ≡ some e
      → is_expired now e ≡ true
      → Step n [] (record n { store = delete_expired k n.store })
  begin :
      (n : Node) (snap : Store) (a : Aof)
      → n.pending ≡ none
      → rewrite_begin n.store n.aof ≡ some (snap, a)
      → Step n [] (record n { aof = a; pending = some snap })
  finish :
      (n : Node) (now : ℤ) (snap : Store) (outcome : Outcome)
      → n.pending ≡ some snap
      → Step n [] (record n { aof = rewrite_finish now snap outcome n.aof; pending = none })

-- A run of the node, with the commands that it has logged, in order.
pub data Reach (start : Node) : List Command → Node → Type 0 where
  here : Reach start [] start
  next :
      {m n : Node} {cs ds : List Command}
      → Reach start cs m
      → Step m ds n
      → Reach start (cs ++ ds) n

-- The last commands of a sequence.
pub record EndsWith (total cs : List Command) : Type 0 where
  pub earlier : List Command
  pub whole : total ≡ earlier ++ cs

-- From one state of the store to another by these commands, each of them once and in this order, each
-- succeeding and having its target where it is run, with deletions of expired keys anywhere between.
pub data Run (s : Store) : List Command → Store → Type 0 where
  start : Run s [] s
  ran :
      {cs : List Command} {t : Store} (now : ℤ) (c : Command) (u : Store)
      → Run s cs t
      → replay_command now c t ≡ (ok tt, u)
      → has_target c t ≡ true
      → Run s (cs ++ c ∷ []) u
  lapse :
      {cs : List Command} {t : Store} (now : ℤ) (k : Bytes) (e : Entry)
      → Run s cs t
      → lookup k t.strings ≡ some e
      → is_expired now e ≡ true
      → Run s cs (delete_expired k t)

-- The front of the file and the state that it stands for: what the file held at the start, or the
-- snapshot that a rewrite has written.
module _ (file : Bytes) (loaded : Store) where
  pub data Image : Bytes → Store → Type 0 where
    as_loaded : Image file loaded
    rewritten : (now : ℤ) (s : Store) → Image (write_snapshot now s) s

  -- The commands since the snapshot that a running rewrite took, and its buffer.
  pub data Mirrored (total : List Command) (n : Node) : Option Store → Type 0 where
    idle : n.aof.rewriting ≡ false → Mirrored total n none
    running :
        (snap : Store) (cs : List Command)
        → n.aof.rewriting ≡ true
        → n.aof.rewrite_buf ≡ encode_log cs
        → Run snap cs n.store
        → EndsWith total cs
        → Mirrored total n (some snap)

  -- The file is an image of some state with the log of the last ones of the commands that were logged,
  -- which lead from that state to the present one.
  pub record IsExact (total : List Command) (n : Node) : Type 0 where
    pub base : Store
    pub image : Bytes
    pub cmds : List Command
    pub is_image : Image image base
    pub on_file : n.aof.file ≡ image ++ encode_log cmds
    pub run : Run base cmds n.store
    pub recent : EndsWith total cmds
    pub mirrored : Mirrored total n n.pending
