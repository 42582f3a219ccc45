-- ===== src/Aof/Compaction/Restores.antt =====
-- store/aof.go: the state that a replay of the rewritten log makes.
use redis_glass.Prelude.{
  ℕ, suc, ◌+◌, ◌-◌, ◌≡◌, refl, sym, ap, ◌∙◌, [], ◌++◌, append-nil, length, All, Bytes, lookup, ℤ,
  pos, leb_ℤ,
}
use mathlib.Core.Path.{subst}
use redis_glass.Resp
use redis_glass.Store.{Store, new}
use redis_glass.Store.Distinct.{IsMapped}
use redis_glass.Store.Lists.{list_at}
use redis_glass.Store.Hashes.{hash_at, hget}
use redis_glass.Aof.{encode_log, done, replay}
use redis_glass.Aof.Snapshot.{
  string_commands, list_commands, hash_commands, snapshot_commands, write_snapshot,
}
use redis_glass.Aof.Replay.{FitsCommand, run_log, parse-nil, replay-encode_log}
use redis_glass.Aof.Compaction.{or_else-none, IsUnlimited, run_log-append}
use redis_glass.Aof.Compaction.Lists.{push_lists, run_log-list_commands, lookup-push_lists}
use redis_glass.Aof.Compaction.Hashes.{
  put_hashes, run_log-hash_commands, lookup-put_hashes, lookup-with_fields,
}
use redis_glass.Aof.Compaction.Strings.{
  restored, put_strings, run_log-string_commands, put_strings-same, lookup-put_strings,
}

-- A state shows what another held when it was written: each list and each field of a hash, and each
-- string key with the rest of its lifetime, counted from a moment of the replay (see `restored`).
pub record Restores (now : ℤ) (clock : ℕ → ℤ) (snap s : Store) : Type 0 where
  pub list : (k : Bytes) → list_at k s ≡ list_at k snap
  pub field : (k f : Bytes) → hget k f s ≡ hget k f snap
  pub string :
      (k : Bytes) → (i : ℕ) × (lookup k s.strings ≡ restored now (clock i) (lookup k snap.strings))

-- What the commands of a snapshot make of a state without limit.
rebuilt : ℕ → (ℕ → ℤ) → ℤ → Store → Store → Store
rebuilt n clock now snap s =
    let lists = list_commands snap.lists in
    let hashes = hash_commands snap.hashes in
    let s' = put_strings (length (lists ++ hashes) + n) clock now snap.strings s in
    record s' { lists = push_lists snap.lists s'.lists; hashes = put_hashes snap.hashes s'.hashes }

run_log-snapshot :
    (n : ℕ) (clock : ℕ → ℤ) (now : ℤ) (snap s : Store)
    → IsUnlimited s
    → run_log n clock (snapshot_commands now snap) s ≡ rebuilt n clock now snap s
unfolding snapshot_commands rebuilt
run_log-snapshot n clock now snap s u =
    let lists = list_commands snap.lists in
    let hashes = hash_commands snap.hashes in
    let k = length (lists ++ hashes) + n in
    let s' = put_strings k clock now snap.strings s in
    let same = put_strings-same k clock now snap.strings s in
    let free = ap (λ z. leb_ℤ z (pos 0)) same.2 ∙ u in
    run_log-append n clock (string_commands now snap.strings) (lists ++ hashes) s
    ∙ ap (run_log n clock (lists ++ hashes)) (run_log-string_commands k clock now snap.strings s u)
    ∙ run_log-append n clock lists hashes s'
    ∙ ap (run_log n clock hashes)
        (run_log-list_commands (length hashes + n) clock snap.lists s' free)
    ∙ run_log-hash_commands n clock snap.hashes _ free

rebuilt-Restores :
    (n : ℕ) (clock : ℕ → ℤ) (now : ℤ) (snap : Store)
    → IsMapped snap
    → Restores now clock snap (rebuilt n clock now snap new)
unfolding rebuilt hget lookup
rebuilt-Restores n clock now snap m =
    let k = length (list_commands snap.lists ++ hash_commands snap.hashes) + n in
    let same = put_strings-same k clock now snap.strings new in
    record {
      list = λ j. lookup-push_lists j snap.lists _ m.lists ∙ rw same.0 refl;
      field = λ j f.
          ap (lookup f) (lookup-put_hashes j snap.hashes _ m.hashes ∙ rw same.1 refl)
          ∙ lookup-with_fields f (hash_at j snap) [] (m.fields j)
          ∙ or_else-none _;
      string = λ j.
          let (i, e) = lookup-put_strings k clock now j snap.strings new m.strings in
          (i, e ∙ or_else-none _);
    }

pub run_log-Restores :
    (n : ℕ) (clock : ℕ → ℤ) (now : ℤ) (snap : Store)
    → IsMapped snap
    → Restores now clock snap (run_log n clock (snapshot_commands now snap) new)
run_log-Restores n clock now snap m =
    subst (Restores now clock snap) (sym (run_log-snapshot n clock now snap new refl))
      (rebuilt-Restores n clock now snap m)

-- The log that a rewrite writes for a state, replayed at any later times by a server that starts empty
-- and without a memory limit, gives a state with the same lists, the same fields in each hash, and
-- each string key with the whole milliseconds of its lifetime that were left, or without an expiry where
-- less than one was left; a key whose lifetime was over is gone. The run-time has to be able to allocate
-- each command.
pub replay-write_snapshot :
    (clock : ℕ → ℤ) (now : ℤ) (snap : Store)
    → IsMapped snap
    → All FitsCommand (snapshot_commands now snap)
    → (s : Store) × (replay clock (write_snapshot now snap) new ≡ done s)
      × Restores now clock snap s
unfolding write_snapshot
replay-write_snapshot clock now snap m fits =
    let cs = snapshot_commands now snap in
    let log = encode_log cs in
    let n = suc (length (log ++ [])) - length cs in
    (
      rebuilt n clock now snap new,
      ap (λ l. replay clock l new) (sym (append-nil log))
          ∙ replay-encode_log clock cs [] new Resp.eof fits parse-nil
          ∙ ap done (run_log-snapshot n clock now snap new refl),
      rebuilt-Restores n clock now snap m,
    )
