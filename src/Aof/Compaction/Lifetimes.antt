-- ===== src/Aof/Compaction/Lifetimes.antt =====
-- store/aof.go: `writeSnapshot`, at a key with less than a millisecond to live.
use redis_glass.Prelude.{
  ◌≡◌, ◌<◌, ◌∙◌, arith, none, some, All, Bytes, ℕ, ℤ, pos, pos_part, leb_ℤ, false, ◌+ℤ◌, ◌<ℤ◌,
  lookup, -ℤ_parts, +ℤ_parts, zero,
}
use redis_glass.Store.{Store, new, millisecond, time_sub}
use redis_glass.Store.Distinct.{IsMapped}
use redis_glass.Aof.{replay, done}
use redis_glass.Aof.Snapshot.{snapshot_commands, write_snapshot}
use redis_glass.Aof.Replay.{FitsCommand}
use redis_glass.Aof.Compaction.Strings.{rest_of, restored_entry, restored}
use redis_glass.Aof.Compaction.Restores.{replay-write_snapshot}

-- An expiry that lies less than a millisecond ahead leaves a lifetime, but no whole millisecond.
time_sub-near :
    (t now : ℤ)
    → now <ℤ t
    → t <ℤ now +ℤ pos millisecond
    → (leb_ℤ (time_sub t now) (pos 0) ≡ false) × (rest_of t now ≡ zero)
unfolding time_sub rest_of
time_sub-near t now h k =
    let near : pos_part (time_sub t now) < millisecond =
      ground (arith, -ℤ_parts t now, +ℤ_parts now (pos millisecond)) in
    (ground (arith, -ℤ_parts t now, +ℤ_parts now (pos millisecond)), omega (arith, near))

short_lived :
    (now later t : ℤ) (v : Bytes)
    → now <ℤ t
    → t <ℤ now +ℤ pos millisecond
    → restored now later (some (record { value = v; expires_at = some t }))
      ≡ some (record { value = v; expires_at = none })
unfolding restored restored_entry
short_lived now later t v h k =
    let (alive, nothing) = time_sub-near t now h k in rw (alive, nothing)

-- A key that has less than a millisecond to live when a rewrite writes it out has no expiry at all once
-- the log is replayed, at whatever later times: the snapshot writes `PX 0`, which is a SET without an
-- expiry. The maps hold each key once, and the commands of the snapshot fit in memory.
pub expiry_dropped :
    (clock : ℕ → ℤ) (now t : ℤ) (k v : Bytes) (snap : Store)
    → IsMapped snap
    → All FitsCommand (snapshot_commands now snap)
    → lookup k snap.strings ≡ some (record { value = v; expires_at = some t })
    → now <ℤ t
    → t <ℤ now +ℤ pos millisecond
    → (s : Store) × (replay clock (write_snapshot now snap) new ≡ done s)
      × (lookup k s.strings ≡ some (record { value = v; expires_at = none }))
expiry_dropped clock now t k v snap m fits e h near =
    let (s, replayed, same) = replay-write_snapshot clock now snap m fits in
    let (i, restored_as) = same.string k in
    (s, replayed, restored_as ∙ rw e (short_lived now (clock i) t v h near))
