-- ===== src/Store/Sampler.antt =====
-- store/store.go: `sampleExpire`, the active expiry of one tick.
pub mod Invisible
use redis_glass.Prelude.{
  ℕ, zero, suc, ◌+◌, ◌*◌, Bool, true, false, ◌||◌, Option, none, some, List, [], ◌∷◌, length, Bytes,
  Dict, lookup, delete, ℤ, ltb, ◌==◌, if◌then◌else◌,
}
use redis_glass.Store.{Entry, Store, is_expired, delete_expired, tally}

abbrev pub sample_size : ℕ
sample_size = 20

abbrev pub max_rounds_per_tick : ℕ
max_rounds_per_tick = 10

-- The body of the loop over the sample; the flag says whether the key was due.
unfoldable pub sample_found : ℤ → Bytes → Option Entry → Store → Bool × Store
unfolding is_expired delete_expired
sample_found now k none s = (false, record s { expiry_keys = delete k s.expiry_keys })
sample_found now k (some e) s = if is_expired now e then (true, delete_expired k s) else (false, s)

unfoldable pub sample_key : ℤ → Bytes → Store → Bool × Store
unfolding sample_found
sample_key now k s = sample_found now k (lookup k s.strings) s

-- `order` is the order in which the run-time iterates over `expiryKeys`. The results are
-- `sampled`, `expired` and the state; the first argument is the room left in the sample.
unfoldable pub sample_loop : ℕ → ℤ → List Bytes → Store → ℕ × ℕ × Store
unfolding sample_key
sample_loop zero now order s = (0, 0, s)
sample_loop (suc room) now [] s = (0, 0, s)
sample_loop (suc room) now (k ∷ order) s =
    let (due, s') = sample_key now k s in
    let (sampled, expired, s'') = sample_loop room now order s' in
    (suc sampled, tally due expired, s'')

-- `sampled == 0 || float64(expired)/float64(sampled) < 0.25`; the sample is small, so the quotient
-- compares as the product does.
abbrev few : ℕ → ℕ → Bool
few sampled expired = sampled == 0 || ltb (4 * expired) sampled

-- The clock and the order of iteration in each round, by the number of rounds left.
module _ (clock : ℕ → ℤ) (order : ℕ → Store → List Bytes) where
  unfoldable pub sample_rounds : ℕ → Store → Store
  unfolding sample_loop
  sample_rounds zero s = s
  sample_rounds (suc r) s =
      let (sampled, expired, s') = sample_loop sample_size (clock r) (order r s) s in
      let again = sample_rounds r s' in
      if length s.expiry_keys == 0 then s else if few sampled expired then s' else again

  unfoldable pub sample_expire : Store → Store
  unfolding sample_rounds
  sample_expire = sample_rounds max_rounds_per_tick
