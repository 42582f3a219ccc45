-- ===== src/Store/Tracking/Sampling.antt =====
-- store/store.go: the set `expiryKeys`, under the sampler.
use redis_glass.Prelude.{
  ℕ, zero, suc, ◌≡◌, refl, true, false, Option, none, some, List, [], ◌∷◌, arith, Bytes,
  bytes_eq_iff, lookup, dict_laws, ℤ, if-second, if-keeps, length, ◌==◌,
}
use redis_glass.Store.{Entry, Store, is_expired}
use redis_glass.Store.Sampler.{
  sample_size, max_rounds_per_tick, sample_found, sample_loop, sample_rounds, sample_expire,
}
use redis_glass.Store.Tracking.{TracksExpiry, delete_expired-TracksExpiry}

pub sample_found-TracksExpiry :
    (now : ℤ) (k : Bytes) (o : Option Entry) (s : Store)
    → lookup k s.strings ≡ o
    → TracksExpiry s
    → TracksExpiry (sample_found now k o s).1
unfolding sample_found
sample_found-TracksExpiry now k none s e h = record {
  at = λ j. simp dict_laws (ground (arith, h.at j, e, bytes_eq_iff k j));
}
sample_found-TracksExpiry now k (some x) s e h =
    if-second TracksExpiry (is_expired now x) (true, _) (false, s)
      (delete_expired-TracksExpiry k s h) h

pub sample_loop-TracksExpiry :
    (room : ℕ) (now : ℤ) (order : List Bytes) (s : Store)
    → TracksExpiry s
    → TracksExpiry (sample_loop room now order s).2
unfolding sample_loop
sample_loop-TracksExpiry zero now order s h = h
sample_loop-TracksExpiry (suc room) now [] s h = h
sample_loop-TracksExpiry (suc room) now (k ∷ order) s h =
    sample_loop-TracksExpiry room now order _
      (sample_found-TracksExpiry now k (lookup k s.strings) s refl h)

module _ (clock : ℕ → ℤ) (order : ℕ → Store → List Bytes) where
  sample_rounds-TracksExpiry :
      (r : ℕ) (s : Store) → TracksExpiry s → TracksExpiry (sample_rounds clock order r s)
  unfolding sample_rounds
  sample_rounds-TracksExpiry zero s h = h
  sample_rounds-TracksExpiry (suc r) s h =
      let h' = sample_loop-TracksExpiry sample_size (clock r) (order r s) s h in
      if-keeps TracksExpiry (length s.expiry_keys == 0) s _ h
        (if-keeps TracksExpiry _ _ _ h' (sample_rounds-TracksExpiry r _ h'))

  pub sample_expire-TracksExpiry :
      (s : Store) → TracksExpiry s → TracksExpiry (sample_expire clock order s)
  unfolding sample_expire
  sample_expire-TracksExpiry s h = sample_rounds-TracksExpiry max_rounds_per_tick s h
