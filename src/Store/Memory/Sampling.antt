-- ===== src/Store/Memory/Sampling.antt =====
-- store/store.go: the memory ceiling under the sampler.
use redis_glass.Prelude.{
  true, false, ℕ, zero, suc, Option, none, some, List, [], ◌∷◌, Bytes, length, lookup, ℤ, ◌==◌,
  if-second, if-keeps,
}
use redis_glass.Store.{Entry, Store, approx_memory, is_expired}
use redis_glass.Store.Memory.{IsWithinLimit, delete_expired-IsWithinLimit}
use redis_glass.Store.Sampler.{
  sample_size, max_rounds_per_tick, sample_found, sample_key, sample_loop, sample_rounds,
  sample_expire,
}

sample_found-IsWithinLimit :
    (now : ℤ) (k : Bytes) (o : Option Entry) (s : Store)
    → IsWithinLimit s
    → IsWithinLimit (sample_found now k o s).1
unfolding sample_found approx_memory
sample_found-IsWithinLimit now k none s h = h
sample_found-IsWithinLimit now k (some x) s h =
    if-second IsWithinLimit (is_expired now x) (true, _) (false, s)
      (delete_expired-IsWithinLimit k s h) h

sample_loop-IsWithinLimit :
    (room : ℕ) (now : ℤ) (order : List Bytes) (s : Store)
    → IsWithinLimit s
    → IsWithinLimit (sample_loop room now order s).2
unfolding sample_loop
sample_loop-IsWithinLimit zero now order s h = h
sample_loop-IsWithinLimit (suc room) now [] s h = h
sample_loop-IsWithinLimit (suc room) now (k ∷ order) s h =
    sample_loop-IsWithinLimit room now order _
      (unfold sample_key in sample_found-IsWithinLimit now k (lookup k s.strings) s h)

module _ (clock : ℕ → ℤ) (order : ℕ → Store → List Bytes) where
  sample_rounds-IsWithinLimit :
      (r : ℕ) (s : Store) → IsWithinLimit s → IsWithinLimit (sample_rounds clock order r s)
  unfolding sample_rounds
  sample_rounds-IsWithinLimit zero s h = h
  sample_rounds-IsWithinLimit (suc r) s h =
      let h' = sample_loop-IsWithinLimit sample_size (clock r) (order r s) s h in
      if-keeps IsWithinLimit (length s.expiry_keys == 0) s _ h
        (if-keeps IsWithinLimit _ _ _ h' (sample_rounds-IsWithinLimit r _ h'))

  pub sample_expire-IsWithinLimit :
      (s : Store) → IsWithinLimit s → IsWithinLimit (sample_expire clock order s)
  unfolding sample_expire
  sample_expire-IsWithinLimit s h = sample_rounds-IsWithinLimit max_rounds_per_tick s h
