-- ===== src/System/Ticks.antt =====
-- store/store.go: `sampleExpire`, as steps of a node.
use redis_glass.Prelude.{
  ℕ, zero, suc, ◌≡◌, refl, sym, ap, ◌∙◌, Option, none, some, List, [], ◌∷◌, Bytes, ℤ, lookup,
  delete_absent, Bool-cases, inl, inr, length, ◌==◌, if-keeps,
}
use mathlib.Core.Path.{subst}
use redis_glass.Store.{Entry, Store, is_expired}
use redis_glass.Store.Sampler.{
  sample_size, max_rounds_per_tick, sample_found, sample_loop, sample_rounds, sample_expire,
}
use redis_glass.Store.Tracking.{TracksExpiry, tracked}
use redis_glass.Store.Tracking.Sampling.{sample_found-TracksExpiry, sample_loop-TracksExpiry}
use redis_glass.Aof.Rewrite.{Aof}
use redis_glass.Aof.Node.{forget, here, next}
use redis_glass.System.Log.{node}
use redis_glass.System.Reads.{Reach-trans, PathTo}

module _ (a : Aof) (pending : Option Store) where
  -- A key that is not there is not tracked, so that its deletion from the set does nothing.
  sample_found_path :
      (now : ℤ) (k : Bytes) (o : Option Entry) (s : Store)
      → lookup k s.strings ≡ o
      → TracksExpiry s
      → PathTo a pending s (sample_found now k o s).1
  unfolding sample_found
  sample_found_path now k none s e h =
      subst (PathTo a pending s)
        (sym (
          ap (λ m. record s { expiry_keys = m })
            (delete_absent k s.expiry_keys (h.at k ∙ ap tracked e))))
        here
  sample_found_path now k (some x) s e h = elim (Bool-cases (is_expired now x)) [
    | inl old ↦ rw old (next here (forget (node s a pending) now k x e old))
    | inr fresh ↦ rw fresh here
  ]

  sample_loop_path :
      (room : ℕ) (now : ℤ) (order : List Bytes) (s : Store)
      → TracksExpiry s
      → PathTo a pending s (sample_loop room now order s).2
  unfolding sample_loop
  sample_loop_path zero now order s h = here
  sample_loop_path (suc room) now [] s h = here
  sample_loop_path (suc room) now (k ∷ order) s h =
      Reach-trans (node s a pending) (node (sample_found now k (lookup k s.strings) s).1 a pending)
        _ (sample_found_path now k (lookup k s.strings) s refl h)
        (sample_loop_path room now order _ (sample_found-TracksExpiry now k _ s refl h))

  module _ (clock : ℕ → ℤ) (order : ℕ → Store → List Bytes) where
    sample_rounds_path :
        (r : ℕ) (s : Store) → TracksExpiry s → PathTo a pending s (sample_rounds clock order r s)
    unfolding sample_rounds
    sample_rounds_path zero s h = here
    sample_rounds_path (suc r) s h =
        let first = sample_loop_path sample_size (clock r) (order r s) s h in
        let tracks = sample_loop-TracksExpiry sample_size (clock r) (order r s) s h in
        if-keeps (PathTo a pending s) (length s.expiry_keys == 0) s _ here (
          if-keeps (PathTo a pending s) _ _ _ first (
            Reach-trans (node s a pending) (node _ a pending) _ first
              (sample_rounds_path r _ tracks)))

    pub sample_expire_path :
        (s : Store) → TracksExpiry s → PathTo a pending s (sample_expire clock order s)
    unfolding sample_expire
    sample_expire_path s h = sample_rounds_path max_rounds_per_tick s h
