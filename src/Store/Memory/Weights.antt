-- ===== src/Store/Memory/Weights.antt =====
-- The weight of a dictionary under a write and a delete.
use redis_glass.Prelude.{
  ℕ, ◌+◌, ◌≤◌, ◌≡◌, Option, none, some, List, [], ◌∷◌, ◌++◌, arith, length, Bytes, bytes_eq, Dict,
  lookup, insert, delete, Bool-cases, inl, inr,
}
use redis_glass.Store.{weigh, sum_len}

abbrev pub held {ℓ} : {V : Type ℓ} → (V → ℕ) → Option V → ℕ
held w none = 0
held w (some v) = w v

module _ {ℓ} {V : Type ℓ} (w : V → ℕ) where
  pub weigh-insert-le :
      (k : Bytes) (v : V) (m : Dict V)
      → weigh w (insert k v m) + held w (lookup k m) ≤ weigh w m + (length k + w v)
  unfolding weigh insert lookup
  weigh-insert-le k v [] = omega arith
  weigh-insert-le k v ((j, x) ∷ m) = elim (Bool-cases (bytes_eq j k)) [
    | inl e ↦ rw e (omega arith)
    | inr e ↦ rw e (omega (arith, weigh-insert-le k v m))
  ]

  pub weigh-insert-some :
      (k : Bytes) (v x : V) (m : Dict V)
      → lookup k m ≡ some x
      → weigh w (insert k v m) + w x ≡ weigh w m + w v
  unfolding weigh insert lookup
  weigh-insert-some k v x [] h = cc
  weigh-insert-some k v x ((j, y) ∷ m) h = elim (Bool-cases (bytes_eq j k)) [
    | inl e ↦ ground arith
    | inr e ↦ let ih = weigh-insert-some k v x m (rw e at h) in rw e (omega arith)
  ]

  pub weigh-delete-le : (k : Bytes) (m : Dict V) → weigh w (delete k m) ≤ weigh w m
  unfolding weigh delete
  weigh-delete-le k [] = omega arith
  weigh-delete-le k ((j, x) ∷ m) = elim (Bool-cases (bytes_eq j k)) [
    | inl e ↦ rw e (omega (arith, weigh-delete-le k m))
    | inr e ↦ rw e (omega (arith, weigh-delete-le k m))
  ]

pub sum_len-append : (xs ys : List Bytes) → sum_len (xs ++ ys) ≡ sum_len xs + sum_len ys
unfolding sum_len
sum_len-append [] ys = omega arith
sum_len-append (x ∷ xs) ys = omega (arith, sum_len-append xs ys)
