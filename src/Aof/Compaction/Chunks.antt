-- ===== src/Aof/Compaction/Chunks.antt =====
-- store/aof.go: the chunks of `writeSnapshot`.
use redis_glass.Prelude.{
  ℕ, zero, suc, ◌+◌, ◌%◌, ◌≤◌, ◌<◌, ◌≡◌, refl, ap, ◌∙◌, arith, List, [], ◌∷◌, ◌++◌, length,
  length-take, length-drop, take, drop, take-append-drop, All, Bytes,
}
use redis_glass.Aof.Snapshot.{chunks, chunked}

unfoldable pub concat : List (List Bytes) → List Bytes
concat [] = []
concat (c ∷ cs) = c ++ concat cs

concat-chunks : (f n : ℕ) (xs : List Bytes) → length xs ≤ f → concat (chunks f (suc n) xs) ≡ xs
unfolding chunks concat
concat-chunks zero n [] h = refl
concat-chunks zero n (x ∷ xs) h = absurd (omega arith)
concat-chunks (suc f) n [] h = refl
concat-chunks (suc f) n (x ∷ xs) h =
    ap (λ l. x ∷ (take n xs ++ l)) (concat-chunks f n (drop n xs) (omega (arith, length-drop n xs)))
    ∙ ap (λ l. x ∷ l) (take-append-drop n xs)

-- The chunks together are the list.
pub concat-chunked : (n : ℕ) (xs : List Bytes) → concat (chunked (suc n) xs) ≡ xs
unfolding chunked
concat-chunked n xs = concat-chunks (length xs) n xs (omega arith)

-- A chunk of a list of pairs: it holds one at least, and none of them is cut.
abbrev pub IsPaired : List Bytes → Type 0
IsPaired c = (0 < length c) × (length c % 2 ≡ 0)

take-IsPaired :
    (n : ℕ) (x y : Bytes) (xs : List Bytes)
    → length (x ∷ y ∷ xs) % 2 ≡ 0
    → IsPaired (take (suc n + suc n) (x ∷ y ∷ xs))
take-IsPaired n x y xs e = (
  omega (arith, length-take (suc n + suc n) (x ∷ y ∷ xs)),
  omega (arith, length-take (suc n + suc n) (x ∷ y ∷ xs)),
)

chunks-IsPaired :
    (f n : ℕ) (xs : List Bytes) → length xs % 2 ≡ 0 → All IsPaired (chunks f (suc n + suc n) xs)
unfolding chunks
chunks-IsPaired zero n xs e = tt
chunks-IsPaired (suc f) n [] e = tt
chunks-IsPaired (suc f) n (x ∷ []) e = absurd (omega arith)
chunks-IsPaired (suc f) n (x ∷ y ∷ xs) e = (
  take-IsPaired n x y xs e,
  chunks-IsPaired f n _ (omega (arith, length-drop (suc n + suc n) (x ∷ y ∷ xs))),
)

pub chunked-IsPaired :
    (n : ℕ) (xs : List Bytes) → length xs % 2 ≡ 0 → All IsPaired (chunked (suc n + suc n) xs)
unfolding chunked
chunked-IsPaired n xs e = chunks-IsPaired (length xs) n xs e

abbrev pub IsFilled : List Bytes → Type 0
IsFilled c = 0 < length c

chunks-IsFilled : (f n : ℕ) (xs : List Bytes) → All IsFilled (chunks f (suc n) xs)
unfolding chunks
chunks-IsFilled zero n xs = tt
chunks-IsFilled (suc f) n [] = tt
chunks-IsFilled (suc f) n (x ∷ xs) = (omega arith, chunks-IsFilled f n (drop n xs))

pub chunked-IsFilled : (n : ℕ) (xs : List Bytes) → All IsFilled (chunked (suc n) xs)
unfolding chunked
chunked-IsFilled n xs = chunks-IsFilled (length xs) n xs
