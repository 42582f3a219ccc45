-- ===== src/Store/Keys/Paging.antt =====
-- A client that follows the cursors of `SCAN` from 0 back to 0 over an unchanged store.
use redis_glass.Prelude.{
  ℕ, zero, suc, ◌+◌, ◌-◌, ◌≤◌, ◌<◌, ◌≡◌, refl, sym, ap, ◌∙◌, Bool, Option, none, some, List, [],
  ◌∷◌, ◌++◌, arith, length, take, drop, length-drop, take-append-drop, Bytes, ℤ, pos, negsuc, ◌+ℤ◌,
  int_laws, lt→ltb, ltb→lt, ltb→le, wrap, wrap_id, two_63, two_64, ltb, if◌then◌else◌, Bool-cases,
  inl, inr,
}
use redis_glass.Store.{Store}
use redis_glass.Store.Keys.{
  match_glob, filter, all_keys, Scanned, page, panic, count_of, cut_page, scan_from, scan,
}

filter-append {ℓ} :
    {A : Type ℓ} (p : A → Bool) (xs ys : List A) → filter p (xs ++ ys) ≡ filter p xs ++ filter p ys
unfolding filter
filter-append p [] ys = refl
filter-append p (x ∷ xs) ys = ground (arith, filter-append p xs ys)

take_all {ℓ} : {A : Type ℓ} (n : ℕ) (xs : List A) → length xs ≤ n → take n xs ≡ xs
take_all zero [] h = refl
take_all zero (x ∷ xs) h = absurd (omega arith)
take_all (suc n) [] h = refl
take_all (suc n) (x ∷ xs) h = ap (λ l. x ∷ l) (take_all n xs (omega arith))

drop-nil {ℓ} : {A : Type ℓ} (n : ℕ) → drop {A = A} n [] ≡ []
drop-nil zero = refl
drop-nil (suc n) = refl

suc_add : (m n : ℕ) → suc m + n ≡ suc (m + n)
suc_add m n = omega arith

drop-add {ℓ} : {A : Type ℓ} (m n : ℕ) (xs : List A) → drop (m + n) xs ≡ drop n (drop m xs)
drop-add zero n xs = ap (λ k. drop k xs) (omega arith)
drop-add (suc m) n [] = drop-nil (suc m + n) ∙ sym (drop-nil n)
drop-add (suc m) n (x ∷ xs) = ap (λ k. drop k (x ∷ xs)) (suc_add m n) ∙ drop-add m n xs

abbrev append_page : List Bytes → Option (List Bytes) → Option (List Bytes)
append_page ks none = none
append_page ks (some rest) = some (ks ++ rest)

-- What a client does with a reply: it goes on from the next cursor until that is 0.
follow : (ℕ → Option (List Bytes)) → Scanned → Option (List Bytes)
follow go panic = none
follow go (page zero ks) = some ks
follow go (page (suc next) ks) = append_page ks (go (suc next))

-- The keys of the pages from a cursor on, and nothing where a call panics or the fuel runs out.
pub collect : ℕ → ℤ → Store → Bytes → ℕ → ℕ → Option (List Bytes)
unfolding follow
collect zero now s pattern count c = none
collect (suc f) now s pattern count c =
    follow (collect f now s pattern count) (scan now (pos c) pattern (pos count) s)

sum_fits :
    (c count : ℕ)
    → 0 < count
    → c + count < two_63
    → wrap (pos c +ℤ count_of (pos count)) ≡ pos (c + count)
sum_fits c count h k =
    let e : count_of (pos count) ≡ pos count = ground arith in
    let sum : pos c +ℤ pos count ≡ pos (c + count) = omega int_laws in
    rw (e, sum) (wrap_id (pos (c + count)) (omega arith))

abbrev end_of : ℕ → ℕ → ℕ
end_of n e = if ltb n e then n else e

take_end :
    (all : List Bytes) (c count : ℕ)
    → c < length all
    → take (end_of (length all) (c + count) - c) (drop c all) ≡ take count (drop c all)
take_end all c count h = elim (Bool-cases (ltb (length all) (c + count))) [
  | inl past ↦
      let lt = ltb→lt (length all) (c + count) past in
      let n = length-drop c all in
      rw past (
        take_all (length all - c) (drop c all) (omega arith)
        ∙ sym (take_all count (drop c all) (omega arith)))
  | inr inside ↦ rw inside (ap (λ k. take k (drop c all)) (omega arith))
]

-- The page behind a cursor inside the list.
scan_page :
    (all : List Bytes) (pattern : Bytes) (c count : ℕ)
    → c < length all
    → 0 < count
    → c + count < two_63
    → scan_from (pos c) pattern (pos count) all
      ≡ page
          (if ltb (c + count) (length all) then c + count else 0)
          (filter (match_glob pattern) (take count (drop c all)))
unfolding scan_from cut_page
scan_page all pattern c count h k fits =
    rw (lt→ltb c (length all) h, sum_fits c count k fits) (ground (arith, take_end all c count h))

zero_or_suc : (n : ℕ) → 0 < n → (m : ℕ) × (n ≡ suc m)
zero_or_suc n h = (n - 1, omega arith)

follow_more :
    (go : ℕ → Option (List Bytes)) (next : ℕ) (ks : List Bytes)
    → 0 < next
    → follow go (page next ks) ≡ append_page ks (go next)
unfolding follow
follow_more go zero ks h = absurd (omega arith)
follow_more go (suc next) ks h = refl

pages_join :
    (p : Bytes → Bool) (c count : ℕ) (all : List Bytes)
    → filter p (take count (drop c all)) ++ filter p (drop (c + count) all) ≡ filter p (drop c all)
pages_join p c count all = rw drop-add (
    sym (filter-append p (take count (drop c all)) _)
    ∙ ap (filter p) (take-append-drop count (drop c all)))

filter_empty : (p : Bytes → Bool) (xs : List Bytes) → length xs ≤ 0 → filter p xs ≡ []
unfolding filter
filter_empty p [] h = refl
filter_empty p (x ∷ xs) h = absurd (omega arith)

-- Behind a cursor inside the list, a client gets what matches in the rest of the list.
collect_from :
    (f : ℕ) (now : ℤ) (s : Store) (pattern : Bytes) (count c : ℕ)
    → 0 < count
    → length (all_keys now s) + count < two_63
    → c < length (all_keys now s)
    → length (all_keys now s) ≤ c + f
    → collect f now s pattern count c ≡ some (filter (match_glob pattern) (drop c (all_keys now s)))
unfolding collect scan
collect_from zero now s pattern count c k fits h enough = absurd (omega arith)
collect_from (suc f) now s pattern count c k fits h enough =
    let all = all_keys now s in
    rw (scan_page all pattern c count h k (omega arith))
      (elim (Bool-cases (ltb (c + count) (length all))) [
        | inl more ↦
            let lt = ltb→lt (c + count) (length all) more in
            let (m, e) = zero_or_suc (c + count) (omega arith) in
            let ih = collect_from f now s pattern count (c + count) k fits lt (omega arith) in
            rw more (
              follow_more (collect f now s pattern count) (c + count) _ (omega arith)
              ∙ ap (append_page _) ih
              ∙ ap some (pages_join (match_glob pattern) c count all))
        | inr last ↦
            let le = ltb→le (c + count) (length all) last in
            let n = length-drop c all in rw (last, take_all count (drop c all) (omega arith))
      ])

-- A client that follows the cursors of `SCAN` over an unchanged store, at one time and with one
-- positive count whose sum with the number of keys is below 2^63, comes to the end, and has then got
-- the matching ones of the keys that `SCAN` walks, in order.
pub collect_all :
    (now : ℤ) (s : Store) (pattern : Bytes) (count : ℕ)
    → 0 < count
    → length (all_keys now s) + count < two_63
    → collect (suc (length (all_keys now s))) now s pattern count 0
      ≡ some (filter (match_glob pattern) (all_keys now s))
collect_all now s pattern count k fits = elim (Bool-cases (ltb 0 (length (all_keys now s)))) [
  | inl some_key ↦
      collect_from (suc (length (all_keys now s))) now s pattern count 0 k fits
        (ltb→lt 0 _ some_key) (omega arith)
  | inr no_key ↦
      unfold collect scan scan_from in
      rw no_key
        (ap some (sym (filter_empty (match_glob pattern) (all_keys now s) (ltb→le 0 _ no_key))))
]

wrap_high : (n : ℕ) → two_63 ≤ n → n < two_64 → wrap (pos n) ≡ negsuc (two_64 - 1 - n)
unfolding wrap
wrap_high n h k = ground arith

sum_wraps :
    (c count : ℕ)
    → c < two_63
    → count < two_63
    → two_63 ≤ c + count
    → wrap (pos c +ℤ count_of (pos count)) ≡ negsuc (two_64 - 1 - (c + count))
sum_wraps c count h k over =
    let e : count_of (pos count) ≡ pos count = ground arith in
    let sum : pos c +ℤ pos count ≡ pos (c + count) = omega int_laws in
    rw (e, sum) (wrap_high (c + count) over (omega arith))

-- For a cursor and a count that fit in 64 bits but whose sum does not, `Scan` panics if the cursor is
-- inside the list of keys.
pub scan_panics :
    (now : ℤ) (s : Store) (pattern : Bytes) (c count : ℕ)
    → c < length (all_keys now s)
    → c < two_63
    → count < two_63
    → two_63 ≤ c + count
    → scan now (pos c) pattern (pos count) s ≡ panic
unfolding scan scan_from cut_page
scan_panics now s pattern c count h fits k over =
    rw (lt→ltb c (length (all_keys now s)) h, sum_wraps c count fits k over)
