-- ===== src/Resp/Fuel.antt =====
-- resp/parser.go: the ends of `Parse`.
use native.Mathlib.Nat.{le_trans}
use redis_glass.Prelude.{
  ℕ, zero, suc, ◌+◌, ◌*◌, ◌≤◌, ◌<◌, Bool, true, false, Option, none, some, [], ◌∷◌, arith, length,
  take, drop, length-drop, Bytes, ends_with, ℤ, pos, negsuc, ◌==◌, ◌&&◌, ltb, if◌then◌else◌, atoi,
  inl, inr, Bool-cases,
}
use redis_glass.Resp.{
  cr, lf, Value, Parsed, ok, err, panic, malformed, eof, out_of_fuel, bind, push_byte, split_line,
  finish_line, read_line, close_bulk, read_full, max_alloc, value_size, parse_items, parse_bulk,
  parse_array, parse_number, parse_body, parse_fuel, parse,
}

-- The outcome is no lack of fuel, and leaves fewer than `n` bytes.
abbrev pub Shrinks {ℓ} : {A : Type ℓ} → ℕ → Parsed A → Type 0
Shrinks n (ok a rest) = length rest < n
Shrinks n (err malformed) = Unit
Shrinks n (err eof) = Unit
Shrinks n (err out_of_fuel) = ⊥
Shrinks n (panic rest) = length rest < n

Shrinks-bind {ℓ κ} :
    {A : Type ℓ} {B : Type κ} (n k : ℕ) (m : Parsed A) (g : A → Bytes → Parsed B)
    → n ≤ k
    → Shrinks n m
    → ((a : A) (rest : Bytes) → length rest < n → Shrinks k (g a rest))
    → Shrinks k (bind m g)
Shrinks-bind n k (ok a rest) g le h kg = kg a rest h
Shrinks-bind n k (err malformed) g le h kg = tt
Shrinks-bind n k (err eof) g le h kg = tt
Shrinks-bind n k (err out_of_fuel) g le h kg = h
Shrinks-bind n k (panic rest) g le h kg = le_trans h le

Shrinks-mono {ℓ} : {A : Type ℓ} (n k : ℕ) (m : Parsed A) → n ≤ k → Shrinks n m → Shrinks k m
Shrinks-mono n k (ok a rest) le h = le_trans h le
Shrinks-mono n k (err malformed) le h = tt
Shrinks-mono n k (err eof) le h = tt
Shrinks-mono n k (err out_of_fuel) le h = h
Shrinks-mono n k (panic rest) le h = le_trans h le

Shrinks-if {ℓ} :
    {A : Type ℓ} (n : ℕ) (b : Bool) (x y : Parsed A)
    → Shrinks n x
    → Shrinks n y
    → Shrinks n (if b then x else y)
Shrinks-if n true x y hx hy = hx
Shrinks-if n false x y hx hy = hy

abbrev ShortRest : ℕ → Option (Bytes × Bytes) → Type 0
ShortRest n none = Unit
ShortRest n (some (l, rest)) = length rest < n

push_byte-ShortRest :
    (n c : ℕ) (o : Option (Bytes × Bytes)) → ShortRest n o → ShortRest (suc n) (push_byte c o)
unfolding push_byte
push_byte-ShortRest n c none h = tt
push_byte-ShortRest n c (some (l, rest)) h = omega arith

split_line-ShortRest : (s : Bytes) → ShortRest (length s) (split_line s)
unfolding split_line
split_line-ShortRest [] = tt
split_line-ShortRest (c ∷ s) = elim (Bool-cases (c == lf)) [
  | inl e ↦ rw e (omega arith)
  | inr e ↦ rw e (push_byte-ShortRest (length s) c (split_line s) (split_line-ShortRest s))
]

finish_line-Shrinks :
    (n : ℕ) (o : Option (Bytes × Bytes)) → ShortRest n o → Shrinks n (finish_line o)
unfolding finish_line
finish_line-Shrinks n none h = tt
finish_line-Shrinks n (some (l, rest)) h = Shrinks-if n (ends_with l cr) _ _ h tt

read_line-Shrinks : (s : Bytes) → Shrinks (length s) (read_line s)
unfolding read_line
read_line-Shrinks s = finish_line-Shrinks (length s) (split_line s) (split_line-ShortRest s)

close_bulk-Shrinks : (body s : Bytes) (n : ℕ) → length s ≤ n → Shrinks (suc n) (close_bulk body s)
unfolding close_bulk
close_bulk-Shrinks body [] n h = tt
close_bulk-Shrinks body (c ∷ []) n h = tt
close_bulk-Shrinks body (c ∷ d ∷ rest) n h =
    Shrinks-if (suc n) (c == cr && d == lf) (ok body rest) (err malformed) (omega arith) tt

read_full-Shrinks : (n : ℕ) (s : Bytes) → Shrinks (suc (length s)) (read_full n s)
unfolding read_full
read_full-Shrinks n s =
    close_bulk-Shrinks (take n s) (drop n s) (length s) (omega (arith, length-drop n s))

-- What the recursive call keeps, on inputs of fewer than `f` bytes.
abbrev Good : ℕ → (Bytes → Parsed Value) → Type 0
Good f p = (s : Bytes) → length s < f → Shrinks (length s) (p s)

module _ (f : ℕ) (p : Bytes → Parsed Value) (good : Good f p) where
  parse_items-Shrinks :
      (n : ℕ) (s : Bytes) → length s < f → Shrinks (suc (length s)) (parse_items p n s)
  unfolding parse_items
  parse_items-Shrinks zero s h = omega arith
  parse_items-Shrinks (suc n) s h =
      Shrinks-bind (length s) (suc (length s)) (p s) _ (omega arith) (good s h) λ v s' lt.
        Shrinks-bind (suc (length s')) (suc (length s)) (parse_items p n s') _ (omega arith)
          (parse_items-Shrinks n s' (omega arith)) (λ vs s'' lt'. omega arith)

  parse_array-Shrinks :
      (n : Option ℤ) (s : Bytes) → length s < f → Shrinks (suc (length s)) (parse_array p n s)
  unfolding parse_array
  parse_array-Shrinks none s h = tt
  parse_array-Shrinks (some (negsuc n)) s h = omega arith
  parse_array-Shrinks (some (pos n)) s h =
      Shrinks-if _ (ltb max_alloc (n * value_size)) _ _ (omega arith) (
        Shrinks-bind (suc (length s)) _ (parse_items p n s) _ (omega arith)
          (parse_items-Shrinks n s h) (λ vs rest lt. lt))

  parse_bulk-Shrinks : (n : Option ℤ) (s : Bytes) → Shrinks (suc (length s)) (parse_bulk n s)
  unfolding parse_bulk
  parse_bulk-Shrinks none s = tt
  parse_bulk-Shrinks (some (negsuc n)) s = omega arith
  parse_bulk-Shrinks (some (pos n)) s = Shrinks-if _ (ltb max_alloc (n + 2)) _ _ (omega arith) (
      Shrinks-bind (suc (length s)) _ (read_full n s) _ (omega arith) (read_full-Shrinks n s)
        (λ body rest lt. lt))

  parse_number-Shrinks : (n : Option ℤ) (s : Bytes) → Shrinks (suc (length s)) (parse_number n s)
  unfolding parse_number
  parse_number-Shrinks none s = tt
  parse_number-Shrinks (some n) s = omega arith

  parse_body-Shrinks : (l s : Bytes) → length s < f → Shrinks (suc (length s)) (parse_body p l s)
  unfolding parse_body
  parse_body-Shrinks [] s h = tt
  parse_body-Shrinks (t ∷ body) s h =
      let k = suc (length s) in
      Shrinks-if k (t == b'+') _ _ (omega arith) (
        Shrinks-if k (t == b'-') _ _ (omega arith) (
          Shrinks-if k (t == b':') _ _ (parse_number-Shrinks (atoi body) s) (
            Shrinks-if k (t == b'$') _ _ (parse_bulk-Shrinks (atoi body) s)
              (Shrinks-if k (t == b'*') _ _ (parse_array-Shrinks (atoi body) s h) (omega arith)))))

parse_fuel-Shrinks : (f : ℕ) (s : Bytes) → length s < f → Shrinks (length s) (parse_fuel f s)
unfolding parse_fuel
parse_fuel-Shrinks zero s h = absurd (omega arith)
parse_fuel-Shrinks (suc f) s h =
    Shrinks-bind (length s) (length s) (read_line s) _ (omega arith) (read_line-Shrinks s)
      λ l s' lt.
        Shrinks-mono (suc (length s')) (length s) (parse_body (parse_fuel f) l s') (omega arith)
          (parse_body-Shrinks f (parse_fuel f) (parse_fuel-Shrinks f) l s' (omega arith))

-- Parsing terminates with an outcome of the source for every input: the fuel never runs out, and a
-- value, or a panic, leaves strictly fewer bytes than there were.
pub parse-Shrinks : (s : Bytes) → Shrinks (length s) (parse s)
unfolding parse
parse-Shrinks s = parse_fuel-Shrinks (suc (length s)) s (omega arith)
