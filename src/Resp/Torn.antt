-- ===== src/Resp/Torn.antt =====
-- resp/parser.go: `Parse` on an input that goes on, and on one that was cut off.
use redis_glass.Prelude.{
  ℕ, zero, suc, ◌*◌, ◌+◌, ◌≡◌, ◌≢◌, inl, inr, refl, sym, ap, ◌∙◌, Bool, true, false, ◌&&◌, Option,
  none, some, List, [], ◌∷◌, ◌++◌, append-nil, arith, length, length-append, take, drop, All, Bytes,
  ends_with, atoi, ℤ, pos, negsuc, ltb, ◌==◌, if◌then◌else◌, Bool-cases,
}
use mathlib.Core.Path.{subst}
use redis_glass.Resp.{
  cr, lf, Value, Parsed, ok, err, panic, malformed, eof, out_of_fuel, bind, push_byte, split_line,
  finish_line, read_line, close_bulk, read_full, max_alloc, value_size, parse_items, parse_bulk,
  parse_array, parse_number, parse_body, parse_fuel, parse, bulks, array, write_array,
}
use redis_glass.Resp.Fuel.{Shrinks, parse-Shrinks}
use redis_glass.Resp.RoundTrip.{Fits, FitsArray, parse-write_array}

-- What the outcome becomes where `t` follows the input, unless the input was too short.
abbrev pub Extends {ℓ} : {A : Type ℓ} → Bytes → Parsed A → Parsed A → Type ℓ
Extends t (ok a rest) r = r ≡ ok a (rest ++ t)
Extends t (err malformed) r = r ≡ err malformed
Extends t (err eof) r = Unit
Extends t (err out_of_fuel) r = Unit
Extends t (panic rest) r = r ≡ panic (rest ++ t)

Extends-bind :
    {A : Type 0} {B : Type 0} (t : Bytes) (x x' : Parsed A) (f f' : A → Bytes → Parsed B)
    → Extends t x x'
    → ((a : A) (s : Bytes) → Extends t (f a s) (f' a (s ++ t)))
    → Extends t (bind x f) (bind x' f')
Extends-bind t (ok a rest) x' f f' e g = rw e (g a rest)
Extends-bind t (err malformed) x' f f' e g = rw e refl
Extends-bind t (err eof) x' f f' e g = tt
Extends-bind t (err out_of_fuel) x' f f' e g = tt
Extends-bind t (panic rest) x' f f' e g = rw e refl

Extends-if :
    {A : Type 0} (t : Bytes) (b : Bool) (x y x' y' : Parsed A)
    → Extends t x x'
    → Extends t y y'
    → Extends t (if b then x else y) (if b then x' else y')
Extends-if t true x y x' y' h k = h
Extends-if t false x y x' y' h k = k

abbrev longer : Bytes → Option (Bytes × Bytes) → Option (Bytes × Bytes)
longer t none = none
longer t (some (l, rest)) = some (l, rest ++ t)

push_byte-append :
    (t : Bytes) (c : ℕ) (o o' : Option (Bytes × Bytes))
    → ((l rest : Bytes) → o ≡ some (l, rest) → o' ≡ some (l, rest ++ t))
    → (l rest : Bytes) → push_byte c o ≡ some (l, rest)
    → push_byte c o' ≡ some (l, rest ++ t)
unfolding push_byte
push_byte-append t c none o' h l rest e = cc
push_byte-append t c (some (l', r')) o' h l rest e = rw (h l' r' refl) (ap (longer t) e)

split_line-append_some :
    (t s l rest : Bytes) → split_line s ≡ some (l, rest) → split_line (s ++ t) ≡ some (l, rest ++ t)
unfolding split_line push_byte
split_line-append_some t [] l rest e = cc
split_line-append_some t (c ∷ s) l rest e = elim (Bool-cases (c == lf)) [
  | inl q ↦ rw q (let k = rw q at e in cc k)
  | inr q ↦ rw q (
      push_byte-append t c (split_line s) (split_line (s ++ t)) (split_line-append_some t s) l rest
        (rw q at e))
]

drop-append_cons :
    (n : ℕ) (t s : Bytes) (c : ℕ) (r : Bytes)
    → drop n s ≡ c ∷ r
    → (take n (s ++ t) ≡ take n s) × (drop n (s ++ t) ≡ c ∷ (r ++ t))
drop-append_cons zero t s c r e = (refl, ap (λ l. l ++ t) e)
drop-append_cons (suc n) t [] c r e = absurd (grind arith)
drop-append_cons (suc n) t (x ∷ s) c r e =
    let (h, k) = drop-append_cons n t s c r e in (ap (λ l. x ∷ l) h, k)

finish_line-Extends :
    (t : Bytes) (o o' : Option (Bytes × Bytes))
    → ((l rest : Bytes) → o ≡ some (l, rest) → o' ≡ some (l, rest ++ t))
    → Extends t (finish_line o) (finish_line o')
unfolding finish_line
finish_line-Extends t none o' h = tt
finish_line-Extends t (some (l, rest)) o' h =
    rw (h l rest refl) (Extends-if t (ends_with l cr) _ _ _ _ refl refl)

read_line-Extends : (t s : Bytes) → Extends t (read_line s) (read_line (s ++ t))
unfolding read_line
read_line-Extends t s =
    finish_line-Extends t (split_line s) (split_line (s ++ t)) (split_line-append_some t s)

close_bulk-Extends :
    (t body d body' d' : Bytes)
    → ((c : ℕ) (r : Bytes) → d ≡ c ∷ r → (body' ≡ body) × (d' ≡ c ∷ (r ++ t)))
    → Extends t (close_bulk body d) (close_bulk body' d')
unfolding close_bulk
close_bulk-Extends t body [] body' d' h = tt
close_bulk-Extends t body (c ∷ []) body' d' h = tt
close_bulk-Extends t body (c ∷ e ∷ rest) body' d' h =
    let (p, q) = h c (e ∷ rest) refl in
    rw (p, q) (Extends-if t (c == cr && e == lf) _ _ _ _ refl refl)

read_full-Extends : (n : ℕ) (t s : Bytes) → Extends t (read_full n s) (read_full n (s ++ t))
unfolding read_full
read_full-Extends n t s = close_bulk-Extends t _ _ _ _ (drop-append_cons n t s)

parse_number-Extends :
    (t : Bytes) (n : Option ℤ) (s : Bytes) → Extends t (parse_number n s) (parse_number n (s ++ t))
unfolding parse_number
parse_number-Extends t none s = refl
parse_number-Extends t (some n) s = refl

parse_bulk-Extends :
    (t : Bytes) (n : Option ℤ) (s : Bytes) → Extends t (parse_bulk n s) (parse_bulk n (s ++ t))
unfolding parse_bulk
parse_bulk-Extends t none s = refl
parse_bulk-Extends t (some (negsuc n)) s = refl
parse_bulk-Extends t (some (pos n)) s =
    Extends-if t (ltb max_alloc (n + 2)) _ _ _ _ refl
      (Extends-bind t _ _ _ _ (read_full-Extends n t s) (λ body rest. refl))

module _ (t : Bytes) (p p' : Bytes → Parsed Value)
    (ih : (s : Bytes) → Extends t (p s) (p' (s ++ t))) where
  parse_items-Extends :
      (n : ℕ) (s : Bytes) → Extends t (parse_items p n s) (parse_items p' n (s ++ t))
  unfolding parse_items
  parse_items-Extends zero s = refl
  parse_items-Extends (suc n) s =
      Extends-bind t _ _ _ _ (ih s)
        λ v s'. Extends-bind t _ _ _ _ (parse_items-Extends n s') λ vs s''. refl

  parse_array-Extends :
      (n : Option ℤ) (s : Bytes) → Extends t (parse_array p n s) (parse_array p' n (s ++ t))
  unfolding parse_array
  parse_array-Extends none s = refl
  parse_array-Extends (some (negsuc n)) s = refl
  parse_array-Extends (some (pos n)) s =
      Extends-if t (ltb max_alloc (n * value_size)) _ _ _ _ refl
        (Extends-bind t _ _ _ _ (parse_items-Extends n s) (λ vs rest. refl))

  parse_body-Extends : (l s : Bytes) → Extends t (parse_body p l s) (parse_body p' l (s ++ t))
  unfolding parse_body
  parse_body-Extends [] s = refl
  parse_body-Extends (c ∷ body) s = Extends-if t (c == b'+') _ _ _ _ refl (
      Extends-if t (c == b'-') _ _ _ _ refl (
        Extends-if t (c == b':') _ _ _ _ (parse_number-Extends t (atoi body) s) (
          Extends-if t (c == b'$') _ _ _ _ (parse_bulk-Extends t (atoi body) s)
            (Extends-if t (c == b'*') _ _ _ _ (parse_array-Extends (atoi body) s) refl))))

suc_sum : (f k : ℕ) → suc (f + k) ≡ suc f + k
suc_sum f k = omega arith

parse_fuel-Extends :
    (t : Bytes) (f k : ℕ) (s : Bytes) → Extends t (parse_fuel f s) (parse_fuel (f + k) (s ++ t))
unfolding parse_fuel
parse_fuel-Extends t zero k s = tt
parse_fuel-Extends t (suc f) k s =
    subst (λ n. Extends t (bind (read_line s) (parse_body (parse_fuel f))) (parse_fuel n (s ++ t)))
      (suc_sum f k)
      (Extends-bind t _ _ _ _ (read_line-Extends t s) λ l s'.
        parse_body-Extends t (parse_fuel f) (parse_fuel (f + k)) (parse_fuel-Extends t f k) l s')

fuel_sum : (s t : Bytes) → suc (length s) + length t ≡ suc (length (s ++ t))
fuel_sum s t = omega (arith, length-append s t)

parse-Extends : (t s : Bytes) → Extends t (parse s) (parse (s ++ t))
unfolding parse
parse-Extends t s =
    subst (λ n. Extends t (parse_fuel (suc (length s)) s) (parse_fuel n (s ++ t))) (fuel_sum s t)
      (parse_fuel-Extends t (suc (length s)) (length t) s)

abbrev unread : Parsed Value → Bytes
unread (ok v rest) = rest
unread _ = []

longer_rest : (rest t : Bytes) → t ≢ [] → rest ++ t ≢ []
longer_rest [] t h e = h e
longer_rest (c ∷ rest) t h e = cc

whole :
    (vals : List Bytes) (s t : Bytes)
    → FitsArray vals
    → All Fits vals
    → s ++ t ≡ write_array vals
    → parse (s ++ t) ≡ ok (array (bulks vals)) []
whole vals s t hn hf e =
    ap parse (e ∙ sym (append-nil (write_array vals))) ∙ parse-write_array vals [] hn hf

cut_off :
    (t : Bytes) (v : Value) (r : Parsed Value) (s : Bytes)
    → t ≢ []
    → parse s ≡ r
    → Shrinks (length s) r
    → Extends t r (ok v [])
    → r ≡ err eof
cut_off t v (ok a rest) s h e k x = absurd (longer_rest rest t h (sym (ap unread x)))
cut_off t v (err malformed) s h e k x = cc
cut_off t v (err eof) s h e k x = refl
cut_off t v (err out_of_fuel) s h e k x = absurd k
cut_off t v (panic rest) s h e k x = cc

-- A command that was cut off anywhere, even before its first byte, is an input that ends too early.
pub parse-cut_off :
    (vals : List Bytes) (s t : Bytes)
    → FitsArray vals
    → All Fits vals
    → s ++ t ≡ write_array vals
    → t ≢ []
    → parse s ≡ err eof
parse-cut_off vals s t hn hf e h =
    cut_off t (array (bulks vals)) (parse s) s h refl (parse-Shrinks s)
      (subst (Extends t (parse s)) (whole vals s t hn hf e) (parse-Extends t s))
