-- ===== src/Store/Counters.antt =====
-- `IncrBy`: what it replies, what it stores, and when it refuses.
use redis_glass.Prelude.{
  ◌+◌, ◌≡◌, refl, ap, ◌∙◌, Option, none, some, arith, Bytes, length, bytes_eq_refl, sym, IsInt64,
  Bool-cases, inl, inr, lookup, insert, dict_laws, ℤ, pos, wrap, wrap-IsInt64, ◌+ℤ◌, itoa, atoi,
  atoi-itoa, if◌then◌else◌,
}
use redis_glass.Store.{
  Entry, Store, Result, ok, err, oom, not_integer, kept_expiry, current, store_sum, add_to, incr_by,
  check_memory,
}
use redis_glass.Store.Expiry.{read, view}

-- The number that a client sees under a key, and nothing where the text is no integer.
abbrev pub number_of : Option Entry → Option ℤ
number_of none = some (pos 0)
number_of (some e) = atoi e.value

abbrev pub from_number : Option ℤ → Result ℤ
from_number none = err not_integer
from_number (some n) = ok n

current-read : (now : ℤ) (o : Option Entry) → current now o ≡ from_number (number_of (read now o))
unfolding current
current-read now none = refl
current-read now (some e) = ground arith

-- What `IncrBy` leaves behind for a sum.
abbrev pub with_sum : Bytes → ℤ → Store → Store
with_sum key n s = record s {
  strings =
      insert key (record { value = itoa n; expires_at = kept_expiry (lookup key s.strings) })
        s.strings;
}

abbrev or_zero : Option ℤ → ℤ
or_zero none = pos 0
or_zero (some z) = z

abbrev pub outcome : Option ℤ → Bytes → ℤ → Store → Result ℤ × Store
outcome none key delta s = (err not_integer, s)
outcome (some z) key delta s =
    let n = wrap (z +ℤ delta) in
    if check_memory (length key + length (itoa n)) s then (ok n, with_sum key n s) else (err oom, s)

add_to_number :
    (z : Option ℤ) (key : Bytes) (delta : ℤ) (s : Store)
    → add_to (from_number z) key (kept_expiry (lookup key s.strings)) delta s
      ≡ outcome z key delta s
unfolding add_to store_sum
add_to_number none key delta s = refl
add_to_number (some z) key delta s = refl

-- On every branch: a visible text that is no integer is refused; a missing or expired key counts as
-- 0; the sum is taken in 64 bits; a sum whose text does not fit under the ceiling is refused; a
-- refusal changes nothing; and the stored text is the sum's print, under the old expiry.
pub incr_by_lem :
    (now : ℤ) (key : Bytes) (delta : ℤ) (s : Store)
    → incr_by now key delta s ≡ outcome (number_of (view now s key)) key delta s
unfolding incr_by view
incr_by_lem now key delta s =
    ap (λ r. add_to r key (kept_expiry (lookup key s.strings)) delta s)
      (current-read now (lookup key s.strings))
    ∙ add_to_number (number_of (read now (lookup key s.strings))) key delta s

read-some : (now : ℤ) (x e : Entry) → read now (some x) ≡ some e → x ≡ e
read-some now x e h = ground arith

pub view-with_sum :
    (now : ℤ) (key : Bytes) (n : ℤ) (s : Store)
    → view now (with_sum key n s) key
      ≡ read now (some (record { value = itoa n; expires_at = kept_expiry (lookup key s.strings) }))
unfolding view
view-with_sum now key n s = simp (dict_laws, bytes_eq_refl)

number-with_sum :
    (now : ℤ) (key : Bytes) (n : ℤ) (s : Store) (e : Entry)
    → IsInt64 n
    → view now (with_sum key n s) key ≡ some e
    → number_of (some e) ≡ some n
number-with_sum now key n s e fits h =
    let x : Entry = record { value = itoa n; expires_at = kept_expiry (lookup key s.strings) } in
    let same = read-some now x e (sym (view-with_sum now key n s) ∙ h) in
    ap (λ (y : Entry). atoi y.value) (sym same) ∙ atoi-itoa n fits

outcome_ok :
    (z : Option ℤ) (key : Bytes) (delta m : ℤ) (s s' : Store)
    → outcome z key delta s ≡ (ok m, s')
    → (m ≡ wrap (or_zero z +ℤ delta)) × (s' ≡ with_sum key m s)
outcome_ok none key delta m s s' h = cc
outcome_ok (some z) key delta m s s' h =
    let n = wrap (z +ℤ delta) in
    elim (Bool-cases (check_memory (length key + length (itoa n)) s)) [
      | inl c ↦
          let k = rw c at h in
          let e : n ≡ m = cc k in (sym e, cc (ap (λ (r : Result ℤ × Store). r.1) k, e))
      | inr c ↦ let k = rw c at h in cc k
    ]

-- A counter that is still visible after an addition holds what was replied: a later addition, by any
-- amount and at any time, starts from that number.
pub incr_by_again :
    (now later : ℤ) (key : Bytes) (a b m : ℤ) (s s' : Store) (e : Entry)
    → incr_by now key a s ≡ (ok m, s')
    → view later s' key ≡ some e
    → incr_by later key b s' ≡ outcome (some m) key b s'
incr_by_again now later key a b m s s' e h v =
    let (sum, state) =
      outcome_ok (number_of (view now s key)) key a m s s' (sym (incr_by_lem now key a s) ∙ h) in
    let fits : IsInt64 m = rw sum (wrap-IsInt64 _) in
    let known : number_of (view later s' key) ≡ some m =
      ap number_of v ∙ number-with_sum later key m s e fits (rw state at v) in
    incr_by_lem later key b s' ∙ ap (λ z. outcome z key b s') known
