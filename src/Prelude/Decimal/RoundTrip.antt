-- ===== src/Prelude/Decimal/RoundTrip.antt =====
-- Every 64-bit integer is read back from its decimal print.
use Prim.Native.Nat.{ℕ, zero, suc, ◌+◌, ◌-◌, ◌*◌, ◌/◌, ◌%◌, ◌^◌, ◌≤◌, ◌<◌}
use native.Mathlib.Nat.{pow-suc}
use mathlib.Core.Path.{◌≡◌, refl, ap, ◌∙◌}
use mathlib.Core.Logic.{inl, inr}
use mathlib.Core.Bool.{true, false}
use mathlib.Core.List.{[], ◌∷◌}
use mathlib.Core.Option.{some}
use native.Mathlib.Omega.{arith}
use redis_glass.Prelude.Tests.{ltb, ltb→lt, Bool-cases}
use redis_glass.Prelude.Lists.{All}
use redis_glass.Prelude.Int.{ℤ, pos, negsuc, IsInt64}
use redis_glass.Prelude.Text.{Bytes}
use redis_glass.Prelude.Decimal.{
  digits, format_ℕ, itoa, scan, parse_ℕ, in_range, in_range_negative, atoi,
}

zero_times : (n : ℕ) → 0 * 10 + n ≡ n
zero_times n = omega arith

shift_digit : (n d : ℕ) → n * 10 + ((b'0' + d) - b'0') ≡ n * 10 + d
shift_digit n d = omega arith

scan_digit : (n d : ℕ) (out : Bytes) → d < 10 → scan ((b'0' + d) ∷ out) n ≡ scan out (n * 10 + d)
unfolding scan
scan_digit n d out h = ground (arith, ap (scan out) (shift_digit n d))

tenth_bound : (n p : ℕ) → n < p * 10 → n / 10 < p
tenth_bound n p h = omega arith

last_digit : (n : ℕ) → n / 10 * 10 + n % 10 ≡ n
last_digit n = omega arith

below_one : (n : ℕ) → n < 10 ^ 0 → 0 ≡ n
below_one n h = omega arith

digits_small : (f n : ℕ) (out : Bytes) → ltb n 10 ≡ true → digits (suc f) n out ≡ (b'0' + n) ∷ out
unfolding digits
digits_small f n out h = rw h

digits_big :
    (f n : ℕ) (out : Bytes)
    → ltb n 10 ≡ false
    → digits (suc f) n out ≡ digits f (n / 10) ((b'0' + n % 10) ∷ out)
unfolding digits
digits_big f n out h = rw h

scan-digits : (f n : ℕ) (out : Bytes) → n < 10 ^ f → scan (digits f n out) 0 ≡ scan out n
scan-digits zero n out h = unfold digits in ap (scan out) (below_one n h)
scan-digits (suc f) n out h = elim (Bool-cases (ltb n 10)) [
  | inl small ↦
      rw (digits_small f n out small, scan_digit 0 n out (ltb→lt n 10 small))
        (ap (scan out) (zero_times n))
  | inr big ↦ rw (
    digits_big f n out big,
    scan-digits f (n / 10) ((b'0' + n % 10) ∷ out) (tenth_bound n (10 ^ f) (rw pow-suc at h)),
    scan_digit (n / 10) (n % 10) out (omega arith),
    last_digit n,
  )
]

-- Each printed byte is a digit.
abbrev pub IsDigit : ℕ → Type 0
IsDigit c = (b'0' ≤ c) × (c ≤ b'9')

digits-IsDigit : (f n : ℕ) (out : Bytes) → All IsDigit out → All IsDigit (digits f n out)
unfolding digits
digits-IsDigit zero n out h = h
digits-IsDigit (suc f) n out h = elim (Bool-cases (ltb n 10)) [
  | inl small ↦ rw small (let lt = ltb→lt n 10 small in (omega arith, h))
  | inr big ↦ rw big (digits-IsDigit f (n / 10) ((b'0' + n % 10) ∷ out) (omega arith, h))
]

pub format_ℕ-IsDigit : (n : ℕ) → All IsDigit (format_ℕ n)
unfolding format_ℕ
format_ℕ-IsDigit n = digits-IsDigit 40 n [] tt

digits_cons : (f n c : ℕ) (out : Bytes) → (d : ℕ) × (ds : Bytes) × (digits f n (c ∷ out) ≡ d ∷ ds)
unfolding digits
digits_cons zero n c out = (c, out, refl)
digits_cons (suc f) n c out = elim (Bool-cases (ltb n 10)) [
  | inl small ↦ (b'0' + n, c ∷ out, rw small)
  | inr big ↦ rw big (digits_cons f (n / 10) (b'0' + n % 10) (c ∷ out))
]

pub format_ℕ_cons : (n : ℕ) → (d : ℕ) × (ds : Bytes) × (format_ℕ n ≡ d ∷ ds)
unfolding format_ℕ
format_ℕ_cons n = elim (Bool-cases (ltb n 10)) [
  | inl small ↦ (b'0' + n, [], digits_small 39 n [] small)
  | inr big ↦ rw (digits_big 39 n [] big) (digits_cons 39 (n / 10) (b'0' + n % 10) [])
]

parse_ℕ-scan : (s : Bytes) (d : ℕ) (ds : Bytes) → s ≡ d ∷ ds → parse_ℕ s ≡ scan s 0
unfolding parse_ℕ
parse_ℕ-scan [] d ds e = cc
parse_ℕ-scan (c ∷ s) d ds e = refl

parse_ℕ-format_ℕ : (n : ℕ) → n < 10 ^ 40 → parse_ℕ (format_ℕ n) ≡ some n
parse_ℕ-format_ℕ n h =
    let (d, ds, e) = format_ℕ_cons n in
    parse_ℕ-scan (format_ℕ n) d ds e ∙ (unfold format_ℕ scan in scan-digits 40 n [] h)

atoi_digits :
    (s : Bytes) (d : ℕ) (ds : Bytes) → s ≡ d ∷ ds → All IsDigit s → atoi s ≡ in_range (parse_ℕ s)
unfolding atoi
atoi_digits s d ds e h = rw e (let k = (rw e at h).0 in ground arith)

-- `Atoi(Itoa(n)) == n`, for every 64-bit integer.
pub atoi-itoa : (z : ℤ) → IsInt64 z → atoi (itoa z) ≡ some z
unfolding itoa
atoi-itoa (pos n) h =
    let (d, ds, e) = format_ℕ_cons n in
    rw (atoi_digits (format_ℕ n) d ds e (format_ℕ-IsDigit n), parse_ℕ-format_ℕ n (omega arith))
      (unfold in_range in ground arith)
atoi-itoa (negsuc n) h =
    unfold atoi in
    rw (parse_ℕ-format_ℕ (suc n) (omega arith)) (unfold in_range_negative in ground arith)
