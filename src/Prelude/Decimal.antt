-- ===== src/Prelude/Decimal.antt =====
-- `strconv.Itoa` and `strconv.Atoi` on 64-bit integers.
pub mod RoundTrip
use Prim.Native.Nat.{ℕ, zero, suc, ◌+◌, ◌-◌, ◌*◌, ◌/◌, ◌%◌}
use mathlib.Core.Bool.{Bool, ◌&&◌}
use mathlib.Core.List.{[], ◌∷◌}
use mathlib.Core.Option.{Option, none, some}
use redis_glass.Prelude.Tests.{ltb, leb, ◌==◌, if◌then◌else◌}
use redis_glass.Prelude.Int.{ℤ, pos, negsuc, two_63}
use redis_glass.Prelude.Text.{Bytes}

-- The decimal digits of a number in front of `out`. The fuel bounds the number of digits.
digits : ℕ → ℕ → Bytes → Bytes
digits zero n out = out
digits (suc f) n out =
    let more = digits f (n / 10) ((b'0' + n % 10) ∷ out) in
    if ltb n 10 then (b'0' + n) ∷ out else more

unfoldable pub format_ℕ : ℕ → Bytes
unfolding digits
format_ℕ n = digits 40 n []

unfoldable pub itoa : ℤ → Bytes
itoa (pos n) = format_ℕ n
itoa (negsuc n) = b'-' ∷ format_ℕ (suc n)

abbrev pub is_digit : ℕ → Bool
is_digit c = leb b'0' c && leb c b'9'

scan : Bytes → ℕ → Option ℕ
scan [] n = some n
scan (c ∷ s) n = let rest = scan s (n * 10 + (c - b'0')) in if is_digit c then rest else none

-- One or more digits.
pub parse_ℕ : Bytes → Option ℕ
unfolding scan
parse_ℕ [] = none
parse_ℕ (c ∷ s) = scan (c ∷ s) 0

in_range : Option ℕ → Option ℤ
in_range none = none
in_range (some n) = if ltb n two_63 then some (pos n) else none

in_range_negative : Option ℕ → Option ℤ
in_range_negative none = none
in_range_negative (some zero) = some (pos 0)
in_range_negative (some (suc n)) = if ltb n two_63 then some (negsuc n) else none

unfoldable pub atoi : Bytes → Option ℤ
unfolding parse_ℕ in_range in_range_negative
atoi [] = none
atoi (c ∷ s) =
    if c == b'-'
    then in_range_negative (parse_ℕ s)
    else if c == b'+'
    then in_range (parse_ℕ s)
    else in_range (parse_ℕ (c ∷ s))
