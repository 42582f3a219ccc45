-- ===== src/Resp/Lines.antt =====
-- Lines and counted blocks: what `read_line` and `read_full` read of what the writers wrote.
use redis_glass.Prelude.{
  ℕ, suc, ◌≡◌, ◌≢◌, refl, sym, ap, ◌∙◌, true, some, [], ◌∷◌, ◌++◌, append_assoc, arith, length, All,
  take-length_append, drop-length_append, Bytes, ends_with, drop_last, ℤ, pos, negsuc, itoa,
  IsDigit, format_ℕ, format_ℕ-IsDigit,
}
use redis_glass.Resp.{cr, lf, crlf, ok, split_line, finish_line, read_line, read_full}

-- A text with no line feed in it.
abbrev pub IsLine : Bytes → Type 0
IsLine = All (λ c. c ≢ lf)

pub split_line-append : (l rest : Bytes) → IsLine l → split_line (l ++ lf ∷ rest) ≡ some (l, rest)
unfolding split_line
split_line-append [] rest h = refl
split_line-append (c ∷ l) rest (hc, h) = ground (arith, split_line-append l rest h)

ends_with-append : (l : Bytes) (b : ℕ) → ends_with (l ++ b ∷ []) b ≡ true
unfolding ends_with
ends_with-append [] b = ground arith
ends_with-append (c ∷ []) b = ground arith
ends_with-append (c ∷ d ∷ l) b = ends_with-append (d ∷ l) b

drop_last-append : (l : Bytes) (b : ℕ) → drop_last (l ++ b ∷ []) ≡ l
unfolding drop_last
drop_last-append [] b = refl
drop_last-append (c ∷ []) b = refl
drop_last-append (c ∷ d ∷ l) b = ap (λ t. c ∷ t) (drop_last-append (d ∷ l) b)

IsLine-append : (l m : Bytes) → IsLine l → IsLine m → IsLine (l ++ m)
IsLine-append [] m _ h = h
IsLine-append (c ∷ l) m (hc, hl) h = (hc, IsLine-append l m hl h)

-- A line with its end in front of any input is read as that line.
pub read_line-append : (l rest : Bytes) → IsLine l → read_line (l ++ (crlf ++ rest)) ≡ ok l rest
unfolding read_line
read_line-append l rest h =
    ap finish_line (
      ap split_line (sym (append_assoc l (cr ∷ []) (lf ∷ rest)))
      ∙ split_line-append (l ++ cr ∷ []) rest (IsLine-append l (cr ∷ []) h (omega arith)))
    ∙ rw (ends_with-append l cr, drop_last-append l cr)

-- A block with its end in front of any input is read as that block.
pub read_full-append :
    (body rest : Bytes) → read_full (length body) (body ++ (crlf ++ rest)) ≡ ok body rest
unfolding read_full
read_full-append body rest =
    rw (take-length_append body (crlf ++ rest), drop-length_append body (crlf ++ rest))

IsDigit-IsLine : (s : Bytes) → All IsDigit s → IsLine s
IsDigit-IsLine [] h = tt
IsDigit-IsLine (c ∷ s) (hc, h) = (omega arith, IsDigit-IsLine s h)

pub itoa-IsLine : (z : ℤ) → IsLine (itoa z)
unfolding itoa
itoa-IsLine (pos n) = IsDigit-IsLine (format_ℕ n) (format_ℕ-IsDigit n)
itoa-IsLine (negsuc n) = (omega arith, IsDigit-IsLine (format_ℕ (suc n)) (format_ℕ-IsDigit (suc n)))
