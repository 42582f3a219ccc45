-- ===== src/Resp/RoundTrip.antt =====
-- resp/parser.go on what resp/writer.go writes: requests, replies and the log.
use redis_glass.Prelude.{
  ℕ, suc, ◌+◌, ◌*◌, ◌≤◌, ◌≡◌, ◌≢◌, refl, ◌∙◌, some, List, [], ◌∷◌, ◌++◌, append_assoc, arith,
  length, All, Bytes, ℤ, pos, itoa, atoi, atoi-itoa, IsInt64, le→ltb,
}
use redis_glass.Resp.{
  lf, Value, value, nil, bulk, bulks, array, crlf, Parsed, ok, max_alloc, value_size, parse_items,
  parse_bulk, parse_array, parse_number, parse_body, parse_fuel, parse, write_simple_string,
  write_error, write_integer, write_bulk_string, write_bulks, write_array,
}
use redis_glass.Resp.Lines.{IsLine, read_line-append, read_full-append, itoa-IsLine}

-- A text whose buffer the runtime can allocate.
abbrev pub Fits : Bytes → Type 0
Fits s = length s + 2 ≤ max_alloc

abbrev pub FitsArray : List Bytes → Type 0
FitsArray vals = length vals * value_size ≤ max_alloc

-- The first line of a value.
parse_fuel_line :
    (f t : ℕ) (l rest : Bytes)
    → IsLine (t ∷ l)
    → parse_fuel (suc f) (t ∷ (l ++ (crlf ++ rest))) ≡ parse_body (parse_fuel f) (t ∷ l) rest
unfolding parse_fuel
parse_fuel_line f t l rest h = rw (read_line-append (t ∷ l) rest h)

line_assoc : (a b rest : Bytes) → (a ++ (crlf ++ b)) ++ rest ≡ a ++ (crlf ++ (b ++ rest))
line_assoc a b rest = append_assoc a (crlf ++ b) rest

parse_bulk-append :
    (s rest : Bytes)
    → Fits s
    → parse_bulk (some (pos (length s))) (s ++ (crlf ++ rest)) ≡ ok (bulk s) rest
unfolding parse_bulk
parse_bulk-append s rest h = rw (le→ltb max_alloc (length s + 2) h, read_full-append s rest)

parse_body-bulk :
    (p : Bytes → Parsed Value) (l rest : Bytes)
    → parse_body p (b'$' ∷ l) rest ≡ parse_bulk (atoi l) rest
unfolding parse_body
parse_body-bulk p l rest = refl

parse_body-array :
    (p : Bytes → Parsed Value) (l rest : Bytes)
    → parse_body p (b'*' ∷ l) rest ≡ parse_array p (atoi l) rest
unfolding parse_body
parse_body-array p l rest = refl

parse_body-number :
    (p : Bytes → Parsed Value) (l rest : Bytes)
    → parse_body p (b':' ∷ l) rest ≡ parse_number (atoi l) rest
unfolding parse_body
parse_body-number p l rest = refl

IsInt64-fits : (n k : ℕ) → n + k ≤ max_alloc → IsInt64 (pos n)
IsInt64-fits n k h = omega arith

header_IsLine : (t n : ℕ) → t ≢ lf → IsLine (t ∷ itoa (pos n))
header_IsLine t n h = (h, itoa-IsLine (pos n))

-- A bulk string in front of any input is read back as that string.
pub parse_fuel-bulk :
    (f : ℕ) (s rest : Bytes)
    → Fits s
    → parse_fuel (suc f) (write_bulk_string s ++ rest) ≡ ok (bulk s) rest
unfolding write_bulk_string
parse_fuel-bulk f s rest h =
    let n = itoa (pos (length s)) in
    rw
      (
        line_assoc n (s ++ crlf) rest,
        append_assoc s crlf rest,
        parse_fuel_line f b'$' n (s ++ (crlf ++ rest))
            (header_IsLine b'$' (length s) (omega arith)),
        parse_body-bulk (parse_fuel f) n (s ++ (crlf ++ rest)),
        atoi-itoa (pos (length s)) (IsInt64-fits (length s) 2 h),
      )
      (parse_bulk-append s rest h)

parse_items-bulks :
    (f : ℕ) (vals : List Bytes) (rest : Bytes)
    → All Fits vals
    → parse_items (parse_fuel (suc f)) (length vals) (write_bulks vals ++ rest)
      ≡ ok (bulks vals) rest
unfolding parse_items write_bulks
parse_items-bulks f [] rest h = refl
parse_items-bulks f (v ∷ vals) rest (hv, h) = rw (
  append_assoc (write_bulk_string v) (write_bulks vals) rest,
  parse_fuel-bulk f v (write_bulks vals ++ rest) hv,
  parse_items-bulks f vals rest h,
)

parse_array-bulks :
    (f : ℕ) (vals : List Bytes) (rest : Bytes)
    → FitsArray vals
    → All Fits vals
    → parse_array (parse_fuel (suc f)) (some (pos (length vals))) (write_bulks vals ++ rest)
      ≡ ok (array (bulks vals)) rest
unfolding parse_array
parse_array-bulks f vals rest hn h =
    rw (le→ltb max_alloc (length vals * value_size) hn, parse_items-bulks f vals rest h)

IsInt64-array : (vals : List Bytes) → FitsArray vals → IsInt64 (pos (length vals))
IsInt64-array vals h = omega arith

pub parse_fuel-array :
    (f : ℕ) (vals : List Bytes) (rest : Bytes)
    → FitsArray vals
    → All Fits vals
    → parse_fuel (suc (suc f)) (write_array vals ++ rest) ≡ ok (array (bulks vals)) rest
unfolding write_array
parse_fuel-array f vals rest hn h =
    let n = itoa (pos (length vals)) in
    rw
      (
        line_assoc n (write_bulks vals) rest,
        parse_fuel_line (suc f) b'*' n (write_bulks vals ++ rest)
            (header_IsLine b'*' (length vals) (omega arith)),
        parse_body-array (parse_fuel (suc f)) n (write_bulks vals ++ rest),
        atoi-itoa (pos (length vals)) (IsInt64-array vals hn),
      )
      (parse_array-bulks f vals rest hn h)

parse_lem : (s : Bytes) → parse s ≡ parse_fuel (suc (length s)) s
unfolding parse
parse_lem s = refl

-- An array of bulk strings that the runtime can allocate, in front of any input, is read back: the
-- strings are those that were written, and the input behind them is untouched.
pub parse-write_array :
    (vals : List Bytes) (rest : Bytes)
    → FitsArray vals
    → All Fits vals
    → parse (write_array vals ++ rest) ≡ ok (array (bulks vals)) rest
parse-write_array vals rest hn h =
    parse_lem (write_array vals ++ rest) ∙ (unfold write_array in parse_fuel-array _ vals rest hn h)

-- A bulk string that the runtime can allocate is read back, whatever bytes it holds.
pub parse-write_bulk_string :
    (s rest : Bytes) → Fits s → parse (write_bulk_string s ++ rest) ≡ ok (bulk s) rest
parse-write_bulk_string s rest h =
    parse_lem (write_bulk_string s ++ rest) ∙ parse_fuel-bulk _ s rest h

-- Every 64-bit integer reply is read back.
pub parse-write_integer :
    (z : ℤ) (rest : Bytes)
    → IsInt64 z
    → parse (write_integer z ++ rest) ≡ ok (value b':' [] z nil) rest
unfolding write_integer parse_number
parse-write_integer z rest h = rw (
  append_assoc (itoa z) crlf rest,
  parse_lem,
  parse_fuel_line _ b':' (itoa z) rest (omega arith, itoa-IsLine z),
  parse_body-number,
  atoi-itoa z h,
)

-- A status line is read back, if it holds no line feed.
pub parse-write_simple_string :
    (s rest : Bytes)
    → IsLine s
    → parse (write_simple_string s ++ rest) ≡ ok (value b'+' s (pos 0) nil) rest
unfolding write_simple_string parse_body
parse-write_simple_string s rest h =
    rw (append_assoc s crlf rest, parse_lem, parse_fuel_line _ b'+' s rest (omega arith, h))

-- An error line is read back, if it holds no line feed.
pub parse-write_error :
    (s rest : Bytes) → IsLine s → parse (write_error s ++ rest) ≡ ok (value b'-' s (pos 0) nil) rest
unfolding write_error parse_body
parse-write_error s rest h =
    rw (append_assoc s crlf rest, parse_lem, parse_fuel_line _ b'-' s rest (omega arith, h))
