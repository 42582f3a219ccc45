-- ===== src/Resp.antt =====
-- resp/parser.go and resp/writer.go: the wire format. The input of the parser is the list of the
-- bytes that the reader has still to deliver, up to the end of the stream; a writer returns the
-- bytes that it writes. The proofs are in the modules below.
pub mod Lines
pub mod RoundTrip
pub mod Fuel
pub mod Torn
pub mod Spoilt
use redis_glass.Prelude.{
  ℕ, zero, suc, ◌+◌, ◌*◌, ◌^◌, Bool, true, false, ◌&&◌, ◌||◌, Option, none, some, List, [], ◌∷◌,
  ◌++◌, length, take, drop, Bytes, codes, ends_with, drop_last, ℤ, pos, negsuc, itoa, atoi, ltb,
  ◌==◌, if◌then◌else◌,
}

abbrev pub cr : ℕ
cr = 13

abbrev pub lf : ℕ
lf = 10

-- The fields `Typ`, `Str`, `Num` and `Array` of the struct.
mutual
  pub data Value : Type 0 where
    value : ℕ → Bytes → ℤ → Values → Value

  pub data Values : Type 0 where
    nil : Values
    cons : Value → Values → Values

abbrev pub typ : Value → ℕ
typ (value t s n a) = t

abbrev pub str : Value → Bytes
str (value t s n a) = s

abbrev pub elems : Value → Values
elems (value t s n a) = a

-- `Value{Typ: '$', Str: s}`
abbrev pub bulk : Bytes → Value
bulk s = value b'$' s (pos 0) nil

abbrev pub array : Values → Value
array vs = value b'*' [] (pos 0) vs

abbrev pub bulks : List Bytes → Values
bulks [] = nil
bulks (s ∷ ss) = cons (bulk s) (bulks ss)

-- `out_of_fuel` stands for no error of the source.
pub data ParseError : Type 0 where
  malformed eof out_of_fuel : ParseError

-- A value and the input behind it, an error, or a run-time panic with the input not yet read.
pub data Parsed {ℓ} (A : Type ℓ) : Type ℓ where
  ok : A → Bytes → Parsed A
  err : ParseError → Parsed A
  panic : Bytes → Parsed A

abbrev pub bind {ℓ κ} : {A : Type ℓ} {B : Type κ} → Parsed A → (A → Bytes → Parsed B) → Parsed B
bind (ok a s) f = f a s
bind (err e) f = err e
bind (panic s) f = panic s

push_byte : ℕ → Option (Bytes × Bytes) → Option (Bytes × Bytes)
push_byte c none = none
push_byte c (some (l, rest)) = some (c ∷ l, rest)

-- `ReadBytes('\n')`, without the newline.
unfoldable pub split_line : Bytes → Option (Bytes × Bytes)
unfolding push_byte
split_line [] = none
split_line (c ∷ s) = if c == lf then some ([], s) else push_byte c (split_line s)

finish_line : Option (Bytes × Bytes) → Parsed Bytes
finish_line none = err eof
finish_line (some (l, rest)) = if ends_with l cr then ok (drop_last l) rest else err malformed

unfoldable pub read_line : Bytes → Parsed Bytes
unfolding finish_line
read_line s = finish_line (split_line s)

close_bulk : Bytes → Bytes → Parsed Bytes
close_bulk body (c ∷ d ∷ rest) = if c == cr && d == lf then ok body rest else err malformed
close_bulk body _ = err eof

-- `readFull` into a buffer of `n + 2` bytes; the result is `buf[:n]`.
unfoldable pub read_full : ℕ → Bytes → Parsed Bytes
unfolding close_bulk
read_full n s = close_bulk (take n s) (drop n s)

-- `make` panics where the memory asked for is above the address space of the runtime.
abbrev pub max_alloc : ℕ
max_alloc = 2 ^ 48

-- `unsafe.Sizeof(Value{})`
abbrev pub value_size : ℕ
value_size = 56

-- `for i := 0; i < n; i++ { v, err := Parse(r); … }`
pub parse_items : (Bytes → Parsed Value) → ℕ → Bytes → Parsed Values
parse_items p zero s = ok nil s
parse_items p (suc n) s = bind (p s) λ v s'. bind (parse_items p n s') λ vs s''. ok (cons v vs) s''

is_space : ℕ → Bool
is_space c = c == 32 || (ltb 8 c && ltb c 14)

add_field : Bytes → List Bytes → List Bytes
add_field [] fs = fs
add_field (c ∷ cur) fs = (c ∷ cur) ∷ fs

fields_from : Bytes → Bytes → List Bytes
fields_from cur [] = add_field cur []
fields_from cur (c ∷ s) =
    let split = add_field cur (fields_from [] s) in
    let more = fields_from (cur ++ c ∷ []) s in if is_space c then split else more

-- `strings.Fields` on ASCII text.
unfoldable pub fields : Bytes → List Bytes
unfolding fields_from add_field is_space
fields = fields_from []

parse_number : Option ℤ → Bytes → Parsed Value
parse_number none s = err malformed
parse_number (some n) s = ok (value b':' [] n nil) s

parse_bulk : Option ℤ → Bytes → Parsed Value
parse_bulk none s = err malformed
parse_bulk (some (negsuc n)) s = ok (value b'$' [] (negsuc 0) nil) s
parse_bulk (some (pos n)) s =
    if ltb max_alloc (n + 2) then panic s else bind (read_full n s) λ body rest. ok (bulk body) rest

parse_array : (Bytes → Parsed Value) → Option ℤ → Bytes → Parsed Value
parse_array p none s = err malformed
parse_array p (some (negsuc n)) s = ok (array nil) s
parse_array p (some (pos n)) s =
    if ltb max_alloc (n * value_size)
    then panic s
    else bind (parse_items p n s) λ vs rest. ok (array vs) rest

-- The `switch typ`; `p` is the recursive call.
parse_body : (Bytes → Parsed Value) → Bytes → Bytes → Parsed Value
parse_body p [] s = err malformed
parse_body p (t ∷ body) s =
    if t == b'+'
    then ok (value b'+' body (pos 0) nil) s
    else if t == b'-'
    then ok (value b'-' body (pos 0) nil) s
    else if t == b':'
    then parse_number (atoi body) s
    else if t == b'$'
    then parse_bulk (atoi body) s
    else if t == b'*'
    then parse_array p (atoi body) s
    else ok (array (bulks (fields (t ∷ body)))) s

-- `Parse`, with fuel for the nesting of arrays.
unfoldable pub parse_fuel : ℕ → Bytes → Parsed Value
unfolding read_line parse_body parse_number parse_bulk parse_array parse_items
parse_fuel zero s = err out_of_fuel
parse_fuel (suc f) s = bind (read_line s) (parse_body (parse_fuel f))

-- A nested value is behind a line of its own, so the length of the input is fuel enough.
unfoldable pub parse : Bytes → Parsed Value
parse s = parse_fuel (suc (length s)) s

abbrev pub crlf : Bytes
crlf = cr ∷ lf ∷ []

unfoldable pub write_simple_string : Bytes → Bytes
write_simple_string s = b'+' ∷ (s ++ crlf)

unfoldable pub write_error : Bytes → Bytes
write_error msg = b'-' ∷ (msg ++ crlf)

unfoldable pub write_integer : ℤ → Bytes
write_integer n = b':' ∷ (itoa n ++ crlf)

unfoldable pub write_bulk_string : Bytes → Bytes
write_bulk_string s = b'$' ∷ (itoa (pos (length s)) ++ (crlf ++ (s ++ crlf)))

unfoldable pub write_null_bulk : Bytes
write_null_bulk = codes "$-1" ++ crlf

-- The loop of `WriteArray`.
unfoldable pub write_bulks : List Bytes → Bytes
write_bulks [] = []
write_bulks (v ∷ vals) = write_bulk_string v ++ write_bulks vals

unfoldable pub write_array : List Bytes → Bytes
write_array vals = b'*' ∷ (itoa (pos (length vals)) ++ (crlf ++ write_bulks vals))
