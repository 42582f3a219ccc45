-- ===== src/Resp/Spoilt.antt =====
-- resp/parser.go: an entry behind the first byte of another one.
use redis_glass.Prelude.{
  ◌≡◌, refl, arith, none, List, ◌++◌, ◌∷◌, append_assoc, length, Bytes, pos, itoa, atoi,
}
use redis_glass.Resp.{
  crlf, err, malformed, parse, parse_fuel, parse_body, parse_array, write_bulks, write_array,
}
use redis_glass.Resp.Lines.{read_line-append, itoa-IsLine}

atoi-star : (s : Bytes) → atoi (b'*' ∷ s) ≡ none
unfolding atoi
atoi-star s = refl

-- The length of the second entry is no number with the star in front of it.
pub parse-spoilt :
    (vals : List Bytes) (rest : Bytes) → parse (b'*' ∷ (write_array vals ++ rest)) ≡ err malformed
unfolding parse parse_fuel parse_body parse_array write_array
parse-spoilt vals rest =
    let n = itoa (pos (length vals)) in
    rw (
      append_assoc n (crlf ++ write_bulks vals) rest,
      read_line-append (b'*' ∷ b'*' ∷ n) (write_bulks vals ++ rest)
          (omega arith, (omega arith, itoa-IsLine (pos (length vals)))),
      atoi-star n,
    )
