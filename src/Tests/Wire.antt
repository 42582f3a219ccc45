-- ===== src/Tests/Wire.antt =====
-- The theorems on the protocol, at small messages.
use redis_glass.Prelude.{◌≡◌, [], ◌∷◌, ◌++◌, codes, pos, negsuc, arith}
use redis_glass.Resp.{
  value, nil, array, bulk, bulks, ok, parse, write_array, write_bulk_string, write_integer,
  write_error,
}
use redis_glass.Resp.RoundTrip.{
  parse-write_array, parse-write_bulk_string, parse-write_integer, parse-write_error,
}
use redis_glass.Resp.Fuel.{Shrinks, parse-Shrinks}

parse-write_array_example :
    parse (write_array (codes "GET" ∷ codes "a" ∷ []) ++ codes "x")
    ≡ ok (array (bulks (codes "GET" ∷ codes "a" ∷ []))) (codes "x")
parse-write_array_example =
    parse-write_array (codes "GET" ∷ codes "a" ∷ []) (codes "x") (omega arith)
      (omega arith, (omega arith, tt))

parse-write_bulk_string_example :
    parse (write_bulk_string (codes "ab") ++ codes "x") ≡ ok (bulk (codes "ab")) (codes "x")
parse-write_bulk_string_example = parse-write_bulk_string (codes "ab") (codes "x") (omega arith)

parse-write_integer_example :
    parse (write_integer (negsuc 41) ++ codes "x") ≡ ok (value b':' [] (negsuc 41) nil) (codes "x")
parse-write_integer_example = parse-write_integer (negsuc 41) (codes "x") (omega arith, omega arith)

parse-write_error_example :
    parse (write_error (codes "OOM") ++ []) ≡ ok (value b'-' (codes "OOM") (pos 0) nil) []
parse-write_error_example =
    parse-write_error (codes "OOM") [] (omega arith, (omega arith, (omega arith, tt)))

parse-Shrinks_example : Shrinks 8 (parse (codes "*1\r\n$9\r\n"))
parse-Shrinks_example = parse-Shrinks (codes "*1\r\n$9\r\n")
