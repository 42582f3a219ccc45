-- ===== src/Commands/Collections.antt =====
-- commands/handler.go: the commands on lists and hashes, and those that walk the keys.
use redis_glass.Prelude.{
  ℕ, ◌%◌, ◌||◌, Option, none, some, List, [], ◌∷◌, ◌++◌, length, Bytes, codes, bytes_eq, to_upper,
  ℤ, pos, itoa, atoi, ltb, ◌==◌, if◌then◌else◌,
}
use redis_glass.Resp.{crlf, write_bulk_string, write_array}
use redis_glass.Store.{Store, syntax, bad_number, Result, ok, err}
use redis_glass.Store.Lists.{lrange}
use redis_glass.Store.Hashes.{hset, hget, hdel}
use redis_glass.Store.Keys.{keys, Scanned, page, panic, scan}
use redis_glass.Aof.{and_then}
use redis_glass.Commands.State.{
  Handler, Clock, Handled, refuse, mutate_and_log, reply_or_error, reply_anyway, bad_integer,
  wrong_number,
}
use redis_glass.Commands.Strings.{of_result, always_logged, int_reply, bulk_or_null}

unfoldable pub range_reply : Bytes → Option ℤ → Option ℤ → Handler → Handled
range_reply key none stop h = bad_integer h
range_reply key (some start) none h = bad_integer h
range_reply key (some start) (some stop) h = (write_array (lrange key start stop h.store), h)

unfoldable pub handle_lrange : List Bytes → Handler → Handled
unfolding range_reply
handle_lrange (key ∷ start ∷ stop ∷ []) h = range_reply key (atoi start) (atoi stop) h
handle_lrange _ h = wrong_number (codes "lrange") h

unfoldable pub handle_hget : List Bytes → Handler → Handled
unfolding bulk_or_null
handle_hget (key ∷ field ∷ []) h = (bulk_or_null (hget key field h.store), h)
handle_hget _ h = wrong_number (codes "hget") h

module _ (log_failure : Bytes) where
  unfoldable pub handle_push :
      Bytes
      → Bytes
      → (Bytes → List Bytes → Store → Result ℕ × Store)
      → List Bytes
      → Handler
      → Handled
  unfolding mutate_and_log reply_or_error of_result
  handle_push name lower op (key ∷ v ∷ vals) h =
      reply_or_error log_failure int_reply
        (mutate_and_log (name, key ∷ v ∷ vals) (λ s. of_result (op key (v ∷ vals) s)) h)
  handle_push name lower op _ h = wrong_number lower h

  unfoldable pub handle_hset : List Bytes → Handler → Handled
  unfolding mutate_and_log reply_or_error of_result
  handle_hset [] h = wrong_number (codes "hset") h
  handle_hset (key ∷ pairs) h =
      if ltb (length (key ∷ pairs)) 3 || length (key ∷ pairs) % 2 == 0
      then wrong_number (codes "hset") h
      else reply_or_error log_failure int_reply
          (mutate_and_log (codes "HSET", key ∷ pairs) (λ s. of_result (hset key pairs s)) h)

unfoldable pub handle_hdel : List Bytes → Handler → Handled
unfolding mutate_and_log reply_anyway always_logged
handle_hdel (key ∷ f ∷ fs) h =
    reply_anyway int_reply 0
      (mutate_and_log (codes "HDEL", key ∷ f ∷ fs) (λ s. always_logged (hdel key (f ∷ fs) s)) h)
handle_hdel _ h = wrong_number (codes "hdel") h

unfoldable pub handle_keys : Clock → List Bytes → Handler → Handled
handle_keys clock (pattern ∷ []) h = (write_array (keys clock.now pattern h.store), h)
handle_keys clock _ h = wrong_number (codes "keys") h

-- The options of SCAN: a pattern and a count.
abbrev pub ScanOptions : Type 0
ScanOptions = Bytes × ℤ

unfoldable pub count_in : Bytes → Option ℤ → Result ScanOptions
count_in pattern none = err bad_number
count_in pattern (some n) = ok (pattern, n)

unfoldable pub scan_option : Bytes → Bytes → ScanOptions → Result ScanOptions
unfolding count_in
scan_option o v (pattern, count) =
    if bytes_eq (to_upper o) (codes "MATCH")
    then ok (v, count)
    else if bytes_eq (to_upper o) (codes "COUNT")
    then count_in pattern (atoi v)
    else err syntax

unfoldable pub parse_scan_options : ScanOptions → List Bytes → Result ScanOptions
unfolding scan_option
parse_scan_options opts [] = ok opts
parse_scan_options opts (o ∷ []) = err syntax
parse_scan_options opts (o ∷ v ∷ rest) =
    and_then (scan_option o v opts) λ opts'. parse_scan_options opts' rest

-- A reply, or the panic of `Scan`.
unfoldable pub scan_reply : Scanned → Handler → Option Handled
scan_reply panic h = none
scan_reply (page next ks) h =
    some (codes "*2" ++ (crlf ++ (write_bulk_string (itoa (pos next)) ++ write_array ks)), h)

unfoldable pub scan_with : Clock → ℤ → Result ScanOptions → Handler → Option Handled
unfolding scan_reply
scan_with clock cursor (ok (pattern, count)) h =
    scan_reply (scan clock.now cursor pattern count h.store) h
scan_with clock cursor (err syntax) h = some (refuse (codes "ERR syntax error") h)
scan_with clock cursor (err e) h = some (bad_integer h)

unfoldable pub scan_from_cursor : Clock → Option ℤ → List Bytes → Handler → Option Handled
unfolding scan_with parse_scan_options
scan_from_cursor clock none rest h = some (refuse (codes "ERR invalid cursor") h)
scan_from_cursor clock (some cursor) rest h =
    scan_with clock cursor (parse_scan_options (codes "*", pos 10) rest) h

unfoldable pub handle_scan : Clock → List Bytes → Handler → Option Handled
unfolding scan_from_cursor
handle_scan clock [] h = some (wrong_number (codes "scan") h)
handle_scan clock (cursor ∷ rest) h = scan_from_cursor clock (atoi cursor) rest h
