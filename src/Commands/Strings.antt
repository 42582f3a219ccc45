-- ===== src/Commands/Strings.antt =====
-- commands/handler.go: the connection's commands, and those on string keys.
use redis_glass.Prelude.{
  ℕ, Bool, true, false, Option, none, some, List, [], ◌∷◌, Bytes, codes, bytes_eq, ℤ, pos, atoi,
  if◌then◌else◌,
}
use redis_glass.Resp.{
  write_simple_string, write_bulk_string, write_null_bulk, write_integer, write_error,
}
use redis_glass.Store.{
  Store, syntax, Result, ok, err, set, get, del, exists, expire, ttl, flush_all, incr_by,
}
use redis_glass.Aof.{parse_set_ttl}
use redis_glass.Commands.State.{
  Handler, Clock, Handled, refuse, Mutation, logged, skipped, failed, mutate_and_log,
  reply_or_error, reply_anyway, bad_integer, wrong_number,
}

unfoldable pub ping : List Bytes → Bytes
ping [] = write_simple_string (codes "PONG")
ping (msg ∷ rest) = write_bulk_string msg

unfoldable pub echo : List Bytes → Handler → Handled
echo (msg ∷ []) h = (write_bulk_string msg, h)
echo _ h = wrong_number (codes "echo") h

-- The reply, and whether the connection is authenticated behind it.
unfoldable pub auth : Bytes → List Bytes → Bool → Bytes × Bool
auth password (given ∷ []) state =
    if bytes_eq password []
    then (write_error (codes "ERR Client sent AUTH, but no password is set"), state)
    else if bytes_eq given password
    then (write_simple_string (codes "OK"), true)
    else (write_error (codes "WRONGPASS invalid username-password pair"), state)
auth password _ state =
    (write_error (codes "ERR wrong number of arguments for 'auth' command"), state)

unfoldable pub of_result : {A : Type 0} → Result A × Store → Mutation A × Store
of_result (ok a, s) = (logged a, s)
of_result (err e, s) = (failed e, s)

unfoldable pub always_logged : {A : Type 0} → A × Store → Mutation A × Store
always_logged (a, s) = (logged a, s)

abbrev pub ok_reply : Unit {0} → Bytes
ok_reply _ = write_simple_string (codes "OK")

abbrev pub int_reply : ℕ → Bytes
int_reply n = write_integer (pos n)

unfoldable pub bulk_or_null : Option Bytes → Bytes
bulk_or_null none = write_null_bulk
bulk_or_null (some v) = write_bulk_string v

module _ (log_failure : Bytes) (clock : Clock) where
  unfoldable pub set_with : List Bytes → Bytes → Bytes → Result ℤ → Handler → Handled
  unfolding mutate_and_log reply_or_error of_result
  set_with args key val (ok ttl) h =
      reply_or_error log_failure ok_reply
        (mutate_and_log (codes "SET", args) (λ s. of_result (set clock.now key val ttl s)) h)
  set_with args key val (err syntax) h = refuse (codes "ERR syntax error") h
  set_with args key val (err e) h = bad_integer h

  unfoldable pub handle_set : List Bytes → Handler → Handled
  unfolding set_with parse_set_ttl
  handle_set (key ∷ val ∷ rest) = set_with (key ∷ val ∷ rest) key val (parse_set_ttl (pos 0) rest)
  handle_set _ = wrong_number (codes "set")

  unfoldable pub handle_get : List Bytes → Handler → Handled
  unfolding bulk_or_null
  handle_get (key ∷ []) h =
      let (v, s) = get clock.now key h.store in (bulk_or_null v, record h { store = s })
  handle_get _ h = wrong_number (codes "get") h

  unfoldable pub handle_del : List Bytes → Handler → Handled
  unfolding mutate_and_log reply_anyway always_logged
  handle_del [] h = wrong_number (codes "del") h
  handle_del (k ∷ ks) h =
      reply_anyway int_reply 0
        (mutate_and_log (codes "DEL", k ∷ ks) (λ s. always_logged (del (k ∷ ks) s)) h)

  unfoldable pub handle_exists : List Bytes → Handler → Handled
  handle_exists [] h = wrong_number (codes "exists") h
  handle_exists (k ∷ ks) h =
      let (n, s) = exists clock.each (k ∷ ks) h.store in (int_reply n, record h { store = s })

  unfoldable pub existed : Bool × Store → Mutation ℕ × Store
  existed (true, s) = (logged 1, s)
  existed (false, s) = (skipped 0, s)

  unfoldable pub expire_by : List Bytes → Bytes → Option ℤ → Handler → Handled
  unfolding mutate_and_log reply_anyway existed
  expire_by args key none h = bad_integer h
  expire_by args key (some n) h =
      reply_anyway int_reply 0
        (mutate_and_log (codes "EXPIRE", args) (λ s. existed (expire clock.now key n s)) h)

  unfoldable pub handle_expire : List Bytes → Handler → Handled
  unfolding expire_by
  handle_expire (key ∷ n ∷ []) h = expire_by (key ∷ n ∷ []) key (atoi n) h
  handle_expire _ h = wrong_number (codes "expire") h

  unfoldable pub handle_ttl : List Bytes → Handler → Handled
  handle_ttl (key ∷ []) h =
      let (n, s) = ttl clock.now clock.until key h.store in
      (write_integer n, record h { store = s })
  handle_ttl _ h = wrong_number (codes "ttl") h

  unfoldable pub handle_flush_all : Handler → Handled
  unfolding mutate_and_log reply_anyway
  handle_flush_all h =
      reply_anyway ok_reply tt
        (mutate_and_log (codes "FLUSHALL", []) (λ s. (logged tt, flush_all s)) h)

  -- The part that the four commands share; `name` is the command as it is logged.
  unfoldable pub add_delta : Bytes → List Bytes → Bytes → ℤ → Handler → Handled
  unfolding mutate_and_log reply_or_error of_result
  add_delta name args key delta h =
      reply_or_error log_failure write_integer
        (mutate_and_log (name, args) (λ s. of_result (incr_by clock.now key delta s)) h)

  -- INCR and DECR: `incrBy` with a fixed delta.
  unfoldable pub handle_step : Bytes → Bytes → ℤ → List Bytes → Handler → Handled
  unfolding add_delta
  handle_step name lower delta (key ∷ []) h = add_delta name (key ∷ []) key delta h
  handle_step name lower delta _ h = wrong_number lower h

  unfoldable pub add_number : Bytes → (ℤ → ℤ) → List Bytes → Bytes → Option ℤ → Handler → Handled
  unfolding add_delta
  add_number name sign args key none h = bad_integer h
  add_number name sign args key (some n) h = add_delta name args key (sign n) h

  -- INCRBY, and with `negate` DECRBY.
  unfoldable pub handle_step_by : Bytes → Bytes → (ℤ → ℤ) → List Bytes → Handler → Handled
  unfolding add_number
  handle_step_by name lower sign (key ∷ n ∷ []) h =
      add_number name sign (key ∷ n ∷ []) key (atoi n) h
  handle_step_by name lower sign _ h = wrong_number lower h
