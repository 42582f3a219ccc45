-- ===== src/Aof.antt =====
-- store/aof.go: the log. A command is appended as a RESP array; a replay reads the file from its
-- start and runs each command against the store.
pub mod Snapshot
pub mod Compaction
pub mod Replay
pub mod Torn
pub mod Spoilt
pub mod Durable
pub mod Recovery
pub mod Rewrite
pub mod Node
pub mod ExactlyOnce
use redis_glass.Prelude.{
  ℕ, zero, suc, ◌+◌, ◌%◌, Bool, true, false, ◌||◌, Option, none, some, List, [], ◌∷◌, ◌++◌, length,
  Bytes, codes, bytes_eq, to_upper, ℤ, pos, negsuc, ◌-ℤ◌, wrap, atoi, ltb, ◌==◌, if◌then◌else◌,
}
use redis_glass.Resp
use redis_glass.Resp.{Value, Values, value, nil, cons, Parsed, str, parse, write_array}
use redis_glass.Store.{
  Store, Error, bad_arguments, bad_number, syntax, unsupported, Result, ok, err, second,
  millisecond, duration, set, del, expire, incr_by, flush_all,
}
use redis_glass.Store.Lists.{lpush, rpush}
use redis_glass.Store.Hashes.{hset, hdel}

-- A command and its arguments.
abbrev pub Command : Type 0
Command = Bytes × List Bytes

-- The bytes of `writeLocked` and of `writeRESPCommand`, which are those of `WriteArray`.
unfoldable pub encode : Command → Bytes
encode (cmd, args) = write_array (cmd ∷ args)

unfoldable pub encode_log : List Command → Bytes
encode_log [] = []
encode_log (c ∷ cs) = encode c ++ encode_log cs

-- A sequence of steps that may fail.
abbrev pub and_then {ℓ κ} : {A : Type ℓ} {B : Type κ} → Result A → (A → Result B) → Result B
and_then (ok a) f = f a
and_then (err e) f = err e

unfoldable pub ttl_in : Option ℤ → ℕ → Result ℤ
ttl_in none unit = err bad_number
ttl_in (some n) unit = ok (duration n unit)

-- One option of SET with its value.
unfoldable pub set_option : Bytes → Bytes → Result ℤ
unfolding ttl_in
set_option o v =
    if bytes_eq (to_upper o) (codes "EX")
    then ttl_in (atoi v) second
    else if bytes_eq (to_upper o) (codes "PX")
    then ttl_in (atoi v) millisecond
    else err syntax

-- The loop of `parseSetTTL`, and of the handler of SET (commands/handler.go).
unfoldable pub parse_set_ttl : ℤ → List Bytes → Result ℤ
unfolding set_option
parse_set_ttl ttl [] = ok ttl
parse_set_ttl ttl (o ∷ []) = err syntax
parse_set_ttl ttl (o ∷ v ∷ rest) = and_then (set_option o v) λ t. parse_set_ttl t rest

-- A step's error, or the success of a step whose reply is dropped.
abbrev pub drop_reply {ℓ} : {A : Type ℓ} → Result A × Store → Result (Unit {0}) × Store
drop_reply (ok a, s) = (ok tt, s)
drop_reply (err e, s) = (err e, s)

abbrev pub succeed {ℓ} : {A : Type ℓ} → A × Store → Result (Unit {0}) × Store
succeed (a, s) = (ok tt, s)

abbrev pub refuse : Error → Store → Result (Unit {0}) × Store
refuse e s = (err e, s)

abbrev pub with_value {ℓ} :
    {A : Type ℓ}
    → Result A
    → (A → Store → Result (Unit {0}) × Store)
    → Store
    → Result (Unit {0}) × Store
with_value (ok a) f s = f a s
with_value (err e) f s = (err e, s)

abbrev pub number : Option ℤ → Result ℤ
number none = err bad_number
number (some n) = ok n

unfoldable pub replay_set : ℤ → List Bytes → Store → Result (Unit {0}) × Store
unfolding parse_set_ttl
replay_set now (k ∷ v ∷ rest) = with_value (parse_set_ttl (pos 0) rest) λ ttl s. set now k v ttl s
replay_set now _ = refuse bad_arguments

unfoldable pub replay_del : List Bytes → Store → Result (Unit {0}) × Store
replay_del [] s = (err bad_arguments, s)
replay_del (k ∷ ks) s = succeed (del (k ∷ ks) s)

unfoldable pub replay_expire : ℤ → List Bytes → Store → Result (Unit {0}) × Store
replay_expire now (k ∷ n ∷ []) =
    with_value (number (atoi n)) λ seconds s. succeed (expire now k seconds s)
replay_expire now _ = refuse bad_arguments

unfoldable pub replay_step : ℤ → ℤ → List Bytes → Store → Result (Unit {0}) × Store
replay_step now delta (k ∷ []) = λ s. drop_reply (incr_by now k delta s)
replay_step now delta _ = refuse bad_arguments

-- `-n`, in 64 bits.
unfoldable pub negate : ℤ → ℤ
negate n = wrap (pos 0 -ℤ n)

-- INCRBY, and with `negate` DECRBY.
unfoldable pub replay_step_by : ℤ → (ℤ → ℤ) → List Bytes → Store → Result (Unit {0}) × Store
replay_step_by now sign (k ∷ n ∷ []) =
    with_value (number (atoi n)) λ delta s. drop_reply (incr_by now k (sign delta) s)
replay_step_by now sign _ = refuse bad_arguments

unfoldable pub replay_push :
    (Bytes → List Bytes → Store → Result ℕ × Store) → List Bytes → Store → Result (Unit {0}) × Store
replay_push op (k ∷ v ∷ vals) s = drop_reply (op k (v ∷ vals) s)
replay_push op _ s = (err bad_arguments, s)

unfoldable pub replay_hset : List Bytes → Store → Result (Unit {0}) × Store
replay_hset [] s = (err bad_arguments, s)
replay_hset (k ∷ pairs) s =
    if ltb (length (k ∷ pairs)) 3 || length (k ∷ pairs) % 2 == 0
    then (err bad_arguments, s)
    else drop_reply (hset k pairs s)

unfoldable pub replay_hdel : List Bytes → Store → Result (Unit {0}) × Store
replay_hdel (k ∷ f ∷ fs) s = succeed (hdel k (f ∷ fs) s)
replay_hdel _ s = (err bad_arguments, s)

unfoldable pub replay_command : ℤ → Command → Store → Result (Unit {0}) × Store
unfolding replay_set replay_del replay_expire replay_step negate replay_step_by replay_push
    replay_hset replay_hdel
replay_command now (cmd, args) s =
    if bytes_eq cmd (codes "SET")
    then replay_set now args s
    else if bytes_eq cmd (codes "DEL")
    then replay_del args s
    else if bytes_eq cmd (codes "EXPIRE")
    then replay_expire now args s
    else if bytes_eq cmd (codes "INCR")
    then replay_step now (pos 1) args s
    else if bytes_eq cmd (codes "DECR")
    then replay_step now (negsuc 0) args s
    else if bytes_eq cmd (codes "INCRBY")
    then replay_step_by now (λ n. n) args s
    else if bytes_eq cmd (codes "DECRBY")
    then replay_step_by now negate args s
    else if bytes_eq cmd (codes "LPUSH")
    then replay_push lpush args s
    else if bytes_eq cmd (codes "RPUSH")
    then replay_push rpush args s
    else if bytes_eq cmd (codes "HSET")
    then replay_hset args s
    else if bytes_eq cmd (codes "HDEL")
    then replay_hdel args s
    else if bytes_eq cmd (codes "FLUSHALL")
    then (ok tt, flush_all s)
    else (err unsupported, s)

unfoldable pub arg_strings : Values → List Bytes
arg_strings nil = []
arg_strings (cons v vs) = str v ∷ arg_strings vs

-- What an entry of the file asks for: nothing, unless it is an array with a command in it.
unfoldable pub entry_command : Value → Option Command
unfolding arg_strings
entry_command (value t s n nil) = none
entry_command (value t s n (cons v vs)) =
    if t == b'*' then some (to_upper (str v), arg_strings vs) else none

-- A malformed or unsupported entry is skipped.
unfoldable pub replay_entry : ℤ → Option Command → Store → Store
unfolding replay_command
replay_entry now none s = s
replay_entry now (some c) s = (replay_command now c s).1

-- A replay ends with a state, or the process with a panic, which nothing recovers at start-up.
pub data Replayed : Type 0 where
  done : Store → Replayed
  crashed : Replayed

-- The body of the loop of `Replay`; `go` is the rest of the loop.
unfoldable pub after_parse : (Bytes → Store → Replayed) → ℤ → Store → Parsed Value → Replayed
unfolding entry_command replay_entry
after_parse go now s (Resp.err e) = done s
after_parse go now s (Resp.panic rest) = crashed
after_parse go now s (Resp.ok v rest) = go rest (replay_entry now (entry_command v) s)

-- `Replay`, on fuel; `clock` is the time at which an entry is run, by the fuel left.
unfoldable pub replay_loop : ℕ → (ℕ → ℤ) → Bytes → Store → Replayed
unfolding after_parse
replay_loop zero clock input s = done s
replay_loop (suc f) clock input s = after_parse (replay_loop f clock) (clock f) s (parse input)

-- Each entry takes a byte at least, so the length of the file is fuel enough.
unfoldable pub replay : (ℕ → ℤ) → Bytes → Store → Replayed
unfolding replay_loop
replay clock file s = replay_loop (suc (length file)) clock file s
