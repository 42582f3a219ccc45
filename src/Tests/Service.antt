-- ===== src/Tests/Service.antt =====
-- The theorems on the connections and the recorder, at small inputs.
use redis_glass.Prelude.{
  ◌≡◌, ◌≢◌, refl, true, none, some, [], ◌∷◌, Bytes, codes, pos, to_upper, bytes_eq, ends_with,
  has_prefix, drop_last, atoi, int_laws, false, ◌≤◌, length, arith,
}
use redis_glass.Resp.{nil, cons, bulk, parse, parse_fuel, split_line, read_full}
use redis_glass.Store
use redis_glass.Store.Keys.{match_glob}
use redis_glass.Commands.Strings.{auth}
use redis_glass.Aof.{arg_strings}
use redis_glass.Events.{Recorder, record_command}
use redis_glass.Events.Hotness.{new_hotkeys}
use redis_glass.Events.SlowQueries.{new_slowlog}
use redis_glass.Events.Redaction.{matches_any}
use redis_glass.Events.Stream.{no_subscribers}
use redis_glass.Events.SlowQueries.{maybe_record}
use redis_glass.Events.Latency.{empty_histogram, record_duration}
use redis_glass.Events.Counts.{IsCounted, sum, maybe_record-le, record_duration-IsCounted}
use redis_glass.Events.Silence.{record_command-redacted}
use redis_glass.Events.Bounds.{IsBounded, subscribed, unsubscribed, act, act-IsBounded}
use redis_glass.Commands.State.{Handler, Clock}
use redis_glass.Commands.Dispatch.{auth_v, verb_of, handle}
use redis_glass.Server.{Server, handle_conn}
use redis_glass.Server.Gate.{SameData, handle_opens}
use redis_glass.Store.{approx_memory}
use redis_glass.Store.Operations.{IsSound}
use redis_glass.Store.Tracking.{TracksExpiry-new}
use redis_glass.Commands.Moves.{perform_option, method_of}
use redis_glass.Commands.Moves.Dispatch.{store_behind, handle-store}
use redis_glass.Server.Keeps.{handle_conn-IsSound}
use redis_glass.Server.Closed.{closed_connection}

abbrev recorder : Recorder
recorder = record {
  hist = [];
  hotkeys = new_hotkeys;
  slow = new_slowlog (pos 10) 128;
  sensitive_patterns = codes "session:*" ∷ [];
  subscribers = no_subscribers;
}

abbrev handler : Handler
handler = record { store = Store.new; password = codes "pw"; aof = none; events = some recorder }

abbrev server : Server
server = record { handler = handler; require_auth = true; cmd_count = 0 }

abbrev clock : Clock
clock = record { now = pos 1; until = pos 1; each = λ n. pos 1; seconds = 1; elapsed_us = 20 }

-- The command `SET a b`, from a client that has not sent the password.
abbrev intruder : Bytes
intruder = codes "*3\r\n$3\r\nSET\r\n$1\r\na\r\n$1\r\nb\r\n"

closed_connection_example :
    SameData handler (handle_conn [] (λ h c. []) (codes "c") (λ n. clock) intruder server).1.handler
unfolding handle_conn parse parse_fuel split_line ends_with drop_last atoi read_full bytes_eq
    to_upper
closed_connection_example =
    closed_connection [] (λ h c. []) (codes "c") (λ n. clock) intruder server refl refl

handle_opens_example :
    (verb_of (to_upper (codes "auth")) ≡ auth_v)
    × (arg_strings (cons (bulk (codes "pw")) nil) ≡ codes "pw" ∷ [])
    × (codes "pw" ≢ [])
unfolding handle bytes_eq to_upper auth arg_strings
handle_opens_example =
    handle_opens [] (λ h c. []) (codes "c") clock (codes "auth") (cons (bulk (codes "pw")) nil)
      handler refl

record_command-redacted_example :
    record_command 1 (codes "set") (codes "session:1" ∷ codes "x" ∷ []) (codes "c") 20 recorder
    ≡ record_command 1 (codes "set") (codes "session:1" ∷ codes "yz" ∷ []) (codes "c") 20 recorder
unfolding matches_any match_glob bytes_eq ends_with has_prefix drop_last
record_command-redacted_example =
    record_command-redacted 1 (codes "set") (codes "session:1") (codes "x" ∷ []) (codes "yz" ∷ [])
      (codes "c") 20 recorder refl refl

act-IsBounded_example : IsBounded (act (unsubscribed 0) (act subscribed no_subscribers))
unfolding IsBounded
act-IsBounded_example =
    act-IsBounded (unsubscribed 0) (act subscribed no_subscribers)
      (act-IsBounded subscribed no_subscribers (refl, tt))

new-IsSound : IsSound Store.new
unfolding IsSound approx_memory
new-IsSound = (TracksExpiry-new, λ p. omega int_laws)

handle_conn-IsSound_example :
    IsSound
      (handle_conn []
        (λ h c. [])
        (codes "c")
        (λ n. clock)
        intruder
        (record server { require_auth = false })).1.handler.store
handle_conn-IsSound_example =
    handle_conn-IsSound [] (λ h c. []) (codes "c") (λ n. clock) intruder
      (record server { require_auth = false }) new-IsSound

handle-store_example :
    store_behind (
      handle []
        (λ h c. [])
        clock
        (codes "incr")
        (cons (bulk (codes "a")) nil)
        (codes "c")
        handler
        true)
    ≡ perform_option
        (method_of clock
          (verb_of (to_upper (codes "incr")))
          (arg_strings (cons (bulk (codes "a")) nil)))
        handler.store
handle-store_example =
    handle-store [] (λ h c. []) clock (codes "incr") (cons (bulk (codes "a")) nil) (codes "c")
      handler true

maybe_record-le_example :
    length (maybe_record 1 (codes "GET") [] (codes "c") 20 (new_slowlog (pos 10) 1)).entries
    ≤ (maybe_record 1 (codes "GET") [] (codes "c") 20 (new_slowlog (pos 10) 1)).max_len
maybe_record-le_example =
    maybe_record-le 1 (codes "GET") [] (codes "c") 20 (new_slowlog (pos 10) 1) (omega arith)

record_duration-IsCounted_example : IsCounted (record_duration 700 empty_histogram)
unfolding IsCounted sum
record_duration-IsCounted_example = record_duration-IsCounted 700 empty_histogram (refl, refl)
