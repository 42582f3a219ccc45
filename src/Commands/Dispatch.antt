-- ===== src/Commands/Dispatch.antt =====
-- commands/handler.go: `Handle`.
use redis_glass.Prelude.{
  Bool, Option, none, some, List, [], ◌∷◌, ◌++◌, Bytes, codes, bytes_eq, to_upper, pos, negsuc,
  if◌then◌else◌,
}
use redis_glass.Resp.{Values, write_error, write_bulk_string}
use redis_glass.Store.Lists.{lpush, rpush}
use redis_glass.Aof.{arg_strings, negate}
use redis_glass.Events.{Recorder, record_command}
use redis_glass.Commands.State.{Handler, Clock, Handled}
use redis_glass.Commands.Strings.{
  ping, echo, auth, handle_set, handle_get, handle_del, handle_exists, handle_expire, handle_ttl,
  handle_flush_all, handle_step, handle_step_by,
}
use redis_glass.Commands.Collections.{
  handle_keys, handle_scan, handle_push, handle_lrange, handle_hset, handle_hget, handle_hdel,
}
use redis_glass.Commands.Observe.{handle_slowlog, handle_hotkeys, handle_command, handle_bg_rewrite}

-- The labels of the `switch`.
pub data Verb : Type 0 where
  ping_v echo_v auth_v set_v get_v del_v exists_v expire_v ttl_v keys_v scan_v flush_all_v : Verb
  incr_v decr_v incr_by_v decr_by_v lpush_v rpush_v lrange_v hset_v hget_v hdel_v : Verb
  info_v bg_rewrite_v slowlog_v hotkeys_v command_v unknown_v : Verb

abbrev table : List (Bytes × Verb)
table =
    (codes "PING", ping_v)
    ∷ (codes "ECHO", echo_v)
    ∷ (codes "AUTH", auth_v)
    ∷ (codes "SET", set_v)
    ∷ (codes "GET", get_v)
    ∷ (codes "DEL", del_v)
    ∷ (codes "EXISTS", exists_v)
    ∷ (codes "EXPIRE", expire_v)
    ∷ (codes "TTL", ttl_v)
    ∷ (codes "KEYS", keys_v)
    ∷ (codes "SCAN", scan_v)
    ∷ (codes "FLUSHALL", flush_all_v)
    ∷ (codes "INCR", incr_v)
    ∷ (codes "DECR", decr_v)
    ∷ (codes "INCRBY", incr_by_v)
    ∷ (codes "DECRBY", decr_by_v)
    ∷ (codes "LPUSH", lpush_v)
    ∷ (codes "RPUSH", rpush_v)
    ∷ (codes "LRANGE", lrange_v)
    ∷ (codes "HSET", hset_v)
    ∷ (codes "HGET", hget_v)
    ∷ (codes "HDEL", hdel_v)
    ∷ (codes "INFO", info_v)
    ∷ (codes "BGREWRITEAOF", bg_rewrite_v)
    ∷ (codes "SLOWLOG", slowlog_v)
    ∷ (codes "HOTKEYS", hotkeys_v)
    ∷ (codes "COMMAND", command_v)
    ∷ []

find_verb : Bytes → List (Bytes × Verb) → Verb
find_verb upper [] = unknown_v
find_verb upper ((name, v) ∷ rest) = if bytes_eq upper name then v else find_verb upper rest

unfoldable pub verb_of : Bytes → Verb
unfolding find_verb
verb_of upper = find_verb upper table

-- The state of the connection is whether it is authenticated. A panic is caught by the server.
pub data Response : Type 0 where
  replied : Bytes → Handler → Bool → Response
  panicked : Handler → Bool → Response

abbrev pub keep : Bool → Handled → Response
keep state (bytes, h) = replied bytes h state

abbrev pub keep_scan : Bool → Handler → Option Handled → Response
keep_scan state h none = panicked h state
keep_scan state h (some r) = keep state r

module _ (log_failure : Bytes) (info_body : Handler → Clock → Bytes) (clock : Clock) where
  unfoldable pub run_verb : Verb → Bytes → List Bytes → Handler → Bool → Response
  unfolding handle_set handle_get handle_del handle_exists handle_expire handle_ttl handle_flush_all
      handle_step handle_step_by
  run_verb ping_v cmd args h state = replied (ping args) h state
  run_verb echo_v cmd args h state = keep state (echo args h)
  run_verb auth_v cmd args h state =
      let (bytes, state') = auth h.password args state in replied bytes h state'
  run_verb set_v cmd args h state = keep state (handle_set log_failure clock args h)
  run_verb get_v cmd args h state = keep state (handle_get log_failure clock args h)
  run_verb del_v cmd args h state = keep state (handle_del log_failure clock args h)
  run_verb exists_v cmd args h state = keep state (handle_exists log_failure clock args h)
  run_verb expire_v cmd args h state = keep state (handle_expire log_failure clock args h)
  run_verb ttl_v cmd args h state = keep state (handle_ttl log_failure clock args h)
  run_verb keys_v cmd args h state = keep state (handle_keys clock args h)
  run_verb scan_v cmd args h state = keep_scan state h (handle_scan clock args h)
  run_verb flush_all_v cmd args h state = keep state (handle_flush_all log_failure clock h)
  run_verb incr_v cmd args h state =
      keep state (handle_step log_failure clock (codes "INCR") (codes "incr") (pos 1) args h)
  run_verb decr_v cmd args h state =
      keep state (handle_step log_failure clock (codes "DECR") (codes "decr") (negsuc 0) args h)
  run_verb incr_by_v cmd args h state =
      keep state
        (handle_step_by log_failure clock (codes "INCRBY") (codes "incrby") (λ n. n) args h)
  run_verb decr_by_v cmd args h state =
      keep state (handle_step_by log_failure clock (codes "DECRBY") (codes "decrby") negate args h)
  run_verb lpush_v cmd args h state =
      keep state (handle_push log_failure (codes "LPUSH") (codes "lpush") lpush args h)
  run_verb rpush_v cmd args h state =
      keep state (handle_push log_failure (codes "RPUSH") (codes "rpush") rpush args h)
  run_verb lrange_v cmd args h state = keep state (handle_lrange args h)
  run_verb hset_v cmd args h state = keep state (handle_hset log_failure args h)
  run_verb hget_v cmd args h state = keep state (handle_hget args h)
  run_verb hdel_v cmd args h state = keep state (handle_hdel args h)
  run_verb info_v cmd args h state = replied (write_bulk_string (info_body h clock)) h state
  run_verb bg_rewrite_v cmd args h state = keep state (handle_bg_rewrite h)
  run_verb slowlog_v cmd args h state = keep state (handle_slowlog args h)
  run_verb hotkeys_v cmd args h state = keep state (handle_hotkeys clock args h)
  run_verb command_v cmd args h state = replied (handle_command args) h state
  run_verb unknown_v cmd args h state =
      replied (write_error (codes "ERR unknown command '" ++ (cmd ++ codes "'"))) h state

  unfoldable pub record_events : Bytes → List Bytes → Bytes → Option Recorder → Option Recorder
  record_events upper args client_addr none = none
  record_events upper args client_addr (some r) =
      some (record_command clock.seconds upper args client_addr clock.elapsed_us r)

  -- A panic passes the recorder by.
  unfoldable pub recorded : Bytes → List Bytes → Bytes → Response → Response
  unfolding record_events
  recorded upper args client_addr (replied bytes h state) =
      replied bytes (record h { events = record_events upper args client_addr h.events }) state
  recorded upper args client_addr (panicked h state) = panicked h state

  unfoldable pub handle : Bytes → Values → Bytes → Handler → Bool → Response
  unfolding run_verb recorded verb_of
  handle cmd args client_addr h state =
      let upper = to_upper cmd in
      recorded upper (arg_strings args) client_addr
        (run_verb (verb_of upper) cmd (arg_strings args) h state)
