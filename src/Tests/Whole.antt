-- ===== src/Tests/Whole.antt =====
-- The theorems on the whole server, its start and its dashboard, at small inputs.
use redis_glass.Prelude.{
  ◌≡◌, refl, arith, true, false, none, some, List, [], ◌∷◌, ◌++◌, Bytes, codes, bytes_eq, to_upper,
  to_lower, insert, lookup, wrap, scale, pos, suc, ◌-◌, length, atoi, ends_with, drop_last,
  if◌then◌else◌,
}
use redis_glass.Resp.{nil, cons, bulk, parse, parse_fuel, split_line, read_full}
use redis_glass.Store.{Store, new, check_memory, set_max_memory}
use redis_glass.Store.Lists.{rpush}
use redis_glass.Store.Tracking.{TracksExpiry-new}
use redis_glass.Aof.{
  Command, encode_log, arg_strings, entry_command, replay_command, replay_entry, after_parse,
  replay_loop, replay, done,
}
use redis_glass.Aof.Rewrite
use redis_glass.Aof.Rewrite.{
  Aof, every_sec, always, complete, write_locked, rewrite_begin, rewrite_finish,
}
use redis_glass.Aof.Replay.{run_log}
use redis_glass.Aof.Spoilt.{replay-spoilt}
use redis_glass.Commands.State.{Handler, Clock}
use redis_glass.Server.{Server, handle_conn}
use redis_glass.Commands.Dispatch.{verb_of}
use redis_glass.Server.Gate.{SameData}
use redis_glass.Server.Stranger.{IsNoLogin, NeverLogsIn}
use redis_glass.System.{Event, request, tick, begin_rewrite, end_rewrite, serve_events}
use redis_glass.System.Trace.{trace}
use redis_glass.System.Exact.{started}
use redis_glass.System.Durability.{IsOnDisk, serve_events-IsOnDisk}
use redis_glass.Config.{parse_fsync_policy, Env, parse_mb_env}
use redis_glass.Startup.{
  Boot, dashboard_of, wire, open_log, load, Outside, Dashboard, server_of, boot,
}
use redis_glass.Startup.Running.{IsUp, boot-IsUp, boot_guarded}
use redis_glass.Dashboard.{Request, root, unauthorized, serve_request}
use redis_glass.Dashboard.Login.{serve_request_lem}
use redis_glass.Dashboard.Escape.{escape_html, attribute_value, title_of, quote, title_cut}

abbrev pub clock : Clock
clock = record { now = pos 1; until = pos 1; each = λ n. pos 1; seconds = 1; elapsed_us = 20 }

abbrev pub push : Command
push = (codes "RPUSH", codes "a" ∷ codes "b" ∷ [])

-- A push, a tick of the sampler, and a rewrite during which a second push runs.
abbrev pub events : List Event
events =
    request clock (codes "RPUSH") (cons (bulk (codes "a")) (cons (bulk (codes "b")) nil))
      (codes "c") true
    ∷ tick (λ n. pos 2) (λ n s. [])
    ∷ begin_rewrite
    ∷ request clock (codes "RPUSH") (cons (bulk (codes "a")) (cons (bulk (codes "d")) nil))
        (codes "c") true
    ∷ end_rewrite (pos 3) complete
    ∷ []

abbrev pub handler : Handler
handler = record { store = new; password = []; aof = none; events = none }

serve_events-IsOnDisk_example :
    IsOnDisk [] new
      (trace [] (λ h c. []) events (started handler new [] always))
      (serve_events [] (λ h c. []) events (started handler new [] always))
serve_events-IsOnDisk_example =
    serve_events-IsOnDisk [] (λ h c. []) handler [] new events TracksExpiry-new refl

replay-spoilt_example :
    replay (λ n. pos 1) (encode_log (push ∷ []) ++ (b'*' ∷ encode_log (push ∷ push ∷ []))) new
    ≡ done (
        run_log
          (suc (length (encode_log (push ∷ []) ++ (b'*' ∷ encode_log (push ∷ push ∷ [])))) - 1)
          (λ n. pos 1)
          (push ∷ [])
          new)
replay-spoilt_example =
    replay-spoilt (λ n. pos 1) (push ∷ []) push (push ∷ []) new
      ((omega arith, (omega arith, (omega arith, (omega arith, tt)))), tt)

abbrev dashboard : Dashboard
dashboard = record { port = codes "8080"; password = codes "pw" }

abbrev visit : Request
visit = record { path = codes "/"; credentials = some (codes "px") }

serve_request_lem_example : serve_request (λ p. root) (λ s. s) dashboard visit ≡ unauthorized
unfolding bytes_eq
serve_request_lem_example = serve_request_lem (λ p. root) (λ s. s) dashboard visit refl (λ p e. e)

title_cut_example :
    attribute_value (title_of (codes "a" ++ quote ∷ codes " b") []) ≡ escape_html (codes "a")
title_cut_example = title_cut (codes "a") (codes " b") [] (omega arith, tt)

-- An environment with a log and a password.
abbrev env : Env
env = λ name.
    if bytes_eq name (codes "AOF_PATH")
    then some (codes "f")
    else if bytes_eq name (codes "REDIS_PASSWORD")
    then some (codes "pw")
    else none

-- A log with the push in it.
abbrev content : Bytes
content = codes "*3\r\n$5\r\nRPUSH\r\n$1\r\na\r\n$1\r\nb\r\n"

abbrev pub loaded : Store
loaded = record new { lists = (codes "a", codes "b" ∷ []) ∷ [] }

abbrev outside : Outside
outside = record { env = env; file = some content; clock = λ n. pos 1; listens = true }

abbrev server : Server
server = server_of env loaded (some (Rewrite.new content every_sec))

boots : boot outside ≡ Boot.serves server (dashboard_of env)
unfolding boot wire open_log load replay replay_loop after_parse replay_entry replay_command rpush
    check_memory entry_command arg_strings to_upper atoi ends_with drop_last read_full bytes_eq
    parse parse_fuel split_line parse_mb_env set_max_memory parse_fsync_policy wrap to_lower scale
    insert lookup
boots = refl

boot-IsUp_example :
    IsUp content server
      (trace [] (λ h c. []) events (record { handler = server.handler; pending = none }))
      (serve_events [] (λ h c. []) events (record { handler = server.handler; pending = none }))
unfolding bytes_eq
boot-IsUp_example =
    boot-IsUp [] (λ h c. []) outside content server (dashboard_of env) events refl refl boots refl

-- The command `SET a b`, from a client that has not sent the password.
abbrev intruder : Bytes
intruder = codes "*3\r\n$3\r\nSET\r\n$1\r\na\r\n$1\r\nb\r\n"

no_login : NeverLogsIn (codes "pw") (suc (length intruder)) intruder
unfolding NeverLogsIn IsNoLogin verb_of parse parse_fuel split_line ends_with drop_last atoi
    read_full bytes_eq to_upper
no_login = ((λ e. cc e), tt)

boot_guarded_example :
    ((handle_conn [] (λ h c. []) (codes "c") (λ n. clock) intruder server).2 ≡ false)
    × SameData server.handler
        (handle_conn [] (λ h c. []) (codes "c") (λ n. clock) intruder server).1.handler
unfolding bytes_eq
boot_guarded_example =
    boot_guarded [] (λ h c. []) outside server (dashboard_of env) (codes "c") (λ n. clock) intruder
      refl boots no_login
