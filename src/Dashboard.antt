-- ===== src/Dashboard.antt =====
-- monitor/dashboard.go: the routes of the dashboard, its login, and the stream of one client.
pub mod Login
pub mod Escape
pub mod Page
use redis_glass.Prelude.{
  ℕ, ◌+◌, Bool, true, false, not, ◌||◌, Option, none, some, List, [], ◌∷◌, ◌++◌, Bytes, codes,
  bytes_eq, ℤ, pos, ◌-ℤ◌, ◌==◌, if◌then◌else◌,
}
use redis_glass.Events.{Recorder}
use redis_glass.Events.CommandStats.{CommandStat, command_stats}
use redis_glass.Events.Hotness.{top}
use redis_glass.Events.SlowQueries.{SlowEntry, slowlog_get}
use redis_glass.Events.Stream.{Event}
use redis_glass.Store.{key_count, expiry_count, approx_memory}
use redis_glass.Server.{Server}
use redis_glass.Config.{is_empty}
use redis_glass.Startup.{Dashboard}

-- A request: its path, and the password of its Basic credentials, where there are any.
pub record Request : Type 0 where
  pub path : Bytes
  pub credentials : Option Bytes

-- What `http.ServeMux` picks for a path: one of the two handlers, or an answer of its own.
pub data Choice : Type 0 where
  root monitor own_answer : Choice

pub data Answer : Type 0 where
  page stream not_found unauthorized redirected : Answer

-- The two handlers of `StartDashboard`.
unfoldable pub answer_for : Bytes → Choice → Answer
answer_for path root = if bytes_eq path (codes "/") then page else not_found
answer_for path monitor = stream
answer_for path own_answer = redirected

abbrev pub given : Option Bytes → Bytes
given none = []
given (some pass) = pass

abbrev pub has_credentials : Option Bytes → Bool
has_credentials none = false
has_credentials (some pass) = true

module _ (choose : Bytes → Choice) (sha256 : Bytes → Bytes) where
  unfoldable pub route : Request → Answer
  unfolding answer_for
  route r = answer_for r.path (choose r.path)

  -- `requireAuth`. `ConstantTimeCompare` tells whether two sums are equal.
  unfoldable pub require_auth : Bytes → (Request → Answer) → Request → Answer
  require_auth password next r =
      let want = sha256 password in
      let got = sha256 (given r.credentials) in
      if not (has_credentials r.credentials) || not (bytes_eq want got)
      then unauthorized
      else next r

  -- The handler that `StartDashboard` serves.
  unfoldable pub serve_request : Dashboard → Request → Answer
  unfolding route require_auth
  serve_request src r = if is_empty src.password then route r else require_auth src.password route r

-- `Stats`.
pub record Stats : Type 0 where
  pub uptime : Bytes
  pub conns : ℕ
  pub commands : ℕ
  pub ops_per_sec : ℤ
  pub keys : ℕ
  pub expires : ℕ
  pub aof_path : Bytes
  pub go_version : Bytes
  pub memory_used_bytes : ℕ
  pub memory_max_bytes : ℤ

-- The `getStats` of `main`; how long the server is up, in the run-time's words, and the run-time's version
-- are arguments.
unfoldable pub get_stats : Bytes → Bytes → ℕ → Bytes → ℤ → Server → Stats
get_stats uptime go_version conns aof_path max_memory_bytes srv = record {
  uptime = uptime;
  conns = conns;
  commands = srv.cmd_count;
  ops_per_sec = pos 0;
  keys = key_count srv.handler.store;
  expires = expiry_count srv.handler.store;
  aof_path = if is_empty aof_path then codes "(disabled)" else aof_path;
  go_version = go_version;
  memory_used_bytes = approx_memory srv.handler.store;
  memory_max_bytes = max_memory_bytes;
}

-- `statsPayload` and `cmdPayload`.
pub data Message : Type 0 where
  stats_message : Stats → List SlowEntry → List (Bytes × ℕ) → List CommandStat → Message
  cmd_message : Event → Message

unfoldable pub ops_since : ℕ → ℕ → ℤ
ops_since last_commands commands =
    if last_commands == 0 then pos 0 else pos commands -ℤ pos last_commands

-- `sendStats`: what it sends, and the number of commands that it keeps.
unfoldable pub payload : ℕ → Stats → Option Recorder → Message
payload now st none = stats_message st [] [] []
payload now st (some r) =
    stats_message st (slowlog_get (pos 20) r.slow) (top now (pos 10) r.hotkeys)
      (command_stats r.hist)

unfoldable pub send_stats : ℕ → Stats → Option Recorder → ℕ → Message × ℕ
unfolding ops_since payload
send_stats now st events last_commands = (
  payload now (record st { ops_per_sec = ops_since last_commands st.commands }) events,
  st.commands,
)

-- What the `select` of `serveMonitorStream` finds; the stream ends with its client.
pub data Wake : Type 0 where
  client_gone channel_closed : Wake
  command_run : Event → Wake
  second_passed : ℕ → Stats → Option Recorder → Wake

-- The loop, over what it finds in turn.
unfoldable pub stream_loop : List Wake → ℕ → List Message
unfolding send_stats
stream_loop [] last_commands = []
stream_loop (client_gone ∷ ws) last_commands = []
stream_loop (channel_closed ∷ ws) last_commands = stream_loop ws last_commands
stream_loop (command_run evt ∷ ws) last_commands = cmd_message evt ∷ stream_loop ws last_commands
stream_loop (second_passed now st events ∷ ws) last_commands =
    (send_stats now st events last_commands).0 ∷ stream_loop ws st.commands

-- The first message goes out at once.
unfoldable pub serve_monitor_stream : ℕ → Stats → Option Recorder → List Wake → List Message
unfolding stream_loop
serve_monitor_stream now st events ws = (send_stats now st events 0).0 ∷ stream_loop ws st.commands
