-- ===== src/Startup.antt =====
-- main.go: the wiring of the parts.
pub mod Loaded
pub mod Running
use redis_glass.Prelude.{
  ℕ, zero, suc, ◌*◌, Bool, true, false, ◌||◌, ◌&&◌, not, Option, none, some, List, [], ◌∷◌, ◌++◌,
  length, Bytes, codes, bytes_eq, to_lower, ◌==◌, ltb, ℤ, pos, negsuc, leb_ℤ, ltb_ℤ, pos_part,
  neg_part, ◌/◌, ◌-ℤ◌, scale, wrap, atoi, if◌then◌else◌,
}
use redis_glass.Store.{Store, new, set_max_memory, millisecond, duration}
use redis_glass.Aof.{Replayed, done, crashed, replay}
use redis_glass.Aof.Durable.{sync_locked}
use redis_glass.Aof.Rewrite
use redis_glass.Aof.Rewrite.{FsyncPolicy, every_sec, always, never}
use redis_glass.Events.{Recorder}
use redis_glass.Events.Hotness.{new_hotkeys}
use redis_glass.Events.SlowQueries.{new_slowlog}
use redis_glass.Events.Stream.{no_subscribers}
use redis_glass.Commands.State.{Handler}
use redis_glass.Server.{Server}
use redis_glass.Config.{
  Env, getenv, is_empty, mega, in_bytes, parse_mb_env, parse_ms_env, trim_space, split_commas,
  sensitive_key_patterns, dashboard_port_or_default, parse_fsync_policy,
}

-- `d.Microseconds()`, which rounds towards zero.
unfoldable pub microseconds : ℤ → ℤ
microseconds d =
    if ltb_ℤ d (pos 0) then pos 0 -ℤ pos (neg_part d / 1000) else pos (pos_part d / 1000)

-- `NewRecorder`.
unfoldable pub new_recorder : ℤ → ℕ → List Bytes → Recorder
unfolding microseconds
new_recorder slow_threshold slow_max_len sensitive_patterns = record {
  hist = [];
  hotkeys = new_hotkeys;
  slow = new_slowlog (microseconds slow_threshold) slow_max_len;
  sensitive_patterns = sensitive_patterns;
  subscribers = no_subscribers;
}

-- What the process meets outside: the environment, what the log file holds where it can be opened, the
-- times of the replay, and whether the port and the certificate can be had.
pub record Outside : Type 0 where
  pub env : Env
  pub file : Option Bytes
  pub clock : ℕ → ℤ
  pub listens : Bool

-- The state of the log behind `NewAOF` and `Replay`; nothing where the process ends.
after_replay : Bytes → FsyncPolicy → Replayed → Option (Store × Option Rewrite.Aof)
after_replay content fsync (done s) = some (s, some (Rewrite.new content fsync))
after_replay content fsync crashed = none

unfoldable pub load :
    FsyncPolicy → (ℕ → ℤ) → Option Bytes → Store → Option (Store × Option Rewrite.Aof)
unfolding after_replay
load fsync clock none s = none
load fsync clock (some content) s = after_replay content fsync (replay clock content s)

unfoldable pub open_log : Outside → Store → Option (Store × Option Rewrite.Aof)
unfolding load parse_fsync_policy
open_log o s =
    if is_empty (getenv o.env (codes "AOF_PATH"))
    then some (s, none)
    else load (parse_fsync_policy (getenv o.env (codes "AOF_FSYNC"))) o.clock o.file s

-- The dashboard's `Sources`, less its functions.
pub record Dashboard : Type 0 where
  pub port : Bytes
  pub password : Bytes

unfoldable pub dashboard_of : Env → Option Dashboard
unfolding dashboard_port_or_default
dashboard_of env =
    let port = dashboard_port_or_default env in
    if is_empty port
    then none
    else some (record { port = port; password = getenv env (codes "DASHBOARD_PASSWORD") })

-- How `main` goes on: the process ends, or it serves.
pub data Boot : Type 0 where
  exits : Boot
  serves : Server → Option Dashboard → Boot

unfoldable pub server_of : Env → Store → Option Rewrite.Aof → Server
unfolding new_recorder sensitive_key_patterns parse_ms_env
server_of env s aof =
    let password = getenv env (codes "REDIS_PASSWORD") in
    record {
      handler = record {
        store = s;
        password = password;
        aof = aof;
        events = some (
            new_recorder (parse_ms_env env (codes "SLOWLOG_THRESHOLD_MS") (pos 10)) 128
              (sensitive_key_patterns env));
      };
      require_auth = not (is_empty password);
      cmd_count = 0;
    }

unfoldable pub wire : Outside → Option (Store × Option Rewrite.Aof) → Boot
unfolding server_of dashboard_of
wire o none = exits
wire o (some (s, aof)) =
    if o.listens then serves (server_of o.env s aof) (dashboard_of o.env) else exits

-- `main`, up to the loops.
unfoldable pub boot : Outside → Boot
unfolding wire open_log parse_mb_env set_max_memory
boot o =
    wire o (open_log o (set_max_memory (parse_mb_env o.env (codes "MAXMEMORY_MB") (pos 0)) new))

-- The end of `main` on a signal: the log is synced, where there is one, and an error is logged only.
unfoldable pub shut_down : Option Rewrite.Aof → Option Rewrite.Aof
shut_down none = none
shut_down (some a) = some (sync_locked a).1
