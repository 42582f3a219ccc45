-- ===== src/Startup/Running.antt =====
-- main.go: the process from its start.
use redis_glass.Prelude.{
  ℕ, suc, length, ◌≡◌, refl, sym, ap, ◌∙◌, arith, Bool, true, false, not, Option, none, some, List,
  Bytes, codes, ℤ, pos, Bool-cases, inl, inr, lookup, if◌then◌else◌,
}
use mathlib.Core.Path.{subst}
use redis_glass.Store.{Store, new, set_max_memory, weigh, approx_memory}
use redis_glass.Store.Operations.{Operation, perform, IsSound, perform-IsSound}
use redis_glass.Aof.{Command, Replayed, done, crashed, replay}
use redis_glass.Aof.Rewrite
use redis_glass.Aof.Rewrite.{Aof, FsyncPolicy}
use redis_glass.Commands.State.{Handler, Clock}
use redis_glass.Server.{Server, handle_conn}
use redis_glass.Server.Gate.{SameData}
use redis_glass.Server.Stranger.{NeverLogsIn, stranger_changes_nothing}
use redis_glass.System.{System, Event, serve_events}
use redis_glass.System.Trace.{trace}
use redis_glass.System.Exact.{all_keep_open}
use redis_glass.System.ExactlyOnce.{IsLogged, serve_events-IsLogged}
use redis_glass.System.Keeps.{serve_events_keeps}
use redis_glass.Config.{is_empty, getenv, parse_mb_env, parse_fsync_policy}
use redis_glass.Startup.{
  Outside, after_replay, load, open_log, Dashboard, dashboard_of, Boot, exits, serves, server_of,
  wire, boot,
}
use redis_glass.Startup.Loaded.{replay_keeps}

-- The empty store with its ceiling.
abbrev first_store : Outside → Store
first_store o = set_max_memory (parse_mb_env o.env (codes "MAXMEMORY_MB") (pos 0)) new

abbrev fsync_of : Outside → FsyncPolicy
fsync_of o = parse_fsync_policy (getenv o.env (codes "AOF_FSYNC"))

-- What a server that serves was made of.
record IsWired (o : Outside) (r : Option (Store × Option Aof)) (srv : Server) : Type 0 where
  store : Store
  aof : Option Aof
  loaded : r ≡ some (store, aof)
  server : srv ≡ server_of o.env store aof

store_in : Store → Option (Store × Option Aof) → Store
store_in s none = s
store_in s (some (t, a)) = t

aof_in : Option Aof → Option (Store × Option Aof) → Option Aof
aof_in a none = a
aof_in a (some (t, b)) = b

server_in : Server → Boot → Server
server_in srv exits = srv
server_in srv (serves srv' d) = srv'

wire-IsWired :
    (o : Outside) (r : Option (Store × Option Aof)) (srv : Server) (d : Option Dashboard)
    → wire o r ≡ serves srv d
    → IsWired o r srv
unfolding wire server_in
wire-IsWired o none srv d e = cc
wire-IsWired o (some (s, aof)) srv d e = elim (Bool-cases o.listens) [
  | inl up ↦ record {
    store = s;
    aof = aof;
    loaded = refl;
    server =
        ap (server_in srv) (sym e)
        ∙ ap
            (λ (b : Bool).
              server_in srv
                (if b then serves (server_of o.env s aof) (dashboard_of o.env) else exits))
            up;
  }
  | inr down ↦ absurd (ground (arith, e, down))
]

boot-IsWired :
    (o : Outside) (srv : Server) (d : Option Dashboard)
    → boot o ≡ serves srv d
    → IsWired o (open_log o (first_store o)) srv
unfolding boot
boot-IsWired o srv d e = wire-IsWired o (open_log o (first_store o)) srv d e

module _ (P : Store → Type 0) (keeps : (op : Operation) (s : Store) → P s → P (perform op s)) where
  after_replay_keeps :
      (content : Bytes) (fsync : FsyncPolicy) (clock : ℕ → ℤ) (s : Store) (r : Replayed) (t : Store)
      (a : Option Aof)
      → P s
      → replay clock content s ≡ r
      → after_replay content fsync r ≡ some (t, a)
      → P t
  unfolding after_replay store_in
  after_replay_keeps content fsync clock s (done u) t a p q e =
      subst P (ap (store_in s) e) (replay_keeps P keeps clock content s u p q)
  after_replay_keeps content fsync clock s crashed t a p q e = cc

  load_keeps :
      (fsync : FsyncPolicy) (clock : ℕ → ℤ) (file : Option Bytes) (s t : Store) (a : Option Aof)
      → P s
      → load fsync clock file s ≡ some (t, a)
      → P t
  unfolding load
  load_keeps fsync clock none s t a p e = cc
  load_keeps fsync clock (some content) s t a p e =
      after_replay_keeps content fsync clock s (replay clock content s) t a p refl e

  chosen_keeps :
      (b : Bool) (s t : Store) (a : Option Aof) (l : Option (Store × Option Aof))
      → P s
      → (l ≡ some (t, a) → P t)
      → (if b then some (s, none) else l) ≡ some (t, a)
      → P t
  unfolding store_in
  chosen_keeps true s t a l p h e = subst P (ap (store_in s) e) p
  chosen_keeps false s t a l p h e = h e

  open_log_keeps :
      (o : Outside) (s t : Store) (a : Option Aof) → P s → open_log o s ≡ some (t, a) → P t
  unfolding open_log
  open_log_keeps o s t a p =
      chosen_keeps (is_empty (getenv o.env (codes "AOF_PATH"))) s t a _ p
        (load_keeps (fsync_of o) o.clock o.file s t a p)

  boot_keeps :
      (o : Outside) (srv : Server) (d : Option Dashboard)
      → boot o ≡ serves srv d
      → P (first_store o)
      → P srv.handler.store
  unfolding server_of
  boot_keeps o srv d e p =
      let w = boot-IsWired o srv d e in
      subst P (ap (λ (x : Server). x.handler.store) (sym w.server))
        (open_log_keeps o (first_store o) w.store w.aof p w.loaded)

after_replay-aof :
    (content : Bytes) (fsync : FsyncPolicy) (r : Replayed) (t : Store) (a : Option Aof)
    → after_replay content fsync r ≡ some (t, a)
    → a ≡ some (Rewrite.new content fsync)
unfolding after_replay aof_in
after_replay-aof content fsync (done u) t a e = ap (aof_in a) (sym e)
after_replay-aof content fsync crashed t a e = cc

open_log-aof :
    (o : Outside) (content : Bytes) (s t : Store) (a : Option Aof)
    → is_empty (getenv o.env (codes "AOF_PATH")) ≡ false
    → o.file ≡ some content
    → open_log o s ≡ some (t, a)
    → a ≡ some (Rewrite.new content (fsync_of o))
unfolding open_log load
open_log-aof o content s t a on f e =
    after_replay-aof content (fsync_of o) (replay o.clock content s) t a (sym (rw (on, f) refl) ∙ e)

first_store-IsSound : (o : Outside) → IsSound (first_store o)
unfolding IsSound set_max_memory approx_memory lookup weigh parse_mb_env
first_store-IsSound o = (record { at = λ k. refl }, λ p. omega arith)

-- A running server, after its start and after events with these mutations.
pub record IsUp (content : Bytes) (srv : Server) (total : List Command) (sys : System)
    : Type 0 where
  pub logged : IsLogged content srv.handler.store total sys
  pub sound : IsSound sys.handler.store

-- A process that comes up on any environment with a log, and on a log file with any content, keeps after
-- any sequence of requests, ticks and rewrites that leave the log open: the log is an image of an earlier
-- state with the last ones of the mutations that succeeded, in order, which lead from that state to the
-- present one, with deletions of expired keys between them, where a mutation is a request that names a mutating command, has its target and succeeds
-- under the log's own rules of replay; `expiryKeys` holds exactly the string keys with an expiry; and the estimated memory is at or
-- below the ceiling, where there is one.
pub boot-IsUp :
    (log_failure : Bytes) (info_body : Handler → Clock → Bytes) (o : Outside) (content : Bytes)
    (srv : Server) (d : Option Dashboard) (es : List Event)
    → is_empty (getenv o.env (codes "AOF_PATH")) ≡ false
    → o.file ≡ some content
    → boot o ≡ serves srv d
    → all_keep_open es ≡ true
    → IsUp content srv
        (trace log_failure info_body es (record { handler = srv.handler; pending = none }))
        (serve_events log_failure info_body es (record { handler = srv.handler; pending = none }))
unfolding server_of IsSound
boot-IsUp log_failure info_body o content srv d es on f e k =
    let w = boot-IsWired o srv d e in
    let opened = open_log-aof o content (first_store o) w.store w.aof on f w.loaded in
    let with_log = ap (λ (x : Server). x.handler.aof) w.server ∙ opened in
    let sound = boot_keeps IsSound perform-IsSound o srv d e (first_store-IsSound o) in
    let same =
      ap (λ (a : Option Aof). record { handler = record srv.handler { aof = a }; pending = none })
        (sym with_log) in
    record {
      logged =
          subst
            (λ (sys : System).
              IsLogged content srv.handler.store (trace log_failure info_body es sys)
                (serve_events log_failure info_body es sys))
            same
            (serve_events-IsLogged log_failure info_body srv.handler content srv.handler.store
              (fsync_of o) es sound.0 k);
      sound = serve_events_keeps IsSound perform-IsSound log_failure info_body es _ sound;
    }

-- On a process whose environment has a password for clients, a connection whose input holds no command
-- AUTH with that password as its one argument is not authenticated at its end, and has, with whatever
-- other bytes and at whatever times, changed nothing of the data, of the log or of the password.
pub boot_guarded :
    (log_failure : Bytes) (info_body : Handler → Clock → Bytes) (o : Outside) (srv : Server)
    (d : Option Dashboard) (client_addr : Bytes) (clocks : ℕ → Clock) (input : Bytes)
    → is_empty (getenv o.env (codes "REDIS_PASSWORD")) ≡ false
    → boot o ≡ serves srv d
    → NeverLogsIn (getenv o.env (codes "REDIS_PASSWORD")) (suc (length input)) input
    → ((handle_conn log_failure info_body client_addr clocks input srv).2 ≡ false)
      × SameData srv.handler
          (handle_conn log_failure info_body client_addr clocks input srv).1.handler
unfolding server_of
boot_guarded log_failure info_body o srv d client_addr clocks input set e quiet =
    let w = boot-IsWired o srv d e in
    let password = ap (λ (x : Server). x.handler.password) w.server in
    stranger_changes_nothing log_failure info_body client_addr clocks input srv
      (ap (λ (x : Server). x.require_auth) w.server ∙ ap not set)
      (subst (λ p. NeverLogsIn p (suc (length input)) input) (sym password) quiet)
