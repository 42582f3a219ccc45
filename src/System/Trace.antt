-- ===== src/System/Trace.antt =====
-- commands/handler.go: the entries that the log is due, as a specification that looks neither at the
-- handlers nor at the log.
use redis_glass.Prelude.{
  ◌≡◌, Option, none, some, List, [], ◌∷◌, ◌++◌, true, Bytes, codes, to_upper, ℤ, Bool-cases, inl,
  inr, if◌then◌else◌,
}
use redis_glass.Store.{Store, Error, Result, ok, err}
use redis_glass.Aof.{Command, arg_strings, replay_command}
use redis_glass.Aof.Node.{has_target}
use redis_glass.Commands.State.{Handler, Clock}
use redis_glass.Commands.Dispatch.{
  Verb, set_v, del_v, expire_v, flush_all_v, incr_v, decr_v, incr_by_v, decr_by_v, lpush_v, rpush_v,
  hset_v, hdel_v, verb_of,
}
use redis_glass.System.{System, Event, request, tick, begin_rewrite, end_rewrite, serve_event}

-- The command of a request that asks for a mutation, as the log has it.
unfoldable pub request_of : Verb → List Bytes → Option Command
request_of set_v args = some (codes "SET", args)
request_of del_v args = some (codes "DEL", args)
request_of expire_v args = some (codes "EXPIRE", args)
request_of flush_all_v args = some (codes "FLUSHALL", [])
request_of incr_v args = some (codes "INCR", args)
request_of decr_v args = some (codes "DECR", args)
request_of incr_by_v args = some (codes "INCRBY", args)
request_of decr_by_v args = some (codes "DECRBY", args)
request_of lpush_v args = some (codes "LPUSH", args)
request_of rpush_v args = some (codes "RPUSH", args)
request_of hset_v args = some (codes "HSET", args)
request_of hdel_v args = some (codes "HDEL", args)
request_of _ args = none

abbrev when_ok : Command → Result (Unit {0}) → List Command
when_ok c (ok x) = c ∷ []
when_ok c (err e) = []

-- A command is due where it has its target and succeeds.
unfoldable pub due : ℤ → Command → Store → List Command
due now c s = if has_target c s then when_ok c (replay_command now c s).0 else []

abbrev pub due_of : ℤ → Option Command → Store → List Command
due_of now none s = []
due_of now (some c) s = due now c s

-- The entries that one event owes the log.
unfoldable pub entries : Event → System → List Command
entries (request clock cmd args client_addr state) sys =
    due_of clock.now (request_of (verb_of (to_upper cmd)) (arg_strings args)) sys.handler.store
entries (tick clock order) sys = []
entries begin_rewrite sys = []
entries (end_rewrite now outcome) sys = []

-- The successful mutations of a sequence of events, in order.
unfoldable pub trace : Bytes → (Handler → Clock → Bytes) → List Event → System → List Command
unfolding entries
trace log_failure info_body [] sys = []
trace log_failure info_body (e ∷ es) sys =
    entries e sys ++ trace log_failure info_body es (serve_event log_failure info_body e sys)

pub due_succeeded :
    (now : ℤ) (c : Command) (s s' : Store)
    → replay_command now c s ≡ (ok tt, s')
    → has_target c s ≡ true
    → due now c s ≡ c ∷ []
unfolding due
due_succeeded now c s s' r t = rw (t, r)

pub due_refused :
    (now : ℤ) (c : Command) (s s' : Store) (e : Error)
    → replay_command now c s ≡ (err e, s')
    → due now c s ≡ []
unfolding due
due_refused now c s s' e r = elim (Bool-cases (has_target c s)) [ inl t ↦ rw (t, r) | inr t ↦ rw t ]
