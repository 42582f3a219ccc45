-- ===== src/System/Handlers.antt =====
-- commands/handler.go: `Handle`, as steps of a node.
use redis_glass.Prelude.{
  ◌≡◌, refl, sym, ◌∙◌, Bool, true, Option, none, some, List, [], ◌∷◌, Bytes, codes, bytes_eq,
  to_upper, pos, negsuc, if-keeps,
}
use mathlib.Core.Path.{subst}
use redis_glass.Resp.{Values}
use redis_glass.Store.{Store}
use redis_glass.Store.Lists.{lpush, rpush}
use redis_glass.Aof.{Command, arg_strings, negate, replay_command}
use redis_glass.Aof.Rewrite.{Aof}
use redis_glass.Events.{Recorder}
use redis_glass.Commands.State.{Handler, Clock, Handled, refuse, wrong_number}
use redis_glass.Commands.Collections.{handle_scan}
use redis_glass.Commands.Observe.{slowlog_with, count_arg, handle_slowlog}
use redis_glass.Commands.Moves.Collections.{
  behind, echo-handler, handle_lrange-handler, handle_hget-handler, handle_keys-handler,
  handle_scan-handler,
}
use redis_glass.Commands.Moves.Dispatch.{
  slowlog_reply-handler, handle_hotkeys-handler, handle_bg_rewrite-handler,
}
use redis_glass.Commands.Dispatch.{
  Verb, echo_v, set_v, get_v, del_v, exists_v, expire_v, ttl_v, keys_v, scan_v, flush_all_v, incr_v,
  decr_v, incr_by_v, decr_by_v, lpush_v, rpush_v, lrange_v, hset_v, hget_v, hdel_v, bg_rewrite_v,
  slowlog_v, hotkeys_v, Response, replied, panicked, keep_scan, verb_of, run_verb, recorded, handle,
}
use redis_glass.System.{handler_behind}
use redis_glass.System.Trace.{request_of, due_of}
use redis_glass.System.Log.{Follows, stay_put}
use redis_glass.System.Reads.{handle_get-Follows, handle_exists-Follows, handle_ttl-Follows}
use redis_glass.System.Mutations.Collections.{
  handle_push-Follows, handle_hset-Follows, handle_hdel-Follows,
}
use redis_glass.System.Replayed.{lpush-refused, rpush-refused}
use redis_glass.System.Mutations.{
  handle_set-Follows, handle_del-Follows, handle_expire-Follows, handle_flush_all-Follows,
  handle_step-Follows, handle_step_by-Follows,
}

-- A handler with the store and the log of another.
record SameLog (h h' : Handler) : Type 0 where
  store : h'.store ≡ h.store
  aof : h'.aof ≡ h.aof

slowlog_with-SameLog :
    (sub : Bytes) (rest : List Bytes) (r : Option Recorder) (h : Handler)
    → SameLog h (slowlog_with sub rest r h).1
unfolding slowlog_with refuse
slowlog_with-SameLog sub rest none h = record { store = refl; aof = refl }
slowlog_with-SameLog sub rest (some r) h =
    let same = λ (x : Handled). SameLog h x.1 in
    let unchanged : SameLog h h = record { store = refl; aof = refl } in
    if-keeps same (bytes_eq (to_upper sub) (codes "LEN")) _ _ unchanged (
      if-keeps same (bytes_eq (to_upper sub) (codes "RESET")) _ _
        (record { store = refl; aof = refl })
        (if-keeps same (bytes_eq (to_upper sub) (codes "GET")) _ _
          (subst (SameLog h) (sym (slowlog_reply-handler (count_arg rest) r h)) unchanged)
          unchanged))

handle_slowlog-SameLog : (args : List Bytes) (h : Handler) → SameLog h (handle_slowlog args h).1
unfolding handle_slowlog wrong_number
handle_slowlog-SameLog [] h = record { store = refl; aof = refl }
handle_slowlog-SameLog (sub ∷ rest) h = slowlog_with-SameLog sub rest h.events h

keep_scan-handler :
    (state : Bool) (h : Handler) (r : Option Handled)
    → handler_behind (keep_scan state h r) ≡ behind h r
keep_scan-handler state h none = refl
keep_scan-handler state h (some r) = refl

module _ (failure : Bytes) (info_body : Handler → Clock → Bytes) (clock : Clock) (h : Handler)
    (a : Aof) (pending : Option Store) (e : h.aof ≡ some a) (o : a.is_open ≡ true) where
  stays : Follows h.store a pending [] h
  stays = stay_put h.store a pending h refl e o

  unchanged : (h' : Handler) → h' ≡ h → Follows h.store a pending [] h'
  unchanged h' q = subst (Follows h.store a pending []) (sym q) stays

  same_log : (h' : Handler) → SameLog h h' → Follows h.store a pending [] h'
  same_log h' q = stay_put h.store a pending h' q.store (q.aof ∙ e) o

  run_verb-Follows :
      (v : Verb) (cmd : Bytes) (args : List Bytes) (state : Bool)
      → Follows h.store a pending
          (due_of clock.now (request_of v args) h.store)
          (handler_behind (run_verb failure info_body clock v cmd args h state))
  unfolding run_verb replay_command bytes_eq request_of
  run_verb-Follows echo_v cmd args state = unchanged _ (echo-handler args h)
  run_verb-Follows set_v cmd args state = handle_set-Follows failure clock h a pending e o args
  run_verb-Follows get_v cmd args state = handle_get-Follows failure clock h a pending e o args
  run_verb-Follows del_v cmd args state = handle_del-Follows failure clock h a pending e o args
  run_verb-Follows exists_v cmd args state =
      handle_exists-Follows failure clock h a pending e o args
  run_verb-Follows expire_v cmd args state =
      handle_expire-Follows failure clock h a pending e o args
  run_verb-Follows ttl_v cmd args state = handle_ttl-Follows failure clock h a pending e o args
  run_verb-Follows keys_v cmd args state = unchanged _ (handle_keys-handler clock args h)
  run_verb-Follows scan_v cmd args state =
      unchanged _
        (keep_scan-handler state h (handle_scan clock args h) ∙ handle_scan-handler clock args h)
  run_verb-Follows flush_all_v cmd args state =
      handle_flush_all-Follows failure clock h a pending e o
  run_verb-Follows incr_v cmd args state =
      handle_step-Follows failure clock h a pending e o (codes "INCR") _ (pos 1) args refl
        (λ xs. refl)
  run_verb-Follows decr_v cmd args state =
      handle_step-Follows failure clock h a pending e o (codes "DECR") _ (negsuc 0) args refl
        (λ xs. refl)
  run_verb-Follows incr_by_v cmd args state =
      handle_step_by-Follows failure clock h a pending e o (codes "INCRBY") _ (λ n. n) args refl
        (λ xs. refl)
  run_verb-Follows decr_by_v cmd args state =
      handle_step_by-Follows failure clock h a pending e o (codes "DECRBY") _ negate args refl
        (λ xs. refl)
  run_verb-Follows lpush_v cmd args state =
      handle_push-Follows failure clock h a pending e o (codes "LPUSH") _ lpush args refl
        (λ xs. refl) (λ k vs. lpush-refused k vs h.store)
  run_verb-Follows rpush_v cmd args state =
      handle_push-Follows failure clock h a pending e o (codes "RPUSH") _ rpush args refl
        (λ xs. refl) (λ k vs. rpush-refused k vs h.store)
  run_verb-Follows lrange_v cmd args state = unchanged _ (handle_lrange-handler args h)
  run_verb-Follows hset_v cmd args state = handle_hset-Follows failure clock h a pending e o args
  run_verb-Follows hget_v cmd args state = unchanged _ (handle_hget-handler args h)
  run_verb-Follows hdel_v cmd args state = handle_hdel-Follows failure clock h a pending e o args
  run_verb-Follows bg_rewrite_v cmd args state = unchanged _ (handle_bg_rewrite-handler h)
  run_verb-Follows slowlog_v cmd args state = same_log _ (handle_slowlog-SameLog args h)
  run_verb-Follows hotkeys_v cmd args state = unchanged _ (handle_hotkeys-handler clock args h)
  run_verb-Follows _ cmd args state = stays

  recorded-Follows :
      (cs : List Command) (upper : Bytes) (args : List Bytes) (client_addr : Bytes) (r : Response)
      → Follows h.store a pending cs (handler_behind r)
      → Follows h.store a pending cs
          (handler_behind (recorded failure info_body clock upper args client_addr r))
  unfolding recorded
  recorded-Follows cs upper args client_addr (replied bytes h' state) f = record {
    aof = f.aof;
    same = f.same;
    opened = f.opened;
    path = f.path;
  }
  recorded-Follows cs upper args client_addr (panicked h' state) f = f

  -- A command of any client, where the log is open, is steps of the node which log exactly what is due:
  -- what it does to the store is in the log, or is a deletion of expired keys.
  pub handle-Follows :
      (cmd : Bytes) (args : Values) (client_addr : Bytes) (state : Bool)
      → Follows h.store a pending
          (due_of clock.now (request_of (verb_of (to_upper cmd)) (arg_strings args)) h.store)
          (handler_behind (handle failure info_body clock cmd args client_addr h state))
  unfolding handle
  handle-Follows cmd args client_addr state =
      let upper = to_upper cmd in
      recorded-Follows _ upper (arg_strings args) client_addr
        (run_verb failure info_body clock (verb_of upper) cmd (arg_strings args) h state)
        (run_verb-Follows (verb_of upper) cmd (arg_strings args) state)
