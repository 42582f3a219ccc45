-- ===== src/Commands/Moves/Dispatch.antt =====
-- commands/handler.go: `Handle` and the store.
use redis_glass.Prelude.{
  arith, ◌≡◌, inl, inr, refl, sym, ap, ◌∙◌, Bool, Option, none, some, List, [], ◌∷◌, Bytes, codes,
  to_upper, ℤ, pos, negsuc, bytes_eq, if-keeps,
}
use mathlib.Core.Path.{subst}
use redis_glass.Resp.{Values}
use redis_glass.Store.{Store}
use redis_glass.Store.Lists.{lpush, rpush}
use redis_glass.Store.Operations.{Operation, lpush_op, rpush_op, perform}
use redis_glass.Aof.{arg_strings, negate}
use redis_glass.Events.{Recorder}
use redis_glass.Commands.State.{Handler, Clock, Handled, refuse, bad_integer, wrong_number}
use redis_glass.Commands.Collections.{handle_scan}
use redis_glass.Commands.Observe.{
  slowlog_with, slowlog_reply, count_arg, handle_slowlog, hotkeys_with, hotkeys_reply,
  handle_hotkeys, handle_bg_rewrite,
}
use redis_glass.Commands.Moves.{Moves, perform_option, perform_option-Moves, method_of}
use redis_glass.Commands.Moves.Strings.{
  handle_set-store, handle_get-store, handle_del-store, handle_exists-store, handle_expire-store,
  handle_ttl-store, handle_flush_all-store, handle_step-store, handle_step_by-store,
}
use redis_glass.Commands.Moves.Collections.{
  behind, echo-handler, handle_lrange-handler, handle_hget-handler, handle_keys-handler,
  handle_scan-handler, handle_push-store, handle_hset-store, handle_hdel-store,
}
use redis_glass.Commands.Dispatch.{
  Verb, echo_v, set_v, get_v, del_v, exists_v, expire_v, ttl_v, keys_v, scan_v, flush_all_v, incr_v,
  decr_v, incr_by_v, decr_by_v, lpush_v, rpush_v, lrange_v, hset_v, hget_v, hdel_v, bg_rewrite_v,
  slowlog_v, hotkeys_v, Response, replied, panicked, keep_scan, verb_of, run_verb, recorded, handle,
}

pub slowlog_reply-handler :
    (n : Option ℤ) (r : Recorder) (h : Handler) → (slowlog_reply n r h).1 ≡ h
unfolding slowlog_reply bad_integer
slowlog_reply-handler none r h = refl
slowlog_reply-handler (some n) r h = refl

slowlog_with-store :
    (sub : Bytes) (rest : List Bytes) (r : Option Recorder) (h : Handler)
    → (slowlog_with sub rest r h).1.store ≡ h.store
unfolding slowlog_with refuse
slowlog_with-store sub rest none h = refl
slowlog_with-store sub rest (some r) h =
    let same = λ (x : Handled). x.1.store ≡ h.store in
    if-keeps same (bytes_eq (to_upper sub) (codes "LEN")) _ _ refl (
      if-keeps same (bytes_eq (to_upper sub) (codes "RESET")) _ _ refl (
        if-keeps same (bytes_eq (to_upper sub) (codes "GET")) _ _
          (ap (λ (x : Handler). x.store) (slowlog_reply-handler (count_arg rest) r h)) refl))

handle_slowlog-store : (args : List Bytes) (h : Handler) → (handle_slowlog args h).1.store ≡ h.store
unfolding handle_slowlog wrong_number
handle_slowlog-store [] h = refl
handle_slowlog-store (sub ∷ rest) h = slowlog_with-store sub rest h.events h

hotkeys_reply-handler :
    (clock : Clock) (n : Option ℤ) (r : Recorder) (h : Handler) → (hotkeys_reply clock n r h).1 ≡ h
unfolding hotkeys_reply bad_integer
hotkeys_reply-handler clock none r h = refl
hotkeys_reply-handler clock (some n) r h = refl

hotkeys_with-handler :
    (clock : Clock) (args : List Bytes) (r : Option Recorder) (h : Handler)
    → (hotkeys_with clock args r h).1 ≡ h
unfolding hotkeys_with refuse
hotkeys_with-handler clock args none h = refl
hotkeys_with-handler clock args (some r) h = hotkeys_reply-handler clock (count_arg args) r h

pub handle_hotkeys-handler :
    (clock : Clock) (args : List Bytes) (h : Handler) → (handle_hotkeys clock args h).1 ≡ h
unfolding handle_hotkeys
handle_hotkeys-handler clock args h = hotkeys_with-handler clock args h.events h

pub handle_bg_rewrite-handler : (h : Handler) → (handle_bg_rewrite h).1 ≡ h
unfolding handle_bg_rewrite refuse
handle_bg_rewrite-handler h = ground arith

-- The store behind a response.
unfoldable pub store_behind : Response → Store
store_behind (replied bytes h state) = h.store
store_behind (panicked h state) = h.store

keep_scan-store :
    (state : Bool) (h : Handler) (r : Option Handled)
    → store_behind (keep_scan state h r) ≡ (behind h r).store
unfolding store_behind
keep_scan-store state h none = refl
keep_scan-store state h (some r) = refl

module _ (failure : Bytes) (info_body : Handler → Clock → Bytes) (clock : Clock) where
  unmoved : (h h' : Handler) → h' ≡ h → h'.store ≡ h.store
  unmoved h h' e = ap (λ (x : Handler). x.store) e

  run_verb-store :
      (v : Verb) (cmd : Bytes) (args : List Bytes) (h : Handler) (state : Bool)
      → store_behind (run_verb failure info_body clock v cmd args h state)
        ≡ perform_option (method_of clock v args) h.store
  unfolding run_verb store_behind perform perform_option method_of
  run_verb-store echo_v cmd args h state = unmoved h _ (echo-handler args h)
  run_verb-store set_v cmd args h state = handle_set-store failure clock args h
  run_verb-store get_v cmd args h state = handle_get-store failure clock args h
  run_verb-store del_v cmd args h state = handle_del-store failure clock args h
  run_verb-store exists_v cmd args h state = handle_exists-store failure clock args h
  run_verb-store expire_v cmd args h state = handle_expire-store failure clock args h
  run_verb-store ttl_v cmd args h state = handle_ttl-store failure clock args h
  run_verb-store keys_v cmd args h state = unmoved h _ (handle_keys-handler clock args h)
  run_verb-store scan_v cmd args h state =
      keep_scan-store state h (handle_scan clock args h)
      ∙ ap (λ (x : Handler). x.store) (handle_scan-handler clock args h)
  run_verb-store flush_all_v cmd args h state = handle_flush_all-store failure clock h
  run_verb-store incr_v cmd args h state = handle_step-store failure clock _ _ (pos 1) args h
  run_verb-store decr_v cmd args h state = handle_step-store failure clock _ _ (negsuc 0) args h
  run_verb-store incr_by_v cmd args h state = handle_step_by-store failure clock _ _ (λ n. n) args h
  run_verb-store decr_by_v cmd args h state = handle_step_by-store failure clock _ _ negate args h
  run_verb-store lpush_v cmd args h state =
      handle_push-store failure _ _ lpush lpush_op args h (λ k vs. refl)
  run_verb-store rpush_v cmd args h state =
      handle_push-store failure _ _ rpush rpush_op args h (λ k vs. refl)
  run_verb-store lrange_v cmd args h state = unmoved h _ (handle_lrange-handler args h)
  run_verb-store hset_v cmd args h state = handle_hset-store failure clock args h
  run_verb-store hget_v cmd args h state = unmoved h _ (handle_hget-handler args h)
  run_verb-store hdel_v cmd args h state = handle_hdel-store clock args h
  run_verb-store bg_rewrite_v cmd args h state = unmoved h _ (handle_bg_rewrite-handler h)
  run_verb-store slowlog_v cmd args h state = handle_slowlog-store args h
  run_verb-store hotkeys_v cmd args h state = unmoved h _ (handle_hotkeys-handler clock args h)
  run_verb-store _ cmd args h state = refl

  recorded-store :
      (upper : Bytes) (args : List Bytes) (client_addr : Bytes) (r : Response)
      → store_behind (recorded failure info_body clock upper args client_addr r) ≡ store_behind r
  unfolding recorded store_behind
  recorded-store upper args client_addr (replied bytes h state) = refl
  recorded-store upper args client_addr (panicked h state) = refl

  -- What a command of any client leaves of the store is what the one method of the store that belongs to
  -- its name, on the key and the values that its arguments name, makes of it; and is the store itself
  -- where the name has no such method or the arguments are refused.
  pub handle-store :
      (cmd : Bytes) (args : Values) (client_addr : Bytes) (h : Handler) (state : Bool)
      → store_behind (handle failure info_body clock cmd args client_addr h state)
        ≡ perform_option (method_of clock (verb_of (to_upper cmd)) (arg_strings args)) h.store
  unfolding handle
  handle-store cmd args client_addr h state =
      let upper = to_upper cmd in
      let r = run_verb failure info_body clock (verb_of upper) cmd (arg_strings args) h state in
      recorded-store upper (arg_strings args) client_addr r
      ∙ run_verb-store (verb_of upper) cmd (arg_strings args) h state

  pub handle-Moves :
      (cmd : Bytes) (args : Values) (client_addr : Bytes) (h : Handler) (state : Bool)
      → Moves h.store (store_behind (handle failure info_body clock cmd args client_addr h state))
  handle-Moves cmd args client_addr h state =
      subst (Moves h.store) (sym (handle-store cmd args client_addr h state))
        (perform_option-Moves _ h.store)

-- What every operation keeps, a command keeps.
pub Moves-keeps :
    (P : Store → Type 0) (s s' : Store)
    → ((op : Operation) (t : Store) → P t → P (perform op t))
    → Moves s s'
    → P s
    → P s'
unfolding Moves
Moves-keeps P s s' k (inl e) p = subst P (sym e) p
Moves-keeps P s s' k (inr (op, e)) p = subst P (sym e) (k op s p)
