-- ===== src/System/Mutations.antt =====
-- commands/handler.go: the mutating commands, and the replay of what they log.
pub mod Collections
use redis_glass.Prelude.{
  ℕ, ◌≡◌, refl, sym, ◌∙◌, true, false, ◌||◌, Option, none, some, List, [], ◌∷◌, length, ◌%◌, ltb,
  ◌==◌, Bytes, codes, bytes_eq, ℤ, pos, atoi, lookup, Bool-cases, inl, inr, arith,
}
use mathlib.Core.Path.{subst}
use redis_glass.Store.{
  Entry, Store, Error, syntax, bad_number, bad_arguments, Result, ok, err, set, del, expire,
  expire_entry, flush_all, incr_by, add_to, store_sum, current, kept_expiry,
}
use redis_glass.Store.Lists.{lpush, rpush}
use redis_glass.Store.Hashes.{hset, hdel}
use redis_glass.Aof.{
  Command, parse_set_ttl, replay_command, replay_step, replay_step_by, drop_reply, succeed,
}
use redis_glass.Aof.Rewrite.{Aof}
use redis_glass.Aof.Node.{has_target}
use redis_glass.Commands.State.{
  Handler, Clock, Handled, logged, refuse, bad_integer, wrong_number, mutate_and_log,
  reply_or_error,
}
use redis_glass.Commands.Strings.{
  of_result, always_logged, set_with, handle_set, handle_del, existed, expire_by, handle_expire,
  handle_flush_all, add_delta, handle_step, add_number, handle_step_by,
}
use redis_glass.Commands.Collections.{handle_push, handle_hset, handle_hdel}
use redis_glass.System.Trace.{due, due_refused}
use redis_glass.System.Log.{
  Follows, IsFaithful, stay_put, reply_or_error-Follows, reply_anyway-Follows,
}
use redis_glass.System.Replayed.{
  other-has_target, of_result-IsFaithful, dropped-IsReplayed, set-refused, incr_by-refused,
}

module _ (failure : Bytes) (clock : Clock) (h : Handler) (a : Aof) (pending : Option Store)
    (e : h.aof ≡ some a) (o : a.is_open ≡ true) where
  abbrev pub FollowsFrom : Command → Handled → Type 0
  FollowsFrom c r = Follows h.store a pending (due clock.now c h.store) r.1

  -- A request that is refused, as the replay of its command would be.
  pub stays :
      (c : Command) (x : Error)
      → replay_command clock.now c h.store ≡ (err x, h.store)
      → FollowsFrom c ([], h)
  stays c x r =
      subst (λ cs. Follows h.store a pending cs h)
        (sym (due_refused clock.now c h.store h.store x r)) (stay_put h.store a pending h refl e o)

  pub logged_operation :
      {A : Type 0} (f : A → Bytes) (name : Bytes) (args : List Bytes)
      (run : Store → Result A × Store)
      → bytes_eq name (codes "EXPIRE") ≡ false
      → replay_command clock.now (name, args) h.store ≡ drop_reply (run h.store)
      → ((x : Error) → (run h.store).0 ≡ err x → (run h.store).1 ≡ h.store)
      → FollowsFrom
          (name, args)
          (reply_or_error failure f (mutate_and_log (name, args) (λ s. of_result (run s)) h))
  logged_operation f name args run x r k =
      reply_or_error-Follows failure f clock.now (name, args) (λ s. of_result (run s)) h a pending e
        o
        (of_result-IsFaithful clock.now (name, args) h.store (run h.store)
          (dropped-IsReplayed clock.now (name, args) h.store (run h.store) r
            (other-has_target name args h.store x) k))

  drop_unit : (r : Result (Unit {0}) × Store) → r ≡ drop_reply r
  drop_unit (ok x, s) = refl
  drop_unit (err x, s) = refl

  set_with-Follows :
      (k v : Bytes) (rest : List Bytes) (r : Result ℤ)
      → parse_set_ttl (pos 0) rest ≡ r
      → FollowsFrom (codes "SET", k ∷ v ∷ rest) (set_with failure clock (k ∷ v ∷ rest) k v r h)
  unfolding set_with refuse bad_integer replay_command bytes_eq
  set_with-Follows k v rest (ok lifetime) q =
      logged_operation _ (codes "SET") (k ∷ v ∷ rest) (set clock.now k v lifetime) refl
        (rw q (drop_unit (set clock.now k v lifetime h.store)))
        (set-refused clock.now k v lifetime h.store)
  set_with-Follows k v rest (err syntax) q = stays (codes "SET", k ∷ v ∷ rest) syntax (rw q refl)
  set_with-Follows k v rest (err x) q = stays (codes "SET", k ∷ v ∷ rest) x (rw q refl)

  pub handle_set-Follows :
      (args : List Bytes) → FollowsFrom (codes "SET", args) (handle_set failure clock args h)
  unfolding handle_set wrong_number replay_command bytes_eq
  handle_set-Follows [] = stays (codes "SET", []) _ refl
  handle_set-Follows (k ∷ []) = stays (codes "SET", k ∷ []) _ refl
  handle_set-Follows (k ∷ v ∷ rest) = set_with-Follows k v rest (parse_set_ttl (pos 0) rest) refl

  pub handle_del-Follows :
      (args : List Bytes) → FollowsFrom (codes "DEL", args) (handle_del failure clock args h)
  unfolding handle_del wrong_number always_logged replay_command bytes_eq has_target
  handle_del-Follows [] = stays (codes "DEL", []) _ refl
  handle_del-Follows (k ∷ ks) =
      reply_anyway-Follows _ 0 clock.now (codes "DEL", k ∷ ks) (λ s. always_logged (del (k ∷ ks) s))
        h a pending e o (refl, refl)

  found-IsFaithful :
      (k n : Bytes) (z : ℤ) (x : Option Entry) (s : Store)
      → lookup k s.strings ≡ x
      → replay_command clock.now (codes "EXPIRE", k ∷ n ∷ []) s
        ≡ succeed (expire_entry clock.now k z x s)
      → IsFaithful clock.now
          (codes "EXPIRE", k ∷ n ∷ [])
          s
          (existed failure clock (expire_entry clock.now k z x s))
  unfolding existed expire_entry due has_target bytes_eq
  found-IsFaithful k n z none s q r = (refl, rw q)
  found-IsFaithful k n z (some x) s q r = (r, rw q)

  existed-IsFaithful :
      (k n : Bytes) (z : ℤ) (s : Store)
      → atoi n ≡ some z
      → IsFaithful clock.now
          (codes "EXPIRE", k ∷ n ∷ [])
          s
          (existed failure clock (expire clock.now k z s))
  unfolding replay_command bytes_eq expire
  existed-IsFaithful k n z s q = found-IsFaithful k n z (lookup k s.strings) s refl (rw q refl)

  expire_by-Follows :
      (k n : Bytes) (z : Option ℤ)
      → atoi n ≡ z
      → FollowsFrom (codes "EXPIRE", k ∷ n ∷ []) (expire_by failure clock (k ∷ n ∷ []) k z h)
  unfolding expire_by bad_integer replay_command bytes_eq
  expire_by-Follows k n none q = stays (codes "EXPIRE", k ∷ n ∷ []) bad_number (rw q refl)
  expire_by-Follows k n (some z) q =
      reply_anyway-Follows _ 0 clock.now (codes "EXPIRE", k ∷ n ∷ [])
        (λ s. existed failure clock (expire clock.now k z s)) h a pending e o
        (existed-IsFaithful k n z h.store q)

  pub handle_expire-Follows :
      (args : List Bytes) → FollowsFrom (codes "EXPIRE", args) (handle_expire failure clock args h)
  unfolding handle_expire wrong_number replay_command bytes_eq
  handle_expire-Follows (k ∷ n ∷ []) = expire_by-Follows k n (atoi n) refl
  handle_expire-Follows [] = stays (codes "EXPIRE", []) _ refl
  handle_expire-Follows (k ∷ []) = stays (codes "EXPIRE", k ∷ []) _ refl
  handle_expire-Follows (k ∷ n ∷ x ∷ rest) = stays (codes "EXPIRE", k ∷ n ∷ x ∷ rest) _ refl

  pub handle_flush_all-Follows :
      FollowsFrom (codes "FLUSHALL", []) (handle_flush_all failure clock h)
  unfolding handle_flush_all replay_command bytes_eq has_target
  handle_flush_all-Follows =
      reply_anyway-Follows _ tt clock.now (codes "FLUSHALL", []) (λ s. (logged tt, flush_all s)) h a
        pending e o (refl, refl)

  add_delta-Follows :
      (name : Bytes) (args : List Bytes) (k : Bytes) (d : ℤ)
      → bytes_eq name (codes "EXPIRE") ≡ false
      → replay_command clock.now (name, args) h.store ≡ drop_reply (incr_by clock.now k d h.store)
      → FollowsFrom (name, args) (add_delta failure clock name args k d h)
  unfolding add_delta
  add_delta-Follows name args k d x r =
      logged_operation _ name args (incr_by clock.now k d) x r
        (incr_by-refused clock.now k d h.store)

  pub handle_step-Follows :
      (name lower : Bytes) (d : ℤ) (args : List Bytes)
      → bytes_eq name (codes "EXPIRE") ≡ false
      → ((xs : List Bytes)
          → replay_command clock.now (name, xs) h.store ≡ replay_step clock.now d xs h.store)
      → FollowsFrom (name, args) (handle_step failure clock name lower d args h)
  unfolding handle_step wrong_number replay_step
  handle_step-Follows name lower d [] x r = stays (name, []) _ (r [])
  handle_step-Follows name lower d (k ∷ []) x r = add_delta-Follows name (k ∷ []) k d x (r (k ∷ []))
  handle_step-Follows name lower d (k ∷ y ∷ rest) x r =
      stays (name, k ∷ y ∷ rest) _ (r (k ∷ y ∷ rest))

  add_number-Follows :
      (name : Bytes) (sign : ℤ → ℤ) (k n : Bytes) (z : Option ℤ)
      → atoi n ≡ z
      → bytes_eq name (codes "EXPIRE") ≡ false
      → replay_command clock.now (name, k ∷ n ∷ []) h.store
        ≡ replay_step_by clock.now sign (k ∷ n ∷ []) h.store
      → FollowsFrom (name, k ∷ n ∷ []) (add_number failure clock name sign (k ∷ n ∷ []) k z h)
  unfolding add_number bad_integer replay_step_by
  add_number-Follows name sign k n none q x r = stays (name, k ∷ n ∷ []) bad_number (r ∙ rw q refl)
  add_number-Follows name sign k n (some z) q x r =
      add_delta-Follows name (k ∷ n ∷ []) k (sign z) x (r ∙ rw q)

  pub handle_step_by-Follows :
      (name lower : Bytes) (sign : ℤ → ℤ) (args : List Bytes)
      → bytes_eq name (codes "EXPIRE") ≡ false
      → ((xs : List Bytes)
          → replay_command clock.now (name, xs) h.store ≡ replay_step_by clock.now sign xs h.store)
      → FollowsFrom (name, args) (handle_step_by failure clock name lower sign args h)
  unfolding handle_step_by wrong_number replay_step_by
  handle_step_by-Follows name lower sign [] x r = stays (name, []) _ (r [])
  handle_step_by-Follows name lower sign (k ∷ []) x r = stays (name, k ∷ []) _ (r (k ∷ []))
  handle_step_by-Follows name lower sign (k ∷ n ∷ []) x r =
      add_number-Follows name sign k n (atoi n) refl x (r (k ∷ n ∷ []))
  handle_step_by-Follows name lower sign (k ∷ n ∷ y ∷ rest) x r =
      stays (name, k ∷ n ∷ y ∷ rest) _ (r (k ∷ n ∷ y ∷ rest))
