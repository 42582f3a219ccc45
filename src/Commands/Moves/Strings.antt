-- ===== src/Commands/Moves/Strings.antt =====
-- commands/handler.go: the handlers of the commands on string keys, and the store.
use redis_glass.Prelude.{
  ◌≡◌, refl, Bool, true, false, Option, none, some, List, [], ◌∷◌, Bytes, codes, ℤ, pos, atoi,
}
use redis_glass.Store.{Store, syntax, Result, ok, err, set, del, expire, flush_all, incr_by}
use redis_glass.Store.Operations.{set_op, del_op, expire_op, flush_all_op, incr_by_op, perform}
use redis_glass.Aof.{parse_set_ttl}
use redis_glass.Commands.State.{Handler, Clock, logged, refuse, bad_integer, wrong_number}
use redis_glass.Commands.Strings.{
  always_logged, set_with, handle_set, handle_get, handle_del, handle_exists, existed, expire_by,
  handle_expire, handle_ttl, handle_flush_all, add_delta, handle_step, add_number, handle_step_by,
}
use redis_glass.Commands.Dispatch.{set_v, get_v, del_v, exists_v, expire_v, ttl_v, flush_all_v}
use redis_glass.Commands.Moves.{
  perform_option, in_time, by_number, step_method, step_by_method, method_of, reply_or_error-store,
  reply_anyway-store,
}

module _ (failure : Bytes) (clock : Clock) where
  set_with-store :
      (args : List Bytes) (key val : Bytes) (r : Result ℤ) (h : Handler)
      → (set_with failure clock args key val r h).1.store
        ≡ perform_option (in_time clock.now key val r) h.store
  unfolding set_with refuse bad_integer perform perform_option method_of
  set_with-store args key val (ok lifetime) h =
      reply_or_error-store failure _ (codes "SET", args) (set clock.now key val lifetime) h
        (set_op clock.now key val lifetime) refl
  set_with-store args key val (err syntax) h = refl
  set_with-store args key val (err _) h = refl

  pub handle_set-store :
      (args : List Bytes) (h : Handler)
      → (handle_set failure clock args h).1.store
        ≡ perform_option (method_of clock set_v args) h.store
  unfolding handle_set wrong_number perform_option method_of
  handle_set-store [] h = refl
  handle_set-store (k ∷ []) h = refl
  handle_set-store (k ∷ v ∷ rest) h =
      set_with-store (k ∷ v ∷ rest) k v (parse_set_ttl (pos 0) rest) h

  pub handle_get-store :
      (args : List Bytes) (h : Handler)
      → (handle_get failure clock args h).1.store
        ≡ perform_option (method_of clock get_v args) h.store
  unfolding handle_get wrong_number perform perform_option method_of
  handle_get-store (k ∷ []) h = refl
  handle_get-store _ h = refl

  pub handle_del-store :
      (args : List Bytes) (h : Handler)
      → (handle_del failure clock args h).1.store
        ≡ perform_option (method_of clock del_v args) h.store
  unfolding handle_del wrong_number always_logged perform perform_option method_of
  handle_del-store [] h = refl
  handle_del-store (k ∷ ks) h =
      reply_anyway-store _ 0 (codes "DEL", k ∷ ks) (λ s. always_logged (del (k ∷ ks) s)) h
        (del_op (k ∷ ks)) refl

  pub handle_exists-store :
      (args : List Bytes) (h : Handler)
      → (handle_exists failure clock args h).1.store
        ≡ perform_option (method_of clock exists_v args) h.store
  unfolding handle_exists wrong_number perform perform_option method_of
  handle_exists-store [] h = refl
  handle_exists-store (k ∷ ks) h = refl

  existed-store : (r : Bool × Store) → (existed failure clock r).1 ≡ r.1
  unfolding existed
  existed-store (true, s) = refl
  existed-store (false, s) = refl

  expire_by-store :
      (args : List Bytes) (key : Bytes) (n : Option ℤ) (h : Handler)
      → (expire_by failure clock args key n h).1.store
        ≡ perform_option (by_number (expire_op clock.now key) n) h.store
  unfolding expire_by bad_integer perform perform_option method_of
  expire_by-store args key none h = refl
  expire_by-store args key (some n) h =
      reply_anyway-store _ 0 (codes "EXPIRE", args)
        (λ s. existed failure clock (expire clock.now key n s)) h (expire_op clock.now key n)
        (existed-store (expire clock.now key n h.store))

  pub handle_expire-store :
      (args : List Bytes) (h : Handler)
      → (handle_expire failure clock args h).1.store
        ≡ perform_option (method_of clock expire_v args) h.store
  unfolding handle_expire wrong_number perform_option method_of
  handle_expire-store (k ∷ n ∷ []) h = expire_by-store (k ∷ n ∷ []) k (atoi n) h
  handle_expire-store _ h = refl

  pub handle_ttl-store :
      (args : List Bytes) (h : Handler)
      → (handle_ttl failure clock args h).1.store
        ≡ perform_option (method_of clock ttl_v args) h.store
  unfolding handle_ttl wrong_number perform perform_option method_of
  handle_ttl-store (k ∷ []) h = refl
  handle_ttl-store _ h = refl

  pub handle_flush_all-store :
      (h : Handler)
      → (handle_flush_all failure clock h).1.store
        ≡ perform_option (method_of clock flush_all_v []) h.store
  unfolding handle_flush_all perform perform_option method_of
  handle_flush_all-store h =
      reply_anyway-store _ tt (codes "FLUSHALL", []) (λ s. (logged tt, flush_all s)) h flush_all_op
        refl

  add_delta-store :
      (name : Bytes) (args : List Bytes) (key : Bytes) (delta : ℤ) (h : Handler)
      → (add_delta failure clock name args key delta h).1.store
        ≡ perform_option (some (incr_by_op clock.now key delta)) h.store
  unfolding add_delta perform perform_option method_of
  add_delta-store name args key delta h =
      reply_or_error-store failure _ (name, args) (incr_by clock.now key delta) h
        (incr_by_op clock.now key delta) refl

  pub handle_step-store :
      (name lower : Bytes) (delta : ℤ) (args : List Bytes) (h : Handler)
      → (handle_step failure clock name lower delta args h).1.store
        ≡ perform_option (step_method clock delta args) h.store
  unfolding handle_step wrong_number perform_option method_of
  handle_step-store name lower delta (k ∷ []) h = add_delta-store name (k ∷ []) k delta h
  handle_step-store name lower delta _ h = refl

  add_number-store :
      (name : Bytes) (sign : ℤ → ℤ) (args : List Bytes) (key : Bytes) (n : Option ℤ) (h : Handler)
      → (add_number failure clock name sign args key n h).1.store
        ≡ perform_option (by_number (λ m. incr_by_op clock.now key (sign m)) n) h.store
  unfolding add_number bad_integer perform_option method_of
  add_number-store name sign args key none h = refl
  add_number-store name sign args key (some n) h = add_delta-store name args key (sign n) h

  pub handle_step_by-store :
      (name lower : Bytes) (sign : ℤ → ℤ) (args : List Bytes) (h : Handler)
      → (handle_step_by failure clock name lower sign args h).1.store
        ≡ perform_option (step_by_method clock sign args) h.store
  unfolding handle_step_by wrong_number perform_option method_of
  handle_step_by-store name lower sign (k ∷ n ∷ []) h =
      add_number-store name sign (k ∷ n ∷ []) k (atoi n) h
  handle_step_by-store name lower sign _ h = refl
