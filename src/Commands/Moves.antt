-- ===== src/Commands/Moves.antt =====
-- commands/handler.go: what a command does to the store.
pub mod Strings
pub mod Collections
pub mod Dispatch
use redis_glass.Prelude.{
  ℕ, ◌≡◌, ◌⊎◌, inl, inr, refl, ap, ◌∙◌, ◌||◌, Option, none, some, List, [], ◌∷◌, length, ◌%◌, ltb,
  ◌==◌, Bytes, ℤ, pos, negsuc, atoi, if◌then◌else◌,
}
use redis_glass.Store.{Store, Result, ok, err}
use redis_glass.Store.Operations.{
  Operation, set_op, get_op, del_op, exists_op, expire_op, ttl_op, flush_all_op, incr_by_op,
  lpush_op, rpush_op, hset_op, hdel_op, perform,
}
use redis_glass.Aof.{Command, parse_set_ttl, negate}
use redis_glass.Commands.Dispatch.{
  Verb, set_v, get_v, del_v, exists_v, expire_v, ttl_v, flush_all_v, incr_v, decr_v, incr_by_v,
  decr_by_v, lpush_v, rpush_v, hset_v, hdel_v,
}
use redis_glass.Commands.State.{
  Handler, Clock, Mutation, logged, skipped, failed, Logged, success, store_error, log_error,
  finish_mutation, mutate_and_log, reply_or_error, reply_anyway,
}
use redis_glass.Commands.Strings.{of_result}

-- What one operation makes of a store, where there is one.
unfoldable pub perform_option : Option Operation → Store → Store
perform_option none s = s
perform_option (some op) s = perform op s

-- The second store is the first, or what one operation makes of it.
unfoldable pub Moves : Store → Store → Type 0
Moves s s' = (s' ≡ s) ⊎ ((op : Operation) × (s' ≡ perform op s))

pub stays : (s : Store) → Moves s s
unfolding Moves
stays s = inl refl

pub by_operation : (op : Operation) (s s' : Store) → s' ≡ perform op s → Moves s s'
unfolding Moves
by_operation op s s' e = inr (op, e)

pub perform_option-Moves : (o : Option Operation) (s : Store) → Moves s (perform_option o s)
unfolding Moves perform_option
perform_option-Moves none s = inl refl
perform_option-Moves (some op) s = inr (op, refl)

-- The method of the store that a command calls, by its name and its arguments; none where the command
-- has no business with the store's data, or where its arguments are refused.
abbrev pub in_time : ℤ → Bytes → Bytes → Result ℤ → Option Operation
in_time now k v (ok lifetime) = some (set_op now k v lifetime)
in_time now k v (err e) = none

abbrev pub by_number : (ℤ → Operation) → Option ℤ → Option Operation
by_number f none = none
by_number f (some n) = some (f n)

abbrev pub step_method : Clock → ℤ → List Bytes → Option Operation
step_method clock delta (k ∷ []) = some (incr_by_op clock.now k delta)
step_method clock delta _ = none

abbrev pub step_by_method : Clock → (ℤ → ℤ) → List Bytes → Option Operation
step_by_method clock sign (k ∷ n ∷ []) = by_number (λ m. incr_by_op clock.now k (sign m)) (atoi n)
step_by_method clock sign _ = none

abbrev pub push_method : (Bytes → List Bytes → Operation) → List Bytes → Option Operation
push_method op (k ∷ v ∷ vs) = some (op k (v ∷ vs))
push_method op _ = none

unfoldable pub method_of : Clock → Verb → List Bytes → Option Operation
method_of clock set_v (k ∷ v ∷ rest) = in_time clock.now k v (parse_set_ttl (pos 0) rest)
method_of clock get_v (k ∷ []) = some (get_op clock.now k)
method_of clock del_v (k ∷ ks) = some (del_op (k ∷ ks))
method_of clock exists_v (k ∷ ks) = some (exists_op clock.each (k ∷ ks))
method_of clock expire_v (k ∷ n ∷ []) = by_number (expire_op clock.now k) (atoi n)
method_of clock ttl_v (k ∷ []) = some (ttl_op clock.now clock.until k)
method_of clock flush_all_v args = some flush_all_op
method_of clock incr_v args = step_method clock (pos 1) args
method_of clock decr_v args = step_method clock (negsuc 0) args
method_of clock incr_by_v args = step_by_method clock (λ n. n) args
method_of clock decr_by_v args = step_by_method clock negate args
method_of clock lpush_v args = push_method lpush_op args
method_of clock rpush_v args = push_method rpush_op args
method_of clock hset_v (k ∷ pairs) =
    if ltb (length (k ∷ pairs)) 3 || length (k ∷ pairs) % 2 == 0
    then none
    else some (hset_op k pairs)
method_of clock hdel_v (k ∷ f ∷ fs) = some (hdel_op k (f ∷ fs))
method_of clock _ _ = none

module _ {A : Type 0} where
  finish_mutation-store :
      (c : Command) (m : Mutation A) (s : Store) (h : Handler)
      → (finish_mutation c m s h).1.store ≡ s
  unfolding finish_mutation
  finish_mutation-store c (logged a) s h = refl
  finish_mutation-store c (skipped a) s h = refl
  finish_mutation-store c (failed e) s h = refl

  mutate_and_log-store :
      (c : Command) (mutate : Store → Mutation A × Store) (h : Handler)
      → (mutate_and_log c mutate h).1.store ≡ (mutate h.store).1
  unfolding mutate_and_log
  mutate_and_log-store c mutate h = finish_mutation-store c (mutate h.store).0 (mutate h.store).1 h

  pub reply_or_error-handler :
      (failure : Bytes) (f : A → Bytes) (r : Logged A × Handler)
      → (reply_or_error failure f r).1 ≡ r.1
  unfolding reply_or_error
  reply_or_error-handler failure f (success a, h) = refl
  reply_or_error-handler failure f (store_error e, h) = refl
  reply_or_error-handler failure f (log_error a, h) = refl

  pub reply_anyway-handler :
      (f : A → Bytes) (d : A) (r : Logged A × Handler) → (reply_anyway f d r).1 ≡ r.1
  unfolding reply_anyway
  reply_anyway-handler f d (success a, h) = refl
  reply_anyway-handler f d (store_error e, h) = refl
  reply_anyway-handler f d (log_error a, h) = refl

  of_result-store : (r : Result A × Store) → (of_result r).1 ≡ r.1
  unfolding of_result
  of_result-store (ok a, s) = refl
  of_result-store (err e, s) = refl

  -- A handler that replies with its own errors, around one operation.
  pub reply_or_error-store :
      (failure : Bytes) (f : A → Bytes) (c : Command) (run : Store → Result A × Store) (h : Handler)
      (op : Operation)
      → (run h.store).1 ≡ perform op h.store
      → (reply_or_error failure f (mutate_and_log c (λ s. of_result (run s)) h)).1.store
        ≡ perform op h.store
  reply_or_error-store failure f c run h op e =
      ap (λ (x : Handler). x.store)
        (reply_or_error-handler failure f (mutate_and_log c (λ s. of_result (run s)) h))
      ∙ mutate_and_log-store c (λ s. of_result (run s)) h
      ∙ of_result-store (run h.store)
      ∙ e

  -- A handler that drops the log's error, around one operation.
  pub reply_anyway-store :
      (f : A → Bytes) (d : A) (c : Command) (mutate : Store → Mutation A × Store) (h : Handler)
      (op : Operation)
      → (mutate h.store).1 ≡ perform op h.store
      → (reply_anyway f d (mutate_and_log c mutate h)).1.store ≡ perform op h.store
  reply_anyway-store f d c mutate h op e =
      ap (λ (x : Handler). x.store) (reply_anyway-handler f d (mutate_and_log c mutate h))
      ∙ mutate_and_log-store c mutate h
      ∙ e
