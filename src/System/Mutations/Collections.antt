-- ===== src/System/Mutations/Collections.antt =====
-- commands/handler.go: the mutations of lists and hashes, as steps of a node.
use redis_glass.Prelude.{
  ℕ, ◌≡◌, refl, true, false, ◌||◌, Option, some, List, [], ◌∷◌, length, ◌%◌, ltb, ◌==◌, Bytes,
  codes, bytes_eq, Bool-cases, inl, inr, arith,
}
use redis_glass.Store.{Store, Error, bad_arguments, Result, err}
use redis_glass.Store.Hashes.{hset, hdel}
use redis_glass.Aof.{replay_command, replay_push, drop_reply}
use redis_glass.Aof.Rewrite.{Aof}
use redis_glass.Aof.Node.{has_target}
use redis_glass.Commands.State.{Handler, Clock, wrong_number}
use redis_glass.Commands.Strings.{always_logged}
use redis_glass.Commands.Collections.{handle_push, handle_hset, handle_hdel}
use redis_glass.System.Log.{reply_anyway-Follows}
use redis_glass.System.Mutations.{FollowsFrom, stays, logged_operation}

hset-refused :
    (k : Bytes) (ps : List Bytes) (s : Store) (e : Error)
    → (hset k ps s).0 ≡ err e
    → (hset k ps s).1 ≡ s
unfolding hset
hset-refused k ps s e h = ground arith

module _ (failure : Bytes) (clock : Clock) (h : Handler) (a : Aof) (pending : Option Store)
    (e : h.aof ≡ some a) (o : a.is_open ≡ true) where
  pub handle_push-Follows :
      (name lower : Bytes) (run : Bytes → List Bytes → Store → Result ℕ × Store) (args : List Bytes)
      → bytes_eq name (codes "EXPIRE") ≡ false
      → ((xs : List Bytes)
          → replay_command clock.now (name, xs) h.store ≡ replay_push run xs h.store)
      → ((k : Bytes) (vs : List Bytes) (x : Error)
          → (run k vs h.store).0 ≡ err x
          → (run k vs h.store).1 ≡ h.store)
      → FollowsFrom failure clock h a pending e o
          (name, args)
          (handle_push failure name lower run args h)
  unfolding handle_push wrong_number replay_push
  handle_push-Follows name lower run [] y r x =
      stays failure clock h a pending e o (name, []) _ (r [])
  handle_push-Follows name lower run (k ∷ []) y r x =
      stays failure clock h a pending e o (name, k ∷ []) _ (r (k ∷ []))
  handle_push-Follows name lower run (k ∷ v ∷ vs) y r x =
      logged_operation failure clock h a pending e o _ name (k ∷ v ∷ vs) (run k (v ∷ vs)) y
        (r (k ∷ v ∷ vs)) (x k (v ∷ vs))

  replay_hset_runs :
      (k : Bytes) (ps : List Bytes)
      → (ltb (length (k ∷ ps)) 3 || length (k ∷ ps) % 2 == 0) ≡ false
      → replay_command clock.now (codes "HSET", k ∷ ps) h.store ≡ drop_reply (hset k ps h.store)
  unfolding replay_command bytes_eq
  replay_hset_runs k ps q = rw q refl

  pub handle_hset-Follows :
      (args : List Bytes)
      → FollowsFrom failure clock h a pending e o (codes "HSET", args) (handle_hset failure args h)
  unfolding handle_hset wrong_number replay_command bytes_eq
  handle_hset-Follows [] = stays failure clock h a pending e o (codes "HSET", []) _ refl
  handle_hset-Follows (k ∷ ps) =
      elim (Bool-cases (ltb (length (k ∷ ps)) 3 || length (k ∷ ps) % 2 == 0)) [
        | inl q ↦
            rw q
              (stays failure clock h a pending e o (codes "HSET", k ∷ ps) bad_arguments (rw q refl))
        | inr q ↦ rw q (
            logged_operation failure clock h a pending e o _ (codes "HSET") (k ∷ ps) (hset k ps)
              refl (replay_hset_runs k ps q) (hset-refused k ps h.store))
      ]

  pub handle_hdel-Follows :
      (args : List Bytes)
      → FollowsFrom failure clock h a pending e o (codes "HDEL", args) (handle_hdel args h)
  unfolding handle_hdel wrong_number always_logged replay_command bytes_eq has_target
  handle_hdel-Follows (k ∷ f ∷ fs) =
      reply_anyway-Follows _ 0 clock.now (codes "HDEL", k ∷ f ∷ fs)
        (λ s. always_logged (hdel k (f ∷ fs) s)) h a pending e o (refl, refl)
  handle_hdel-Follows [] = stays failure clock h a pending e o (codes "HDEL", []) _ refl
  handle_hdel-Follows (k ∷ []) = stays failure clock h a pending e o (codes "HDEL", k ∷ []) _ refl
