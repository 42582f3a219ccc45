-- ===== src/System/Replayed.antt =====
-- store/store.go and store/aof.go: a method that fails leaves the store alone, and its replay fails too.
use redis_glass.Prelude.{
  ◌≡◌, refl, true, false, Option, List, [], Bytes, codes, bytes_eq, ℤ, lookup, arith,
}
use redis_glass.Store.{
  Store, Error, Result, ok, err, set, incr_by, add_to, store_sum, current, kept_expiry,
}
use redis_glass.Store.Lists.{lpush, rpush}
use redis_glass.Aof.{Command, replay_command, drop_reply}
use redis_glass.Aof.Node.{has_target}
use redis_glass.Commands.Strings.{of_result}
use redis_glass.System.Trace.{due, due_refused}
use redis_glass.System.Log.{IsFaithful}

-- A command other than EXPIRE has its target.
pub other-has_target :
    (name : Bytes) (args : List Bytes) (s : Store)
    → bytes_eq name (codes "EXPIRE") ≡ false
    → has_target (name, args) s ≡ true
unfolding has_target
other-has_target name args s e = rw e

-- An operation that leaves the store alone where it fails, and does where it succeeds what the replay
-- of the command does.
abbrev pub IsReplayed : {A : Type 0} → ℤ → Command → Store → Result A × Store → Type 0
IsReplayed now c s (ok a, s') = (replay_command now c s ≡ (ok tt, s')) × (has_target c s ≡ true)
IsReplayed now c s (err e, s') = (s' ≡ s) × (due now c s ≡ [])

pub of_result-IsFaithful :
    {A : Type 0} (now : ℤ) (c : Command) (s : Store) (r : Result A × Store)
    → IsReplayed now c s r
    → IsFaithful now c s (of_result r)
unfolding of_result
of_result-IsFaithful now c s (ok a, s') h = h
of_result-IsFaithful now c s (err e, s') h = h

-- Where the replay runs the same operation and drops its reply.
pub dropped-IsReplayed :
    {A : Type 0} (now : ℤ) (c : Command) (s : Store) (r : Result A × Store)
    → replay_command now c s ≡ drop_reply r
    → has_target c s ≡ true
    → ((e : Error) → r.0 ≡ err e → r.1 ≡ s)
    → IsReplayed now c s r
dropped-IsReplayed now c s (ok a, s') h t k = (h, t)
dropped-IsReplayed now c s (err e, s') h t k = (k e refl, due_refused now c s s' e h)

pub set-refused :
    (now : ℤ) (k v : Bytes) (t : ℤ) (s : Store) (e : Error)
    → (set now k v t s).0 ≡ err e
    → (set now k v t s).1 ≡ s
unfolding set
set-refused now k v t s e h = ground arith

add_to-refused :
    (cur : Result ℤ) (k : Bytes) (x : Option ℤ) (d : ℤ) (s : Store) (e : Error)
    → (add_to cur k x d s).0 ≡ err e
    → (add_to cur k x d s).1 ≡ s
unfolding add_to store_sum
add_to-refused (err e') k x d s e h = refl
add_to-refused (ok cur) k x d s e h = ground arith

pub incr_by-refused :
    (now : ℤ) (k : Bytes) (d : ℤ) (s : Store) (e : Error)
    → (incr_by now k d s).0 ≡ err e
    → (incr_by now k d s).1 ≡ s
unfolding incr_by
incr_by-refused now k d s e h =
    add_to-refused (current now (lookup k s.strings)) k (kept_expiry (lookup k s.strings)) d s e h

pub lpush-refused :
    (k : Bytes) (vs : List Bytes) (s : Store) (e : Error)
    → (lpush k vs s).0 ≡ err e
    → (lpush k vs s).1 ≡ s
unfolding lpush
lpush-refused k vs s e h = ground arith

pub rpush-refused :
    (k : Bytes) (vs : List Bytes) (s : Store) (e : Error)
    → (rpush k vs s).0 ≡ err e
    → (rpush k vs s).1 ≡ s
unfolding rpush
rpush-refused k vs s e h = ground arith
