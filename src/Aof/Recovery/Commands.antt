-- ===== src/Aof/Recovery/Commands.antt =====
-- store/aof.go: `replayCommand` on two states that hold the same lists and hashes, at any two times.
use redis_glass.Prelude.{
  ◌≡◌, refl, sym, Bool, true, false, ◌||◌, ◌==◌, ltb, ◌%◌, ℕ, List, [], ◌∷◌, length, Bytes, codes,
  bytes_eq, bytes_eq_iff, to_upper, ℤ, pos, negsuc, if◌then◌else◌,
}
use mathlib.Core.Path.{subst}
use redis_glass.Store.{Store, Result, ok, err}
use redis_glass.Store.Lists.{lpush, rpush}
use redis_glass.Aof.{
  Command, drop_reply, replay_del, negate, replay_push, replay_hset, replay_hdel, replay_command,
}
use redis_glass.Aof.Recovery.{SameCollections, framed}
use redis_glass.Aof.Recovery.Strings.{
  replay_set-SameFrame, replay_expire-SameFrame, replay_step-SameFrame, replay_step_by-SameFrame,
}
use redis_glass.Aof.Recovery.Collections.{
  rpush-SameCollections, lpush-SameCollections, del-SameCollections, flush_all-SameCollections,
}
use redis_glass.Aof.Recovery.Hashes.{hset-SameCollections, hdel-SameCollections}

abbrev Stepped : Type 0
Stepped = Result (Unit {0}) × Store

dropped :
    {A : Type 0} (r q : Result A × Store)
    → SameCollections r.1 q.1
    → SameCollections (drop_reply r).1 (drop_reply q).1
dropped (ok a, s) (ok b, t) c = c
dropped (ok a, s) (err e, t) c = c
dropped (err e, s) (ok b, t) c = c
dropped (err e, s) (err d, t) c = c

-- The same test decides both replays.
both :
    (b : Bool) (r r' q q' : Stepped)
    → SameCollections r.1 q.1
    → SameCollections r'.1 q'.1
    → SameCollections (if b then r else r').1 (if b then q else q').1
both true r r' q q' c d = c
both false r r' q q' c d = d

module _ (now later : ℤ) (s t : Store) (c : SameCollections s t) where
  replay_del-SameCollections :
      (args : List Bytes) → SameCollections (replay_del args s).1 (replay_del args t).1
  unfolding replay_del
  replay_del-SameCollections [] = c
  replay_del-SameCollections (k ∷ ks) = del-SameCollections (k ∷ ks) s t c

  replay_push-SameCollections :
      (run : Bytes → List Bytes → Store → Result ℕ × Store) (args : List Bytes)
      → ((k : Bytes) (vs : List Bytes) → SameCollections (run k vs s).1 (run k vs t).1)
      → SameCollections (replay_push run args s).1 (replay_push run args t).1
  unfolding replay_push
  replay_push-SameCollections run (k ∷ v ∷ vs) h = dropped _ _ (h k (v ∷ vs))
  replay_push-SameCollections run _ h = c

  replay_hset-SameCollections :
      (args : List Bytes) → SameCollections (replay_hset args s).1 (replay_hset args t).1
  unfolding replay_hset
  replay_hset-SameCollections [] = c
  replay_hset-SameCollections (k ∷ ps) =
      both (ltb (length (k ∷ ps)) 3 || length (k ∷ ps) % 2 == 0) _ _ _ _ c
        (dropped _ _ (hset-SameCollections k ps s t c))

  replay_hdel-SameCollections :
      (args : List Bytes) → SameCollections (replay_hdel args s).1 (replay_hdel args t).1
  unfolding replay_hdel
  replay_hdel-SameCollections (k ∷ f ∷ fs) = hdel-SameCollections k (f ∷ fs) s t c
  replay_hdel-SameCollections _ = c

  pub replay_command-SameCollections :
      (x : Command) → SameCollections (replay_command now x s).1 (replay_command later x t).1
  unfolding replay_command
  replay_command-SameCollections (cmd, args) =
      let step =
        λ (name : Bytes) (r r' q q' : Stepped) (a : SameCollections r.1 q.1)
            (b : SameCollections r'.1 q'.1).
          both (bytes_eq cmd name) r r' q q' a b in
      step (codes "SET") _ _ _ _
        (framed s t _ _ (replay_set-SameFrame now args s) (replay_set-SameFrame later args t) c)
        (step (codes "DEL") _ _ _ _ (replay_del-SameCollections args) (
          step (codes "EXPIRE") _ _ _ _
            (framed s t _ _ (replay_expire-SameFrame now args s)
              (replay_expire-SameFrame later args t) c)
            (step (codes "INCR") _ _ _ _
              (framed s t _ _ (replay_step-SameFrame now (pos 1) args s)
                (replay_step-SameFrame later (pos 1) args t) c)
              (step (codes "DECR") _ _ _ _
                (framed s t _ _ (replay_step-SameFrame now (negsuc 0) args s)
                  (replay_step-SameFrame later (negsuc 0) args t) c)
                (step (codes "INCRBY") _ _ _ _
                  (framed s t _ _ (replay_step_by-SameFrame now (λ n. n) args s)
                    (replay_step_by-SameFrame later (λ n. n) args t) c)
                  (step (codes "DECRBY") _ _ _ _
                    (framed s t _ _ (replay_step_by-SameFrame now negate args s)
                      (replay_step_by-SameFrame later negate args t) c)
                    (step (codes "LPUSH") _ _ _ _
                      (replay_push-SameCollections lpush args
                        (λ k vs. lpush-SameCollections k vs s t c))
                      (step (codes "RPUSH") _ _ _ _
                        (replay_push-SameCollections rpush args
                          (λ k vs. rpush-SameCollections k vs s t c))
                        (step (codes "HSET") _ _ _ _ (replay_hset-SameCollections args) (
                          step (codes "HDEL") _ _ _ _ (replay_hdel-SameCollections args) (
                            step (codes "FLUSHALL") _ _ _ _ (flush_all-SameCollections s t c)
                              c)))))))))))

decided :
    {Q : Type 0} (b : Bool) (r r' x : Stepped)
    → (b ≡ true → Q)
    → (r' ≡ x → Q)
    → (if b then r else r') ≡ x
    → Q
decided true r r' x h k e = h refl
decided false r r' x h k e = k e

named : (cmd name : Bytes) → to_upper name ≡ name → bytes_eq cmd name ≡ true → to_upper cmd ≡ cmd
named cmd name u e = subst (λ c. to_upper c ≡ c) (sym ((bytes_eq_iff cmd name).0 e)) u

-- A command that a replay runs has its name in capitals.
pub replay_command-upper :
    (now : ℤ) (x : Command) (s u : Store) → replay_command now x s ≡ (ok tt, u) → to_upper x.0 ≡ x.0
unfolding replay_command to_upper
replay_command-upper now (cmd, args) s u =
    let step =
      λ (name : Bytes) (r r' : Stepped) (c : to_upper name ≡ name)
          (k : r' ≡ (ok tt, u) → to_upper cmd ≡ cmd).
        decided (bytes_eq cmd name) r r' (ok tt, u) (named cmd name c) k in
    step (codes "SET") _ _ refl (
      step (codes "DEL") _ _ refl (
        step (codes "EXPIRE") _ _ refl (
          step (codes "INCR") _ _ refl (
            step (codes "DECR") _ _ refl (
              step (codes "INCRBY") _ _ refl (
                step (codes "DECRBY") _ _ refl (
                  step (codes "LPUSH") _ _ refl (
                    step (codes "RPUSH") _ _ refl (
                      step (codes "HSET") _ _ refl (
                        step (codes "HDEL") _ _ refl
                          (step (codes "FLUSHALL") _ _ refl (λ e. cc))))))))))))
