-- ===== src/Startup/Loaded.antt =====
-- store/aof.go: the methods of the store behind a replay.
use redis_glass.Prelude.{
  ℕ, zero, suc, ◌%◌, ◌≡◌, refl, ◌∙◌, ◌||◌, Option, none, some, List, [], ◌∷◌, length, ltb, ◌==◌,
  Bytes, codes, bytes_eq, ℤ, pos, negsuc, atoi, if-keeps,
}
use mathlib.Core.Path.{subst}
use redis_glass.Resp
use redis_glass.Resp.{Value, Parsed, parse}
use redis_glass.Store.{Store, Result, ok, err, set, incr_by}
use redis_glass.Store.Lists.{lpush, rpush}
use redis_glass.Store.Hashes.{hset}
use redis_glass.Store.Operations.{
  Operation, set_op, del_op, expire_op, flush_all_op, incr_by_op, lpush_op, rpush_op, hset_op,
  hdel_op, perform,
}
use redis_glass.Aof.{
  Command, drop_reply, parse_set_ttl, number, with_value, replay_set, replay_del, replay_expire,
  replay_step, negate, replay_step_by, replay_push, replay_hset, replay_hdel, replay_command,
  entry_command, replay_entry, Replayed, done, crashed, after_parse, replay_loop, replay,
}
use redis_glass.Commands.Moves.{Moves, stays, by_operation}
use redis_glass.Commands.Moves.Dispatch.{Moves-keeps}

-- How one step of a replay ends.
abbrev Stepped : Type 0
Stepped = Result (Unit {0}) × Store

drop_reply-store : {A : Type 0} (r : Result A × Store) → (drop_reply r).1 ≡ r.1
drop_reply-store (ok a, s) = refl
drop_reply-store (err e, s) = refl

with_value-Moves :
    {A : Type 0} (r : Result A) (f : A → Store → Stepped) (s : Store)
    → ((a : A) → Moves s (f a s).1)
    → Moves s (with_value r f s).1
with_value-Moves (ok a) f s m = m a
with_value-Moves (err e) f s m = stays s

module _ (now : ℤ) (s : Store) where
  replied :
      {A : Type 0} (r : Result A × Store) (op : Operation)
      → r.1 ≡ perform op s
      → Moves s (drop_reply r).1
  replied r op e = by_operation op s _ (drop_reply-store r ∙ e)

  replay_set-Moves : (args : List Bytes) → Moves s (replay_set now args s).1
  unfolding replay_set perform
  replay_set-Moves (k ∷ v ∷ rest) =
      with_value-Moves (parse_set_ttl (pos 0) rest) (λ ttl s. set now k v ttl s) s
        (λ ttl. by_operation (set_op now k v ttl) s _ refl)
  replay_set-Moves _ = stays s

  replay_del-Moves : (args : List Bytes) → Moves s (replay_del args s).1
  unfolding replay_del perform
  replay_del-Moves [] = stays s
  replay_del-Moves (k ∷ ks) = by_operation (del_op (k ∷ ks)) s _ refl

  replay_expire-Moves : (args : List Bytes) → Moves s (replay_expire now args s).1
  unfolding replay_expire perform
  replay_expire-Moves (k ∷ n ∷ []) =
      with_value-Moves (number (atoi n)) _ s (λ z. by_operation (expire_op now k z) s _ refl)
  replay_expire-Moves _ = stays s

  replay_step-Moves : (delta : ℤ) (args : List Bytes) → Moves s (replay_step now delta args s).1
  unfolding replay_step perform
  replay_step-Moves delta (k ∷ []) = replied (incr_by now k delta s) (incr_by_op now k delta) refl
  replay_step-Moves delta _ = stays s

  replay_step_by-Moves :
      (sign : ℤ → ℤ) (args : List Bytes) → Moves s (replay_step_by now sign args s).1
  unfolding replay_step_by perform
  replay_step_by-Moves sign (k ∷ n ∷ []) =
      with_value-Moves (number (atoi n)) _ s
        (λ z. replied (incr_by now k (sign z) s) (incr_by_op now k (sign z)) refl)
  replay_step_by-Moves sign _ = stays s

  replay_push-Moves :
      (run : Bytes → List Bytes → Store → Result ℕ × Store) (op : Bytes → List Bytes → Operation)
      (args : List Bytes)
      → ((k : Bytes) (vs : List Bytes) → (run k vs s).1 ≡ perform (op k vs) s)
      → Moves s (replay_push run args s).1
  unfolding replay_push
  replay_push-Moves run op (k ∷ v ∷ vs) e =
      replied (run k (v ∷ vs) s) (op k (v ∷ vs)) (e k (v ∷ vs))
  replay_push-Moves run op _ e = stays s

  replay_hset-Moves : (args : List Bytes) → Moves s (replay_hset args s).1
  unfolding replay_hset perform
  replay_hset-Moves [] = stays s
  replay_hset-Moves (k ∷ ps) =
      if-keeps (λ (r : Stepped). Moves s r.1) (ltb (length (k ∷ ps)) 3 || length (k ∷ ps) % 2 == 0)
        _ _ (stays s) (replied (hset k ps s) (hset_op k ps) refl)

  replay_hdel-Moves : (args : List Bytes) → Moves s (replay_hdel args s).1
  unfolding replay_hdel perform
  replay_hdel-Moves (k ∷ f ∷ fs) = by_operation (hdel_op k (f ∷ fs)) s _ refl
  replay_hdel-Moves _ = stays s

  -- One entry of a log does nothing, or what one method of the store does.
  pub replay_command-Moves : (c : Command) → Moves s (replay_command now c s).1
  unfolding replay_command perform
  replay_command-Moves (cmd, args) =
      let either = λ (name : Bytes) (r r' : Stepped) (m : Moves s r.1) (m' : Moves s r'.1).
        if-keeps (λ (r : Stepped). Moves s r.1) (bytes_eq cmd name) r r' m m' in
      either (codes "SET") _ _ (replay_set-Moves args) (
        either (codes "DEL") _ _ (replay_del-Moves args) (
          either (codes "EXPIRE") _ _ (replay_expire-Moves args) (
            either (codes "INCR") _ _ (replay_step-Moves (pos 1) args) (
              either (codes "DECR") _ _ (replay_step-Moves (negsuc 0) args) (
                either (codes "INCRBY") _ _ (replay_step_by-Moves (λ n. n) args) (
                  either (codes "DECRBY") _ _ (replay_step_by-Moves negate args) (
                    either (codes "LPUSH") _ _
                      (replay_push-Moves lpush lpush_op args (λ k vs. refl))
                      (either (codes "RPUSH") _ _
                        (replay_push-Moves rpush rpush_op args (λ k vs. refl))
                        (either (codes "HSET") _ _ (replay_hset-Moves args) (
                          either (codes "HDEL") _ _ (replay_hdel-Moves args) (
                            either (codes "FLUSHALL") _ _ (by_operation flush_all_op s _ refl)
                              (stays s))))))))))))

module _ (P : Store → Type 0) (keeps : (op : Operation) (s : Store) → P s → P (perform op s)) where
  abbrev KeptBy : Replayed → Type 0
  KeptBy (done s) = P s
  KeptBy crashed = Unit

  replay_entry_keeps : (now : ℤ) (o : Option Command) (s : Store) → P s → P (replay_entry now o s)
  unfolding replay_entry
  replay_entry_keeps now none s p = p
  replay_entry_keeps now (some c) s p = Moves-keeps P s _ keeps (replay_command-Moves now s c) p

  after_parse_keeps :
      (go : Bytes → Store → Replayed) (now : ℤ) (s : Store) (r : Parsed Value)
      → P s
      → ((rest : Bytes) (t : Store) → P t → KeptBy (go rest t))
      → KeptBy (after_parse go now s r)
  unfolding after_parse
  after_parse_keeps go now s (Resp.err e) p h = p
  after_parse_keeps go now s (Resp.panic rest) p h = tt
  after_parse_keeps go now s (Resp.ok v rest) p h =
      h rest _ (replay_entry_keeps now (entry_command v) s p)

  replay_loop_keeps :
      (f : ℕ) (clock : ℕ → ℤ) (input : Bytes) (s : Store)
      → P s
      → KeptBy (replay_loop f clock input s)
  unfolding replay_loop
  replay_loop_keeps zero clock input s p = p
  replay_loop_keeps (suc f) clock input s p =
      after_parse_keeps (replay_loop f clock) (clock f) s (parse input) p
        (λ rest t q. replay_loop_keeps f clock rest t q)

  pub replay_keeps :
      (clock : ℕ → ℤ) (file : Bytes) (s t : Store) → P s → replay clock file s ≡ done t → P t
  unfolding replay
  replay_keeps clock file s t p e =
      subst KeptBy e (replay_loop_keeps (suc (length file)) clock file s p)
