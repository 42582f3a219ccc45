-- ===== src/System/Log.antt =====
-- commands/handler.go: a mutation and its entry in the log, as steps of a node.
use redis_glass.Prelude.{
  ◌≡◌, sym, ap, Bool, true, List, [], ◌∷◌, Option, none, some, Bytes, ℤ, arith,
}
use mathlib.Core.Path.{subst}
use redis_glass.Store.{Store, ok}
use redis_glass.Aof.{Command, replay_command}
use redis_glass.Aof.Rewrite.{Aof, write_locked, sync_after_write, mirror}
use redis_glass.Aof.Node.{Node, has_target, command, Reach, here, next}
use redis_glass.Commands.State.{
  Handler, Mutation, logged, skipped, failed, log_entry, finish_mutation, mutate_and_log,
  reply_or_error, reply_anyway,
}
use redis_glass.System.Trace.{due, due_succeeded}
use redis_glass.Commands.Moves.{reply_or_error-handler, reply_anyway-handler}

abbrev pub node : Store → Aof → Option Store → Node
node s a pending = record { store = s; aof = a; pending = pending }

-- A handler whose log is open and which a node has come to from a store and a log, with these entries.
pub record Follows (s : Store) (a : Aof) (pending : Option Store) (cs : List Command) (h : Handler)
    : Type 0 where
  pub aof : Aof
  pub same : h.aof ≡ some aof
  pub opened : aof.is_open ≡ true
  pub path : Reach (node s a pending) cs (node h.store aof pending)

-- What a mutation under `mutateAndLog` does is what the replay of its command does, where the command
-- has its target; and nothing, with no entry due, where it fails or asks for no
-- entry.
abbrev pub IsFaithful : {A : Type 0} → ℤ → Command → Store → Mutation A × Store → Type 0
IsFaithful now c s (logged a, s') = (replay_command now c s ≡ (ok tt, s')) × (has_target c s ≡ true)
IsFaithful now c s (skipped a, s') = (s' ≡ s) × (due now c s ≡ [])
IsFaithful now c s (failed e, s') = (s' ≡ s) × (due now c s ≡ [])

write_locked-open :
    (c : Command) (a : Aof)
    → a.is_open ≡ true
    → ((write_locked c a).0 ≡ true) × ((write_locked c a).1.is_open ≡ true)
unfolding write_locked sync_after_write mirror
write_locked-open c a h = (ground arith, ground arith)

pub stay_put :
    (s : Store) (a : Aof) (pending : Option Store) (h : Handler)
    → h.store ≡ s
    → h.aof ≡ some a
    → a.is_open ≡ true
    → Follows s a pending [] h
stay_put s a pending h same e o = record {
  aof = a;
  same = e;
  opened = o;
  path = subst (λ t. Reach (node s a pending) [] (node t a pending)) (sym same) here;
}

relabel :
    (s : Store) (a : Aof) (pending : Option Store) (cs ds : List Command) (h : Handler)
    → ds ≡ cs
    → Follows s a pending cs h
    → Follows s a pending ds h
relabel s a pending cs ds h e f = subst (λ l. Follows s a pending l h) (sym e) f

module _ {A : Type 0} where
  log_entry-some :
      (c : Command) (x : A) (o : Option Aof) (a : Aof)
      → o ≡ some a
      → (log_entry c x o).1 ≡ some (write_locked c a).1
  unfolding log_entry
  log_entry-some c x none a e = cc
  log_entry-some c x (some f) a e = ap (λ (o : Option Aof). (log_entry c x o).1) e

  finish_mutation-Follows :
      (now : ℤ) (c : Command) (m : Mutation A) (s : Store) (h : Handler) (a : Aof)
      (pending : Option Store)
      → h.aof ≡ some a
      → a.is_open ≡ true
      → IsFaithful now c h.store (m, s)
      → Follows h.store a pending (due now c h.store) (finish_mutation c m s h).1
  unfolding finish_mutation
  finish_mutation-Follows now c (logged x) s h a pending e o (r, t) =
      let (written, opened) = write_locked-open c a o in
      relabel h.store a pending (c ∷ []) _ (record h { store = s; aof = (log_entry c x h.aof).1 })
        (due_succeeded now c h.store s r t)
        (record {
          aof = (write_locked c a).1;
          same = log_entry-some c x h.aof a e;
          opened = opened;
          path = next here (
              command (node h.store a pending) now c s (write_locked c a).1 r t
                (ap (λ (b : Bool). (b, (write_locked c a).1)) written));
        })
  finish_mutation-Follows now c (skipped x) s h a pending e o (r, d) =
      relabel h.store a pending [] _ (record h { store = s }) d
        (stay_put h.store a pending (record h { store = s }) r e o)
  finish_mutation-Follows now c (failed x) s h a pending e o (r, d) =
      relabel h.store a pending [] _ (record h { store = s }) d
        (stay_put h.store a pending (record h { store = s }) r e o)

  mutate_and_log-Follows :
      (now : ℤ) (c : Command) (mutate : Store → Mutation A × Store) (h : Handler) (a : Aof)
      (pending : Option Store)
      → h.aof ≡ some a
      → a.is_open ≡ true
      → IsFaithful now c h.store (mutate h.store)
      → Follows h.store a pending (due now c h.store) (mutate_and_log c mutate h).1
  unfolding mutate_and_log
  mutate_and_log-Follows now c mutate h a pending e o r =
      finish_mutation-Follows now c (mutate h.store).0 (mutate h.store).1 h a pending e o r

  pub reply_or_error-Follows :
      (failure : Bytes) (f : A → Bytes) (now : ℤ) (c : Command)
      (mutate : Store → Mutation A × Store) (h : Handler) (a : Aof) (pending : Option Store)
      → h.aof ≡ some a
      → a.is_open ≡ true
      → IsFaithful now c h.store (mutate h.store)
      → Follows h.store a pending
          (due now c h.store)
          (reply_or_error failure f (mutate_and_log c mutate h)).1
  reply_or_error-Follows failure f now c mutate h a pending e o r =
      subst (Follows h.store a pending (due now c h.store))
        (sym (reply_or_error-handler failure f (mutate_and_log c mutate h)))
        (mutate_and_log-Follows now c mutate h a pending e o r)

  pub reply_anyway-Follows :
      (f : A → Bytes) (d : A) (now : ℤ) (c : Command) (mutate : Store → Mutation A × Store)
      (h : Handler) (a : Aof) (pending : Option Store)
      → h.aof ≡ some a
      → a.is_open ≡ true
      → IsFaithful now c h.store (mutate h.store)
      → Follows h.store a pending
          (due now c h.store)
          (reply_anyway f d (mutate_and_log c mutate h)).1
  reply_anyway-Follows f d now c mutate h a pending e o r =
      subst (Follows h.store a pending (due now c h.store))
        (sym (reply_anyway-handler f d (mutate_and_log c mutate h)))
        (mutate_and_log-Follows now c mutate h a pending e o r)
