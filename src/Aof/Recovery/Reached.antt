-- ===== src/Aof/Recovery/Reached.antt =====
-- store/aof.go: the steps of a node, and the replay of its log.
use redis_glass.Prelude.{
  ℕ, ◌+◌, ◌≡◌, refl, sym, ap, ◌∙◌, inl, inr, Bool-cases, Option, none, some, List, [], ◌++◌, length,
  ℤ,
}
use mathlib.Core.Path.{subst}
use mathlib.Core.Option.{some-injective}
use redis_glass.Store.{Store, new}
use redis_glass.Store.Distinct.{IsMapped, IsMapped-new}
use redis_glass.Aof.{Command, encode_log}
use redis_glass.Aof.Snapshot.{snapshot_commands, write_snapshot}
use redis_glass.Aof.Rewrite
use redis_glass.Aof.Rewrite.{Aof, FsyncPolicy, Outcome, write_locked, rewrite_begin, rewrite_finish}
use redis_glass.Aof.Node.{Node, Step, command, forget, begin, finish, Reach, here, next}
use redis_glass.Aof.Replay.{run_log}
use redis_glass.Aof.Compaction.{IsUnlimited, run_log-append}
use redis_glass.Aof.Compaction.Restores.{run_log-Restores}
use redis_glass.Aof.ExactlyOnce.{swapped, rewrite_finish-rewriting, rewrite_finish-file}
use redis_glass.Aof.Recovery.{SameCollections}
use redis_glass.Aof.Recovery.Steps.{
  LeadsTo, Tail, idle, running, Recovers, SameCollections-refl, run_log-IsUnlimited,
  encode_log-append_all, command-Recovers, forget-Recovers, begin-Recovers,
}

-- What the tail says while a snapshot is pending.
record Buffered (n : Node) (snap : Store) : Type 0 where
  cs : List Command
  buf : n.aof.rewrite_buf ≡ encode_log cs
  mapped : IsMapped snap
  free : IsUnlimited snap
  leads : LeadsTo snap cs n.store

buffered : (n : Node) (p : Option Store) (snap : Store) → p ≡ some snap → Tail n p → Buffered n snap
buffered n none snap e t = cc
buffered n (some x) snap e (running _ cs r b (m, f) l) =
    subst (Buffered n) (some-injective x snap e)
      (record { cs = cs; buf = b; mapped = m; free = f; leads = l })

-- The commands of a snapshot make its collections.
snapshot_made :
    (n : ℕ) (clock : ℕ → ℤ) (now : ℤ) (snap : Store)
    → IsMapped snap
    → IsUnlimited snap
    → SameCollections snap (run_log n clock (snapshot_commands now snap) new)
snapshot_made n clock now snap m f =
    let made = run_log-Restores n clock now snap m in
    record {
      list = made.list;
      field = made.field;
      free_from = f;
      free_to = run_log-IsUnlimited n clock (snapshot_commands now snap) new refl;
    }

finish-Recovers :
    (n : Node) (now : ℤ) (snap : Store) (outcome : Outcome)
    → n.pending ≡ some snap
    → Recovers n
    → Recovers (record n { aof = rewrite_finish now snap outcome n.aof; pending = none })
unfolding write_snapshot
finish-Recovers n now snap outcome p h =
    let b = buffered n n.pending snap p h.tail in
    let stopped = idle (rewrite_finish-rewriting now snap outcome n.aof) in
    let content = rewrite_finish-file now snap outcome n.aof in
    let base = snapshot_commands now snap in
    elim (Bool-cases (swapped outcome)) [
      | inl yes_swap ↦ record {
        cmds = base ++ b.cs;
        on_file =
            content
            ∙ rw yes_swap (ap (λ l. encode_log base ++ l) b.buf)
            ∙ sym (encode_log-append_all base b.cs);
        leads = λ k clock.
            rw (run_log-append k clock base b.cs new)
              (b.leads k clock _ (snapshot_made (length b.cs + k) clock now snap b.mapped b.free));
        free = h.free;
        mapped = h.mapped;
        tail = stopped;
      }
      | inr no_swap ↦ record {
        cmds = h.cmds;
        on_file = content ∙ rw no_swap h.on_file;
        leads = h.leads;
        free = h.free;
        mapped = h.mapped;
        tail = stopped;
      }
    ]

Step-Recovers : {m n : Node} {ds : List Command} → Step m ds n → Recovers m → Recovers n
Step-Recovers (command n now c s a r t w) h = command-Recovers n now c s a r w h
Step-Recovers (forget n now k e l x) h = forget-Recovers n k h
Step-Recovers (begin n snap a p b) h = begin-Recovers n snap a b h
Step-Recovers (finish n now snap outcome p) h = finish-Recovers n now snap outcome p h

start-Recovers :
    (fsync : FsyncPolicy)
    → Recovers (record { store = new; aof = Rewrite.new [] fsync; pending = none })
unfolding run_log encode_log
start-Recovers fsync = record {
  cmds = [];
  on_file = refl;
  leads = λ k clock. SameCollections-refl new refl;
  free = refl;
  mapped = IsMapped-new;
  tail = idle refl;
}

pub Reach-Recovers :
    (fsync : FsyncPolicy) {total : List Command} (n : Node)
    → Reach (record { store = new; aof = Rewrite.new [] fsync; pending = none }) total n
    → Recovers n
Reach-Recovers fsync n here = start-Recovers fsync
Reach-Recovers fsync n (next {m} r st) = Step-Recovers st (Reach-Recovers fsync m r)
