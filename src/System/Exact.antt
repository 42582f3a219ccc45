-- ===== src/System/Exact.antt =====
-- store/aof.go: what a rewrite leaves of the log that is open.
use redis_glass.Prelude.{
  ◌≡◌, refl, sym, ap, ◌∙◌, arith, Bool, true, false, ◌&&◌, none, some, List, [], ◌∷◌, Bytes, ℤ, ◌⊎◌,
  inl, inr,
}
use redis_glass.Store.{Store}
use redis_glass.Aof.{Command}
use redis_glass.Aof.Rewrite.{
  Aof, FsyncPolicy, Outcome, open_temp, write_temp, append_buffer, flush_temp, sync_temp,
  close_temp, close_live, rename_temp, reopen, complete, new, write_locked, sync_after_write,
  mirror, rewrite_begin, rewrite_finish,
}
use redis_glass.Aof.Node.{Node, Step, command, forget, begin, finish, Reach, here, next}
use redis_glass.Commands.State.{Handler}
use redis_glass.System.{System, Event, end_rewrite}

-- Whether the log is open when a rewrite has ended so.
abbrev pub leaves_open : Outcome → Bool
leaves_open close_live = false
leaves_open (rename_temp reopened) = reopened
leaves_open reopen = false
leaves_open _ = true

abbrev pub keeps_open : Event → Bool
keeps_open (end_rewrite now outcome) = leaves_open outcome
keeps_open _ = true

abbrev pub all_keep_open : List Event → Bool
all_keep_open [] = true
all_keep_open (e ∷ es) = keeps_open e && all_keep_open es

-- The server when it starts: what was loaded, and the log opened.
abbrev pub started : Handler → Store → Bytes → FsyncPolicy → System
started h loaded file fsync = record {
  handler = record h { store = loaded; aof = some (new file fsync) };
  pending = none;
}

pub rewrite_finish-open :
    (now : ℤ) (snap : Store) (outcome : Outcome) (a : Aof)
    → leaves_open outcome ≡ true
    → a.is_open ≡ true
    → (rewrite_finish now snap outcome a).is_open ≡ true
unfolding rewrite_finish
rewrite_finish-open now snap open_temp a l o = ground arith
rewrite_finish-open now snap write_temp a l o = ground arith
rewrite_finish-open now snap append_buffer a l o = ground arith
rewrite_finish-open now snap flush_temp a l o = ground arith
rewrite_finish-open now snap sync_temp a l o = ground arith
rewrite_finish-open now snap close_temp a l o = ground arith
rewrite_finish-open now snap close_live a l o = cc
rewrite_finish-open now snap (rename_temp b) a l o = ground arith
rewrite_finish-open now snap reopen a l o = cc
rewrite_finish-open now snap complete a l o = ground arith

-- While a snapshot is pending, its rewrite is running.
unfoldable pub IsPaired : Node → Type 0
IsPaired n = (n.pending ≡ none) ⊎ (n.aof.rewrite_running ≡ true)

write_locked-running :
    (c : Command) (a : Aof) → (write_locked c a).1.rewrite_running ≡ a.rewrite_running
unfolding write_locked sync_after_write mirror
write_locked-running c a = ground arith

pub rewrite_begin-some :
    (s : Store) (a : Aof) (snap : Store) (b : Aof)
    → rewrite_begin s a ≡ some (snap, b)
    → (a.rewrite_running ≡ false) × (b.rewrite_running ≡ true) × (b.is_open ≡ a.is_open)
unfolding rewrite_begin
rewrite_begin-some s a snap b e = (ground arith, ground arith, ground arith)

Step-IsPaired : {m n : Node} {ds : List Command} → Step m ds n → IsPaired m → IsPaired n
unfolding IsPaired
Step-IsPaired (command n now c s a r t w) (inl e) = inl e
Step-IsPaired (command n now c s a r t w) (inr e) =
    inr (ap (λ (x : Bool × Aof). x.1.rewrite_running) (sym w) ∙ write_locked-running c n.aof ∙ e)
Step-IsPaired (forget n now k x l old) p = p
Step-IsPaired (begin n snap a idle b) p = inr (rewrite_begin-some n.store n.aof snap a b).1
Step-IsPaired (finish n now snap outcome p) _ = inl refl

pub Reach-IsPaired :
    (m : Node) {cs : List Command} (n : Node) → IsPaired m → Reach m cs n → IsPaired n
Reach-IsPaired m n p here = p
Reach-IsPaired m n p (next {m = t} r st) = Step-IsPaired st (Reach-IsPaired m t p r)

pub not_pending : (n : Node) → IsPaired n → n.aof.rewrite_running ≡ false → n.pending ≡ none
unfolding IsPaired
not_pending n (inl e) f = e
not_pending n (inr e) f = cc
