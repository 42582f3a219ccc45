-- ===== src/Aof/Recovery/Steps.antt =====
-- store/aof.go: one step of a node, and the replay of its log.
use redis_glass.Prelude.{
  ℕ, ◌+◌, ◌≡◌, refl, sym, ap, ◌∙◌, true, false, Option, none, some, List, [], ◌∷◌, ◌++◌,
  append_assoc, length, Bytes, ℤ, pos,
}
use mathlib.Core.Path.{subst}
use redis_glass.Store.{Store, Result, new, ok, delete_expired}
use redis_glass.Store.Distinct.{IsMapped, delete_expired-IsMapped}
use redis_glass.Store.Distinct.Keeps.{perform-IsMapped}
use redis_glass.Aof.{Command, encode, encode_log, replay_command}
use redis_glass.Aof.Rewrite.{Aof, write_locked, rewrite_begin}
use redis_glass.Aof.Node.{Node}
use redis_glass.Aof.Replay.{upper_command, run_log}
use redis_glass.Aof.Compaction.{IsUnlimited, run_log-append}
use redis_glass.Aof.ExactlyOnce.{encode_log-append, write_locked-Written, rewrite_begin-Begun}
use redis_glass.Aof.Recovery.{SameCollections, SameFrame-refl, framed}
use redis_glass.Aof.Recovery.Strings.{delete_expired-SameFrame}
use redis_glass.Aof.Recovery.Commands.{replay_command-SameCollections, replay_command-upper}
use redis_glass.Commands.Moves.Dispatch.{Moves-keeps}
use redis_glass.Startup.Loaded.{replay_command-Moves}

abbrev second : Result (Unit {0}) × Store → Store
second (r, s) = s

pub SameCollections-refl : (s : Store) → IsUnlimited s → SameCollections s s
SameCollections-refl s u = record {
  list = λ k. refl;
  field = λ k f. refl;
  free_from = u;
  free_to = u;
}

pub run_log-IsUnlimited :
    (n : ℕ) (clock : ℕ → ℤ) (cs : List Command) (s : Store)
    → IsUnlimited s
    → IsUnlimited (run_log n clock cs s)
unfolding run_log
run_log-IsUnlimited n clock [] s u = u
run_log-IsUnlimited n clock (c ∷ cs) s u =
    run_log-IsUnlimited n clock cs _
      (replay_command-SameCollections (pos 0) _ s s (SameCollections-refl s u)
        (upper_command c)).free_to

pub encode_log-append_all :
    (cs ds : List Command) → encode_log (cs ++ ds) ≡ encode_log cs ++ encode_log ds
unfolding encode_log
encode_log-append_all [] ds = refl
encode_log-append_all (c ∷ cs) ds =
    ap (λ l. encode c ++ l) (encode_log-append_all cs ds)
    ∙ sym (append_assoc (encode c) (encode_log cs) (encode_log ds))

-- However these commands are run, from whatever state with the collections of the first.
abbrev pub LeadsTo : Store → List Command → Store → Type 0
LeadsTo s cs u =
    (k : ℕ) (clock : ℕ → ℤ) (t : Store)
    → SameCollections s t
    → SameCollections u (run_log k clock cs t)

-- A command on one side, and its entry replayed on the other.
entry_step :
    (t u y : Store) (now later : ℤ) (c : Command)
    → replay_command now c t ≡ (ok tt, u)
    → SameCollections t y
    → SameCollections u (replay_command later (upper_command c) y).1
entry_step t u y now later c r h =
    subst (λ v. SameCollections v (replay_command later (upper_command c) y).1) (ap second r)
      (subst
        (λ (x : Command). SameCollections (replay_command now c t).1 (replay_command later x y).1)
        (sym (ap (λ n. (n, c.1)) (replay_command-upper now c t u r)))
        (replay_command-SameCollections now later t y h c))

extend_at :
    (x t u : Store) (cs : List Command) (now : ℤ) (c : Command)
    → replay_command now c t ≡ (ok tt, u)
    → ((k : ℕ) (clock : ℕ → ℤ) → SameCollections t (run_log k clock cs x))
    → (k : ℕ) (clock : ℕ → ℤ) → SameCollections u (run_log k clock (cs ++ c ∷ []) x)
unfolding run_log
extend_at x t u cs now c r l k clock = rw (run_log-append k clock cs (c ∷ []) x) (
    entry_step t u (run_log (length (c ∷ []) + k) clock cs x) now (clock (0 + k)) c r
      (l (length (c ∷ []) + k) clock))

LeadsTo-extend :
    (s t u : Store) (cs : List Command) (now : ℤ) (c : Command)
    → replay_command now c t ≡ (ok tt, u)
    → LeadsTo s cs t
    → LeadsTo s (cs ++ c ∷ []) u
LeadsTo-extend s t u cs now c r l k clock x h =
    extend_at x t u cs now c r (λ k clock. l k clock x h) k clock

-- The entries in the buffer of a running rewrite lead from its snapshot to the present.
pub data Tail (n : Node) : Option Store → Type 0 where
  idle : n.aof.rewriting ≡ false → Tail n none
  running :
      (snap : Store) (cs : List Command)
      → n.aof.rewriting ≡ true
      → n.aof.rewrite_buf ≡ encode_log cs
      → IsMapped snap × IsUnlimited snap
      → LeadsTo snap cs n.store
      → Tail n (some snap)

-- The file is a log that leads from the empty store to the present lists and hashes.
pub record Recovers (n : Node) : Type 0 where
  pub cmds : List Command
  pub on_file : n.aof.file ≡ encode_log cmds
  pub leads : (k : ℕ) (clock : ℕ → ℤ) → SameCollections n.store (run_log k clock cmds new)
  pub free : IsUnlimited n.store
  pub mapped : IsMapped n.store
  pub tail : Tail n n.pending

replay_command-IsMapped :
    (now : ℤ) (c : Command) (s u : Store)
    → replay_command now c s ≡ (ok tt, u)
    → IsMapped s
    → IsMapped u
replay_command-IsMapped now c s u r m =
    subst IsMapped (ap second r)
      (Moves-keeps IsMapped s _ perform-IsMapped (replay_command-Moves now s c) m)

replay_command-IsUnlimited :
    (now : ℤ) (c : Command) (s u : Store)
    → replay_command now c s ≡ (ok tt, u)
    → IsUnlimited s
    → IsUnlimited u
replay_command-IsUnlimited now c s u r f =
    subst IsUnlimited (ap second r)
      (replay_command-SameCollections now now s s (SameCollections-refl s f) c).free_to

command-Tail :
    (n : Node) (p : Option Store) (now : ℤ) (c : Command) (s : Store) (a : Aof)
    → replay_command now c n.store ≡ (ok tt, s)
    → write_locked c n.aof ≡ (true, a)
    → Tail n p
    → Tail (record n { store = s; aof = a }) p
command-Tail n none now c s a r w (idle e) = idle ((write_locked-Written c n.aof a w).rewriting ∙ e)
command-Tail n (some snap) now c s a r w (running _ cs e b m l) =
    let written = write_locked-Written c n.aof a w in
    running snap (cs ++ c ∷ []) (written.rewriting ∙ e)
      (written.running_buf e ∙ ap (λ l. l ++ encode c) b ∙ sym (encode_log-append cs c)) m
      (LeadsTo-extend snap n.store s cs now c r l)

pub command-Recovers :
    (n : Node) (now : ℤ) (c : Command) (s : Store) (a : Aof)
    → replay_command now c n.store ≡ (ok tt, s)
    → write_locked c n.aof ≡ (true, a)
    → Recovers n
    → Recovers (record n { store = s; aof = a })
command-Recovers n now c s a r w h = record {
  cmds = h.cmds ++ c ∷ [];
  on_file =
      (write_locked-Written c n.aof a w).file
      ∙ ap (λ l. l ++ encode c) h.on_file
      ∙ sym (encode_log-append h.cmds c);
  leads = extend_at new n.store s h.cmds now c r h.leads;
  free = replay_command-IsUnlimited now c n.store s r h.free;
  mapped = replay_command-IsMapped now c n.store s r h.mapped;
  tail = command-Tail n n.pending now c s a r w h.tail;
}

forget-LeadsTo :
    (s u : Store) (cs : List Command) (k : Bytes)
    → LeadsTo s cs u
    → LeadsTo s cs (delete_expired k u)
forget-LeadsTo s u cs k l j clock t h =
    let x = run_log j clock cs t in
    framed u x (delete_expired k u) x (delete_expired-SameFrame k u) (SameFrame-refl x)
      (l j clock t h)

forget-Tail :
    (n : Node) (p : Option Store) (k : Bytes)
    → Tail n p
    → Tail (record n { store = delete_expired k n.store }) p
forget-Tail n none k (idle e) = idle e
forget-Tail n (some snap) k (running _ cs e b m l) =
    running snap cs e b m (forget-LeadsTo snap n.store cs k l)

pub forget-Recovers :
    (n : Node) (k : Bytes) → Recovers n → Recovers (record n { store = delete_expired k n.store })
unfolding delete_expired
forget-Recovers n k h = record {
  cmds = h.cmds;
  on_file = h.on_file;
  leads = λ j clock.
      let x = run_log j clock h.cmds new in
      framed n.store x (delete_expired k n.store) x (delete_expired-SameFrame k n.store)
        (SameFrame-refl x) (h.leads j clock);
  free = h.free;
  mapped = delete_expired-IsMapped k n.store h.mapped;
  tail = forget-Tail n n.pending k h.tail;
}

pub begin-Recovers :
    (n : Node) (snap : Store) (a : Aof)
    → rewrite_begin n.store n.aof ≡ some (snap, a)
    → Recovers n
    → Recovers (record n { aof = a; pending = some snap })
unfolding run_log encode_log
begin-Recovers n snap a b h =
    let begun = rewrite_begin-Begun n.store n.aof snap a b in
    record {
      cmds = h.cmds;
      on_file = begun.file ∙ h.on_file;
      leads = h.leads;
      free = h.free;
      mapped = h.mapped;
      tail =
          running snap [] begun.rewriting begun.buf
            (subst IsMapped (sym begun.same) h.mapped, subst IsUnlimited (sym begun.same) h.free)
            (λ k clock t c. subst (λ x. SameCollections x t) begun.same c);
    }
