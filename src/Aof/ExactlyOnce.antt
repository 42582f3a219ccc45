-- ===== src/Aof/ExactlyOnce.antt =====
-- store/aof.go: what each step of a node keeps of its log.
use redis_glass.Prelude.{
  ◌≡◌, refl, sym, ap, ◌∙◌, inl, inr, Bool-cases, if◌then◌else◌, Bool, true, false, Option, none,
  some, List, [], ◌∷◌, ◌++◌, append_assoc, append-nil, arith, Bytes, lookup, ℤ,
}
use mathlib.Core.Path.{subst}
use redis_glass.Store.{Entry, Store, ok, is_expired, delete_expired}
use redis_glass.Aof.{Command, encode, encode_log, replay_command}
use redis_glass.Aof.Snapshot.{write_snapshot}
use redis_glass.Aof.Rewrite.{
  Aof, FsyncPolicy, Outcome, reopen, complete, new, sync_after_write, mirror, write_locked,
  rewrite_begin, rewrite_finish,
}
use redis_glass.Aof.Node.{
  Node, Step, command, forget, begin, finish, Reach, here, next, Run, start, ran, lapse, as_loaded,
  rewritten, has_target, EndsWith, Mirrored, idle, running, IsExact,
}

pub encode_log-append :
    (cs : List Command) (c : Command) → encode_log (cs ++ c ∷ []) ≡ encode_log cs ++ encode c
unfolding encode_log
encode_log-append [] c = append-nil (encode c)
encode_log-append (d ∷ cs) c =
    ap (λ l. encode d ++ l) (encode_log-append cs c)
    ∙ sym (append_assoc (encode d) (encode_log cs) (encode c))

-- What a successful write leaves.
pub record Written (c : Command) (a a' : Aof) : Type 0 where
  pub file : a'.file ≡ a.file ++ encode c
  pub rewriting : a'.rewriting ≡ a.rewriting
  pub idle_buf : a.rewriting ≡ false → a'.rewrite_buf ≡ a.rewrite_buf
  pub running_buf : a.rewriting ≡ true → a'.rewrite_buf ≡ a.rewrite_buf ++ encode c

pub write_locked-Written :
    (c : Command) (a a' : Aof) → write_locked c a ≡ (true, a') → Written c a a'
unfolding write_locked sync_after_write mirror
write_locked-Written c a a' h = record {
  file = ground arith;
  rewriting = ground arith;
  idle_buf = λ r. ground arith;
  running_buf = λ r. ground arith;
}

pub record Begun (s : Store) (a : Aof) (snap : Store) (a' : Aof) : Type 0 where
  pub same : snap ≡ s
  pub file : a'.file ≡ a.file
  pub rewriting : a'.rewriting ≡ true
  pub buf : a'.rewrite_buf ≡ []

pub rewrite_begin-Begun :
    (s : Store) (a : Aof) (snap : Store) (a' : Aof)
    → rewrite_begin s a ≡ some (snap, a')
    → Begun s a snap a'
unfolding rewrite_begin
rewrite_begin-Begun s a snap a' h = record {
  same = ground arith;
  file = ground arith;
  rewriting = ground arith;
  buf = ground arith;
}

-- Whether the new file has taken the place of the old one.
abbrev pub swapped : Outcome → Bool
swapped reopen = true
swapped complete = true
swapped _ = false

pub rewrite_finish-rewriting :
    (now : ℤ) (snap : Store) (outcome : Outcome) (a : Aof)
    → (rewrite_finish now snap outcome a).rewriting ≡ false
unfolding rewrite_finish
rewrite_finish-rewriting now snap outcome a = ground arith

pub rewrite_finish-file :
    (now : ℤ) (snap : Store) (outcome : Outcome) (a : Aof)
    → (rewrite_finish now snap outcome a).file
      ≡ (if swapped outcome then write_snapshot now snap ++ a.rewrite_buf else a.file)
unfolding rewrite_finish
rewrite_finish-file now snap outcome a = ground arith

pub EndsWith-more :
    (total cs ds : List Command) → EndsWith total cs → EndsWith (total ++ ds) (cs ++ ds)
EndsWith-more total cs ds e = record {
  earlier = e.earlier;
  whole = ap (λ l. l ++ ds) e.whole ∙ append_assoc e.earlier cs ds;
}

EndsWith-nil : (total : List Command) → EndsWith total []
EndsWith-nil total = record { earlier = total; whole = sym (append-nil total) }

module _ (file : Bytes) (loaded : Store) where
  mirror_command :
      (total : List Command) (n : Node) (p : Option Store) (now : ℤ) (c : Command) (s : Store)
      (a : Aof)
      → replay_command now c n.store ≡ (ok tt, s)
      → has_target c n.store ≡ true
      → Written c n.aof a
      → Mirrored file loaded total n p
      → Mirrored file loaded (total ++ c ∷ []) (record n { store = s; aof = a }) p
  mirror_command total n none now c s a r x w (idle q) = idle (w.rewriting ∙ q)
  mirror_command total n (some snap) now c s a r x w (running _ cs q b run e) =
      running snap (cs ++ c ∷ []) (w.rewriting ∙ q)
        (w.running_buf q ∙ ap (λ l. l ++ encode c) b ∙ sym (encode_log-append cs c))
        (ran now c s run r x) (EndsWith-more total cs (c ∷ []) e)

  mirror_forget :
      (total : List Command) (n : Node) (p : Option Store) (now : ℤ) (k : Bytes) (e : Entry)
      → lookup k n.store.strings ≡ some e
      → is_expired now e ≡ true
      → Mirrored file loaded total n p
      → Mirrored file loaded total (record n { store = delete_expired k n.store }) p
  mirror_forget total n none now k e h x (idle q) = idle q
  mirror_forget total n (some snap) now k e h x (running _ cs q b run last) =
      running snap cs q b (lapse now k e run h x) last

  command-IsExact :
      (total : List Command) (n : Node) (now : ℤ) (c : Command) (s : Store) (a : Aof)
      → replay_command now c n.store ≡ (ok tt, s)
      → has_target c n.store ≡ true
      → write_locked c n.aof ≡ (true, a)
      → IsExact file loaded total n
      → IsExact file loaded (total ++ c ∷ []) (record n { store = s; aof = a })
  command-IsExact total n now c s a r x w h =
      let written = write_locked-Written c n.aof a w in
      record {
        base = h.base;
        image = h.image;
        cmds = h.cmds ++ c ∷ [];
        is_image = h.is_image;
        on_file =
            written.file
            ∙ ap (λ l. l ++ encode c) h.on_file
            ∙ append_assoc h.image (encode_log h.cmds) (encode c)
            ∙ ap (λ l. h.image ++ l) (sym (encode_log-append h.cmds c));
        run = ran now c s h.run r x;
        recent = EndsWith-more total h.cmds (c ∷ []) h.recent;
        mirrored = mirror_command total n n.pending now c s a r x written h.mirrored;
      }

  begin-IsExact :
      (total : List Command) (n : Node) (snap : Store) (a : Aof)
      → rewrite_begin n.store n.aof ≡ some (snap, a)
      → IsExact file loaded total n
      → IsExact file loaded total (record n { aof = a; pending = some snap })
  begin-IsExact total n snap a b h =
      let begun = rewrite_begin-Begun n.store n.aof snap a b in
      record {
        base = h.base;
        image = h.image;
        cmds = h.cmds;
        is_image = h.is_image;
        on_file = begun.file ∙ h.on_file;
        run = h.run;
        recent = h.recent;
        mirrored =
            running snap [] begun.rewriting (begun.buf ∙ (unfold encode_log in refl))
              (subst (λ t. Run t [] n.store) (sym begun.same) start) (EndsWith-nil total);
      }

  -- The entries that the buffer holds when a rewrite ends.
  buffered :
      (total : List Command) (n : Node) (p : Option Store) (snap : Store)
      → p ≡ some snap
      → Mirrored file loaded total n p
      → (cs : List Command) × (n.aof.rewrite_buf ≡ encode_log cs)
        × Run snap cs n.store
        × EndsWith total cs
  buffered total n none snap e m = cc
  buffered total n (some t) snap e (running _ cs q b run last) =
      (cs, b, subst (λ u. Run u cs n.store) (cc e) run, last)

  finish-IsExact :
      (total : List Command) (n : Node) (now : ℤ) (snap : Store) (outcome : Outcome)
      → n.pending ≡ some snap
      → IsExact file loaded total n
      → IsExact file loaded total
          (record n { aof = rewrite_finish now snap outcome n.aof; pending = none })
  finish-IsExact total n now snap outcome p h =
      let (cs, b, run, last) = buffered total n n.pending snap p h.mirrored in
      let stopped = idle (rewrite_finish-rewriting now snap outcome n.aof) in
      let content = rewrite_finish-file now snap outcome n.aof in
      elim (Bool-cases (swapped outcome)) [
        | inl yes_swap ↦ record {
          base = snap;
          image = write_snapshot now snap;
          cmds = cs;
          is_image = rewritten now snap;
          on_file = content ∙ rw yes_swap (ap (λ l. write_snapshot now snap ++ l) b);
          run = run;
          recent = last;
          mirrored = stopped;
        }
        | inr no_swap ↦ record {
          base = h.base;
          image = h.image;
          cmds = h.cmds;
          is_image = h.is_image;
          on_file = content ∙ rw no_swap h.on_file;
          run = h.run;
          recent = h.recent;
          mirrored = stopped;
        }
      ]

  same_total :
      (total : List Command) (n : Node)
      → IsExact file loaded total n
      → IsExact file loaded (total ++ []) n
  same_total total n h = subst (λ l. IsExact file loaded l n) (sym (append-nil total)) h

  Step-IsExact :
      {m n : Node} {ds : List Command} (total : List Command)
      → Step m ds n
      → IsExact file loaded total m
      → IsExact file loaded (total ++ ds) n
  Step-IsExact total (command n now c s a r x w) h = command-IsExact total n now c s a r x w h
  Step-IsExact total (forget n now k e l x) h = same_total total _ (record {
    base = h.base;
    image = h.image;
    cmds = h.cmds;
    is_image = h.is_image;
    on_file = h.on_file;
    run = lapse now k e h.run l x;
    recent = h.recent;
    mirrored = mirror_forget total n n.pending now k e l x h.mirrored;
  })
  Step-IsExact total (begin n snap a p b) h = same_total total _ (begin-IsExact total n snap a b h)
  Step-IsExact total (finish n now snap outcome p) h =
      same_total total _ (finish-IsExact total n now snap outcome p h)

  start-IsExact :
      (fsync : FsyncPolicy)
      → IsExact file loaded [] (record { store = loaded; aof = new file fsync; pending = none })
  start-IsExact fsync = record {
    base = loaded;
    image = file;
    cmds = [];
    is_image = as_loaded;
    on_file = sym (append-nil file) ∙ (unfold encode_log in refl);
    run = start;
    recent = EndsWith-nil [];
    mirrored = idle refl;
  }

  Reach-IsExact :
      (fsync : FsyncPolicy) (total : List Command) (n : Node)
      → Reach (record { store = loaded; aof = new file fsync; pending = none }) total n
      → IsExact file loaded total n
  Reach-IsExact fsync total n here = start-IsExact fsync
  Reach-IsExact fsync total n (next {m} {cs = cs} r st) =
      Step-IsExact cs st (Reach-IsExact fsync cs m r)

-- However commands that succeed and whose entries the log takes, deletions of keys that have expired
-- and rewrites interleave, and however each rewrite ends, the log file is at every moment an image (what
-- was loaded at the start, or the snapshot of a finished rewrite) with the log of the last ones of these
-- commands, in their order; and these lead, with deletions of expired keys between them, from the state
-- that the image stands for to the present one.
pub exactly_once :
    (file : Bytes) (loaded : Store) (fsync : FsyncPolicy) (total : List Command) (n : Node)
    → Reach (record { store = loaded; aof = new file fsync; pending = none }) total n
    → IsExact file loaded total n
exactly_once = Reach-IsExact
