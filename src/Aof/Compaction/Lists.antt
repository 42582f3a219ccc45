-- ===== src/Aof/Compaction/Lists.antt =====
-- store/aof.go: the lists of a snapshot, replayed.
use redis_glass.Prelude.{
  ℕ, ◌+◌, ◌≡◌, refl, sym, ap, ◌∙◌, arith, List, [], ◌∷◌, ◌++◌, append_assoc, append-nil, length,
  All, Bytes, codes, bytes_eq, bytes_eq_iff, bytes_eq_refl, to_upper, Dict, lookup, insert,
  lookup-insert, IsDistinct, ℤ, if◌then◌else◌, Bool-cases, inl, inr,
}
use redis_glass.Store.{Store, sum_len}
use redis_glass.Store.Lists.{or_nil, rpush, put_list}
use redis_glass.Aof.{replay_push, replay_command}
use redis_glass.Aof.Snapshot.{chunk_size, chunked, keyed, list_commands}
use redis_glass.Aof.Replay.{run_log}
use redis_glass.Aof.Compaction.{IsUnlimited, check_memory_unlimited, run_log-append}
use redis_glass.Aof.Compaction.Chunks.{IsFilled, concat, concat-chunked, chunked-IsFilled}

-- What the RPUSHs of one key do to the lists.
unfoldable push_all : Bytes → List (List Bytes) → Dict (List Bytes) → Dict (List Bytes)
push_all k [] lists = lists
push_all k (c ∷ cs) lists = push_all k cs (insert k (or_nil (lookup k lists) ++ c) lists)

unfoldable pub push_lists : Dict (List Bytes) → Dict (List Bytes) → Dict (List Bytes)
unfolding push_all
push_lists [] lists = lists
push_lists ((k, l) ∷ m) lists = push_lists m (push_all k (chunked chunk_size l) lists)

replay_rpush :
    (now : ℤ) (k : Bytes) (c : List Bytes) (s : Store)
    → IsUnlimited s
    → IsFilled c
    → (replay_command now (codes "RPUSH", k ∷ c) s).1
      ≡ record s { lists = insert k (or_nil (lookup k s.lists) ++ c) s.lists }
unfolding replay_command replay_push bytes_eq rpush put_list
replay_rpush now k [] s u f = absurd (omega arith)
replay_rpush now k (v ∷ vs) s u f = rw (check_memory_unlimited (length k + sum_len (v ∷ vs)) s u)

run_log-keyed :
    (n : ℕ) (clock : ℕ → ℤ) (k : Bytes) (cs : List (List Bytes)) (s : Store)
    → IsUnlimited s
    → All IsFilled cs
    → run_log n clock (keyed (codes "RPUSH") k cs) s ≡ record s { lists = push_all k cs s.lists }
unfolding run_log keyed push_all to_upper
run_log-keyed n clock k [] s u f = refl
run_log-keyed n clock k (c ∷ cs) s u (f, fs) =
    ap (run_log n clock (keyed (codes "RPUSH") k cs)) (replay_rpush _ k c s u f)
    ∙ run_log-keyed n clock k cs _ u fs

pub run_log-list_commands :
    (n : ℕ) (clock : ℕ → ℤ) (m : Dict (List Bytes)) (s : Store)
    → IsUnlimited s
    → run_log n clock (list_commands m) s ≡ record s { lists = push_lists m s.lists }
unfolding run_log list_commands push_lists
run_log-list_commands n clock [] s u = refl
run_log-list_commands n clock ((k, l) ∷ m) s u =
    run_log-append n clock (keyed (codes "RPUSH") k (chunked chunk_size l)) (list_commands m) s
    ∙ ap (run_log n clock (list_commands m))
        (run_log-keyed _ clock k (chunked chunk_size l) s u (chunked-IsFilled 499 l))
    ∙ run_log-list_commands n clock m _ u

lookup-push_all :
    (k j : Bytes) (cs : List (List Bytes)) (lists : Dict (List Bytes))
    → or_nil (lookup j (push_all k cs lists))
      ≡ (if bytes_eq k j then or_nil (lookup k lists) ++ concat cs else or_nil (lookup j lists))
unfolding push_all concat
lookup-push_all k j [] lists = elim (Bool-cases (bytes_eq k j)) [
  | inl e ↦
      rw e (ap (λ i. or_nil (lookup i lists)) (sym ((bytes_eq_iff k j).0 e)) ∙ sym (append-nil _))
  | inr e ↦ rw e
]
lookup-push_all k j (c ∷ cs) lists =
    let seen = or_nil (lookup k lists) in
    let rest = lookup-push_all k j cs (insert k (seen ++ c) lists) in
    elim (Bool-cases (bytes_eq k j)) [
      | inl e ↦
          rest
          ∙ rw (e, lookup-insert k k (seen ++ c) lists, bytes_eq_refl k)
              (append_assoc seen c (concat cs))
      | inr e ↦ rest ∙ rw (e, lookup-insert k j (seen ++ c) lists, e) refl
    ]

-- Each list is pushed at the end of what is there.
pub lookup-push_lists :
    (j : Bytes) (m lists : Dict (List Bytes))
    → IsDistinct m
    → or_nil (lookup j (push_lists m lists)) ≡ or_nil (lookup j lists) ++ or_nil (lookup j m)
unfolding push_lists lookup
lookup-push_lists j [] lists d = sym (append-nil _)
lookup-push_lists j ((k, l) ∷ m) lists (new_key, d) =
    let chunks = chunked chunk_size l in
    let rest = lookup-push_lists j m (push_all k chunks lists) d in
    elim (Bool-cases (bytes_eq k j)) [
      | inl e ↦
          let same = (bytes_eq_iff k j).0 e in
          rest
          ∙ rw (lookup-push_all k j chunks lists, e, concat-chunked 499 l, sym same, new_key)
              (append-nil _)
      | inr e ↦ rest ∙ rw (lookup-push_all k j chunks lists, e) refl
    ]
