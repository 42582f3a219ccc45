-- ===== src/Aof/Compaction/Hashes.antt =====
-- store/aof.go: the hashes of a snapshot, replayed.
use redis_glass.Prelude.{
  ℕ, ◌+◌, ◌%◌, ◌≡◌, refl, sym, ap, ◌∙◌, arith, false, List, [], ◌∷◌, ◌++◌, length, All, Bytes,
  codes, bytes_eq, bytes_eq_iff, bytes_eq_refl, to_upper, Dict, lookup, insert, lookup-insert,
  IsDistinct, ℤ, if◌then◌else◌, Bool-cases, inl, inr, ltb, ◌||◌, ◌==◌,
}
use redis_glass.Store.{Store, sum_len}
use redis_glass.Store.Hashes.{or_empty, set_fields, put_hash, hset}
use redis_glass.Aof.{replay_hset, replay_command}
use redis_glass.Aof.Snapshot.{chunk_size, chunked, keyed, pairs_of, hash_commands}
use redis_glass.Aof.Replay.{run_log}
use redis_glass.Aof.Compaction.{or_else, IsUnlimited, check_memory_unlimited, run_log-append}
use redis_glass.Aof.Compaction.Chunks.{IsPaired, concat, concat-chunked, chunked-IsPaired}

abbrev pub with_fields : List Bytes → Dict Bytes → Dict Bytes
with_fields pairs h = (set_fields pairs h).1

-- What the HSETs of one key do to the hashes.
unfoldable put_all : Bytes → List (List Bytes) → Dict (Dict Bytes) → Dict (Dict Bytes)
put_all k [] hashes = hashes
put_all k (c ∷ cs) hashes =
    put_all k cs (insert k (with_fields c (or_empty (lookup k hashes))) hashes)

unfoldable pub put_hashes : Dict (Dict Bytes) → Dict (Dict Bytes) → Dict (Dict Bytes)
unfolding put_all
put_hashes [] hashes = hashes
put_hashes ((k, h) ∷ m) hashes =
    put_hashes m (put_all k (chunked (chunk_size + chunk_size) (pairs_of h)) hashes)

guard :
    (k : Bytes) (c : List Bytes)
    → IsPaired c
    → (ltb (length (k ∷ c)) 3 || length (k ∷ c) % 2 == 0) ≡ false
guard k [] (p, e) = absurd (omega arith)
guard k (x ∷ []) (p, e) = absurd (omega arith)
guard k (x ∷ y ∷ c) (p, e) = ground arith

replay_hset_chunk :
    (now : ℤ) (k : Bytes) (c : List Bytes) (s : Store)
    → IsUnlimited s
    → IsPaired c
    → (replay_command now (codes "HSET", k ∷ c) s).1
      ≡ record s { hashes = insert k (with_fields c (or_empty (lookup k s.hashes))) s.hashes }
unfolding replay_command replay_hset bytes_eq hset put_hash
replay_hset_chunk now k c s u p =
    rw (guard k c p, check_memory_unlimited (length k + sum_len c) s u)

run_log-keyed :
    (n : ℕ) (clock : ℕ → ℤ) (k : Bytes) (cs : List (List Bytes)) (s : Store)
    → IsUnlimited s
    → All IsPaired cs
    → run_log n clock (keyed (codes "HSET") k cs) s ≡ record s { hashes = put_all k cs s.hashes }
unfolding run_log keyed put_all to_upper
run_log-keyed n clock k [] s u f = refl
run_log-keyed n clock k (c ∷ cs) s u (f, fs) =
    ap (run_log n clock (keyed (codes "HSET") k cs)) (replay_hset_chunk _ k c s u f)
    ∙ run_log-keyed n clock k cs _ u fs

pairs_of-even : (h : Dict Bytes) → length (pairs_of h) % 2 ≡ 0
unfolding pairs_of
pairs_of-even [] = omega arith
pairs_of-even ((f, v) ∷ h) = omega (arith, pairs_of-even h)

chunks_of : Dict Bytes → List (List Bytes)
chunks_of h = chunked (chunk_size + chunk_size) (pairs_of h)

pub run_log-hash_commands :
    (n : ℕ) (clock : ℕ → ℤ) (m : Dict (Dict Bytes)) (s : Store)
    → IsUnlimited s
    → run_log n clock (hash_commands m) s ≡ record s { hashes = put_hashes m s.hashes }
unfolding run_log hash_commands put_hashes chunks_of
run_log-hash_commands n clock [] s u = refl
run_log-hash_commands n clock ((k, h) ∷ m) s u =
    run_log-append n clock (keyed (codes "HSET") k (chunks_of h)) (hash_commands m) s
    ∙ ap (run_log n clock (hash_commands m)) (
        run_log-keyed _ clock k (chunks_of h) s u
          (chunked-IsPaired 499 (pairs_of h) (pairs_of-even h)))
    ∙ run_log-hash_commands n clock m _ u

with_fields-append :
    (c d : List Bytes) (h : Dict Bytes)
    → length c % 2 ≡ 0
    → with_fields (c ++ d) h ≡ with_fields d (with_fields c h)
unfolding set_fields
with_fields-append [] d h e = refl
with_fields-append (x ∷ []) d h e = absurd (omega arith)
with_fields-append (x ∷ y ∷ c) d h e = with_fields-append c d (insert x y h) (omega arith)

lookup-put_all :
    (k j : Bytes) (cs : List (List Bytes)) (hashes : Dict (Dict Bytes))
    → All IsPaired cs
    → or_empty (lookup j (put_all k cs hashes)) ≡ (
        if bytes_eq k j
        then with_fields (concat cs) (or_empty (lookup k hashes))
        else or_empty (lookup j hashes))
unfolding put_all concat set_fields
lookup-put_all k j [] hashes p = elim (Bool-cases (bytes_eq k j)) [
  | inl e ↦ rw e (ap (λ i. or_empty (lookup i hashes)) (sym ((bytes_eq_iff k j).0 e)))
  | inr e ↦ rw e
]
lookup-put_all k j (c ∷ cs) hashes (p, ps) =
    let h = with_fields c (or_empty (lookup k hashes)) in
    let rest = lookup-put_all k j cs (insert k h hashes) ps in
    elim (Bool-cases (bytes_eq k j)) [
      | inl e ↦
          rest
          ∙ rw (e, lookup-insert k k h hashes, bytes_eq_refl k)
              (sym (with_fields-append c (concat cs) _ p.1))
      | inr e ↦ rest ∙ rw (e, lookup-insert k j h hashes, e) refl
    ]

-- Each hash gets its fields on top of what is there.
pub lookup-put_hashes :
    (j : Bytes) (m hashes : Dict (Dict Bytes))
    → IsDistinct m
    → or_empty (lookup j (put_hashes m hashes))
      ≡ with_fields (pairs_of (or_empty (lookup j m))) (or_empty (lookup j hashes))
unfolding put_hashes lookup pairs_of set_fields chunks_of
lookup-put_hashes j [] hashes d = refl
lookup-put_hashes j ((k, h) ∷ m) hashes (new_key, d) =
    let chunks = chunks_of h in
    let here =
      lookup-put_all k j chunks hashes (chunked-IsPaired 499 (pairs_of h) (pairs_of-even h)) in
    let rest = lookup-put_hashes j m (put_all k chunks hashes) d in
    elim (Bool-cases (bytes_eq k j)) [
      | inl e ↦
          let same = (bytes_eq_iff k j).0 e in
          rest ∙ rw (here, e, concat-chunked 999 (pairs_of h), sym same, new_key) refl
      | inr e ↦ rest ∙ rw (here, e) refl
    ]

-- A field of the written hash shadows the field that was there.
pub lookup-with_fields :
    (f : Bytes) (h g : Dict Bytes)
    → IsDistinct h
    → lookup f (with_fields (pairs_of h) g) ≡ or_else (lookup f h) (lookup f g)
unfolding pairs_of set_fields lookup
lookup-with_fields f [] g d = refl
lookup-with_fields f ((k, v) ∷ h) g (new_key, d) =
    let rest = lookup-with_fields f h (insert k v g) d in
    elim (Bool-cases (bytes_eq k f)) [
      | inl e ↦ rest ∙ rw (lookup-insert k f v g, e, sym ((bytes_eq_iff k f).0 e), new_key) refl
      | inr e ↦ rest ∙ rw (lookup-insert k f v g, e) refl
    ]
