-- ===== src/Store/Memory/Collections.antt =====
-- store/store.go: the memory ceiling under the operations on lists and hashes.
use redis_glass.Prelude.{
  ℕ, ◌+◌, ◌≤◌, ◌≡◌, refl, true, Option, none, some, List, [], ◌∷◌, ◌++◌, arith, length, Bytes, Dict,
  lookup, insert, delete, if-guarded,
}
use redis_glass.Store.{Store, err, oom, weigh, sum_len, hash_size, approx_memory, check_memory}
use redis_glass.Store.Lists.{or_nil, list_at, prepend, lpush, rpush, put_list}
use redis_glass.Store.Hashes.{
  or_empty, hash_at, hset, hdel, put_hash, hdel_found, close_hash, set_fields, delete_fields,
}
use redis_glass.Store.Memory.{
  IsWithinLimit, grow, shrink, weigh-insert-le, weigh-insert-some, weigh-delete-le, held,
  sum_len-append,
}

sum_len-prepend : (vals l : List Bytes) → sum_len (prepend vals l) ≡ sum_len vals + sum_len l
unfolding prepend sum_len
sum_len-prepend [] l = omega arith
sum_len-prepend (v ∷ vals) l = omega (arith, sum_len-prepend vals (v ∷ l))

held-or_nil : (o : Option (List Bytes)) → sum_len (or_nil o) ≡ held sum_len o
unfolding sum_len
held-or_nil none = refl
held-or_nil (some l) = refl

put_list-IsWithinLimit :
    (key : Bytes) (vals lst : List Bytes) (s : Store)
    → check_memory (length key + sum_len vals) s ≡ true
    → sum_len lst ≡ sum_len vals + sum_len (list_at key s)
    → IsWithinLimit (put_list key lst s).1
unfolding put_list approx_memory
put_list-IsWithinLimit key vals lst s c e =
    grow s (put_list key lst s).1 (length key + sum_len vals) c refl
      (omega (arith, weigh-insert-le sum_len key lst s.lists, held-or_nil (lookup key s.lists), e))

pub lpush-IsWithinLimit :
    (key : Bytes) (vals : List Bytes) (s : Store)
    → IsWithinLimit s
    → IsWithinLimit (lpush key vals s).1
unfolding lpush
lpush-IsWithinLimit key vals s =
    if-guarded IsWithinLimit (check_memory (length key + sum_len vals) s) _ (err oom, s)
      (λ c. put_list-IsWithinLimit key vals _ s c (sum_len-prepend vals (list_at key s)))

rpush_sum : (xs ys : List Bytes) → sum_len (xs ++ ys) ≡ sum_len ys + sum_len xs
rpush_sum xs ys = omega (arith, sum_len-append xs ys)

pub rpush-IsWithinLimit :
    (key : Bytes) (vals : List Bytes) (s : Store)
    → IsWithinLimit s
    → IsWithinLimit (rpush key vals s).1
unfolding rpush
rpush-IsWithinLimit key vals s =
    if-guarded IsWithinLimit (check_memory (length key + sum_len vals) s) _ (err oom, s)
      (λ c. put_list-IsWithinLimit key vals _ s c (rpush_sum (list_at key s) vals))

hash_size-set_fields :
    (pairs : List Bytes) (h : Dict Bytes)
    → hash_size (set_fields pairs h).1 ≤ hash_size h + sum_len pairs
unfolding set_fields sum_len
hash_size-set_fields [] h = omega arith
hash_size-set_fields (f ∷ []) h = omega arith
hash_size-set_fields (f ∷ v ∷ pairs) h =
    omega (arith, hash_size-set_fields pairs (insert f v h), weigh-insert-le length f v h)

held-or_empty : (o : Option (Dict Bytes)) → hash_size (or_empty o) ≡ held hash_size o
unfolding weigh
held-or_empty none = refl
held-or_empty (some h) = refl

pub hset-IsWithinLimit :
    (key : Bytes) (pairs : List Bytes) (s : Store)
    → IsWithinLimit s
    → IsWithinLimit (hset key pairs s).1
unfolding hset put_hash approx_memory
hset-IsWithinLimit key pairs s =
    let n = length key + sum_len pairs in
    let r = set_fields pairs (hash_at key s) in
    if-guarded IsWithinLimit (check_memory n s) (put_hash key r s) (err oom, s)
      (λ c. grow s (put_hash key r s).1 n c refl (
        omega (
          arith,
          hash_size-set_fields pairs (hash_at key s),
          weigh-insert-le hash_size key r.1 s.hashes,
          held-or_empty (lookup key s.hashes),
        )))

hash_size-delete_fields :
    (fs : List Bytes) (h : Dict Bytes) → hash_size (delete_fields fs h).1 ≤ hash_size h
unfolding delete_fields
hash_size-delete_fields [] h = omega arith
hash_size-delete_fields (f ∷ fs) h =
    omega (arith, hash_size-delete_fields fs (delete f h), weigh-delete-le length f h)

close_hash-IsWithinLimit :
    (key : Bytes) (h : Dict Bytes) (r : ℕ × Dict Bytes) (s : Store)
    → lookup key s.hashes ≡ some h
    → hash_size r.1 ≤ hash_size h
    → IsWithinLimit s
    → IsWithinLimit (close_hash key r s).1
unfolding close_hash approx_memory
close_hash-IsWithinLimit key h (n, []) s e le =
    shrink s (close_hash key (n, []) s).1 refl
      (omega (arith, weigh-delete-le hash_size key s.hashes))
close_hash-IsWithinLimit key h (n, p ∷ m) s e le =
    shrink s (close_hash key (n, p ∷ m) s).1 refl
      (omega (arith, weigh-insert-some hash_size key (p ∷ m) h s.hashes e))

hdel_found-IsWithinLimit :
    (key : Bytes) (fs : List Bytes) (o : Option (Dict Bytes)) (s : Store)
    → lookup key s.hashes ≡ o
    → IsWithinLimit s
    → IsWithinLimit (hdel_found key fs o s).1
unfolding hdel_found
hdel_found-IsWithinLimit key fs none s e h = h
hdel_found-IsWithinLimit key fs (some m) s e h =
    close_hash-IsWithinLimit key m (delete_fields fs m) s e (hash_size-delete_fields fs m) h

pub hdel-IsWithinLimit :
    (key : Bytes) (fs : List Bytes) (s : Store) → IsWithinLimit s → IsWithinLimit (hdel key fs s).1
unfolding hdel
hdel-IsWithinLimit key fs s = hdel_found-IsWithinLimit key fs (lookup key s.hashes) s refl
