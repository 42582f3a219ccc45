-- ===== src/Store/Distinct/Keeps.antt =====
-- store/store.go: the maps of the store, under every method.
use redis_glass.Prelude.{
  ℕ, zero, suc, true, false, Option, none, some, List, [], ◌∷◌, ◌++◌, Bytes, lookup, ℤ, length,
  ◌==◌, if-second, if-keeps,
}
use redis_glass.Store.{
  Entry, Store, ok, err, oom, get_read, expire, ttl, flush_all, current, incr_by, is_expired,
  check_memory,
}
use redis_glass.Store.Lists.{list_at, prepend, lpush, rpush}
use redis_glass.Store.Hashes.{hash_at, put_hash, hset, hdel}
use redis_glass.Store.Sampler.{
  sample_size, max_rounds_per_tick, sample_found, sample_loop, sample_rounds, sample_expire,
}
use redis_glass.Store.Operations.{
  Operation, set_op, get_op, del_op, exists_op, expire_op, ttl_op, flush_all_op, incr_by_op,
  lpush_op, rpush_op, hset_op, hdel_op, tick, perform,
}
use redis_glass.Store.Distinct.{
  IsMapped, delete_expired-IsMapped, set-IsMapped, get-IsMapped, del-IsMapped, exists-IsMapped,
  expire_entry-IsMapped, ttl_finish-IsMapped, add_to-IsMapped, put_list-IsMapped, put_hash_value,
  hdel_found-IsMapped, set_fields-IsDistinct,
}

lpush-IsMapped :
    (k : Bytes) (vals : List Bytes) (s : Store) → IsMapped s → IsMapped (lpush k vals s).1
unfolding lpush
lpush-IsMapped k vals s m =
    if-second IsMapped (check_memory _ s) (ok _, _) (err oom, s)
      (put_list-IsMapped k (prepend vals (list_at k s)) s m) m

rpush-IsMapped :
    (k : Bytes) (vals : List Bytes) (s : Store) → IsMapped s → IsMapped (rpush k vals s).1
unfolding rpush
rpush-IsMapped k vals s m =
    if-second IsMapped (check_memory _ s) (ok _, _) (err oom, s)
      (put_list-IsMapped k (list_at k s ++ vals) s m) m

hset-IsMapped :
    (k : Bytes) (pairs : List Bytes) (s : Store) → IsMapped s → IsMapped (hset k pairs s).1
unfolding hset put_hash
hset-IsMapped k pairs s m =
    if-second IsMapped (check_memory _ s) (ok _, _) (err oom, s)
      (put_hash_value k _ s (set_fields-IsDistinct pairs (hash_at k s) (m.fields k)) m) m

sample_found-IsMapped :
    (now : ℤ) (k : Bytes) (o : Option Entry) (s : Store)
    → IsMapped s
    → IsMapped (sample_found now k o s).1
unfolding sample_found
sample_found-IsMapped now k none s m = record {
  strings = m.strings;
  lists = m.lists;
  hashes = m.hashes;
  fields = m.fields;
}
sample_found-IsMapped now k (some e) s m =
    if-second IsMapped (is_expired now e) (true, _) (false, s) (delete_expired-IsMapped k s m) m

sample_loop-IsMapped :
    (room : ℕ) (now : ℤ) (order : List Bytes) (s : Store)
    → IsMapped s
    → IsMapped (sample_loop room now order s).2
unfolding sample_loop
sample_loop-IsMapped zero now order s m = m
sample_loop-IsMapped (suc room) now [] s m = m
sample_loop-IsMapped (suc room) now (k ∷ order) s m =
    sample_loop-IsMapped room now order _ (sample_found-IsMapped now k (lookup k s.strings) s m)

module _ (clock : ℕ → ℤ) (order : ℕ → Store → List Bytes) where
  sample_rounds-IsMapped :
      (r : ℕ) (s : Store) → IsMapped s → IsMapped (sample_rounds clock order r s)
  unfolding sample_rounds
  sample_rounds-IsMapped zero s m = m
  sample_rounds-IsMapped (suc r) s m =
      let m' = sample_loop-IsMapped sample_size (clock r) (order r s) s m in
      if-keeps IsMapped (length s.expiry_keys == 0) s _ m
        (if-keeps IsMapped _ _ _ m' (sample_rounds-IsMapped r _ m'))

-- Every method of the store, and every tick of the sampler, leaves each key once in each map, and each
-- field once in its hash.
pub perform-IsMapped : (op : Operation) (s : Store) → IsMapped s → IsMapped (perform op s)
unfolding perform lookup
perform-IsMapped (set_op now k v lifetime) s m = set-IsMapped now k v lifetime s m
perform-IsMapped (get_op now k) s m = get-IsMapped now k s m
perform-IsMapped (del_op ks) s m = del-IsMapped ks s m
perform-IsMapped (exists_op clock ks) s m = exists-IsMapped clock ks s m
perform-IsMapped (expire_op now k seconds) s m =
    unfold expire in expire_entry-IsMapped now k seconds (lookup k s.strings) s m
perform-IsMapped (ttl_op now until k) s m =
    unfold ttl in ttl_finish-IsMapped until k (get_read now k s) s m
perform-IsMapped flush_all_op s m =
    unfold flush_all in record { strings = tt; lists = tt; hashes = tt; fields = λ k. tt }
perform-IsMapped (incr_by_op now k delta) s m =
    unfold incr_by in add_to-IsMapped (current now (lookup k s.strings)) k _ delta s m
perform-IsMapped (lpush_op k vals) s m = lpush-IsMapped k vals s m
perform-IsMapped (rpush_op k vals) s m = rpush-IsMapped k vals s m
perform-IsMapped (hset_op k pairs) s m = hset-IsMapped k pairs s m
perform-IsMapped (hdel_op k fs) s m =
    unfold hdel in hdel_found-IsMapped k fs (lookup k s.hashes) s (m.fields k) m
perform-IsMapped (tick clock order) s m =
    unfold sample_expire in sample_rounds-IsMapped clock order max_rounds_per_tick s m
