-- ===== src/Store/Distinct.antt =====
-- store/store.go: the maps of the store, as Go's maps hold a key once each, under the operations.
pub mod Keeps
use redis_glass.Prelude.{
  ℕ, zero, suc, ◌≡◌, refl, sym, ap, ◌∙◌, arith, true, false, Option, none, some, List, [], ◌∷◌,
  ◌++◌, Bytes, bytes_eq, bytes_eq_iff, Dict, lookup, insert, delete, lookup-insert, lookup-delete,
  IsDistinct, insert-IsDistinct, delete-IsDistinct, ℤ, wrap, ◌+ℤ◌, length, ◌==◌, if◌then◌else◌,
  if-second, if-keeps, Bool-cases, inl, inr,
}
use mathlib.Core.Path.{subst}
use redis_glass.Store.{
  Entry, Store, Result, ok, err, oom, new, put_entry, expiry_of, set, delete_expired, Found,
  missing, stale, live, get_read, get_finish, get, del_key, del, exists_key, exists, expire_entry,
  expire, ttl_finish, ttl, flush_all, kept_expiry, current, store_sum, add_to, incr_by, is_expired,
  check_memory,
}
use redis_glass.Store.Lists.{list_at, prepend, put_list, lpush, rpush}
use redis_glass.Store.Hashes.{
  or_empty, hash_at, set_fields, put_hash, hset, delete_fields, close_hash, hdel_found, hdel,
}
use redis_glass.Store.Sampler.{
  sample_size, max_rounds_per_tick, sample_found, sample_loop, sample_rounds, sample_expire,
}
use redis_glass.Store.Operations.{
  Operation, set_op, get_op, del_op, exists_op, expire_op, ttl_op, flush_all_op, incr_by_op,
  lpush_op, rpush_op, hset_op, hdel_op, tick, perform,
}

pub record IsMapped (s : Store) : Type 0 where
  pub strings : IsDistinct s.strings
  pub lists : IsDistinct s.lists
  pub hashes : IsDistinct s.hashes
  pub fields : (k : Bytes) → IsDistinct (hash_at k s)

pub IsMapped-new : IsMapped new
unfolding lookup
IsMapped-new = record { strings = tt; lists = tt; hashes = tt; fields = λ k. tt }

-- An operation on the strings alone.
with_strings :
    (s s' : Store)
    → IsMapped s
    → IsDistinct s'.strings
    → s'.lists ≡ s.lists
    → s'.hashes ≡ s.hashes
    → IsMapped s'
with_strings s s' m d l h = record {
  strings = d;
  lists = subst IsDistinct (sym l) m.lists;
  hashes = subst IsDistinct (sym h) m.hashes;
  fields = λ k. subst (λ x. IsDistinct (or_empty (lookup k x))) (sym h) (m.fields k);
}

put_entry-IsMapped : (k : Bytes) (e : Entry) (s : Store) → IsMapped s → IsMapped (put_entry k e s)
unfolding put_entry
put_entry-IsMapped k e s m =
    with_strings s _ m (insert-IsDistinct k e s.strings m.strings) refl refl

pub delete_expired-IsMapped : (k : Bytes) (s : Store) → IsMapped s → IsMapped (delete_expired k s)
unfolding delete_expired
delete_expired-IsMapped k s m =
    with_strings s _ m (delete-IsDistinct k s.strings m.strings) refl refl

pub set-IsMapped :
    (now : ℤ) (k v : Bytes) (lifetime : ℤ) (s : Store)
    → IsMapped s
    → IsMapped (set now k v lifetime s).1
unfolding set
set-IsMapped now k v lifetime s m =
    if-second IsMapped (check_memory _ s) (ok tt, _) (err oom, s) (put_entry-IsMapped k _ s m) m

get_finish-IsMapped :
    (k : Bytes) (f : Found) (s : Store) → IsMapped s → IsMapped (get_finish k f s).1
unfolding get_finish
get_finish-IsMapped k missing s m = m
get_finish-IsMapped k stale s m = delete_expired-IsMapped k s m
get_finish-IsMapped k (live e) s m = m

pub get-IsMapped : (now : ℤ) (k : Bytes) (s : Store) → IsMapped s → IsMapped (get now k s).1
unfolding get
get-IsMapped now k s m = get_finish-IsMapped k (get_read now k s) s m

fields-delete :
    (k j : Bytes) (hashes : Dict (Dict Bytes))
    → IsDistinct (or_empty (lookup j hashes))
    → IsDistinct (or_empty (lookup j (delete k hashes)))
fields-delete k j hashes d =
    rw (lookup-delete k j hashes)
      (if-keeps (λ o. IsDistinct (or_empty o)) (bytes_eq k j) none _ tt d)

fields-insert :
    (k j : Bytes) (h : Dict Bytes) (hashes : Dict (Dict Bytes))
    → IsDistinct h
    → IsDistinct (or_empty (lookup j hashes))
    → IsDistinct (or_empty (lookup j (insert k h hashes)))
fields-insert k j h hashes new_one d =
    rw (lookup-insert k j h hashes)
      (if-keeps (λ o. IsDistinct (or_empty o)) (bytes_eq k j) (some h) _ new_one d)

del_key-IsMapped : (k : Bytes) (s : Store) → IsMapped s → IsMapped (del_key k s)
unfolding del_key
del_key-IsMapped k s m = record {
  strings = delete-IsDistinct k s.strings m.strings;
  lists = delete-IsDistinct k s.lists m.lists;
  hashes = delete-IsDistinct k s.hashes m.hashes;
  fields = λ j. fields-delete k j s.hashes (m.fields j);
}

pub del-IsMapped : (ks : List Bytes) (s : Store) → IsMapped s → IsMapped (del ks s).1
unfolding del
del-IsMapped [] s m = m
del-IsMapped (k ∷ ks) s m = del-IsMapped ks (del_key k s) (del_key-IsMapped k s m)

pub exists-IsMapped :
    (clock : ℕ → ℤ) (ks : List Bytes) (s : Store) → IsMapped s → IsMapped (exists clock ks s).1
unfolding exists exists_key
exists-IsMapped clock [] s m = m
exists-IsMapped clock (k ∷ ks) s m =
    exists-IsMapped clock ks _ (get-IsMapped (clock (length ks)) k s m)

pub expire_entry-IsMapped :
    (now : ℤ) (k : Bytes) (seconds : ℤ) (o : Option Entry) (s : Store)
    → IsMapped s
    → IsMapped (expire_entry now k seconds o s).1
unfolding expire_entry
expire_entry-IsMapped now k seconds none s m = m
expire_entry-IsMapped now k seconds (some e) s m =
    with_strings s _ m (insert-IsDistinct k _ s.strings m.strings) refl refl

pub ttl_finish-IsMapped :
    (until : ℤ) (k : Bytes) (f : Found) (s : Store)
    → IsMapped s
    → IsMapped (ttl_finish until k f s).1
unfolding ttl_finish
ttl_finish-IsMapped until k missing s m = m
ttl_finish-IsMapped until k stale s m = delete_expired-IsMapped k s m
ttl_finish-IsMapped until k (live e) s m = m

pub add_to-IsMapped :
    (cur : Result ℤ) (k : Bytes) (o : Option ℤ) (delta : ℤ) (s : Store)
    → IsMapped s
    → IsMapped (add_to cur k o delta s).1
unfolding add_to store_sum
add_to-IsMapped (err e) k o delta s m = m
add_to-IsMapped (ok cur) k o delta s m =
    if-second IsMapped (check_memory _ s) (ok (wrap (cur +ℤ delta)), _) (err oom, s)
      (with_strings s _ m (insert-IsDistinct k _ s.strings m.strings) refl refl) m

pub put_list-IsMapped :
    (k : Bytes) (l : List Bytes) (s : Store) → IsMapped s → IsMapped (put_list k l s).1
unfolding put_list
put_list-IsMapped k l s m = record {
  strings = m.strings;
  lists = insert-IsDistinct k l s.lists m.lists;
  hashes = m.hashes;
  fields = m.fields;
}

pub put_hash_value :
    (k : Bytes) (h : Dict Bytes) (s : Store)
    → IsDistinct h
    → IsMapped s
    → IsMapped (record s { hashes = insert k h s.hashes })
put_hash_value k h s d m = record {
  strings = m.strings;
  lists = m.lists;
  hashes = insert-IsDistinct k h s.hashes m.hashes;
  fields = λ j. fields-insert k j h s.hashes d (m.fields j);
}

pub set_fields-IsDistinct :
    (pairs : List Bytes) (h : Dict Bytes) → IsDistinct h → IsDistinct (set_fields pairs h).1
unfolding set_fields
set_fields-IsDistinct [] h d = d
set_fields-IsDistinct (f ∷ []) h d = d
set_fields-IsDistinct (f ∷ v ∷ pairs) h d =
    set_fields-IsDistinct pairs (insert f v h) (insert-IsDistinct f v h d)

delete_fields-IsDistinct :
    (fs : List Bytes) (h : Dict Bytes) → IsDistinct h → IsDistinct (delete_fields fs h).1
unfolding delete_fields
delete_fields-IsDistinct [] h d = d
delete_fields-IsDistinct (f ∷ fs) h d =
    delete_fields-IsDistinct fs (delete f h) (delete-IsDistinct f h d)

close_hash-IsMapped :
    (k : Bytes) (n : ℕ) (h : Dict Bytes) (s : Store)
    → IsDistinct h
    → IsMapped s
    → IsMapped (close_hash k (n, h) s).1
unfolding close_hash
close_hash-IsMapped k n [] s d m = record {
  strings = m.strings;
  lists = m.lists;
  hashes = delete-IsDistinct k s.hashes m.hashes;
  fields = λ j. fields-delete k j s.hashes (m.fields j);
}
close_hash-IsMapped k n (p ∷ h) s d m = put_hash_value k (p ∷ h) s d m

pub hdel_found-IsMapped :
    (k : Bytes) (fs : List Bytes) (o : Option (Dict Bytes)) (s : Store)
    → IsDistinct (or_empty o)
    → IsMapped s
    → IsMapped (hdel_found k fs o s).1
unfolding hdel_found
hdel_found-IsMapped k fs none s d m = m
hdel_found-IsMapped k fs (some h) s d m =
    close_hash-IsMapped k (delete_fields fs h).0 (delete_fields fs h).1 s
      (delete_fields-IsDistinct fs h d) m
