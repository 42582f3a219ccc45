-- ===== src/Aof/Recovery/Collections.antt =====
-- store/store.go: the operations on lists and hashes, on two states that hold the same.
use redis_glass.Prelude.{
  ◌≡◌, refl, ap, arith, Bool, true, false, ◌+◌, Option, none, List, [], ◌∷◌, ◌++◌, length, Bytes,
  bytes_eq, Dict, lookup, lookup-insert, lookup-delete, if◌then◌else◌,
}
use redis_glass.Store.{Store, sum_len, del_key, del, flush_all}
use redis_glass.Store.Lists.{or_nil, prepend, put_list, lpush, rpush}
use redis_glass.Store.Hashes.{or_empty, hget}
use redis_glass.Aof.Compaction.{check_memory_unlimited}
use redis_glass.Aof.Recovery.{SameCollections}

-- A list put under a key.
put_list-SameCollections :
    (k : Bytes) (l l' : List Bytes) (s t : Store)
    → l' ≡ l
    → SameCollections s t
    → SameCollections (put_list k l s).1 (put_list k l' t).1
unfolding put_list hget
put_list-SameCollections k l l' s t e h = record {
  list = λ j.
      simp (lookup-insert k j l' t.lists, lookup-insert k j l s.lists)
        (ground (arith, e, h.list j));
  field = h.field;
  free_from = h.free_from;
  free_to = h.free_to;
}

pub rpush-SameCollections :
    (k : Bytes) (vs : List Bytes) (s t : Store)
    → SameCollections s t
    → SameCollections (rpush k vs s).1 (rpush k vs t).1
unfolding rpush
rpush-SameCollections k vs s t h =
    rw
      (
        check_memory_unlimited (length k + sum_len vs) s h.free_from,
        check_memory_unlimited (length k + sum_len vs) t h.free_to,
      )
      (put_list-SameCollections k _ _ s t (ap (λ l. l ++ vs) (h.list k)) h)

pub lpush-SameCollections :
    (k : Bytes) (vs : List Bytes) (s t : Store)
    → SameCollections s t
    → SameCollections (lpush k vs s).1 (lpush k vs t).1
unfolding lpush
lpush-SameCollections k vs s t h =
    rw
      (
        check_memory_unlimited (length k + sum_len vs) s h.free_from,
        check_memory_unlimited (length k + sum_len vs) t h.free_to,
      )
      (put_list-SameCollections k _ _ s t (ap (prepend vs) (h.list k)) h)

or_nil-drop :
    (b : Bool) (o : Option (List Bytes))
    → or_nil (if b then none else o) ≡ (if b then [] else or_nil o)
or_nil-drop true o = refl
or_nil-drop false o = refl

or_empty-drop :
    (b : Bool) (f : Bytes) (o : Option (Dict Bytes))
    → lookup f (or_empty (if b then none else o)) ≡ (if b then none else lookup f (or_empty o))
unfolding lookup
or_empty-drop true f o = refl
or_empty-drop false f o = refl

del_key-SameCollections :
    (k : Bytes) (s t : Store) → SameCollections s t → SameCollections (del_key k s) (del_key k t)
unfolding del_key hget
del_key-SameCollections k s t c = record {
  list = λ j.
      rw
        (
          lookup-delete k j s.lists,
          lookup-delete k j t.lists,
          or_nil-drop (bytes_eq k j) (lookup j t.lists),
          or_nil-drop (bytes_eq k j) (lookup j s.lists),
          c.list j,
        )
        refl;
  field = λ j f.
      rw
        (
          lookup-delete k j s.hashes,
          lookup-delete k j t.hashes,
          or_empty-drop (bytes_eq k j) f (lookup j t.hashes),
          or_empty-drop (bytes_eq k j) f (lookup j s.hashes),
          c.field j f,
        )
        refl;
  free_from = c.free_from;
  free_to = c.free_to;
}

pub del-SameCollections :
    (ks : List Bytes) (s t : Store)
    → SameCollections s t
    → SameCollections (del ks s).1 (del ks t).1
unfolding del
del-SameCollections [] s t c = c
del-SameCollections (k ∷ ks) s t c =
    del-SameCollections ks (del_key k s) (del_key k t) (del_key-SameCollections k s t c)

pub flush_all-SameCollections :
    (s t : Store) → SameCollections s t → SameCollections (flush_all s) (flush_all t)
unfolding flush_all hget lookup
flush_all-SameCollections s t c = record {
  list = λ j. refl;
  field = λ j f. refl;
  free_from = c.free_from;
  free_to = c.free_to;
}
