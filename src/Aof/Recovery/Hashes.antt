-- ===== src/Aof/Recovery/Hashes.antt =====
-- store/store.go: the operations on hashes, on two states that hold the same.
use redis_glass.Prelude.{
  ◌≡◌, refl, sym, ◌∙◌, Bool, true, false, ◌+◌, ℕ, Option, none, some, List, [], ◌∷◌, length, Bytes,
  bytes_eq, bytes_eq_iff, Dict, lookup, insert, delete, lookup-insert, lookup-delete, if◌then◌else◌,
  Bool-cases, inl, inr,
}
use redis_glass.Store.{Store, sum_len}
use redis_glass.Store.Hashes.{
  or_empty, hash_at, hget, set_fields, put_hash, hset, delete_fields, close_hash, hdel_found, hdel,
}
use redis_glass.Aof.Compaction.{check_memory_unlimited}
use redis_glass.Aof.Recovery.{SameCollections}

-- Two hashes with the same fields.
abbrev SameFields : Dict Bytes → Dict Bytes → Type 0
SameFields h h' = (f : Bytes) → lookup f h' ≡ lookup f h

set_fields-SameFields :
    (ps : List Bytes) (h h' : Dict Bytes)
    → SameFields h h'
    → SameFields (set_fields ps h).1 (set_fields ps h').1
unfolding set_fields
set_fields-SameFields [] h h' e = e
set_fields-SameFields (f ∷ []) h h' e = e
set_fields-SameFields (f ∷ v ∷ ps) h h' e =
    set_fields-SameFields ps (insert f v h) (insert f v h')
      (λ g. rw (lookup-insert f g v h', lookup-insert f g v h, e g) refl)

delete_fields-SameFields :
    (fs : List Bytes) (h h' : Dict Bytes)
    → SameFields h h'
    → SameFields (delete_fields fs h).1 (delete_fields fs h').1
unfolding delete_fields
delete_fields-SameFields [] h h' e = e
delete_fields-SameFields (f ∷ fs) h h' e =
    delete_fields-SameFields fs (delete f h) (delete f h')
      (λ g. rw (lookup-delete f g h', lookup-delete f g h, e g) refl)

-- The fields of a key, where the hash of one key is replaced.
abbrev replaced : Bytes → Dict Bytes → Store → Bytes → Bytes → Option Bytes
replaced k h s j f = if bytes_eq k j then lookup f h else hget j f s

or_empty-if :
    (b : Bool) (h : Dict Bytes) (o : Option (Dict Bytes)) (f : Bytes)
    → lookup f (or_empty (if b then some h else o))
      ≡ (if b then lookup f h else lookup f (or_empty o))
or_empty-if true h o f = refl
or_empty-if false h o f = refl

or_empty-drop :
    (b : Bool) (o : Option (Dict Bytes)) (f : Bytes)
    → lookup f (or_empty (if b then none else o))
      ≡ (if b then lookup f [] else lookup f (or_empty o))
or_empty-drop true o f = refl
or_empty-drop false o f = refl

-- One key's hash changes on both sides, to hashes with the same fields.
record Replaces (k : Bytes) (h : Dict Bytes) (s s' : Store) : Type 0 where
  lists : s'.lists ≡ s.lists
  limit : s'.max_memory ≡ s.max_memory
  field : (j f : Bytes) → hget j f s' ≡ replaced k h s j f

both_replaced :
    (k : Bytes) (h h' : Dict Bytes) (s t s' t' : Store)
    → SameFields h h'
    → Replaces k h s s'
    → Replaces k h' t t'
    → SameCollections s t
    → SameCollections s' t'
both_replaced k h h' s t s' t' e r q c = record {
  list = λ j. rw (r.lists, q.lists) (c.list j);
  field = λ j f. q.field j f ∙ rw (e f, c.field j f) (sym (r.field j f));
  free_from = rw r.limit c.free_from;
  free_to = rw q.limit c.free_to;
}

put-Replaces :
    (k : Bytes) (h : Dict Bytes) (s : Store)
    → Replaces k h s (record s { hashes = insert k h s.hashes })
unfolding hget
put-Replaces k h s = record {
  lists = refl;
  limit = refl;
  field =
      λ j f. rw (lookup-insert k j h s.hashes) (or_empty-if (bytes_eq k j) h (lookup j s.hashes) f);
}

close_hash-Replaces :
    (k : Bytes) (n : ℕ) (h : Dict Bytes) (s : Store) → Replaces k h s (close_hash k (n, h) s).1
unfolding close_hash hget
close_hash-Replaces k n [] s = record {
  lists = refl;
  limit = refl;
  field =
      λ j f. rw (lookup-delete k j s.hashes) (or_empty-drop (bytes_eq k j) (lookup j s.hashes) f);
}
close_hash-Replaces k n (p ∷ h) s = put-Replaces k (p ∷ h) s

delete_fields-nil : (fs : List Bytes) → (delete_fields fs []).1 ≡ []
unfolding delete_fields delete
delete_fields-nil [] = refl
delete_fields-nil (f ∷ fs) = delete_fields-nil fs

-- A key without a hash has no field, and keeps having none.
absent_field :
    (k j f : Bytes) (fs : List Bytes) (s : Store)
    → lookup k s.hashes ≡ none
    → hget j f s ≡ replaced k (delete_fields fs []).1 s j f
unfolding hget lookup
absent_field k j f fs s e = elim (Bool-cases (bytes_eq k j)) [
  | inl q ↦ rw (q, delete_fields-nil fs, sym ((bytes_eq_iff k j).0 q), e) refl
  | inr q ↦ rw q refl
]

hdel_found-Replaces :
    (k : Bytes) (fs : List Bytes) (o : Option (Dict Bytes)) (s : Store)
    → lookup k s.hashes ≡ o
    → Replaces k (delete_fields fs (or_empty o)).1 s (hdel_found k fs o s).1
unfolding hdel_found
hdel_found-Replaces k fs none s e = record {
  lists = refl;
  limit = refl;
  field = λ j f. absent_field k j f fs s e;
}
hdel_found-Replaces k fs (some h) s e =
    close_hash-Replaces k (delete_fields fs h).0 (delete_fields fs h).1 s

pub hdel-SameCollections :
    (k : Bytes) (fs : List Bytes) (s t : Store)
    → SameCollections s t
    → SameCollections (hdel k fs s).1 (hdel k fs t).1
unfolding hdel hget
hdel-SameCollections k fs s t c =
    both_replaced k _ _ s t _ _
      (delete_fields-SameFields fs (hash_at k s) (hash_at k t) (c.field k))
      (hdel_found-Replaces k fs (lookup k s.hashes) s refl)
      (hdel_found-Replaces k fs (lookup k t.hashes) t refl) c

pub hset-SameCollections :
    (k : Bytes) (ps : List Bytes) (s t : Store)
    → SameCollections s t
    → SameCollections (hset k ps s).1 (hset k ps t).1
unfolding hset put_hash hget
hset-SameCollections k ps s t c =
    rw
      (
        check_memory_unlimited (length k + sum_len ps) s c.free_from,
        check_memory_unlimited (length k + sum_len ps) t c.free_to,
      )
      (both_replaced k _ _ s t _ _
        (set_fields-SameFields ps (hash_at k s) (hash_at k t) (c.field k))
        (put-Replaces k (set_fields ps (hash_at k s)).1 s)
        (put-Replaces k (set_fields ps (hash_at k t)).1 t) c)
