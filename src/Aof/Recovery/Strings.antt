-- ===== src/Aof/Recovery/Strings.antt =====
-- store/store.go: the operations on string keys, and the lists and hashes beside them.
use redis_glass.Prelude.{
  refl, Option, none, some, List, [], ◌∷◌, Bytes, ℤ, pos, wrap, ◌+ℤ◌, atoi, if-second, lookup,
}
use redis_glass.Store.{
  Entry, Store, Result, ok, err, oom, check_memory, put_entry, set, delete_expired, expire_entry,
  expire, current, kept_expiry, store_sum, add_to, incr_by,
}
use redis_glass.Aof.{
  drop_reply, parse_set_ttl, number, with_value, replay_set, replay_expire, replay_step,
  replay_step_by,
}
use redis_glass.Aof.Recovery.{SameFrame, SameFrame-refl}

pub delete_expired-SameFrame : (k : Bytes) (s : Store) → SameFrame s (delete_expired k s)
unfolding delete_expired
delete_expired-SameFrame k s = record { lists = refl; hashes = refl; limit = refl }

set-SameFrame :
    (now : ℤ) (k v : Bytes) (lifetime : ℤ) (s : Store) → SameFrame s (set now k v lifetime s).1
unfolding set put_entry
set-SameFrame now k v lifetime s =
    if-second (SameFrame s) (check_memory _ s) (ok tt, _) (err oom, s)
      (record { lists = refl; hashes = refl; limit = refl }) (SameFrame-refl s)

expire_entry-SameFrame :
    (now : ℤ) (k : Bytes) (seconds : ℤ) (o : Option Entry) (s : Store)
    → SameFrame s (expire_entry now k seconds o s).1
unfolding expire_entry
expire_entry-SameFrame now k seconds none s = SameFrame-refl s
expire_entry-SameFrame now k seconds (some e) s = record {
  lists = refl;
  hashes = refl;
  limit = refl;
}

add_to-SameFrame :
    (cur : Result ℤ) (k : Bytes) (o : Option ℤ) (delta : ℤ) (s : Store)
    → SameFrame s (add_to cur k o delta s).1
unfolding add_to store_sum
add_to-SameFrame (err e) k o delta s = SameFrame-refl s
add_to-SameFrame (ok cur) k o delta s =
    if-second (SameFrame s) (check_memory _ s) (ok (wrap (cur +ℤ delta)), _) (err oom, s)
      (record { lists = refl; hashes = refl; limit = refl }) (SameFrame-refl s)

incr_by-SameFrame :
    (now : ℤ) (k : Bytes) (delta : ℤ) (s : Store) → SameFrame s (incr_by now k delta s).1
unfolding incr_by
incr_by-SameFrame now k delta s =
    add_to-SameFrame (current now (lookup k s.strings)) k (kept_expiry (lookup k s.strings)) delta s

dropped :
    {A : Type 0} (s : Store) (r : Result A × Store) → SameFrame s r.1 → SameFrame s (drop_reply r).1
dropped s (ok a, s') f = f
dropped s (err e, s') f = f

with_value-SameFrame :
    {A : Type 0} (r : Result A) (f : A → Store → Result (Unit {0}) × Store) (s : Store)
    → ((a : A) → SameFrame s (f a s).1)
    → SameFrame s (with_value r f s).1
with_value-SameFrame (ok a) f s h = h a
with_value-SameFrame (err e) f s h = SameFrame-refl s

pub replay_set-SameFrame :
    (now : ℤ) (args : List Bytes) (s : Store) → SameFrame s (replay_set now args s).1
unfolding replay_set
replay_set-SameFrame now (k ∷ v ∷ rest) s =
    with_value-SameFrame (parse_set_ttl (pos 0) rest) (λ ttl s. set now k v ttl s) s
      (λ ttl. set-SameFrame now k v ttl s)
replay_set-SameFrame now _ s = SameFrame-refl s

pub replay_expire-SameFrame :
    (now : ℤ) (args : List Bytes) (s : Store) → SameFrame s (replay_expire now args s).1
unfolding replay_expire
replay_expire-SameFrame now (k ∷ n ∷ []) s =
    with_value-SameFrame (number (atoi n)) _ s
      (λ z. unfold expire in expire_entry-SameFrame now k z (lookup k s.strings) s)
replay_expire-SameFrame now _ s = SameFrame-refl s

pub replay_step-SameFrame :
    (now delta : ℤ) (args : List Bytes) (s : Store) → SameFrame s (replay_step now delta args s).1
unfolding replay_step
replay_step-SameFrame now delta (k ∷ []) s = dropped s _ (incr_by-SameFrame now k delta s)
replay_step-SameFrame now delta _ s = SameFrame-refl s

pub replay_step_by-SameFrame :
    (now : ℤ) (sign : ℤ → ℤ) (args : List Bytes) (s : Store)
    → SameFrame s (replay_step_by now sign args s).1
unfolding replay_step_by
replay_step_by-SameFrame now sign (k ∷ n ∷ []) s =
    with_value-SameFrame (number (atoi n)) _ s
      (λ z. dropped s _ (incr_by-SameFrame now k (sign z) s))
replay_step_by-SameFrame now sign _ s = SameFrame-refl s
