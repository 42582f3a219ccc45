-- ===== src/Store/Tracking.antt =====
-- store/store.go: the set `expiryKeys`, under the operations on string keys.
pub mod Collections
pub mod Sampling
use redis_glass.Prelude.{
  ℕ, zero, suc, ◌≡◌, refl, ◌∙◌, true, false, Option, none, some, List, [], ◌∷◌, arith, Bytes,
  bytes_eq, bytes_eq_iff, Dict, lookup, delete, lookup-insert, lookup-delete, dict_laws, ℤ, wrap,
  ◌+ℤ◌, if◌then◌else◌, if-second, if-keeps, length, ◌==◌,
}
use redis_glass.Store.{
  Entry, Store, new, Result, ok, err, oom, track, put_entry, set, delete_expired, Found, missing,
  stale, live, get_read, get_finish, get, del_key, del, exists_key, exists, expire_entry, expire,
  ttl_finish, ttl, flush_all, kept_expiry, current, store_sum, add_to, incr_by, is_some, is_expired,
  check_memory,
}
use redis_glass.Store.Lists.{lpush, rpush}
use redis_glass.Store.Hashes.{hset, hdel, put_hash, hdel_found, close_hash, delete_fields}
use redis_glass.Store.Sampler.{
  sample_size, max_rounds_per_tick, sample_found, sample_loop, sample_rounds, sample_expire,
}

abbrev pub flag : Option ℤ → Option (Unit {0})
flag none = none
flag (some t) = some tt

abbrev pub tracked : Option Entry → Option (Unit {0})
tracked none = none
tracked (some e) = flag e.expires_at

pub record TracksExpiry (s : Store) : Type 0 where
  pub at : (k : Bytes) → lookup k s.expiry_keys ≡ tracked (lookup k s.strings)

pub TracksExpiry-new : TracksExpiry new
unfolding lookup
TracksExpiry-new = record { at = λ k. refl }

lookup-track :
    (key j : Bytes) (x : Option ℤ) (m : Dict (Unit {0}))
    → lookup j (track key x m) ≡ (if bytes_eq key j then flag x else lookup j m)
unfolding track
lookup-track key j none m = lookup-delete key j m
lookup-track key j (some t) m = lookup-insert key j tt m

put_entry-TracksExpiry :
    (key : Bytes) (e : Entry) (s : Store) → TracksExpiry s → TracksExpiry (put_entry key e s)
unfolding put_entry
put_entry-TracksExpiry key e s h = record {
  at = λ j. simp (dict_laws, lookup-track) (ground (arith, h.at j));
}

pub delete_expired-TracksExpiry :
    (key : Bytes) (s : Store) → TracksExpiry s → TracksExpiry (delete_expired key s)
unfolding delete_expired
delete_expired-TracksExpiry key s h = record { at = λ j. simp dict_laws (ground (arith, h.at j)) }

get_finish-TracksExpiry :
    (key : Bytes) (f : Found) (s : Store) → TracksExpiry s → TracksExpiry (get_finish key f s).1
unfolding get_finish
get_finish-TracksExpiry key missing s h = h
get_finish-TracksExpiry key stale s h = delete_expired-TracksExpiry key s h
get_finish-TracksExpiry key (live e) s h = h

pub set-TracksExpiry :
    (now : ℤ) (key value : Bytes) (ttl : ℤ) (s : Store)
    → TracksExpiry s
    → TracksExpiry (set now key value ttl s).1
unfolding set
set-TracksExpiry now key value ttl s h =
    if-second TracksExpiry (check_memory _ s) (ok tt, _) (err oom, s)
      (put_entry-TracksExpiry key _ s h) h

lookup-untrack :
    (key j : Bytes) (s : Store)
    → TracksExpiry s
    → lookup j (if is_some (lookup key s.strings) then delete key s.expiry_keys else s.expiry_keys)
      ≡ (if bytes_eq key j then none else lookup j s.expiry_keys)
lookup-untrack key j s h =
    ground (arith, h.at key, h.at j, lookup-delete key j s.expiry_keys, bytes_eq_iff key j)

pub del_key-TracksExpiry : (key : Bytes) (s : Store) → TracksExpiry s → TracksExpiry (del_key key s)
unfolding del_key
del_key-TracksExpiry key s h = record {
  at = λ j. lookup-untrack key j s h ∙ simp dict_laws (ground (arith, h.at j));
}

pub del-TracksExpiry : (ks : List Bytes) (s : Store) → TracksExpiry s → TracksExpiry (del ks s).1
unfolding del
del-TracksExpiry [] s h = h
del-TracksExpiry (k ∷ ks) s h = del-TracksExpiry ks (del_key k s) (del_key-TracksExpiry k s h)

pub get-TracksExpiry :
    (now : ℤ) (key : Bytes) (s : Store) → TracksExpiry s → TracksExpiry (get now key s).1
unfolding get
get-TracksExpiry now key s h = get_finish-TracksExpiry key (get_read now key s) s h

pub exists-TracksExpiry :
    (clock : ℕ → ℤ) (ks : List Bytes) (s : Store)
    → TracksExpiry s
    → TracksExpiry (exists clock ks s).1
unfolding exists
exists-TracksExpiry clock [] s h = h
exists-TracksExpiry clock (k ∷ ks) s h =
    exists-TracksExpiry clock ks (exists_key (clock (length ks)) k s).1
      (unfold exists_key in get-TracksExpiry (clock (length ks)) k s h)

expire_entry-TracksExpiry :
    (now : ℤ) (key : Bytes) (seconds : ℤ) (o : Option Entry) (s : Store)
    → TracksExpiry s
    → TracksExpiry (expire_entry now key seconds o s).1
unfolding expire_entry
expire_entry-TracksExpiry now key seconds none s h = h
expire_entry-TracksExpiry now key seconds (some e) s h = record {
  at = λ j. simp dict_laws (ground (arith, h.at j));
}

pub expire-TracksExpiry :
    (now : ℤ) (key : Bytes) (seconds : ℤ) (s : Store)
    → TracksExpiry s
    → TracksExpiry (expire now key seconds s).1
unfolding expire
expire-TracksExpiry now key seconds s h =
    expire_entry-TracksExpiry now key seconds (lookup key s.strings) s h

ttl_finish-TracksExpiry :
    (until : ℤ) (key : Bytes) (f : Found) (s : Store)
    → TracksExpiry s
    → TracksExpiry (ttl_finish until key f s).1
unfolding ttl_finish
ttl_finish-TracksExpiry until key missing s h = h
ttl_finish-TracksExpiry until key stale s h = delete_expired-TracksExpiry key s h
ttl_finish-TracksExpiry until key (live e) s h = h

pub ttl-TracksExpiry :
    (now until : ℤ) (key : Bytes) (s : Store)
    → TracksExpiry s
    → TracksExpiry (ttl now until key s).1
unfolding ttl
ttl-TracksExpiry now until key s h = ttl_finish-TracksExpiry until key (get_read now key s) s h

pub flush_all-TracksExpiry : (s : Store) → TracksExpiry (flush_all s)
unfolding flush_all lookup
flush_all-TracksExpiry s = record { at = λ k. refl }

tracked-kept : (o : Option Entry) → flag (kept_expiry o) ≡ tracked o
tracked-kept none = refl
tracked-kept (some e) = refl

store_sum-TracksExpiry :
    (key : Bytes) (sum : ℤ) (s : Store)
    → TracksExpiry s
    → TracksExpiry (store_sum key (kept_expiry (lookup key s.strings)) sum s).1
unfolding store_sum
store_sum-TracksExpiry key sum s h =
    if-second TracksExpiry (check_memory _ s) (ok sum, _) (err oom, s)
      (record {
        at = λ j.
            simp dict_laws
              (ground (arith, h.at j, bytes_eq_iff key j, tracked-kept (lookup key s.strings)));
      })
      h

pub add_to-TracksExpiry :
    (cur : Result ℤ) (key : Bytes) (delta : ℤ) (s : Store)
    → TracksExpiry s
    → TracksExpiry (add_to cur key (kept_expiry (lookup key s.strings)) delta s).1
unfolding add_to
add_to-TracksExpiry (err e) key delta s h = h
add_to-TracksExpiry (ok cur) key delta s h = store_sum-TracksExpiry key (wrap (cur +ℤ delta)) s h

pub incr_by-TracksExpiry :
    (now : ℤ) (key : Bytes) (delta : ℤ) (s : Store)
    → TracksExpiry s
    → TracksExpiry (incr_by now key delta s).1
unfolding incr_by
incr_by-TracksExpiry now key delta s h =
    add_to-TracksExpiry (current now (lookup key s.strings)) key delta s h

-- Lists and hashes do not touch what is tracked.
