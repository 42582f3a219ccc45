-- ===== src/Store/Tracking/Collections.antt =====
-- store/store.go: the set `expiryKeys`, under the operations on lists and hashes.
use redis_glass.Prelude.{ℕ, Option, none, some, List, [], ◌∷◌, Bytes, Dict, lookup, if-second}
use redis_glass.Store.{Store, err, oom, check_memory}
use redis_glass.Store.Lists.{lpush, rpush}
use redis_glass.Store.Hashes.{hset, hdel, put_hash, hdel_found, close_hash, delete_fields}
use redis_glass.Store.Tracking.{TracksExpiry}

pub lpush-TracksExpiry :
    (key : Bytes) (vals : List Bytes) (s : Store)
    → TracksExpiry s
    → TracksExpiry (lpush key vals s).1
unfolding lpush
lpush-TracksExpiry key vals s h =
    if-second TracksExpiry (check_memory _ s) _ (err oom, s) (record { at = h.at }) h

pub rpush-TracksExpiry :
    (key : Bytes) (vals : List Bytes) (s : Store)
    → TracksExpiry s
    → TracksExpiry (rpush key vals s).1
unfolding rpush
rpush-TracksExpiry key vals s h =
    if-second TracksExpiry (check_memory _ s) _ (err oom, s) (record { at = h.at }) h

pub hset-TracksExpiry :
    (key : Bytes) (pairs : List Bytes) (s : Store)
    → TracksExpiry s
    → TracksExpiry (hset key pairs s).1
unfolding hset put_hash
hset-TracksExpiry key pairs s h =
    if-second TracksExpiry (check_memory _ s) _ (err oom, s) (record { at = h.at }) h

close_hash-TracksExpiry :
    (key : Bytes) (r : ℕ × Dict Bytes) (s : Store)
    → TracksExpiry s
    → TracksExpiry (close_hash key r s).1
unfolding close_hash
close_hash-TracksExpiry key (n, []) s h = record { at = h.at }
close_hash-TracksExpiry key (n, p ∷ m) s h = record { at = h.at }

hdel_found-TracksExpiry :
    (key : Bytes) (fs : List Bytes) (o : Option (Dict Bytes)) (s : Store)
    → TracksExpiry s
    → TracksExpiry (hdel_found key fs o s).1
unfolding hdel_found
hdel_found-TracksExpiry key fs none s h = h
hdel_found-TracksExpiry key fs (some m) s h = close_hash-TracksExpiry key (delete_fields fs m) s h

pub hdel-TracksExpiry :
    (key : Bytes) (fs : List Bytes) (s : Store) → TracksExpiry s → TracksExpiry (hdel key fs s).1
unfolding hdel
hdel-TracksExpiry key fs s h = hdel_found-TracksExpiry key fs (lookup key s.hashes) s h
