-- ===== src/Store/Operations.antt =====
-- store/store.go: the methods that may change the data of a store, as one type, and what each of them
-- keeps. `SetMaxMemory`, which `main` calls once before there is any data, changes the ceiling alone and
-- is not one of them.
use redis_glass.Prelude.{ℕ, List, Bytes, ℤ}
use redis_glass.Store.{Store, set, get, del, exists, expire, ttl, flush_all, incr_by}
use redis_glass.Store.Lists.{lpush, rpush}
use redis_glass.Store.Hashes.{hset, hdel}
use redis_glass.Store.Sampler.{sample_expire}
use redis_glass.Store.Tracking
use redis_glass.Store.Tracking.{TracksExpiry}
use redis_glass.Store.Memory
use redis_glass.Store.Memory.{IsWithinLimit}
use redis_glass.Store.Memory.Collections
use redis_glass.Store.Memory.Sampling

-- A call, with the times at which it reads the clock; a tick of the sampler also has the orders in
-- which the run-time walks the keys.
pub data Operation : Type 0 where
  set_op : ℤ → Bytes → Bytes → ℤ → Operation
  get_op : ℤ → Bytes → Operation
  del_op : List Bytes → Operation
  exists_op : (ℕ → ℤ) → List Bytes → Operation
  expire_op : ℤ → Bytes → ℤ → Operation
  ttl_op : ℤ → ℤ → Bytes → Operation
  flush_all_op : Operation
  incr_by_op : ℤ → Bytes → ℤ → Operation
  lpush_op rpush_op hset_op hdel_op : Bytes → List Bytes → Operation
  tick : (ℕ → ℤ) → (ℕ → Store → List Bytes) → Operation

unfoldable pub perform : Operation → Store → Store
perform (set_op now key value lifetime) s = (set now key value lifetime s).1
perform (get_op now key) s = (get now key s).1
perform (del_op ks) s = (del ks s).1
perform (exists_op clock ks) s = (exists clock ks s).1
perform (expire_op now key seconds) s = (expire now key seconds s).1
perform (ttl_op now until key) s = (ttl now until key s).1
perform flush_all_op s = flush_all s
perform (incr_by_op now key delta) s = (incr_by now key delta s).1
perform (lpush_op key vals) s = (lpush key vals s).1
perform (rpush_op key vals) s = (rpush key vals s).1
perform (hset_op key pairs) s = (hset key pairs s).1
perform (hdel_op key fs) s = (hdel key fs s).1
perform (tick clock order) s = sample_expire clock order s

-- Every method of the store that may change its data, and every tick of the sampler, keeps
-- that `expiryKeys` holds exactly the string keys whose entry has an expiry.
pub perform-TracksExpiry :
    (op : Operation) (s : Store) → TracksExpiry s → TracksExpiry (perform op s)
unfolding perform
perform-TracksExpiry (set_op now key value lifetime) s h =
    Tracking.set-TracksExpiry now key value lifetime s h
perform-TracksExpiry (get_op now key) s h = Tracking.get-TracksExpiry now key s h
perform-TracksExpiry (del_op ks) s h = Tracking.del-TracksExpiry ks s h
perform-TracksExpiry (exists_op clock ks) s h = Tracking.exists-TracksExpiry clock ks s h
perform-TracksExpiry (expire_op now key seconds) s h =
    Tracking.expire-TracksExpiry now key seconds s h
perform-TracksExpiry (ttl_op now until key) s h = Tracking.ttl-TracksExpiry now until key s h
perform-TracksExpiry flush_all_op s h = Tracking.flush_all-TracksExpiry s
perform-TracksExpiry (incr_by_op now key delta) s h =
    Tracking.incr_by-TracksExpiry now key delta s h
perform-TracksExpiry (lpush_op key vals) s h = Tracking.Collections.lpush-TracksExpiry key vals s h
perform-TracksExpiry (rpush_op key vals) s h = Tracking.Collections.rpush-TracksExpiry key vals s h
perform-TracksExpiry (hset_op key pairs) s h = Tracking.Collections.hset-TracksExpiry key pairs s h
perform-TracksExpiry (hdel_op key fs) s h = Tracking.Collections.hdel-TracksExpiry key fs s h
perform-TracksExpiry (tick clock order) s h =
    Tracking.Sampling.sample_expire-TracksExpiry clock order s h

-- Every method of the store that may change its data (SetMaxMemory is none), and every tick of the
-- sampler, keeps the estimated memory at or below the ceiling, where there is one.
pub perform-IsWithinLimit :
    (op : Operation) (s : Store) → IsWithinLimit s → IsWithinLimit (perform op s)
unfolding perform
perform-IsWithinLimit (set_op now key value lifetime) s h =
    Memory.set-IsWithinLimit now key value lifetime s h
perform-IsWithinLimit (get_op now key) s h = Memory.get-IsWithinLimit now key s h
perform-IsWithinLimit (del_op ks) s h = Memory.del-IsWithinLimit ks s h
perform-IsWithinLimit (exists_op clock ks) s h = Memory.exists-IsWithinLimit clock ks s h
perform-IsWithinLimit (expire_op now key seconds) s h =
    Memory.expire-IsWithinLimit now key seconds s h
perform-IsWithinLimit (ttl_op now until key) s h = Memory.ttl-IsWithinLimit now until key s h
perform-IsWithinLimit flush_all_op s h = Memory.flush_all-IsWithinLimit s h
perform-IsWithinLimit (incr_by_op now key delta) s h =
    Memory.incr_by-IsWithinLimit now key delta s h
perform-IsWithinLimit (lpush_op key vals) s h = Collections.lpush-IsWithinLimit key vals s h
perform-IsWithinLimit (rpush_op key vals) s h = Collections.rpush-IsWithinLimit key vals s h
perform-IsWithinLimit (hset_op key pairs) s h = Collections.hset-IsWithinLimit key pairs s h
perform-IsWithinLimit (hdel_op key fs) s h = Collections.hdel-IsWithinLimit key fs s h
perform-IsWithinLimit (tick clock order) s h = Sampling.sample_expire-IsWithinLimit clock order s h

-- The invariant of the store.
unfoldable pub IsSound : Store → Type 0
IsSound s = TracksExpiry s × IsWithinLimit s

pub perform-IsSound : (op : Operation) (s : Store) → IsSound s → IsSound (perform op s)
unfolding IsSound
perform-IsSound op s (t, l) = (perform-TracksExpiry op s t, perform-IsWithinLimit op s l)
