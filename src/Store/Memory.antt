-- ===== src/Store/Memory.antt =====
-- store/store.go: the memory ceiling, under the operations on string keys.
mod Weights
pub mod Collections
pub mod Sampling
pub use Weights.{weigh-insert-le, weigh-insert-some, weigh-delete-le, held, sum_len-append}
use redis_glass.Prelude.{
  ℕ, zero, suc, ◌+◌, ◌≤◌, ◌≡◌, refl, sym, ap, Bool, true, false, Option, none, some, List, [], ◌∷◌,
  ◌++◌, arith, length, Bytes, Dict, lookup, insert, delete, ℤ, pos, ◌≤ℤ◌, ◌<ℤ◌, ◌+ℤ◌, wrap, itoa,
  if◌then◌else◌, if-second, if-guarded, if-keeps,
}
use redis_glass.Store.{
  Entry, Store, Result, ok, err, oom, weigh, sum_len, entry_size, hash_size, approx_memory,
  check_memory, put_entry, set, delete_expired, Found, missing, stale, live, get_read, get_finish,
  get, del_key, del, exists_key, exists, expire_entry, expire, ttl_finish, ttl, flush_all,
  kept_expiry, current, store_sum, add_to, incr_by, expiry_of,
}
use redis_glass.Store.Lists.{or_nil, list_at, prepend, lpush, rpush, put_list}
use redis_glass.Store.Hashes.{
  or_empty, hash_at, hset, hdel, put_hash, hdel_found, close_hash, set_fields, delete_fields,
}

-- Where there is a ceiling, the estimate is not above it.
abbrev pub IsWithinLimit : Store → Type 0
IsWithinLimit s = pos 0 <ℤ s.max_memory → pos (approx_memory s) ≤ℤ s.max_memory

pub grow :
    (s s' : Store) (n : ℕ)
    → check_memory n s ≡ true
    → s'.max_memory ≡ s.max_memory
    → approx_memory s' ≤ approx_memory s + n
    → IsWithinLimit s'
unfolding check_memory
grow s s' n c m a = rw m (λ p. ground arith)

pub shrink :
    (s s' : Store)
    → s'.max_memory ≡ s.max_memory
    → approx_memory s' ≤ approx_memory s
    → IsWithinLimit s
    → IsWithinLimit s'
unfolding approx_memory
shrink s s' m a h = rw m (λ p. let q = h p in omega arith)

pub set-IsWithinLimit :
    (now : ℤ) (key value : Bytes) (ttl : ℤ) (s : Store)
    → IsWithinLimit s
    → IsWithinLimit (set now key value ttl s).1
unfolding set put_entry approx_memory
set-IsWithinLimit now key value ttl s h =
    let e : Entry = record { value = value; expires_at = expiry_of now ttl } in
    if-guarded IsWithinLimit (check_memory (length key + length value) s) (ok tt, put_entry key e s)
      (err oom, s)
      (λ c.
        grow s (put_entry key e s) (length key + length value) c refl
          (omega (arith, weigh-insert-le entry_size key e s.strings)))
      h

pub delete_expired-IsWithinLimit :
    (key : Bytes) (s : Store) → IsWithinLimit s → IsWithinLimit (delete_expired key s)
unfolding delete_expired approx_memory
delete_expired-IsWithinLimit key s =
    shrink s (delete_expired key s) refl (omega (arith, weigh-delete-le entry_size key s.strings))

del_key-IsWithinLimit : (key : Bytes) (s : Store) → IsWithinLimit s → IsWithinLimit (del_key key s)
unfolding del_key approx_memory
del_key-IsWithinLimit key s = shrink s (del_key key s) refl (
    omega (
      arith,
      weigh-delete-le entry_size key s.strings,
      weigh-delete-le sum_len key s.lists,
      weigh-delete-le hash_size key s.hashes,
    ))

pub del-IsWithinLimit : (ks : List Bytes) (s : Store) → IsWithinLimit s → IsWithinLimit (del ks s).1
unfolding del
del-IsWithinLimit [] s h = h
del-IsWithinLimit (k ∷ ks) s h = del-IsWithinLimit ks (del_key k s) (del_key-IsWithinLimit k s h)

get_finish-IsWithinLimit :
    (key : Bytes) (f : Found) (s : Store) → IsWithinLimit s → IsWithinLimit (get_finish key f s).1
unfolding get_finish
get_finish-IsWithinLimit key missing s h = h
get_finish-IsWithinLimit key stale s h = delete_expired-IsWithinLimit key s h
get_finish-IsWithinLimit key (live e) s h = h

pub get-IsWithinLimit :
    (now : ℤ) (key : Bytes) (s : Store) → IsWithinLimit s → IsWithinLimit (get now key s).1
unfolding get
get-IsWithinLimit now key s h = get_finish-IsWithinLimit key (get_read now key s) s h

pub exists-IsWithinLimit :
    (clock : ℕ → ℤ) (ks : List Bytes) (s : Store)
    → IsWithinLimit s
    → IsWithinLimit (exists clock ks s).1
unfolding exists
exists-IsWithinLimit clock [] s h = h
exists-IsWithinLimit clock (k ∷ ks) s h =
    exists-IsWithinLimit clock ks (exists_key (clock (length ks)) k s).1
      (unfold exists_key in get-IsWithinLimit (clock (length ks)) k s h)

ttl_finish-IsWithinLimit :
    (until : ℤ) (key : Bytes) (f : Found) (s : Store)
    → IsWithinLimit s
    → IsWithinLimit (ttl_finish until key f s).1
unfolding ttl_finish
ttl_finish-IsWithinLimit until key missing s h = h
ttl_finish-IsWithinLimit until key stale s h = delete_expired-IsWithinLimit key s h
ttl_finish-IsWithinLimit until key (live e) s h = h

pub ttl-IsWithinLimit :
    (now until : ℤ) (key : Bytes) (s : Store)
    → IsWithinLimit s
    → IsWithinLimit (ttl now until key s).1
unfolding ttl
ttl-IsWithinLimit now until key s h = ttl_finish-IsWithinLimit until key (get_read now key s) s h

expire_entry-IsWithinLimit :
    (now : ℤ) (key : Bytes) (seconds : ℤ) (o : Option Entry) (s : Store)
    → lookup key s.strings ≡ o
    → IsWithinLimit s
    → IsWithinLimit (expire_entry now key seconds o s).1
unfolding expire_entry approx_memory
expire_entry-IsWithinLimit now key seconds none s e h = h
expire_entry-IsWithinLimit now key seconds (some x) s e h =
    shrink s (expire_entry now key seconds (some x) s).1 refl
      (omega (arith, weigh-insert-some entry_size key (record x { expires_at = _ }) x s.strings e))
      h

pub expire-IsWithinLimit :
    (now : ℤ) (key : Bytes) (seconds : ℤ) (s : Store)
    → IsWithinLimit s
    → IsWithinLimit (expire now key seconds s).1
unfolding expire
expire-IsWithinLimit now key seconds s h =
    expire_entry-IsWithinLimit now key seconds (lookup key s.strings) s refl h

pub flush_all-IsWithinLimit : (s : Store) → IsWithinLimit s → IsWithinLimit (flush_all s)
unfolding flush_all approx_memory weigh
flush_all-IsWithinLimit s = shrink s (flush_all s) refl (omega arith)

store_sum-IsWithinLimit :
    (key : Bytes) (x : Option ℤ) (sum : ℤ) (s : Store)
    → IsWithinLimit s
    → IsWithinLimit (store_sum key x sum s).1
unfolding store_sum approx_memory
store_sum-IsWithinLimit key x sum s h =
    let e : Entry = record { value = itoa sum; expires_at = x } in
    let n = length key + length (itoa sum) in
    let s' = record s { strings = insert key e s.strings } in
    if-guarded IsWithinLimit (check_memory n s) (ok sum, s') (err oom, s)
      (λ c. grow s s' n c refl (omega (arith, weigh-insert-le entry_size key e s.strings))) h

add_to-IsWithinLimit :
    (cur : Result ℤ) (key : Bytes) (x : Option ℤ) (delta : ℤ) (s : Store)
    → IsWithinLimit s
    → IsWithinLimit (add_to cur key x delta s).1
unfolding add_to
add_to-IsWithinLimit (err e) key x delta s h = h
add_to-IsWithinLimit (ok cur) key x delta s h =
    store_sum-IsWithinLimit key x (wrap (cur +ℤ delta)) s h

pub incr_by-IsWithinLimit :
    (now : ℤ) (key : Bytes) (delta : ℤ) (s : Store)
    → IsWithinLimit s
    → IsWithinLimit (incr_by now key delta s).1
unfolding incr_by
incr_by-IsWithinLimit now key delta s h =
    let o = lookup key s.strings in
    add_to-IsWithinLimit (current now o) key (kept_expiry o) delta s h
