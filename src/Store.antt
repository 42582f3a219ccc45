-- ===== src/Store.antt =====
-- store/store.go: the state, the memory ceiling and the operations on string keys. Lists, hashes,
-- the walks over the key space and the sampler are modules below, and so are the proofs.
-- A method that takes the lock is one step from a state to a state; `time.Now()` is an argument, in
-- nanoseconds, and `time.Time{}`, which means no expiry, is `none`.
pub mod Lists
pub mod Hashes
pub mod Keys
pub mod Sampler
pub mod Tracking
pub mod Memory
pub mod Operations
pub mod Expiry
pub mod Counters
pub mod Edges
pub mod Distinct
use redis_glass.Prelude.{
  ℕ, zero, suc, ◌+◌, ◌-◌, ◌/◌, ◌^◌, Bool, true, false, ◌||◌, Option, none, some, List, [], ◌∷◌,
  length, Bytes, Dict, lookup, insert, delete, ℤ, pos, negsuc, pos_part, ◌+ℤ◌, ◌-ℤ◌, scale, wrap,
  ltb_ℤ, leb_ℤ, itoa, atoi, two_63, if◌then◌else◌,
}

pub record Entry : Type 0 where
  pub value : Bytes
  pub expires_at : Option ℤ

pub record Store : Type 0 where
  -- the field `data` of the source
  pub strings : Dict Entry
  pub lists : Dict (List Bytes)
  pub hashes : Dict (Dict Bytes)
  pub expiry_keys : Dict (Unit {0})
  pub max_memory : ℤ

abbrev pub new : Store
new = record { strings = []; lists = []; hashes = []; expiry_keys = []; max_memory = pos 0 }

unfoldable pub set_max_memory : ℤ → Store → Store
set_max_memory bytes s = record s { max_memory = bytes }

-- The errors of the package; those from `bad_arguments` on are the replay's (store/aof.go).
pub data Error : Type 0 where
  oom not_integer bad_arguments bad_number syntax unsupported : Error

pub data Result {ℓ} (A : Type ℓ) : Type ℓ where
  ok : A → Result A
  err : Error → Result A

-- The lengths of the keys, with the weights of the values.
unfoldable pub weigh {ℓ} : {V : Type ℓ} → (V → ℕ) → Dict V → ℕ
weigh w [] = 0
weigh w ((k, v) ∷ m) = length k + w v + weigh w m

unfoldable pub sum_len : List Bytes → ℕ
sum_len [] = 0
sum_len (v ∷ vals) = length v + sum_len vals

abbrev pub entry_size : Entry → ℕ
entry_size e = length e.value

-- A field and its value weigh as a key and its value do.
abbrev pub hash_size : Dict Bytes → ℕ
hash_size = weigh length

unfoldable pub approx_memory : Store → ℕ
approx_memory s = weigh entry_size s.strings + weigh sum_len s.lists + weigh hash_size s.hashes

-- Whether a write of so many bytes more is let through.
unfoldable pub check_memory : ℕ → Store → Bool
check_memory additional s =
    if leb_ℤ s.max_memory (pos 0)
    then true
    else leb_ℤ (pos (approx_memory s + additional)) s.max_memory

abbrev pub second : ℕ
second = 10 ^ 9

abbrev pub millisecond : ℕ
millisecond = 10 ^ 6

-- `time.Duration(n) * unit`, in 64 bits.
unfoldable pub duration : ℤ → ℕ → ℤ
duration n unit = wrap (scale n unit)

-- `!e.ExpiresAt.IsZero() && now.After(e.ExpiresAt)`
abbrev pub is_past : ℤ → Option ℤ → Bool
is_past now none = false
is_past now (some t) = ltb_ℤ t now

unfoldable pub is_expired : ℤ → Entry → Bool
is_expired now e = is_past now e.expires_at

-- The `if expiresAt.IsZero()` of `Set`.
unfoldable pub track : Bytes → Option ℤ → Dict (Unit {0}) → Dict (Unit {0})
track key none tracked = delete key tracked
track key (some t) tracked = insert key tt tracked

unfoldable pub expiry_of : ℤ → ℤ → Option ℤ
expiry_of now ttl = if ltb_ℤ (pos 0) ttl then some (now +ℤ ttl) else none

unfoldable pub put_entry : Bytes → Entry → Store → Store
put_entry key e s = record s {
  strings = insert key e s.strings;
  expiry_keys = track key e.expires_at s.expiry_keys;
}

unfoldable pub set : ℤ → Bytes → Bytes → ℤ → Store → Result (Unit {0}) × Store
unfolding put_entry expiry_of
set now key value ttl s =
    if check_memory (length key + length value) s
    then (ok tt, put_entry key (record { value = value; expires_at = expiry_of now ttl }) s)
    else (err oom, s)

unfoldable pub delete_expired : Bytes → Store → Store
delete_expired key s = record s {
  strings = delete key s.strings;
  expiry_keys = delete key s.expiry_keys;
}

-- What the first half of `Get` finds, under the read lock; where it is `stale` the second half
-- deletes the key, under the write lock that it takes anew.
pub data Found : Type 0 where
  missing stale : Found
  live : Entry → Found

unfoldable pub found : ℤ → Option Entry → Found
found now none = missing
found now (some e) = if is_expired now e then stale else live e

unfoldable pub get_read : ℤ → Bytes → Store → Found
unfolding found is_expired
get_read now key s = found now (lookup key s.strings)

unfoldable pub get_finish : Bytes → Found → Store → Option Bytes × Store
unfolding delete_expired
get_finish key missing s = (none, s)
get_finish key stale s = (none, delete_expired key s)
get_finish key (live e) s = (some e.value, s)

unfoldable pub get : ℤ → Bytes → Store → Option Bytes × Store
unfolding get_read get_finish
get now key s = get_finish key (get_read now key s) s

abbrev pub is_some {ℓ} : {A : Type ℓ} → Option A → Bool
is_some none = false
is_some (some a) = true

-- The deletes of an absent key change nothing, so they need no test here.
unfoldable pub del_key : Bytes → Store → Store
del_key k s = record s {
  strings = delete k s.strings;
  expiry_keys = if is_some (lookup k s.strings) then delete k s.expiry_keys else s.expiry_keys;
  lists = delete k s.lists;
  hashes = delete k s.hashes;
}

unfoldable pub holds : Bytes → Store → Bool
holds k s =
    is_some (lookup k s.strings) || (is_some (lookup k s.lists) || is_some (lookup k s.hashes))

abbrev pub tally : Bool → ℕ → ℕ
tally b n = if b then suc n else n

unfoldable pub del : List Bytes → Store → ℕ × Store
unfolding del_key holds
del [] s = (0, s)
del (k ∷ ks) s = let (n, s') = del ks (del_key k s) in (tally (holds k s) n, s')

unfoldable pub exists_key : ℤ → Bytes → Store → Bool × Store
unfolding get
exists_key now k s =
    let (v, s') = get now k s in
    (is_some v || (is_some (lookup k s'.lists) || is_some (lookup k s'.hashes)), s')

-- Each key is looked up by `Get`, which may delete it. `clock` is the time at which a key is looked up, by the
-- number of keys that are left behind it.
unfoldable pub exists : (ℕ → ℤ) → List Bytes → Store → ℕ × Store
unfolding exists_key
exists clock [] s = (0, s)
exists clock (k ∷ ks) s =
    let (here, s') = exists_key (clock (length ks)) k s in
    let (n, s'') = exists clock ks s' in (tally here n, s'')

unfoldable pub expire_entry : ℤ → Bytes → ℤ → Option Entry → Store → Bool × Store
unfolding duration
expire_entry now key seconds none s = (false, s)
expire_entry now key seconds (some e) s = (
  true,
  record s {
    strings =
        insert key (record e { expires_at = some (now +ℤ duration seconds second) }) s.strings;
    expiry_keys = insert key tt s.expiry_keys;
  },
)

unfoldable pub expire : ℤ → Bytes → ℤ → Store → Bool × Store
unfolding expire_entry
expire now key seconds s = expire_entry now key seconds (lookup key s.strings) s

-- `t.Sub(u)`, which stops at the bounds of a 64-bit duration.
unfoldable pub time_sub : ℤ → ℤ → ℤ
time_sub t u =
    let d = t -ℤ u in
    if leb_ℤ (pos two_63) d
    then pos (two_63 - 1)
    else if ltb_ℤ d (negsuc (two_63 - 1))
    then negsuc (two_63 - 1)
    else d

-- `int(remaining + 0.5)`: the nearest second, in exact arithmetic.
unfoldable pub rounded : ℤ → ℤ
rounded remaining =
    if ltb_ℤ remaining (pos 0) then negsuc 1 else pos ((pos_part remaining + second / 2) / second)

unfoldable pub remaining_of : ℤ → Option ℤ → ℤ
unfolding rounded time_sub
remaining_of until none = negsuc 0
remaining_of until (some t) = rounded (time_sub t until)

unfoldable pub ttl_finish : ℤ → Bytes → Found → Store → ℤ × Store
unfolding remaining_of delete_expired
ttl_finish until key missing s = (negsuc 1, s)
ttl_finish until key stale s = (negsuc 1, delete_expired key s)
ttl_finish until key (live e) s = (remaining_of until e.expires_at, s)

-- The clock is read twice: by `isExpired`, and by `time.Until`.
unfoldable pub ttl : ℤ → ℤ → Bytes → Store → ℤ × Store
unfolding ttl_finish get_read
ttl now until key s = ttl_finish until key (get_read now key s) s

unfoldable pub flush_all : Store → Store
flush_all s = record s { strings = []; lists = []; hashes = []; expiry_keys = [] }

unfoldable pub or_not_integer : Option ℤ → Result ℤ
or_not_integer none = err not_integer
or_not_integer (some n) = ok n

-- `cur`: an expired entry counts as absent.
unfoldable pub current : ℤ → Option Entry → Result ℤ
unfolding or_not_integer is_expired
current now none = ok (pos 0)
current now (some e) = if is_expired now e then ok (pos 0) else or_not_integer (atoi e.value)

-- `entry.ExpiresAt`, also of an entry that has expired.
abbrev pub kept_expiry : Option Entry → Option ℤ
kept_expiry none = none
kept_expiry (some e) = e.expires_at

unfoldable pub store_sum : Bytes → Option ℤ → ℤ → Store → Result ℤ × Store
store_sum key expires_at sum s =
    if check_memory (length key + length (itoa sum)) s
    then (
      ok sum,
      record s {
        strings = insert key (record { value = itoa sum; expires_at = expires_at }) s.strings;
      },
    )
    else (err oom, s)

unfoldable pub add_to : Result ℤ → Bytes → Option ℤ → ℤ → Store → Result ℤ × Store
unfolding store_sum
add_to (err e) key expires_at delta s = (err e, s)
add_to (ok cur) key expires_at delta s = store_sum key expires_at (wrap (cur +ℤ delta)) s

unfoldable pub incr_by : ℤ → Bytes → ℤ → Store → Result ℤ × Store
unfolding add_to current
incr_by now key delta s =
    let entry = lookup key s.strings in add_to (current now entry) key (kept_expiry entry) delta s

unfoldable pub key_count : Store → ℕ
key_count s = length s.strings + length s.lists + length s.hashes

unfoldable pub expiry_count : Store → ℕ
expiry_count s = length s.expiry_keys
