-- ===== src/Store/Expiry.antt =====
-- What clients see of a string key: the entry, until it expires. The operations against that view.
use redis_glass.Prelude.{
  ◌+◌, ◌≡◌, ◌↔◌, refl, sym, ap, ◌∙◌, true, false, Option, none, some, arith, Bytes, length,
  bytes_eq, bytes_eq_iff, lookup, dict_laws, ℤ, ◌≤ℤ◌, if◌then◌else◌, Bool-cases, inl, inr,
}
use mathlib.Core.Option.{some-injective}
use redis_glass.Store.{
  Entry, Store, is_past, err, oom, is_expired, expiry_of, put_entry, set, delete_expired, Found,
  missing, stale, live, found, get_read, get_finish, get, check_memory,
}

abbrev pub read : ℤ → Option Entry → Option Entry
read now none = none
read now (some e) = if is_expired now e then none else some e

-- The entry that a client can see at a time.
unfoldable pub view : ℤ → Store → Bytes → Option Entry
view now s k = read now (lookup k s.strings)

abbrev pub value_of : Option Entry → Option Bytes
value_of none = none
value_of (some e) = some e.value

is_expired_mono :
    (now later : ℤ) (e : Entry) → now ≤ℤ later → is_expired now e ≡ true → is_expired later e ≡ true
unfolding is_expired
is_expired_mono now later e le h = ground arith

found-view :
    (now : ℤ) (key : Bytes) (o : Option Entry) (s : Store)
    → (get_finish key (found now o) s).0 ≡ value_of (read now o)
unfolding get_finish found
found-view now key none s = refl
found-view now key (some e) s = ground arith

-- `Get` replies the value of the entry under the key, unless that has expired.
pub get-view : (now : ℤ) (key : Bytes) (s : Store) → (get now key s).0 ≡ value_of (view now s key)
unfolding get get_read view
get-view now key s = found-view now key (lookup key s.strings) s

-- An entry is alive up to and at the moment at which it expires, and for ever where it has none.
unfoldable pub LivesAt : ℤ → Option ℤ → Type 0
LivesAt now none = Unit
LivesAt now (some t) = now ≤ℤ t

-- What is stored under a key, with that value, and alive.
abbrev pub IsHeld : ℤ → Bytes → Bytes → Store → Type 0
IsHeld now key v s =
    (e : Entry) × (lookup key s.strings ≡ some e) × (e.value ≡ v) × LivesAt now e.expires_at

is_past-LivesAt : (now : ℤ) (o : Option ℤ) → is_past now o ≡ false → LivesAt now o
unfolding LivesAt
is_past-LivesAt now none h = tt
is_past-LivesAt now (some t) h = ground arith

LivesAt-is_past : (now : ℤ) (o : Option ℤ) → LivesAt now o → is_past now o ≡ false
unfolding LivesAt
LivesAt-is_past now none h = refl
LivesAt-is_past now (some t) h = ground arith

read_held :
    (now : ℤ) (v : Bytes) (o : Option Entry)
    → value_of (read now o) ≡ some v
    → (e : Entry) × (o ≡ some e) × (e.value ≡ v) × LivesAt now e.expires_at
unfolding is_expired
read_held now v none h = cc
read_held now v (some e) h = elim (Bool-cases (is_past now e.expires_at)) [
  | inl x ↦ cc (rw x at h)
  | inr x ↦ (e, refl, some-injective e.value v (rw x at h), is_past-LivesAt now e.expires_at x)
]

-- `Get` replies a value exactly where an entry with that value is stored under the key and the time is
-- not after the entry's expiry.
pub get-IsHeld :
    (now : ℤ) (key v : Bytes) (s : Store) → ((get now key s).0 ≡ some v) ↔ IsHeld now key v s
unfolding view is_expired
get-IsHeld now key v s = (
  λ h. read_held now v (lookup key s.strings) (sym (get-view now key s) ∙ h),
  λ h.
      let (e, at, same, alive) = h in
      get-view now key s ∙ rw (at, LivesAt-is_past now e.expires_at alive) (ap some same),
)

pub view-delete_expired :
    (now later : ℤ) (key : Bytes) (e : Entry) (s : Store)
    → lookup key s.strings ≡ some e
    → is_expired now e ≡ true
    → now ≤ℤ later
    → (j : Bytes) → view later (delete_expired key s) j ≡ view later s j
unfolding view delete_expired
view-delete_expired now later key e s h x le j =
    simp dict_laws (ground (arith, is_expired_mono now later e le x, bytes_eq_iff key j, h))

get_finish-lists :
    (key : Bytes) (f : Found) (s : Store)
    → ((get_finish key f s).1.lists ≡ s.lists) × ((get_finish key f s).1.hashes ≡ s.hashes)
unfolding get_finish delete_expired
get_finish-lists key missing s = (refl, refl)
get_finish-lists key stale s = (refl, refl)
get_finish-lists key (live e) s = (refl, refl)

view-found :
    (now later : ℤ) (key : Bytes) (o : Option Entry) (s : Store)
    → lookup key s.strings ≡ o
    → now ≤ℤ later
    → (j : Bytes) → view later (get_finish key (found now o) s).1 j ≡ view later s j
unfolding found get_finish
view-found now later key none s e le j = refl
view-found now later key (some x) s e le j = elim (Bool-cases (is_expired now x)) [
  | inl h ↦ rw h (view-delete_expired now later key x s e h le j)
  | inr h ↦ rw h
]

-- A `Get`, with the deletion that it may make, changes no view of a key at its time or later, no list
-- and no hash.
pub view-get :
    (now later : ℤ) (key : Bytes) (s : Store)
    → now ≤ℤ later
    → ((j : Bytes) → view later (get now key s).1 j ≡ view later s j)
      × ((get now key s).1.lists ≡ s.lists)
      × ((get now key s).1.hashes ≡ s.hashes)
unfolding get get_read
view-get now later key s le =
    let f = found now (lookup key s.strings) in
    let same = get_finish-lists key f s in
    (view-found now later key (lookup key s.strings) s refl le, same.0, same.1)

-- After a `Set` that the memory ceiling lets through, at any time, the key has the new value unless
-- the new expiry has passed, and each other key is seen as before.
pub view-set :
    (now later : ℤ) (key value : Bytes) (ttl : ℤ) (s : Store)
    → check_memory (length key + length value) s ≡ true
    → (j : Bytes)
    → view later (set now key value ttl s).1 j ≡ (
        if bytes_eq key j
        then read later (some (record { value = value; expires_at = expiry_of now ttl }))
        else view later s j)
unfolding view set put_entry
view-set now later key value ttl s c j = rw c (simp dict_laws (ground arith))

-- A `Set` that would pass the ceiling is refused, and changes nothing.
pub set_refused :
    (now : ℤ) (key value : Bytes) (ttl : ℤ) (s : Store)
    → check_memory (length key + length value) s ≡ false
    → set now key value ttl s ≡ (err oom, s)
unfolding set
set_refused now key value ttl s c = rw c
