-- ===== src/Store/Keys/Members.antt =====
-- Which keys `Keys` and `Scan` list.
use redis_glass.Prelude.{
  ◌≡◌, refl, ap, ◌∙◌, Bool, false, not, ◌&&◌, ◌||◌, Option, none, some, List, [], ◌∷◌, ◌++◌, arith,
  Bytes, bytes_eq, bytes_eq_iff, Dict, IsDistinct, lookup, ℤ,
}
use redis_glass.Store.{Entry, Store, is_expired, is_some}
use redis_glass.Store.Expiry.{read, view}
use redis_glass.Store.Keys.{
  match_glob, filter, dict_keys, keys_where, keys, insert_sorted, sort, before_expiry, all_keys,
}

abbrev pub contains : Bytes → List Bytes → Bool
contains k [] = false
contains k (j ∷ ks) = bytes_eq j k || contains k ks

pub contains-append :
    (k : Bytes) (xs ys : List Bytes) → contains k (xs ++ ys) ≡ contains k xs || contains k ys
contains-append k [] ys = refl
contains-append k (x ∷ xs) ys = ground (arith, contains-append k xs ys)

pub contains-filter :
    (p : Bytes → Bool) (k : Bytes) (xs : List Bytes)
    → contains k (filter p xs) ≡ p k && contains k xs
unfolding filter
contains-filter p k [] = ground arith
contains-filter p k (x ∷ xs) = ground (arith, contains-filter p k xs, bytes_eq_iff x k)

contains-insert_sorted :
    (k j : Bytes) (ks : List Bytes) → contains k (insert_sorted j ks) ≡ contains k (j ∷ ks)
unfolding insert_sorted
contains-insert_sorted k j [] = refl
contains-insert_sorted k j (i ∷ ks) = ground (arith, contains-insert_sorted k j ks)

contains-sort : (k : Bytes) (ks : List Bytes) → contains k (sort ks) ≡ contains k ks
unfolding sort
contains-sort k [] = refl
contains-sort k (j ∷ ks) =
    contains-insert_sorted k j (sort ks) ∙ ap (λ b. bytes_eq j k || b) (contains-sort k ks)

pub contains-dict_keys {ℓ} :
    {V : Type ℓ} (k : Bytes) (m : Dict V) → contains k (dict_keys m) ≡ is_some (lookup k m)
unfolding dict_keys lookup
contains-dict_keys k [] = refl
contains-dict_keys k ((j, v) ∷ m) = ground (arith, contains-dict_keys k m)

abbrev pub passes : (Entry → Bool) → Option Entry → Bool
passes p none = false
passes p (some e) = p e

contains-keys_where :
    (p : Entry → Bool) (k : Bytes) (m : Dict Entry)
    → IsDistinct m
    → contains k (keys_where p m) ≡ passes p (lookup k m)
unfolding keys_where lookup
contains-keys_where p k [] h = refl
contains-keys_where p k ((j, e) ∷ m) (hj, h) =
    ground (arith, contains-keys_where p k m h, bytes_eq_iff j k, hj)

passes-view :
    (now : ℤ) (o : Option Entry) → passes (λ e. not (is_expired now e)) o ≡ is_some (read now o)
passes-view now none = refl
passes-view now (some e) = ground arith

-- A key that some client-visible value is stored under.
abbrev pub is_present : ℤ → Bytes → Store → Bool
is_present now k s =
    is_some (view now s k) || (is_some (lookup k s.lists) || is_some (lookup k s.hashes))

distribute : (m a b c : Bool) → (m && a) || ((m && b) || (m && c)) ≡ m && (a || (b || c))
distribute m a b c = ground arith

-- In a store that holds no string key twice, `KEYS pattern` lists a key exactly when the pattern
-- matches it and a string that has not expired, or a list or a hash, is stored under it.
pub contains-keys :
    (now : ℤ) (pattern k : Bytes) (s : Store)
    → IsDistinct s.strings
    → contains k (keys now pattern s) ≡ match_glob pattern k && is_present now k s
unfolding keys view
contains-keys now pattern k s h =
    let p = match_glob pattern in
    rw
      (
        contains-append,
        contains-append,
        contains-filter,
        contains-filter,
        contains-filter,
        contains-keys_where _ k s.strings h,
        passes-view now (lookup k s.strings),
        contains-dict_keys k s.lists,
        contains-dict_keys k s.hashes,
      )
      (distribute (p k) (is_some (view now s k)) (is_some (lookup k s.lists))
        (is_some (lookup k s.hashes)))

pub contains-all_keys :
    (now : ℤ) (k : Bytes) (s : Store)
    → IsDistinct s.strings
    → contains k (all_keys now s)
      ≡ passes (λ e. before_expiry now e.expires_at) (lookup k s.strings)
        || (is_some (lookup k s.lists) || is_some (lookup k s.hashes))
unfolding all_keys
contains-all_keys now k s h = rw (
  contains-sort,
  contains-append,
  contains-append,
  contains-keys_where _ k s.strings h,
  contains-dict_keys k s.lists,
  contains-dict_keys k s.hashes,
)
