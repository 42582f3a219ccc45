-- ===== src/Store/Keys.antt =====
-- store/store.go: `Keys`, `Scan` and the glob patterns that they take.
pub mod Members
pub mod Paging
use redis_glass.Prelude.{
  ℕ, suc, ◌+◌, ◌-◌, Bool, true, false, not, ◌&&◌, ◌||◌, Option, none, some, List, [], ◌∷◌, ◌++◌,
  length, take, drop, Bytes, codes, bytes_eq, has_prefix, ends_with, drop_last, Dict, ℤ, pos,
  negsuc, pos_part, ◌+ℤ◌, wrap, ltb_ℤ, leb_ℤ, ltb, ◌==◌, if◌then◌else◌,
}
use redis_glass.Store.{Entry, Store, is_expired}

-- Also `globMatch` of events/events.go, which is the same code.
unfoldable pub match_glob : Bytes → Bytes → Bool
match_glob pattern key =
    if bytes_eq pattern (codes "*")
    then true
    else if ends_with pattern b'*'
    then has_prefix key (drop_last pattern)
    else bytes_eq pattern key

unfoldable pub filter {ℓ} : {A : Type ℓ} → (A → Bool) → List A → List A
filter p [] = []
filter p (x ∷ xs) = if p x then x ∷ filter p xs else filter p xs

unfoldable pub dict_keys {ℓ} : {V : Type ℓ} → Dict V → List Bytes
dict_keys [] = []
dict_keys ((k, v) ∷ m) = k ∷ dict_keys m

-- The keys of the entries that pass a test.
unfoldable pub keys_where : (Entry → Bool) → Dict Entry → List Bytes
keys_where p [] = []
keys_where p ((k, e) ∷ m) = if p e then k ∷ keys_where p m else keys_where p m

unfoldable pub keys : ℤ → Bytes → Store → List Bytes
unfolding filter dict_keys keys_where is_expired match_glob
keys now pattern s =
    filter (match_glob pattern) (keys_where (λ e. not (is_expired now e)) s.strings)
    ++ (filter (match_glob pattern) (dict_keys s.lists)
        ++ filter (match_glob pattern) (dict_keys s.hashes))

-- `sort.Strings`: the byte order, and a sort.
unfoldable pub bytes_leb : Bytes → Bytes → Bool
bytes_leb [] t = true
bytes_leb (c ∷ s) [] = false
bytes_leb (c ∷ s) (d ∷ t) = if ltb c d then true else ((c == d) && bytes_leb s t)

unfoldable pub insert_sorted : Bytes → List Bytes → List Bytes
insert_sorted k [] = k ∷ []
insert_sorted k (j ∷ ks) = if bytes_leb k j then k ∷ j ∷ ks else j ∷ insert_sorted k ks

unfoldable pub sort : List Bytes → List Bytes
unfolding insert_sorted bytes_leb
sort [] = []
sort (k ∷ ks) = insert_sorted k (sort ks)

-- `now.Before(e.ExpiresAt)`: at the very instant of the expiry `Get` still finds the key.
unfoldable pub before_expiry : ℤ → Option ℤ → Bool
before_expiry now none = true
before_expiry now (some t) = ltb_ℤ now t

unfoldable pub all_keys : ℤ → Store → List Bytes
unfolding keys_where dict_keys before_expiry sort
all_keys now s = sort (
    keys_where (λ e. before_expiry now e.expires_at) s.strings
    ++ (dict_keys s.lists ++ dict_keys s.hashes))

-- The next cursor and a page, or a run-time panic: a slice bound out of range.
pub data Scanned : Type 0 where
  page : ℕ → List Bytes → Scanned
  panic : Scanned

-- A count that is not positive is 10.
abbrev pub count_of : ℤ → ℤ
count_of count = if leb_ℤ count (pos 0) then pos 10 else count

abbrev next_of : ℕ → ℕ → ℕ
next_of n end = if ltb end n then end else 0

-- `all[cursor:end]`, where `end` was summed in 64 bits.
unfoldable pub cut_page : Bytes → List Bytes → ℕ → ℤ → Scanned
unfolding filter match_glob
cut_page pattern all cursor (negsuc e) = panic
cut_page pattern all cursor (pos e) =
    let end = (if ltb (length all) e then length all else e) in
    if ltb end cursor
    then panic
    else page (next_of (length all) end)
        (filter (match_glob pattern) (take (end - cursor) (drop cursor all)))

unfoldable pub scan_from : ℤ → Bytes → ℤ → List Bytes → Scanned
unfolding cut_page
scan_from (negsuc c) pattern count all = page 0 []
scan_from (pos c) pattern count all =
    if ltb c (length all)
    then cut_page pattern all c (wrap (pos c +ℤ count_of count))
    else page 0 []

unfoldable pub scan : ℤ → ℤ → Bytes → ℤ → Store → Scanned
unfolding scan_from all_keys
scan now cursor pattern count s = scan_from cursor pattern count (all_keys now s)
