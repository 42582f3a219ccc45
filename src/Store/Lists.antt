-- ===== src/Store/Lists.antt =====
-- store/store.go: the operations on lists.
pub mod Range
use redis_glass.Prelude.{
  ℕ, ◌+◌, ◌-◌, ◌||◌, Option, none, some, List, [], ◌∷◌, ◌++◌, length, take, drop, Bytes, lookup,
  insert, ℤ, pos, negsuc, pos_part, ◌+ℤ◌, ltb_ℤ, leb_ℤ, ◌==◌, if◌then◌else◌,
}
use redis_glass.Store.{Store, Result, ok, err, oom, sum_len, check_memory}

-- `s.lists[key]`, which is the empty slice for a missing key.
abbrev pub or_nil {ℓ} : {A : Type ℓ} → Option (List A) → List A
or_nil none = []
or_nil (some l) = l

abbrev pub list_at : Bytes → Store → List Bytes
list_at key s = or_nil (lookup key s.lists)

-- The loop of `LPush`: each value goes in front of those before it.
unfoldable pub prepend : List Bytes → List Bytes → List Bytes
prepend [] lst = lst
prepend (v ∷ vals) lst = prepend vals (v ∷ lst)

unfoldable pub put_list : Bytes → List Bytes → Store → ℕ × Store
put_list key lst s = (length lst, record s { lists = insert key lst s.lists })

abbrev done : ℕ × Store → Result ℕ × Store
done (n, s) = (ok n, s)

unfoldable pub lpush : Bytes → List Bytes → Store → Result ℕ × Store
unfolding prepend put_list
lpush key vals s =
    if check_memory (length key + sum_len vals) s
    then done (put_list key (prepend vals (list_at key s)) s)
    else (err oom, s)

unfoldable pub rpush : Bytes → List Bytes → Store → Result ℕ × Store
unfolding put_list
rpush key vals s =
    if check_memory (length key + sum_len vals) s
    then done (put_list key (list_at key s ++ vals) s)
    else (err oom, s)

unfoldable pub normalize_index : ℤ → ℕ → ℤ
normalize_index (pos i) n = pos i
normalize_index (negsuc i) n = pos n +ℤ negsuc i

-- `lst[start : stop+1]` behind the bounds of `LRange`.
abbrev pub clamp_low : ℤ → ℤ
clamp_low start = if ltb_ℤ start (pos 0) then pos 0 else start

abbrev pub clamp_high : ℕ → ℤ → ℤ
clamp_high n stop = if leb_ℤ (pos n) stop then pos (n - 1) else stop

unfoldable pub slice : List Bytes → ℤ → ℤ → List Bytes
slice lst start stop =
    if ltb_ℤ stop start || leb_ℤ (pos (length lst)) start
    then []
    else take (pos_part stop + 1 - pos_part start) (drop (pos_part start) lst)

unfoldable pub range_of : List Bytes → ℤ → ℤ → List Bytes
unfolding normalize_index slice
range_of lst start stop =
    let n = length lst in
    if n == 0
    then []
    else slice lst (clamp_low (normalize_index start n)) (clamp_high n (normalize_index stop n))

unfoldable pub lrange : Bytes → ℤ → ℤ → Store → List Bytes
unfolding range_of
lrange key start stop s = range_of (list_at key s) start stop
