-- ===== src/Store/Lists/Range.antt =====
-- store/store.go: which elements `LRange` returns.
use redis_glass.Prelude.{
  ℕ, Option, none, List, get_elem?, Bytes, ℤ, pos, pos_part, leb_ℤ, if◌then◌else◌,
}
use redis_glass.Store.{Store}
use redis_glass.Store.Lists.{normalize_index}

-- An element of a list, if its index is not above a bound.
abbrev pub upto : ℤ → ℕ → List Bytes → Option Bytes
upto b j lst = if leb_ℤ (pos j) b then get_elem? lst j else none

-- The index that a range starts at, which is 0 where it lies before the list.
abbrev pub first_index : ℤ → ℕ → ℕ
first_index start n = pos_part (normalize_index start n)
