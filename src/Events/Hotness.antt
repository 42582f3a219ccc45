-- ===== src/Events/Hotness.antt =====
-- events/events.go: the sliding window of accesses to keys.
use redis_glass.Prelude.{
  ℕ, zero, suc, ◌+◌, ◌/◌, ◌%◌, Bool, Option, none, some, List, [], ◌∷◌, Bytes, Dict, lookup, insert,
  ltb, ℤ, pos, pos_part, ltb_ℤ, ◌&&◌, length, take, ◌==◌, if◌then◌else◌,
}

abbrev pub hotkey_bucket_width : ℕ
hotkey_bucket_width = 5

abbrev pub hotkey_bucket_count : ℕ
hotkey_bucket_count = 12

-- One slot of the ring: the window that it was last reset for, and the counts.
pub record Slot : Type 0 where
  pub slot_time : ℕ
  pub counts : Dict ℕ

abbrev pub Hotkeys : Type 0
Hotkeys = List Slot

abbrev pub new_slot : Slot
new_slot = record { slot_time = 0; counts = [] }

abbrev pub new_hotkeys : Hotkeys
new_hotkeys =
    new_slot ∷ new_slot ∷ new_slot ∷ new_slot ∷ new_slot ∷ new_slot ∷ new_slot ∷ new_slot ∷ new_slot
    ∷ new_slot ∷ new_slot ∷ new_slot ∷ []

abbrev pub window_of : ℕ → ℕ
window_of now = now / hotkey_bucket_width

-- `m[key]`, which is 0 for a missing key.
abbrev pub or_zero : Option ℕ → ℕ
or_zero none = 0
or_zero (some n) = n

unfoldable pub count_key : Bytes → Dict ℕ → Dict ℕ
count_key key m = insert key (or_zero (lookup key m) + 1) m

-- An access in a slot, which is reset where it belongs to another window.
unfoldable pub touch : ℕ → Bytes → Slot → Slot
unfolding count_key
touch window key s =
    if s.slot_time == window
    then record s { counts = count_key key s.counts }
    else record { slot_time = window; counts = count_key key [] }

-- At the slot of this index.
unfoldable pub touch_at : ℕ → ℕ → Bytes → Hotkeys → Hotkeys
unfolding touch
touch_at i window key [] = []
touch_at zero window key (s ∷ t) = touch window key s ∷ t
touch_at (suc i) window key (s ∷ t) = s ∷ touch_at i window key t

unfoldable pub access : ℕ → Bytes → Hotkeys → Hotkeys
unfolding touch_at
access now key t = touch_at (window_of now % hotkey_bucket_count) (window_of now) key t

unfoldable pub add_counts : Dict ℕ → Dict ℕ → Dict ℕ
add_counts [] totals = totals
add_counts ((k, n) ∷ m) totals = add_counts m (insert k (or_zero (lookup k totals) + n) totals)

-- `currentWindow-t.slotTime[i] < hotkeyBucketCount`
abbrev pub in_window : ℕ → Slot → Bool
in_window current s = ltb current (s.slot_time + hotkey_bucket_count)

unfoldable pub totals : ℕ → Hotkeys → Dict ℕ → Dict ℕ
unfolding add_counts
totals current [] acc = acc
totals current (s ∷ t) acc =
    totals current t (if in_window current s then add_counts s.counts acc else acc)

unfoldable pub insert_by_count : Bytes × ℕ → Dict ℕ → Dict ℕ
insert_by_count x [] = x ∷ []
insert_by_count x (y ∷ l) = if ltb x.1 y.1 then y ∷ insert_by_count x l else x ∷ y ∷ l

-- `sort.Slice` by falling count.
unfoldable pub sort_by_count : Dict ℕ → Dict ℕ
unfolding insert_by_count
sort_by_count [] = []
sort_by_count (x ∷ l) = insert_by_count x (sort_by_count l)

unfoldable pub first : ℤ → Dict ℕ → Dict ℕ
first n l = if ltb_ℤ (pos 0) n && ltb_ℤ n (pos (length l)) then take (pos_part n) l else l

-- `top`, at a time in seconds.
unfoldable pub top : ℕ → ℤ → Hotkeys → Dict ℕ
unfolding totals sort_by_count first
top now n t = first n (sort_by_count (totals (window_of now) t []))
