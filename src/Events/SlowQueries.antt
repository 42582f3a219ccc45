-- ===== src/Events/SlowQueries.antt =====
-- events/events.go: the slow query log.
use mathlib.Core.List.{reverse}
use redis_glass.Prelude.{
  ℕ, ◌+◌, ◌-◌, ◌||◌, List, [], ◌∷◌, ◌++◌, length, take, drop, Bytes, ℤ, pos, pos_part, ltb_ℤ, leb_ℤ,
  ltb, if◌then◌else◌,
}

pub record SlowEntry : Type 0 where
  pub id : ℕ
  pub time : ℕ
  pub duration_us : ℕ
  pub command : Bytes
  pub args : List Bytes
  pub client_addr : Bytes

-- The entries, the oldest first.
pub record Slowlog : Type 0 where
  pub entries : List SlowEntry
  pub max_len : ℕ
  pub threshold_us : ℤ
  pub next_id : ℕ

abbrev pub new_slowlog : ℤ → ℕ → Slowlog
new_slowlog threshold_us max_len = record {
  entries = [];
  max_len = max_len;
  threshold_us = threshold_us;
  next_id = 0;
}

-- `s.entries[len(s.entries)-s.maxLen:]` where there are too many.
unfoldable pub trim : ℕ → List SlowEntry → List SlowEntry
trim max_len entries =
    if ltb max_len (length entries) then drop (length entries - max_len) entries else entries

unfoldable pub maybe_record : ℕ → Bytes → List Bytes → Bytes → ℕ → Slowlog → Slowlog
unfolding trim
maybe_record now cmd args client_addr us s =
    if ltb_ℤ s.threshold_us (pos 0) || ltb_ℤ (pos us) s.threshold_us then s else record s {
      next_id = s.next_id + 1;
      entries = trim s.max_len (
          s.entries
          ++ (record {
            id = s.next_id + 1;
            time = now;
            duration_us = us;
            command = cmd;
            args = args;
            client_addr = client_addr;
          })
            ∷ []);
    }

-- The number of entries that `get` returns.
unfoldable pub wanted : ℤ → ℕ → ℕ
wanted n len = if leb_ℤ n (pos 0) || ltb_ℤ (pos len) n then len else pos_part n

-- From the last entry down.
unfoldable pub slowlog_get : ℤ → Slowlog → List SlowEntry
unfolding wanted
slowlog_get n s = take (wanted n (length s.entries)) (reverse s.entries)

unfoldable pub slowlog_len : Slowlog → ℕ
slowlog_len s = length s.entries

unfoldable pub slowlog_reset : Slowlog → Slowlog
slowlog_reset s = record s { entries = [] }
