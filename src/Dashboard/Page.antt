-- ===== src/Dashboard/Page.antt =====
-- monitor/dashboard.go: the script of the page, as far as it makes HTML from the stream. How the browser
-- prints a time, a duration and the width of a bar are parameters.
use redis_glass.Prelude.{
  ℕ, ◌≤◌, List, [], ◌∷◌, ◌++◌, length, length-take, take, arith, Bytes, codes, leb, ◌==◌,
  if◌then◌else◌, pos, itoa,
}
use redis_glass.Events.CommandStats.{CommandStat}
use redis_glass.Events.SlowQueries.{SlowEntry}
use redis_glass.Events.Stream.{Event}
use redis_glass.Dashboard.Escape.{escape_html, title_of}

-- `parts.join(" ")`.
unfoldable pub join : List Bytes → Bytes
join [] = []
join (a ∷ []) = a
join (a ∷ b ∷ rest) = a ++ (codes " " ++ join (b ∷ rest))

unfoldable pub concat : List Bytes → Bytes
concat [] = []
concat (a ∷ rest) = a ++ concat rest

abbrev number : ℕ → Bytes
number n = itoa (pos n)

-- The rows that the live stream shows at most.
abbrev pub stream_cap : ℕ
stream_cap = 60

unfoldable pub dur_class : ℕ → Bytes
dur_class us = if leb 100000 us then codes "bad" else if leb 10000 us then codes "warn" else []

module _ (local_time : ℕ → Bytes) (fmt_us : ℕ → Bytes) (fmt_average : ℕ → ℕ → Bytes)
    (width : ℕ → ℕ → Bytes) where
  unfoldable pub stream_row : Event → Bytes
  unfolding dur_class join
  stream_row evt = concat (
      codes "<span class=\"stream-time\">"
      ∷ local_time evt.time
      ∷ codes "</span>"
      ∷ codes "<span class=\"stream-cmd\">"
      ∷ escape_html evt.command
      ∷ codes "</span>"
      ∷ codes "<span class=\"stream-args\">"
      ∷ escape_html (join evt.args)
      ∷ codes "</span>"
      ∷ codes "<span class=\"stream-dur "
      ∷ dur_class evt.duration_us
      ∷ codes "\">"
      ∷ fmt_us evt.duration_us
      ∷ codes "</span>"
      ∷ [])

  -- The new row comes first, and the last ones go.
  unfoldable pub append_command : Event → List Bytes → List Bytes
  unfolding stream_row
  append_command evt rows = take stream_cap (stream_row evt ∷ rows)

  unfoldable pub hotkey_row : ℕ → Bytes → ℕ → Bytes
  unfolding title_of
  hotkey_row most key count = concat (
      codes "<div class=\"hk-row\"><span class=\"hk-key\" title=\""
      ∷ title_of key (codes ">")
      ∷ escape_html key
      ∷ codes "</span><div class=\"hk-bar-track\"><div class=\"hk-bar-fill\" style=\"width:"
      ∷ width count most
      ∷ codes "%\"></div></div>"
      ∷ codes "<span class=\"hk-count\">"
      ∷ number count
      ∷ codes "</span></div>"
      ∷ [])

  unfoldable pub hotkey_rows : ℕ → List (Bytes × ℕ) → Bytes
  unfolding hotkey_row
  hotkey_rows most [] = []
  hotkey_rows most ((key, count) ∷ rest) = hotkey_row most key count ++ hotkey_rows most rest

  -- `hotkeys[0].count || 1`.
  unfoldable pub render_hotkeys : List (Bytes × ℕ) → Bytes
  unfolding hotkey_rows
  render_hotkeys [] = codes "<div class=\"empty\">no activity yet</div>"
  render_hotkeys ((key, count) ∷ rest) =
      hotkey_rows (if count == 0 then 1 else count) ((key, count) ∷ rest)

  unfoldable pub latency_row : CommandStat → Bytes
  latency_row s = concat (
      codes "<tr><td>"
      ∷ escape_html s.command
      ∷ codes "</td><td>"
      ∷ number s.calls
      ∷ codes "</td><td>"
      ∷ fmt_average s.total_us s.calls
      ∷ codes "</td><td>"
      ∷ fmt_us s.p50_us
      ∷ codes "</td><td>"
      ∷ fmt_us s.p95_us
      ∷ codes "</td><td>"
      ∷ fmt_us s.p99_us
      ∷ codes "</td></tr>"
      ∷ [])

  unfoldable pub latency_rows : List CommandStat → Bytes
  unfolding latency_row
  latency_rows [] = []
  latency_rows (s ∷ ss) = latency_row s ++ latency_rows ss

  unfoldable pub render_latency : List CommandStat → Bytes
  unfolding latency_rows
  render_latency [] =
      codes "<tr><td colspan=\"6\" class=\"empty\">no commands recorded yet</td></tr>"
  render_latency (s ∷ ss) = latency_rows (s ∷ ss)

  unfoldable pub slow_row : SlowEntry → Bytes
  unfolding join
  slow_row e = concat (
      codes "<tr><td>"
      ∷ local_time e.time
      ∷ codes "</td><td>"
      ∷ fmt_us e.duration_us
      ∷ codes "</td><td>"
      ∷ escape_html (e.command ++ (codes " " ++ join e.args))
      ∷ codes "</td><td>"
      ∷ escape_html e.client_addr
      ∷ codes "</td></tr>"
      ∷ [])

  unfoldable pub slow_rows : List SlowEntry → Bytes
  unfolding slow_row
  slow_rows [] = []
  slow_rows (e ∷ es) = slow_row e ++ slow_rows es

  unfoldable pub render_slowlog : List SlowEntry → Bytes
  unfolding slow_rows
  render_slowlog [] =
      codes "<tr><td colspan=\"4\" class=\"empty\">no slow commands recorded yet</td></tr>"
  render_slowlog (e ∷ es) = slow_rows (e ∷ es)

  pub append_command-le :
      (evt : Event) (rows : List Bytes) → length (append_command evt rows) ≤ stream_cap
  unfolding append_command
  append_command-le evt rows = omega (arith, length-take stream_cap (stream_row evt ∷ rows))
