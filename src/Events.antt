-- ===== src/Events.antt =====
-- events/events.go: what is recorded of each command. The locks make each method a step; times are
-- seconds or microseconds, as the source takes them, and never negative.
pub mod Latency
pub mod Hotness
pub mod SlowQueries
pub mod Redaction
pub mod Stream
pub mod Silence
pub mod Bounds
pub mod Counts
pub mod CommandStats
use redis_glass.Prelude.{
  ℕ, zero, suc, ◌+◌, Bool, true, false, ◌&&◌, ◌||◌, Option, none, some, List, [], ◌∷◌, length,
  Bytes, codes, bytes_eq, to_upper, Dict, lookup, insert, ltb, if◌then◌else◌,
}
use redis_glass.Events.Latency.{Histogram, empty_histogram, record_duration}
use redis_glass.Events.Hotness.{Hotkeys, new_hotkeys, access}
use redis_glass.Events.SlowQueries.{Slowlog, maybe_record}
use redis_glass.Events.Redaction.{redact_args}
use redis_glass.Events.Stream.{Event, Subscribers, broadcast}

unfoldable pub member : Bytes → List Bytes → Bool
member k [] = false
member k (j ∷ ks) = bytes_eq j k || member k ks

abbrev pub key_bearing_commands : List Bytes
key_bearing_commands =
    codes "SET"
    ∷ codes "GET"
    ∷ codes "DEL"
    ∷ codes "EXISTS"
    ∷ codes "EXPIRE"
    ∷ codes "TTL"
    ∷ codes "INCR"
    ∷ codes "DECR"
    ∷ codes "INCRBY"
    ∷ codes "DECRBY"
    ∷ codes "LPUSH"
    ∷ codes "RPUSH"
    ∷ codes "LRANGE"
    ∷ codes "HSET"
    ∷ codes "HGET"
    ∷ codes "HDEL"
    ∷ []

pub record Recorder : Type 0 where
  pub hist : Dict Histogram
  pub hotkeys : Hotkeys
  pub slow : Slowlog
  pub sensitive_patterns : List Bytes
  pub subscribers : Subscribers

abbrev pub or_new : Option Histogram → Histogram
or_new none = empty_histogram
or_new (some h) = h

unfoldable pub record_hist : Bytes → ℕ → Dict Histogram → Dict Histogram
record_hist cmd us hist = insert cmd (record_duration us (or_new (lookup cmd hist))) hist

unfoldable pub record_key : ℕ → Bytes → List Bytes → Hotkeys → Hotkeys
record_key now cmd [] t = t
record_key now cmd (key ∷ rest) t = if member cmd key_bearing_commands then access now key t else t

-- `Record`; `now` is the time in seconds, and `us` the duration in microseconds.
unfoldable pub record_command : ℕ → Bytes → List Bytes → Bytes → ℕ → Recorder → Recorder
unfolding record_hist record_key
record_command now cmd args client_addr us r =
    let name = to_upper cmd in
    let display_args = redact_args args r.sensitive_patterns in
    record r {
      hist = record_hist name us r.hist;
      hotkeys = record_key now name args r.hotkeys;
      slow = maybe_record now name display_args client_addr us r.slow;
      subscribers =
          broadcast
            (record {
              time = now;
              command = name;
              args = display_args;
              client_addr = client_addr;
              duration_us = us;
            })
            r.subscribers;
    }
