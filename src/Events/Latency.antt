-- ===== src/Events/Latency.antt =====
-- events/events.go: the latency histogram of a command.
use redis_glass.Prelude.{
  ℕ, suc, ◌+◌, ◌-◌, ◌*◌, ◌/◌, ◌^◌, List, [], ◌∷◌, ltb, leb, ◌==◌, if◌then◌else◌,
}

-- `bucketBoundsUs`; the last one is `math.MaxInt64`.
abbrev pub bucket_bounds_us : List ℕ
bucket_bounds_us = 1000 ∷ 5000 ∷ 10000 ∷ 50000 ∷ 100000 ∷ 500000 ∷ (2 ^ 63 - 1) ∷ []

pub record Histogram : Type 0 where
  pub calls : ℕ
  pub total_us : ℕ
  pub buckets : List ℕ

abbrev pub empty_histogram : Histogram
empty_histogram = record { calls = 0; total_us = 0; buckets = 0 ∷ 0 ∷ 0 ∷ 0 ∷ 0 ∷ 0 ∷ 0 ∷ [] }

-- The loop of `record`: the first bucket whose bound is above `us`, or else the last one.
unfoldable pub bump : ℕ → List ℕ → List ℕ → List ℕ
bump us (b ∷ bounds) (c ∷ []) = suc c ∷ []
bump us (b ∷ bounds) (c ∷ d ∷ cs) = if ltb us b then suc c ∷ d ∷ cs else c ∷ bump us bounds (d ∷ cs)
bump us _ cs = cs

unfoldable pub record_duration : ℕ → Histogram → Histogram
unfolding bump
record_duration us h = record h {
  calls = h.calls + 1;
  total_us = h.total_us + us;
  buckets = bump us bucket_bounds_us h.buckets;
}

-- The loop of `percentile`, with the bound to report for each bucket.
unfoldable pub reach_target : ℕ → ℕ → List ℕ → List ℕ → ℕ
reach_target target cum [] buckets = 500000
reach_target target cum (b ∷ bounds) [] = 500000
reach_target target cum (b ∷ bounds) (c ∷ cs) =
    if leb target (cum + c) then b else reach_target target (cum + c) bounds cs

-- The overflow bucket reports its lower edge.
abbrev pub reported_us : List ℕ
reported_us = 1000 ∷ 5000 ∷ 10000 ∷ 50000 ∷ 100000 ∷ 500000 ∷ 500000 ∷ []

-- `math.Ceil(p * float64(h.calls))` for `p` in hundredths, in exact arithmetic.
abbrev pub target_of : ℕ → ℕ → ℕ
target_of p calls = (p * calls + 99) / 100

unfoldable pub percentile : ℕ → Histogram → ℕ
unfolding reach_target
percentile p h =
    if h.calls == 0 then 0 else reach_target (target_of p h.calls) 0 reported_us h.buckets
