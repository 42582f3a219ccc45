-- ===== src/Events/CommandStats.antt =====
-- events/events.go: `CommandStats`, the summary of each command's latency.
use redis_glass.Prelude.{
  ℕ, Bool, true, false, ◌&&◌, ◌||◌, List, [], ◌∷◌, Bytes, Dict, ltb, ◌==◌, if◌then◌else◌,
}
use redis_glass.Events.Latency.{Histogram, percentile}

pub record CommandStat : Type 0 where
  pub command : Bytes
  pub calls : ℕ
  pub total_us : ℕ
  pub p50_us : ℕ
  pub p95_us : ℕ
  pub p99_us : ℕ
  pub buckets : List ℕ

unfoldable pub stat_of : Bytes → Histogram → CommandStat
unfolding percentile
stat_of cmd h = record {
  command = cmd;
  calls = h.calls;
  total_us = h.total_us;
  p50_us = percentile 50 h;
  p95_us = percentile 95 h;
  p99_us = percentile 99 h;
  buckets = h.buckets;
}

-- `s < t` on strings.
unfoldable pub precedes : Bytes → Bytes → Bool
precedes s [] = false
precedes [] (y ∷ t) = true
precedes (x ∷ s) (y ∷ t) = ltb x y || (x == y && precedes s t)

unfoldable pub insert_by_name : CommandStat → List CommandStat → List CommandStat
unfolding precedes
insert_by_name c [] = c ∷ []
insert_by_name c (d ∷ ds) =
    let rest = insert_by_name c ds in if precedes d.command c.command then d ∷ rest else c ∷ d ∷ ds

unfoldable pub command_stats : Dict Histogram → List CommandStat
unfolding stat_of insert_by_name
command_stats [] = []
command_stats ((cmd, h) ∷ hist) = insert_by_name (stat_of cmd h) (command_stats hist)
