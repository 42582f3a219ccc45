-- ===== src/Commands/Info.antt =====
-- commands/handler.go: the text of INFO. The version of the run-time, and how `%.2f` prints a quotient of
-- the calls' time by their number, are parameters.
use redis_glass.Prelude.{
  ℕ, Option, none, some, List, [], ◌∷◌, ◌++◌, Bytes, codes, to_lower, ℤ, pos, itoa,
}
use redis_glass.Store.{approx_memory, key_count, expiry_count}
use redis_glass.Events.{Recorder}
use redis_glass.Events.CommandStats.{CommandStat, command_stats}
use redis_glass.Commands.State.{Handler}

-- What the interface `Metrics` returns.
pub record Metrics : Type 0 where
  pub uptime_seconds : ℕ
  pub connections : ℕ
  pub commands : ℕ

abbrev pub or_zero : Option Metrics → Metrics
or_zero none = record { uptime_seconds = 0; connections = 0; commands = 0 }
or_zero (some m) = m

abbrev number : ℕ → Bytes
number n = itoa (pos n)

module _ (go_version : Bytes) (per_call : ℕ → ℕ → Bytes) where
  unfoldable pub stat_line : CommandStat → Bytes
  stat_line s =
      codes "cmdstat_"
      ++ (to_lower s.command
          ++ (codes ":calls="
              ++ (number s.calls
                  ++ (codes ",usec_per_call="
                      ++ (per_call s.total_us s.calls
                          ++ (codes ",p50_usec="
                              ++ (number s.p50_us
                                  ++ (codes ",p95_usec="
                                      ++ (number s.p95_us
                                          ++ (codes ",p99_usec="
                                              ++ (number s.p99_us ++ codes "\r\n")))))))))))

  unfoldable pub stat_lines : List CommandStat → Bytes
  unfolding stat_line
  stat_lines [] = []
  stat_lines (s ∷ ss) = stat_line s ++ stat_lines ss

  unfoldable pub command_stats_lines : Option Recorder → Bytes
  unfolding stat_lines
  command_stats_lines none = []
  command_stats_lines (some r) = stat_lines (command_stats r.hist)

  -- `maxMemoryBytes` is the ceiling that `SetMaxMemory` records for display.
  unfoldable pub info : Option Metrics → ℤ → Handler → Bytes
  unfolding command_stats_lines
  info metrics max_memory_bytes h =
      let m = or_zero metrics in
      codes "# Server\r\nredis_version:0.1.0\r\nos:linux\r\ngo_version:"
      ++ (go_version
          ++ (codes "\r\nuptime_in_seconds:"
              ++ (number m.uptime_seconds
                  ++ (codes "\r\n\r\n# Clients\r\nconnected_clients:"
                      ++ (number m.connections
                          ++ (codes "\r\n\r\n# Memory\r\nused_memory:"
                              ++ (number (approx_memory h.store)
                                  ++ (codes "\r\nmaxmemory:"
                                      ++ (itoa max_memory_bytes
                                          ++ (codes "\r\n\r\n# Stats\r\ntotal_commands_processed:"
                                              ++ (number m.commands
                                                  ++ (codes "\r\n\r\n# Commandstats\r\n"
                                                      ++ (command_stats_lines h.events
                                                          ++ (codes "\r\n# Keyspace\r\ndb0:keys="
                                                            ++ (number (key_count h.store)
                                                            ++ (codes ",expires="
                                                            ++ (number (expiry_count h.store)
                                                            ++ codes "\r\n")))))))))))))))))
