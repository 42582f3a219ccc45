-- ===== src/Tests/Log.antt =====
-- The theorems on the log, at a short run of a node and a short file.
use redis_glass.Prelude.{
  itoa, format_ℕ, suc, ◌≡◌, refl, ◌-◌, [], ◌∷◌, ◌++◌, none, some, true, codes, pos, arith, length,
  bytes_eq, ends_with, drop_last, atoi,
}
use redis_glass.Resp.{
  write_array, write_bulks, write_bulk_string, eof, parse, parse_fuel, split_line,
}
use redis_glass.Store.{new, check_memory}
use redis_glass.Store.Lists.{rpush}
use redis_glass.Aof.{encode, Command, encode_log, replay_command, replay, done}
use redis_glass.Aof.Rewrite
use redis_glass.Aof.Rewrite.{Aof, always, complete, write_locked, rewrite_begin, rewrite_finish}
use redis_glass.Aof.Node.{Node, command, begin, finish, Reach, here, next, has_target, IsExact}
use redis_glass.Aof.ExactlyOnce.{exactly_once}
use redis_glass.Aof.Torn.{replay-torn}
use redis_glass.Aof.Replay.{run_log, replay-encode_log}

abbrev push : Command
push = (codes "RPUSH", codes "a" ∷ codes "b" ∷ [])

abbrev start : Node
start = record { store = new; aof = Rewrite.new [] always; pending = none }

abbrev mirroring : Aof
mirroring = record (Rewrite.new [] always) { rewrite_running = true; rewriting = true }

abbrev started : Node
started = record { store = new; aof = mirroring; pending = some new }

abbrev pushed : Node
pushed = record {
  store = (replay_command (pos 1) push new).1;
  aof = (write_locked push mirroring).1;
  pending = some new;
}

abbrev finished : Node
finished = record pushed { aof = rewrite_finish (pos 2) new complete pushed.aof; pending = none }

-- A rewrite during which a command runs.
run : Reach start (push ∷ []) finished
unfolding has_target rewrite_begin write_locked replay_command bytes_eq rpush check_memory
run =
    next
      (next (next here (begin start new mirroring refl refl))
        (command started (pos 1) push pushed.store pushed.aof refl refl refl))
      (finish pushed (pos 2) new complete refl)

exactly_once_example : IsExact [] new (push ∷ []) finished
exactly_once_example = exactly_once [] new always (push ∷ []) finished run

replay-encode_log_example :
    replay (λ n. pos 1) (encode_log (push ∷ []) ++ codes "*2\r\n$5") new
    ≡ done (
        run_log
          (suc (length (encode_log (push ∷ []) ++ codes "*2\r\n$5")) - 1)
          (λ n. pos 1)
          (push ∷ [])
          new)
unfolding parse parse_fuel split_line ends_with drop_last atoi
replay-encode_log_example =
    replay-encode_log (λ n. pos 1) (push ∷ []) (codes "*2\r\n$5") new eof
      ((omega arith, (omega arith, (omega arith, (omega arith, tt)))), tt) refl

replay-torn_example :
    replay (λ n. pos 1) (encode_log (push ∷ []) ++ codes "*3\r\n$5") new
    ≡ done (
        run_log
          (suc (length (encode_log (push ∷ []) ++ codes "*3\r\n$5")) - 1)
          (λ n. pos 1)
          (push ∷ [])
          new)
unfolding encode write_array itoa format_ℕ write_bulks write_bulk_string
replay-torn_example =
    replay-torn (λ n. pos 1) (push ∷ []) push (codes "*3\r\n$5")
      (codes "\r\nRPUSH\r\n$1\r\na\r\n$1\r\nb\r\n") new
      ((omega arith, (omega arith, (omega arith, (omega arith, tt)))), tt)
      (omega arith, (omega arith, (omega arith, (omega arith, tt)))) refl (λ e. cc)
