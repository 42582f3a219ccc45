-- ===== src/Tests/Restart.antt =====
-- The theorems on a restart from the log, at the small inputs of Tests/Whole.antt.
use redis_glass.Prelude.{
  itoa, format_ℕ, ◌-ℤ◌, ◌≤◌, ◌≡◌, refl, arith, none, int_laws, true, some, List, [], ◌∷◌, All,
  codes, bytes_eq, to_upper, insert, lookup, pos, length,
}
use redis_glass.Resp.{write_array, write_bulks, write_bulk_string, nil, cons, bulk}
use redis_glass.Store.{Store, new, check_memory, time_sub}
use redis_glass.Store.Lists.{rpush}
use redis_glass.Store.Distinct.{IsMapped, IsMapped-new}
use redis_glass.Store.Sampler.{sample_expire}
use redis_glass.Aof.{encode_log, arg_strings, replay, done, encode}
use redis_glass.Aof.Rewrite
use redis_glass.Aof.Rewrite.{
  Aof, every_sec, always, complete, write_locked, rewrite_begin, rewrite_finish,
}
use redis_glass.Aof.Snapshot.{
  add_set, set_args, chunks, chunked, keyed, string_commands, list_commands, hash_commands,
  snapshot_commands, write_snapshot,
}
use redis_glass.Aof.Replay.{FitsCommand}
use redis_glass.Aof.Compaction.Restores.{Restores}
use redis_glass.Aof.Compaction.Lifetimes.{expiry_dropped}
use redis_glass.Aof.Recovery.Sizes.{longest_log}
use redis_glass.Commands.State.{mutate_and_log, finish_mutation, log_entry, reply_or_error}
use redis_glass.Commands.Strings.{of_result}
use redis_glass.Commands.Collections.{handle_push}
use redis_glass.Commands.Dispatch.{verb_of, run_verb, recorded, handle}
use redis_glass.System.{
  System, Event, request, serve_event, serve_events, begin_with, begun, end_with,
}
use redis_glass.System.Exact.{started}
use redis_glass.System.Recovery.{
  log_file, rewrite, IsRecoverable, serve_events-IsRecoverable, rewrite-Restores,
}
use redis_glass.Aof.Rewrite
use redis_glass.Tests.Whole.{clock, push, events, handler, loaded}

-- A key with a nanosecond to live.
abbrev moment : Store
moment = record new {
  strings = (codes "a", record { value = codes "v"; expires_at = some (pos 5) }) ∷ [];
  expiry_keys = (codes "a", tt) ∷ [];
}

moment-IsMapped : IsMapped moment
unfolding lookup
moment-IsMapped = record { strings = (refl, tt); lists = tt; hashes = tt; fields = λ k. tt }

moment_commands :
    snapshot_commands (pos 4) moment
    ≡ (codes "SET", codes "a" ∷ codes "v" ∷ codes "PX" ∷ codes "0" ∷ []) ∷ []
unfolding snapshot_commands string_commands list_commands hash_commands add_set set_args time_sub
    ◌-ℤ◌ itoa format_ℕ
moment_commands = refl

moment_fits : All FitsCommand (snapshot_commands (pos 4) moment)
moment_fits = rw moment_commands (
  (omega arith, (omega arith, (omega arith, (omega arith, (omega arith, (omega arith, tt)))))),
  tt,
)

expiry_dropped_example :
    (s : Store) × (replay (λ n. pos 9) (write_snapshot (pos 4) moment) new ≡ done s)
    × (lookup (codes "a") s.strings ≡ some (record { value = codes "v"; expires_at = none }))
unfolding lookup bytes_eq
expiry_dropped_example =
    expiry_dropped (λ n. pos 9) (pos 4) (pos 5) (codes "a") (codes "v") moment moment-IsMapped
      moment_fits refl (omega int_laws) (omega int_laws)

-- The log behind one push.
abbrev pushed_log : Aof
pushed_log = (write_locked push (Rewrite.new [] every_sec)).1

abbrev one_push : List Event
one_push =
    request clock (codes "RPUSH") (cons (bulk (codes "a")) (cons (bulk (codes "b")) nil))
      (codes "c") true
    ∷ []

abbrev fresh : System
fresh = started handler new [] every_sec

abbrev after_push : System
after_push = serve_events [] (λ h c. []) one_push fresh

pushed : (after_push.handler.aof ≡ some pushed_log) × (after_push.handler.store ≡ loaded)
unfolding serve_events serve_event handle verb_of run_verb recorded handle_push mutate_and_log
    finish_mutation log_entry of_result reply_or_error rpush check_memory insert lookup write_locked
    arg_strings to_upper bytes_eq
pushed = (refl, refl)

loaded_commands : snapshot_commands (pos 4) loaded ≡ push ∷ []
unfolding snapshot_commands string_commands list_commands hash_commands keyed chunked chunks
loaded_commands = refl

fits : All FitsCommand (snapshot_commands (pos 4) after_push.handler.store)
fits =
    rw (pushed.1, loaded_commands)
      ((omega arith, (omega arith, (omega arith, (omega arith, tt)))), tt)

abbrev served : System
served = serve_events [] (λ h c. []) events (started handler new [] every_sec)

short : length (log_file served) ≤ longest_log
unfolding serve_events serve_event begin_with begun end_with sample_expire rewrite_begin
    rewrite_finish write_snapshot snapshot_commands string_commands list_commands hash_commands
    keyed chunked chunks encode_log encode handle verb_of run_verb recorded handle_push
    mutate_and_log finish_mutation log_entry of_result reply_or_error rpush check_memory insert
    lookup write_locked arg_strings to_upper bytes_eq write_array itoa format_ℕ write_bulks
    write_bulk_string
short = omega arith

serve_events-IsRecoverable_example :
    IsRecoverable (λ n. pos 9) (log_file served) served.handler.store
serve_events-IsRecoverable_example =
    serve_events-IsRecoverable [] (λ h c. []) handler every_sec events (λ n. pos 9) refl short

rewrite-Restores_example :
    (s : Store) × (replay
        (λ n. pos 5)
        (log_file (serve_events [] (λ h c. []) (rewrite (pos 4)) after_push))
        new
      ≡ done s)
    × Restores (pos 4) (λ n. pos 5) after_push.handler.store s
unfolding write_locked
rewrite-Restores_example =
    rewrite-Restores [] (λ h c. []) one_push fresh (pos 4) (λ n. pos 5) pushed_log IsMapped-new
      pushed.0 refl fits
