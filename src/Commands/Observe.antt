-- ===== src/Commands/Observe.antt =====
-- commands/handler.go: the commands on the recorder and on the log. INFO prints floats and the
-- version of the run-time; its body is a parameter of the dispatch.
use redis_glass.Prelude.{
  ℕ, Option, none, some, List, [], ◌∷◌, ◌++◌, length, Bytes, codes, bytes_eq, to_upper, Dict, ℤ,
  pos, itoa, atoi, if◌then◌else◌,
}
use redis_glass.Resp.{crlf, write_simple_string, write_bulk_string, write_integer, write_array}
use redis_glass.Events.{Recorder}
use redis_glass.Events.Hotness.{top}
use redis_glass.Events.SlowQueries.{SlowEntry, slowlog_get, slowlog_len, slowlog_reset}
use redis_glass.Commands.State.{Handler, Clock, Handled, refuse, bad_integer, wrong_number}

unfoldable pub write_slow_entry : SlowEntry → Bytes
write_slow_entry e =
    codes "*5"
    ++ (crlf
        ++ (write_integer (pos e.id)
            ++ (write_integer (pos e.time)
                ++ (write_integer (pos e.duration_us)
                    ++ (write_array (e.command ∷ e.args) ++ write_bulk_string e.client_addr)))))

unfoldable pub write_slow_entries : List SlowEntry → Bytes
unfolding write_slow_entry
write_slow_entries [] = []
write_slow_entries (e ∷ es) = write_slow_entry e ++ write_slow_entries es

unfoldable pub slowlog_reply : Option ℤ → Recorder → Handler → Handled
unfolding write_slow_entries
slowlog_reply none r h = bad_integer h
slowlog_reply (some n) r h =
    let entries = slowlog_get n r.slow in
    (b'*' ∷ (itoa (pos (length entries)) ++ (crlf ++ write_slow_entries entries)), h)

-- The count of `SLOWLOG GET` and of `HOTKEYS`, which is 10 if it is left out.
unfoldable pub count_arg : List Bytes → Option ℤ
count_arg [] = some (pos 10)
count_arg (n ∷ rest) = atoi n

unfoldable pub slowlog_with : Bytes → List Bytes → Option Recorder → Handler → Handled
unfolding slowlog_reply count_arg
slowlog_with sub rest none h = refuse (codes "ERR SLOWLOG is not enabled") h
slowlog_with sub rest (some r) h =
    if bytes_eq (to_upper sub) (codes "LEN")
    then (write_integer (pos (slowlog_len r.slow)), h)
    else if bytes_eq (to_upper sub) (codes "RESET")
    then (
      write_simple_string (codes "OK"),
      record h { events = some (record r { slow = slowlog_reset r.slow }) },
    )
    else if bytes_eq (to_upper sub) (codes "GET")
    then slowlog_reply (count_arg rest) r h
    else refuse (codes "ERR unknown SLOWLOG subcommand") h

unfoldable pub handle_slowlog : List Bytes → Handler → Handled
unfolding slowlog_with
handle_slowlog [] h = wrong_number (codes "slowlog") h
handle_slowlog (sub ∷ rest) h = slowlog_with sub rest h.events h

-- The keys, each with its count behind it.
unfoldable pub flat : Dict ℕ → List Bytes
flat [] = []
flat ((k, n) ∷ l) = k ∷ itoa (pos n) ∷ flat l

unfoldable pub hotkeys_reply : Clock → Option ℤ → Recorder → Handler → Handled
unfolding flat
hotkeys_reply clock none r h = bad_integer h
hotkeys_reply clock (some n) r h = (write_array (flat (top clock.seconds n r.hotkeys)), h)

unfoldable pub hotkeys_with : Clock → List Bytes → Option Recorder → Handler → Handled
unfolding hotkeys_reply count_arg
hotkeys_with clock args none h = refuse (codes "ERR HOTKEYS is not enabled") h
hotkeys_with clock args (some r) h = hotkeys_reply clock (count_arg args) r h

unfoldable pub handle_hotkeys : Clock → List Bytes → Handler → Handled
unfolding hotkeys_with
handle_hotkeys clock args h = hotkeys_with clock args h.events h

unfoldable pub handle_command : List Bytes → Bytes
handle_command [] = write_array []
handle_command (sub ∷ rest) =
    if bytes_eq (to_upper sub) (codes "COUNT") then write_integer (pos 0) else write_array []

-- The reply of BGREWRITEAOF. The rewrite itself starts later, as a step of its own.
unfoldable pub handle_bg_rewrite : Handler → Handled
handle_bg_rewrite h = elim h.aof [
  | none ↦ refuse (codes "ERR AOF is not enabled") h
  | some f ↦ (write_simple_string (codes "Background append only file rewriting started"), h)
]
