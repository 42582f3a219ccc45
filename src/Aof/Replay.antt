-- ===== src/Aof/Replay.antt =====
-- store/aof.go: `Replay` on a file that `writeLocked` wrote.
use redis_glass.Prelude.{
  ℕ, zero, suc, ◌+◌, ◌-◌, ◌≤◌, ◌<◌, ◌≡◌, refl, ap, ◌∙◌, some, List, [], ◌∷◌, ◌++◌, append_assoc,
  arith, length, length-append, All, Bytes, to_upper, ℤ,
}
use redis_glass.Resp
use redis_glass.Resp.{
  Value, Values, bulk, bulks, array, Parsed, ParseError, eof, malformed, out_of_fuel, parse,
  parse_fuel, read_line, write_array, split_line,
}
use redis_glass.Resp.RoundTrip.{Fits, FitsArray, parse-write_array}
use redis_glass.Store.{Store}
use redis_glass.Aof.{
  Command, encode, encode_log, arg_strings, entry_command, replay_command, replay_entry, done,
  after_parse, replay_loop, replay,
}

-- A command that a parser can allocate.
abbrev pub FitsCommand : Command → Type 0
FitsCommand (cmd, args) = FitsArray (cmd ∷ args) × All Fits (cmd ∷ args)

arg_strings-bulks : (ss : List Bytes) → arg_strings (bulks ss) ≡ ss
unfolding arg_strings
arg_strings-bulks [] = refl
arg_strings-bulks (s ∷ ss) = ap (λ l. s ∷ l) (arg_strings-bulks ss)

abbrev pub upper_command : Command → Command
upper_command (cmd, args) = (to_upper cmd, args)

entry_command-bulks :
    (c : Command) → entry_command (array (bulks (c.0 ∷ c.1))) ≡ some (upper_command c)
unfolding entry_command
entry_command-bulks (cmd, args) = rw arg_strings-bulks

-- The commands run in order; the `i`-th from the end at the time `clock (k + i)`.
unfoldable pub run_log : ℕ → (ℕ → ℤ) → List Command → Store → Store
run_log k clock [] s = s
run_log k clock (c ∷ cs) s =
    run_log k clock cs (replay_command (clock (length cs + k)) (upper_command c) s).1

parse-encode :
    (c : Command) (rest : Bytes)
    → FitsCommand c
    → parse (encode c ++ rest) ≡ Resp.ok (array (bulks (c.0 ∷ c.1))) rest
unfolding encode
parse-encode (cmd, args) rest (hn, h) = parse-write_array (cmd ∷ args) rest hn h

replay_loop-encode :
    (f : ℕ) (clock : ℕ → ℤ) (c : Command) (rest : Bytes) (s : Store)
    → FitsCommand c
    → replay_loop (suc f) clock (encode c ++ rest) s
      ≡ replay_loop f clock rest (replay_command (clock f) (upper_command c) s).1
unfolding replay_loop after_parse
replay_loop-encode f clock c rest s h =
    rw (parse-encode c rest h, entry_command-bulks c) (unfold replay_entry in refl)

suc_add : (m n : ℕ) → suc m + n ≡ suc (m + n)
suc_add m n = omega arith

replay_loop-log :
    (k : ℕ) (clock : ℕ → ℤ) (cs : List Command) (rest : Bytes) (s : Store)
    → All FitsCommand cs
    → replay_loop (length cs + k) clock (encode_log cs ++ rest) s
      ≡ replay_loop k clock rest (run_log k clock cs s)
unfolding encode_log run_log
replay_loop-log k clock [] rest s h = ap (λ n. replay_loop n clock rest s) (omega arith)
replay_loop-log k clock (c ∷ cs) rest s (hc, h) =
    rw
      (
        append_assoc (encode c) (encode_log cs) rest,
        suc_add (length cs) k,
        replay_loop-encode (length cs + k) clock c _ s hc,
      )
      (replay_loop-log k clock cs rest _ h)

length-encode-pos : (c : Command) → 0 < length (encode c)
unfolding encode write_array
length-encode-pos (cmd, args) = omega arith

length-encode_log-le : (cs : List Command) → length cs ≤ length (encode_log cs)
unfolding encode_log
length-encode_log-le [] = omega arith
length-encode_log-le (c ∷ cs) =
    omega (
      arith,
      length-append (encode c) (encode_log cs),
      length-encode-pos c,
      length-encode_log-le cs,
    )

pub parse-nil : parse [] ≡ Resp.err eof
unfolding parse parse_fuel read_line split_line
parse-nil = refl

replay_loop_end :
    (k : ℕ) (clock : ℕ → ℤ) (rest : Bytes) (s : Store) (e : ParseError)
    → parse rest ≡ Resp.err e
    → replay_loop k clock rest s ≡ done s
unfolding replay_loop after_parse
replay_loop_end zero clock rest s e h = refl
replay_loop_end (suc k) clock rest s e h = rw h

fuel_for :
    (cs : List Command) (rest : Bytes)
    → suc (length (encode_log cs ++ rest))
      ≡ length cs + (suc (length (encode_log cs ++ rest)) - length cs)
fuel_for cs rest = omega (arith, length-append (encode_log cs) rest, length-encode_log-le cs)

-- A file of encoded commands that the run-time can allocate, with bytes behind them at which the parse
-- ends with an error, is replayed as those commands, each of them once and in order; the bytes behind
-- them are dropped.
pub replay-encode_log :
    (clock : ℕ → ℤ) (cs : List Command) (rest : Bytes) (s : Store) (e : ParseError)
    → All FitsCommand cs
    → parse rest ≡ Resp.err e
    → replay clock (encode_log cs ++ rest) s
      ≡ done (run_log (suc (length (encode_log cs ++ rest)) - length cs) clock cs s)
unfolding replay
replay-encode_log clock cs rest s e h p =
    let k = suc (length (encode_log cs ++ rest)) - length cs in
    ap (λ f. replay_loop f clock (encode_log cs ++ rest) s) (fuel_for cs rest)
    ∙ replay_loop-log k clock cs rest s h
    ∙ replay_loop_end k clock rest _ e p
