-- ===== src/Aof/Recovery/Sizes.antt =====
-- store/aof.go: the sizes of the commands of a log.
use redis_glass.Prelude.{
  ℕ, ◌+◌, ◌*◌, ◌^◌, ◌≤◌, arith, List, [], ◌∷◌, ◌++◌, length, length-append, All, Bytes, pos, itoa,
}
use redis_glass.Resp.{crlf, write_bulk_string, write_bulks, write_array}
use redis_glass.Resp.RoundTrip.{Fits}
use redis_glass.Aof.{Command, encode, encode_log}
use redis_glass.Aof.Replay.{FitsCommand}

-- 16 terabytes.
abbrev pub longest_log : ℕ
longest_log = 2 ^ 44

length-write_bulk_string : (s : Bytes) → length s + 5 ≤ length (write_bulk_string s)
unfolding write_bulk_string
length-write_bulk_string s =
    omega (arith, length-append (itoa (pos (length s))) (crlf ++ (s ++ crlf)), length-append s crlf)

length-write_bulks : (vs : List Bytes) → length vs * 5 ≤ length (write_bulks vs)
unfolding write_bulks
length-write_bulks [] = omega arith
length-write_bulks (v ∷ vs) = omega (
  arith,
  length-append (write_bulk_string v) (write_bulks vs),
  length-write_bulk_string v,
  length-write_bulks vs,
)

All-Fits : (vs : List Bytes) → length (write_bulks vs) ≤ longest_log → All Fits vs
unfolding write_bulks
All-Fits [] h = tt
All-Fits (v ∷ vs) h =
    let split = length-append (write_bulk_string v) (write_bulks vs) in
    (omega (arith, split, length-write_bulk_string v), All-Fits vs (omega (arith, split)))

encode-FitsCommand : (c : Command) → length (encode c) ≤ longest_log → FitsCommand c
unfolding encode write_array
encode-FitsCommand (cmd, args) h =
    let vals = cmd ∷ args in
    let split = length-append (itoa (pos (length vals))) (crlf ++ write_bulks vals) in
    (omega (arith, split, length-write_bulks vals), All-Fits vals (omega (arith, split)))

pub All-FitsCommand :
    (cs : List Command) → length (encode_log cs) ≤ longest_log → All FitsCommand cs
unfolding encode_log
All-FitsCommand [] h = tt
All-FitsCommand (c ∷ cs) h =
    let split = length-append (encode c) (encode_log cs) in
    (encode-FitsCommand c (omega (arith, split)), All-FitsCommand cs (omega (arith, split)))
