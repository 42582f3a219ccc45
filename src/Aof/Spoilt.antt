-- ===== src/Aof/Spoilt.antt =====
-- store/aof.go: a log that goes on behind a write that was cut short. `NewAOF` opens the file for
-- appending, and `Replay` leaves it as it is.
use redis_glass.Prelude.{ℕ, suc, ◌-◌, ◌≡◌, List, ◌∷◌, ◌++◌, All, ℤ, length}
use redis_glass.Resp.{malformed}
use redis_glass.Resp.Spoilt.{parse-spoilt}
use redis_glass.Store.{Store}
use redis_glass.Aof.{Command, encode, encode_log, done, replay}
use redis_glass.Aof.Replay.{FitsCommand, run_log, replay-encode_log}

-- Where one byte of an entry had been written when the machine stopped, and a restarted server has
-- appended one command or more behind it, the next replay runs the commands in front of that byte, and
-- none of those behind it.
pub replay-spoilt :
    (clock : ℕ → ℤ) (cs : List Command) (d : Command) (ds : List Command) (s : Store)
    → All FitsCommand cs
    → replay clock (encode_log cs ++ (b'*' ∷ encode_log (d ∷ ds))) s
      ≡ done (
          run_log
            (suc (length (encode_log cs ++ (b'*' ∷ encode_log (d ∷ ds)))) - length cs)
            clock
            cs
            s)
replay-spoilt clock cs (cmd, args) ds s h =
    replay-encode_log clock cs (b'*' ∷ encode_log ((cmd, args) ∷ ds)) s malformed h
      (unfold encode_log encode in parse-spoilt (cmd ∷ args) (encode_log ds))
