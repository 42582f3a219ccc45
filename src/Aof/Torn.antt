-- ===== src/Aof/Torn.antt =====
-- store/aof.go: `Replay` on a file whose last write was cut short.
use redis_glass.Prelude.{
  ℕ, suc, ◌-◌, ◌≡◌, ◌≢◌, ◌∙◌, refl, List, [], ◌∷◌, ◌++◌, All, Bytes, ℤ, length,
}
use redis_glass.Resp.{eof}
use redis_glass.Resp.Torn.{parse-cut_off}
use redis_glass.Store.{Store}
use redis_glass.Aof.{Command, encode, encode_log, done, replay}
use redis_glass.Aof.Replay.{FitsCommand, run_log, replay-encode_log}

-- A file of encoded commands that the run-time can allocate, of which the last one was cut off at any
-- place, is replayed as the whole commands, each of them once and in order; of the last one nothing is
-- run.
pub replay-torn :
    (clock : ℕ → ℤ) (cs : List Command) (c : Command) (part lost : Bytes) (s : Store)
    → All FitsCommand cs
    → FitsCommand c
    → part ++ lost ≡ encode c
    → lost ≢ []
    → replay clock (encode_log cs ++ part) s
      ≡ done (run_log (suc (length (encode_log cs ++ part)) - length cs) clock cs s)
replay-torn clock cs (cmd, args) part lost s h (hn, hf) e l =
    replay-encode_log clock cs part s eof h
      (parse-cut_off (cmd ∷ args) part lost hn hf (e ∙ (unfold encode in refl)) l)
