-- ===== src/Events/Silence.antt =====
-- events/events.go: `Record` on commands with a sensitive key.
use redis_glass.Prelude.{ℕ, ◌≡◌, refl, ap, true, List, [], ◌∷◌, map, length, arith, Bytes}
use redis_glass.Events.{Recorder, record_command}
use redis_glass.Events.Redaction.{matches_any, redacted, redact_args}

map-redacted :
    (xs ys : List Bytes)
    → length xs ≡ length ys
    → map (λ (a : Bytes). redacted) xs ≡ map (λ (a : Bytes). redacted) ys
map-redacted [] [] e = refl
map-redacted [] (y ∷ ys) e = grind arith
map-redacted (x ∷ xs) [] e = grind arith
map-redacted (x ∷ xs) (y ∷ ys) e = ap (λ l. redacted ∷ l) (map-redacted xs ys (omega arith))

redact_args-redacted :
    (key : Bytes) (args : List Bytes) (patterns : List Bytes)
    → matches_any key patterns ≡ true
    → redact_args (key ∷ args) patterns ≡ key ∷ map (λ a. redacted) args
unfolding redact_args
redact_args-redacted key args patterns m = rw (m) refl

-- If the key matches a sensitive pattern, then `Record` leaves the same recorder for any two lists
-- of further arguments of the same length.
pub record_command-redacted :
    (now : ℕ) (cmd key : Bytes) (xs ys : List Bytes) (client_addr : Bytes) (us : ℕ) (r : Recorder)
    → matches_any key r.sensitive_patterns ≡ true
    → length xs ≡ length ys
    → record_command now cmd (key ∷ xs) client_addr us r
      ≡ record_command now cmd (key ∷ ys) client_addr us r
unfolding record_command
record_command-redacted now cmd key xs ys client_addr us r m e =
    rw
      (
        redact_args-redacted key xs r.sensitive_patterns m,
        redact_args-redacted key ys r.sensitive_patterns m,
        map-redacted xs ys e,
      )
      refl
