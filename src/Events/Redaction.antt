-- ===== src/Events/Redaction.antt =====
-- events/events.go: the redaction of arguments.
use redis_glass.Prelude.{Bool, false, ◌||◌, List, [], ◌∷◌, map, Bytes, codes, if◌then◌else◌}
use redis_glass.Store.Keys.{match_glob}

unfoldable pub matches_any : Bytes → List Bytes → Bool
matches_any key [] = false
matches_any key (p ∷ patterns) = match_glob p key || matches_any key patterns

abbrev pub redacted : Bytes
redacted = codes "[REDACTED]"

-- The key stays; every other argument goes. With no patterns nothing matches.
unfoldable pub redact_args : List Bytes → List Bytes → List Bytes
unfolding matches_any
redact_args [] patterns = []
redact_args (key ∷ args) patterns =
    if matches_any key patterns then key ∷ map (λ a. redacted) args else key ∷ args
