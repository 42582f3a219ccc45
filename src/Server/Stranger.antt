-- ===== src/Server/Stranger.antt =====
-- server/server.go: a connection whose client never sends the password.
use redis_glass.Prelude.{
  ℕ, zero, suc, ◌+◌, ◌≡◌, ◌≢◌, refl, sym, ap, ◌∙◌, true, false, not, [], ◌∷◌, length, Bytes,
  to_upper, ◌==◌, Bool-cases, inl, inr, if-keeps,
}
use mathlib.Core.Path.{subst}
use redis_glass.Resp.{
  Value, Values, value, nil, cons, str, Parsed, ok, err, panic, eof, malformed, out_of_fuel, parse,
}
use redis_glass.Aof.{arg_strings}
use redis_glass.Aof.Replay.{parse-nil}
use redis_glass.Commands.State.{Handler, Clock}
use redis_glass.Commands.Dispatch.{auth_v, verb_of, Response, replied, panicked, handle}
use redis_glass.Server.{
  Server, Served, is_refused, respond, run_command, run_value, after_parse, read_and_handle, go_on,
  serve, handle_conn,
}
use redis_glass.Server.Gate.{SameData, state_of, respond-state, handle_opens}
use redis_glass.Server.Closed.{step-Closed, closed_connection}

-- A value that is no command AUTH with the password as its one argument.
unfoldable pub IsNoLogin : Bytes → Value → Type 0
IsNoLogin password (value t s n nil) = Unit
IsNoLogin password (value t s n (cons v vs)) =
    verb_of (to_upper (str v)) ≡ auth_v → arg_strings vs ≢ (password ∷ [])

-- What holds of the value that a parse finds, and of what is to be read behind it.
abbrev pub IsNoLoginIn : Bytes → (Bytes → Type 0) → Parsed Value → Type 0
IsNoLoginIn password Later (ok v rest) = IsNoLogin password v × Later rest
IsNoLoginIn password Later (err e) = Unit
IsNoLoginIn password Later (panic rest) = Later rest

-- None of the values in the input, read one behind the other, is a login.
unfoldable pub NeverLogsIn : Bytes → ℕ → Bytes → Type 0
NeverLogsIn password zero input = Unit
NeverLogsIn password (suc f) input = IsNoLoginIn password (NeverLogsIn password f) (parse input)

module _ (log_failure : Bytes) (info_body : Handler → Clock → Bytes) (client_addr : Bytes) where
  handle-IsShut :
      (clock : Clock) (cmd : Bytes) (args : Values) (h : Handler)
      → (verb_of (to_upper cmd) ≡ auth_v → arg_strings args ≢ (h.password ∷ []))
      → state_of (handle log_failure info_body clock cmd args client_addr h false) ≡ false
  handle-IsShut clock cmd args h n =
      elim (Bool-cases
        (state_of (handle log_failure info_body clock cmd args client_addr h false))) [
          | inl e ↦
              let (verb, same, _) =
                handle_opens log_failure info_body client_addr clock cmd args h e in
              absurd (n verb same)
          | inr e ↦ e
        ]

  run_command-IsShut :
      (clock : Clock) (cmd : Bytes) (args : Values) (rest : Bytes) (srv : Server)
      → (verb_of (to_upper cmd) ≡ auth_v → arg_strings args ≢ (srv.handler.password ∷ []))
      → (run_command log_failure info_body client_addr clock cmd args rest srv false).authenticated
        ≡ false
  unfolding run_command
  run_command-IsShut clock cmd args rest srv n =
      elim (Bool-cases (is_refused srv false (to_upper cmd))) [
        | inl e ↦ rw e
        | inr e ↦ rw e (
            respond-state log_failure info_body client_addr clock rest srv
              (handle log_failure info_body clock cmd args client_addr srv.handler false)
            ∙ handle-IsShut clock cmd args srv.handler n)
      ]

  run_value-IsShut :
      (clock : Clock) (v : Value) (rest : Bytes) (srv : Server)
      → IsNoLogin srv.handler.password v
      → (run_value log_failure info_body client_addr clock v rest srv false).authenticated ≡ false
  unfolding run_value IsNoLogin
  run_value-IsShut clock (value t s n nil) rest srv quiet = refl
  run_value-IsShut clock (value t s n (cons v vs)) rest srv quiet = elim (Bool-cases (t == b'*')) [
    | inl e ↦ rw e (run_command-IsShut clock (str v) vs rest (record srv { cmd_count = _ }) quiet)
    | inr e ↦ rw e
  ]

  respond-rest :
      (rest : Bytes) (srv : Server) (r : Response)
      → (respond log_failure info_body client_addr rest srv r).rest ≡ rest
  unfolding respond
  respond-rest rest srv (replied bytes h state) = refl
  respond-rest rest srv (panicked h state) = refl

  run_command-rest :
      (clock : Clock) (cmd : Bytes) (args : Values) (rest : Bytes) (srv : Server)
      → (run_command log_failure info_body client_addr clock cmd args rest srv false).rest ≡ rest
  unfolding run_command
  run_command-rest clock cmd args rest srv =
      if-keeps (λ (r : Served). r.rest ≡ rest) (is_refused srv false (to_upper cmd)) _ _ refl
        (respond-rest rest srv _)

  run_value-rest :
      (clock : Clock) (v : Value) (rest : Bytes) (srv : Server)
      → (run_value log_failure info_body client_addr clock v rest srv false).rest ≡ rest
  unfolding run_value
  run_value-rest clock (value t s n nil) rest srv = refl
  run_value-rest clock (value t s n (cons v vs)) rest srv =
      if-keeps (λ (r : Served). r.rest ≡ rest) (t == b'*') _ _
        (run_command-rest clock (str v) vs rest (record srv { cmd_count = srv.cmd_count + 1 })) refl

  -- One step, from what is parsed; what is left to read holds no login either.
  step-IsShut :
      (clock : Clock) (Later : Bytes → Type 0) (p : Parsed Value) (srv : Server)
      → Later []
      → IsNoLoginIn srv.handler.password Later p
      → ((after_parse log_failure info_body client_addr clock p srv false).authenticated ≡ false)
        × Later (after_parse log_failure info_body client_addr clock p srv false).rest
  unfolding after_parse
  step-IsShut clock Later (ok v rest) srv nothing (quiet, later) = (
    run_value-IsShut clock v rest srv quiet,
    subst Later (sym (run_value-rest clock v rest srv)) later,
  )
  step-IsShut clock Later (err eof) srv nothing quiet = (refl, nothing)
  step-IsShut clock Later (err malformed) srv nothing quiet = (refl, nothing)
  step-IsShut clock Later (err out_of_fuel) srv nothing quiet = (refl, nothing)
  step-IsShut clock Later (panic rest) srv nothing later = (refl, later)

  NeverLogsIn-nil : (password : Bytes) (f : ℕ) → NeverLogsIn password f []
  unfolding NeverLogsIn
  NeverLogsIn-nil password zero = tt
  NeverLogsIn-nil password (suc f) = rw parse-nil tt

  serve-IsShut :
      (f : ℕ) (clocks : ℕ → Clock) (input : Bytes) (srv : Server)
      → srv.require_auth ≡ true
      → NeverLogsIn srv.handler.password f input
      → (serve log_failure info_body client_addr f clocks input srv false).2 ≡ false
  unfolding serve go_on read_and_handle NeverLogsIn
  serve-IsShut zero clocks input srv g quiet = refl
  serve-IsShut (suc f) clocks input srv g quiet =
      let r = read_and_handle log_failure info_body client_addr (clocks f) input srv false in
      let password = srv.handler.password in
      let (shut, later) =
        step-IsShut (clocks f) (NeverLogsIn password f) (parse input) srv
          (NeverLogsIn-nil password f) quiet in
      let c = step-Closed log_failure info_body client_addr (clocks f) (parse input) srv g in
      let rest =
        serve-IsShut f clocks r.rest r.server (c.gate ∙ g)
          (subst (λ w. NeverLogsIn w f r.rest) (sym c.same.password) later) in
      elim (Bool-cases r.more) [ inl e ↦ rw (e, shut) rest | inr e ↦ rw e shut ]

-- On a server that requires a password, a connection whose input holds no command AUTH with that password
-- as its one argument is not authenticated at its end, and has, with whatever other bytes and at whatever
-- times, changed nothing of the data, of the log or of the password.
pub stranger_changes_nothing :
    (log_failure : Bytes) (info_body : Handler → Clock → Bytes) (client_addr : Bytes)
    (clocks : ℕ → Clock) (input : Bytes) (srv : Server)
    → srv.require_auth ≡ true
    → NeverLogsIn srv.handler.password (suc (length input)) input
    → ((handle_conn log_failure info_body client_addr clocks input srv).2 ≡ false)
      × SameData srv.handler
          (handle_conn log_failure info_body client_addr clocks input srv).1.handler
unfolding handle_conn
stranger_changes_nothing log_failure info_body client_addr clocks input srv g quiet =
    let fuel = suc (length input) in
    let shut =
      ap (λ b. (serve log_failure info_body client_addr fuel clocks input srv b).2) (ap not g)
      ∙ serve-IsShut log_failure info_body client_addr fuel clocks input srv g quiet in
    (shut, closed_connection log_failure info_body client_addr clocks input srv g shut)
