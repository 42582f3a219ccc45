-- ===== src/Server/Gate.antt =====
-- server/server.go: the authentication gate.
use redis_glass.Prelude.{
  ◌≡◌, ◌≢◌, ◌⊎◌, refl, sym, ap, ◌∙◌, Bool, true, false, Option, none, some, List, [], ◌∷◌, arith,
  Bytes, codes, bytes_eq, bytes_eq_iff, to_upper, Bool-cases, inl, inr,
}
use redis_glass.Resp.{Values}
use redis_glass.Aof.{arg_strings}
use redis_glass.Commands.State.{Handler, Clock}
use redis_glass.Commands.Strings.{auth}
use redis_glass.Commands.Dispatch.{
  Verb, ping_v, auth_v, scan_v, verb_of, Response, replied, panicked, keep_scan, run_verb, recorded,
  handle,
}
use redis_glass.Server.{Server, Served, is_open_command, is_refused, respond, run_command}

abbrev pub state_of : Response → Bool
state_of (replied bytes h state) = state
state_of (panicked h state) = state

abbrev pub handler_of : Response → Handler
handler_of (replied bytes h state) = h
handler_of (panicked h state) = h

-- The data, the log and the password of a handler are those of another.
pub record SameData (h h' : Handler) : Type 0 where
  pub store : h'.store ≡ h.store
  pub aof : h'.aof ≡ h.aof
  pub password : h'.password ≡ h.password

pub SameData-refl : (h : Handler) → SameData h h
SameData-refl h = record { store = refl; aof = refl; password = refl }

pub SameData-trans : (h i j : Handler) → SameData h i → SameData i j → SameData h j
SameData-trans h i j p q = record {
  store = q.store ∙ p.store;
  aof = q.aof ∙ p.aof;
  password = q.password ∙ p.password;
}

auth_stays : (password : Bytes) (args : List Bytes) → (auth password args true).1 ≡ true
unfolding auth
auth_stays password [] = refl
auth_stays password (a ∷ []) = ground arith
auth_stays password (a ∷ b ∷ args) = refl

-- Only the password opens a connection.
auth_opens :
    (password : Bytes) (args : List Bytes)
    → (auth password args false).1 ≡ true
    → (args ≡ password ∷ []) × (password ≢ [])
unfolding auth
auth_opens password [] h = cc
auth_opens password (a ∷ []) h =
    (ground (arith, bytes_eq_iff a password), ground (arith, bytes_eq_iff password []))
auth_opens password (a ∷ b ∷ args) h = cc

keep_scan-state :
    (state : Bool) (h : Handler) (r : Option (Bytes × Handler))
    → state_of (keep_scan state h r) ≡ state
keep_scan-state state h none = refl
keep_scan-state state h (some r) = refl

open_verbs :
    (upper : Bytes)
    → is_open_command upper ≡ true
    → (verb_of upper ≡ ping_v) ⊎ (verb_of upper ≡ auth_v)
unfolding is_open_command verb_of bytes_eq
open_verbs upper h = elim (Bool-cases (bytes_eq upper (codes "PING"))) [
  | inl e ↦ inl (ap verb_of ((bytes_eq_iff upper (codes "PING")).0 e))
  | inr e ↦ inr (ap verb_of ((bytes_eq_iff upper (codes "AUTH")).0 (rw e at h)))
]

module _ (log_failure : Bytes) (info_body : Handler → Clock → Bytes) (client_addr : Bytes) where
  module _ (clock : Clock) where
    run_verb-state :
        (v : Verb) (cmd : Bytes) (args : List Bytes) (h : Handler)
        → state_of (run_verb log_failure info_body clock v cmd args h true) ≡ true
    unfolding run_verb
    run_verb-state auth_v cmd args h = auth_stays h.password args
    run_verb-state scan_v cmd args h = keep_scan-state true h _
    run_verb-state _ cmd args h = refl

    run_verb-auth :
        (v : Verb) (cmd : Bytes) (args : List Bytes) (h : Handler)
        → state_of (run_verb log_failure info_body clock v cmd args h false) ≡ true
        → (v ≡ auth_v) × (args ≡ h.password ∷ []) × (h.password ≢ [])
    unfolding run_verb
    run_verb-auth auth_v cmd args h e = let (a, p) = auth_opens h.password args e in (refl, a, p)
    run_verb-auth scan_v cmd args h e = cc (keep_scan-state false h _, e)
    run_verb-auth _ cmd args h e = cc

    run_verb-open :
        (v : Verb) (cmd : Bytes) (args : List Bytes) (h : Handler) (state : Bool)
        → (v ≡ ping_v) ⊎ (v ≡ auth_v)
        → SameData h (handler_of (run_verb log_failure info_body clock v cmd args h state))
    unfolding run_verb
    run_verb-open ping_v cmd args h state e = SameData-refl h
    run_verb-open auth_v cmd args h state e = SameData-refl h
    run_verb-open _ cmd args h state e = elim e [ inl x ↦ cc | inr x ↦ cc ]

    recorded-SameData :
        (upper : Bytes) (args : List Bytes) (r : Response)
        → SameData
            (handler_of r)
            (handler_of (recorded log_failure info_body clock upper args client_addr r))
    unfolding recorded
    recorded-SameData upper args (replied bytes h state) = record {
      store = refl;
      aof = refl;
      password = refl;
    }
    recorded-SameData upper args (panicked h state) = SameData-refl h

    recorded-state :
        (upper : Bytes) (args : List Bytes) (r : Response)
        → state_of (recorded log_failure info_body clock upper args client_addr r) ≡ state_of r
    unfolding recorded
    recorded-state upper args (replied bytes h state) = refl
    recorded-state upper args (panicked h state) = refl

    handle-open :
        (cmd : Bytes) (args : Values) (h : Handler) (state : Bool)
        → is_open_command (to_upper cmd) ≡ true
        → SameData h (handler_of (handle log_failure info_body clock cmd args client_addr h state))
    unfolding handle
    handle-open cmd args h state e =
        let upper = to_upper cmd in
        let r =
          run_verb log_failure info_body clock (verb_of upper) cmd (arg_strings args) h state in
        SameData-trans h (handler_of r) _
          (run_verb-open (verb_of upper) cmd (arg_strings args) h state (open_verbs upper e))
          (recorded-SameData upper (arg_strings args) r)

    handle-state :
        (cmd : Bytes) (args : Values) (h : Handler)
        → state_of (handle log_failure info_body clock cmd args client_addr h true) ≡ true
    unfolding handle
    handle-state cmd args h =
        let upper = to_upper cmd in
        recorded-state upper (arg_strings args)
          (run_verb log_failure info_body clock (verb_of upper) cmd (arg_strings args) h true)
        ∙ run_verb-state (verb_of upper) cmd (arg_strings args) h

    -- What a step of a connection that is not authenticated keeps.
    pub record Closed (srv : Server) (r : Served) : Type 0 where
      pub same : SameData srv.handler r.server.handler
      pub gate : r.server.require_auth ≡ srv.require_auth

    respond-Closed :
        (rest : Bytes) (srv : Server) (r : Response)
        → SameData srv.handler (handler_of r)
        → Closed srv (respond log_failure info_body client_addr rest srv r)
    unfolding respond
    respond-Closed rest srv (replied bytes h state) e = record { same = e; gate = refl }
    respond-Closed rest srv (panicked h state) e = record { same = e; gate = refl }

    pub respond-state :
        (rest : Bytes) (srv : Server) (r : Response)
        → (respond log_failure info_body client_addr rest srv r).authenticated ≡ state_of r
    unfolding respond
    respond-state rest srv (replied bytes h state) = refl
    respond-state rest srv (panicked h state) = refl

    not_refused :
        (srv : Server) (upper : Bytes)
        → srv.require_auth ≡ true
        → is_refused srv false upper ≡ false
        → is_open_command upper ≡ true
    unfolding is_refused
    not_refused srv upper g e = ground arith

    pub run_command-Closed :
        (cmd : Bytes) (args : Values) (rest : Bytes) (srv : Server)
        → srv.require_auth ≡ true
        → Closed srv (run_command log_failure info_body client_addr clock cmd args rest srv false)
    unfolding run_command
    run_command-Closed cmd args rest srv g =
        elim (Bool-cases (is_refused srv false (to_upper cmd))) [
          | inl e ↦ rw e (record { same = SameData-refl srv.handler; gate = refl })
          | inr e ↦ rw e (
              respond-Closed rest srv
                (handle log_failure info_body clock cmd args client_addr srv.handler false)
                (handle-open cmd args srv.handler false (not_refused srv (to_upper cmd) g e)))
        ]

    never_refused : (srv : Server) (upper : Bytes) → is_refused srv true upper ≡ false
    unfolding is_refused
    never_refused srv upper = ground arith

    pub run_command-state :
        (cmd : Bytes) (args : Values) (rest : Bytes) (srv : Server)
        → (run_command log_failure info_body client_addr clock cmd args rest srv true).authenticated
          ≡ true
    unfolding run_command
    run_command-state cmd args rest srv = rw (never_refused srv (to_upper cmd)) (
        respond-state rest srv
          (handle log_failure info_body clock cmd args client_addr srv.handler true)
        ∙ handle-state cmd args srv.handler)

-- A command that authenticates a connection is AUTH with the server's password as its one argument,
-- on a server that has a password.
pub handle_opens :
    (log_failure : Bytes) (info_body : Handler → Clock → Bytes) (client_addr : Bytes)
    (clock : Clock) (cmd : Bytes) (args : Values) (h : Handler)
    → state_of (handle log_failure info_body clock cmd args client_addr h false) ≡ true
    → (verb_of (to_upper cmd) ≡ auth_v) × (arg_strings args ≡ h.password ∷ []) × (h.password ≢ [])
unfolding handle
handle_opens log_failure info_body client_addr clock cmd args h e =
    let upper = to_upper cmd in
    let r = run_verb log_failure info_body clock (verb_of upper) cmd (arg_strings args) h false in
    run_verb-auth log_failure info_body client_addr clock (verb_of upper) cmd (arg_strings args) h
      (sym (recorded-state log_failure info_body client_addr clock upper (arg_strings args) r) ∙ e)
