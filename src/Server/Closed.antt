-- ===== src/Server/Closed.antt =====
-- server/server.go: a connection from its first byte to its last.
use redis_glass.Prelude.{
  ℕ, zero, suc, ◌≡◌, refl, ap, ◌∙◌, Bool, true, false, not, length, Bytes, ◌==◌, Bool-cases, inl,
  inr,
}
use redis_glass.Resp.{
  Value, value, nil, cons, str, Parsed, ok, err, panic, eof, malformed, out_of_fuel, parse,
}
use redis_glass.Commands.State.{Handler, Clock}
use redis_glass.Server.{
  Server, Served, run_value, after_parse, read_and_handle, go_on, serve, handle_conn,
}
use redis_glass.Server.Gate.{
  SameData, SameData-refl, SameData-trans, Closed, run_command-Closed, run_command-state,
}

module _ (log_failure : Bytes) (info_body : Handler → Clock → Bytes) (client_addr : Bytes) where
  abbrev IsClosed : Clock → Server → Served → Type 0
  IsClosed clock srv r = Closed log_failure info_body client_addr clock srv r

  untouched : (clock : Clock) (srv : Server) (r : Served) → r.server ≡ srv → IsClosed clock srv r
  untouched clock srv r e = record {
    same = rw e (SameData-refl srv.handler);
    gate = ap (λ (s : Server). s.require_auth) e;
  }

  run_value-Closed :
      (clock : Clock) (v : Value) (rest : Bytes) (srv : Server)
      → srv.require_auth ≡ true
      → IsClosed clock srv (run_value log_failure info_body client_addr clock v rest srv false)
  unfolding run_value
  run_value-Closed clock (value t s n nil) rest srv g = untouched clock srv _ refl
  run_value-Closed clock (value t s n (cons v vs)) rest srv g = elim (Bool-cases (t == b'*')) [
    | inl e ↦
        let srv' = record srv { cmd_count = _ } in
        let c = run_command-Closed log_failure info_body client_addr clock (str v) vs rest srv' g in
        rw e (record { same = c.same; gate = c.gate })
    | inr e ↦ rw e (untouched clock srv _ refl)
  ]

  pub step-Closed :
      (clock : Clock) (p : Parsed Value) (srv : Server)
      → srv.require_auth ≡ true
      → IsClosed clock srv (after_parse log_failure info_body client_addr clock p srv false)
  unfolding after_parse
  step-Closed clock (ok v rest) srv g = run_value-Closed clock v rest srv g
  step-Closed clock (err eof) srv g = untouched clock srv _ refl
  step-Closed clock (err malformed) srv g = untouched clock srv _ refl
  step-Closed clock (err out_of_fuel) srv g = untouched clock srv _ refl
  step-Closed clock (panic rest) srv g = untouched clock srv _ refl

  run_value-state :
      (clock : Clock) (v : Value) (rest : Bytes) (srv : Server)
      → (run_value log_failure info_body client_addr clock v rest srv true).authenticated ≡ true
  unfolding run_value
  run_value-state clock (value t s n nil) rest srv = refl
  run_value-state clock (value t s n (cons v vs)) rest srv = elim (Bool-cases (t == b'*')) [
    | inl e ↦ rw e (run_command-state log_failure info_body client_addr clock (str v) vs rest _)
    | inr e ↦ rw e
  ]

  step-state :
      (clock : Clock) (p : Parsed Value) (srv : Server)
      → (after_parse log_failure info_body client_addr clock p srv true).authenticated ≡ true
  unfolding after_parse
  step-state clock (ok v rest) srv = run_value-state clock v rest srv
  step-state clock (err eof) srv = refl
  step-state clock (err malformed) srv = refl
  step-state clock (err out_of_fuel) srv = refl
  step-state clock (panic rest) srv = refl

  serve-state :
      (f : ℕ) (clocks : ℕ → Clock) (input : Bytes) (srv : Server)
      → (serve log_failure info_body client_addr f clocks input srv true).2 ≡ true
  unfolding serve go_on read_and_handle
  serve-state zero clocks input srv = refl
  serve-state (suc f) clocks input srv =
      let r = read_and_handle log_failure info_body client_addr (clocks f) input srv true in
      let stays : r.authenticated ≡ true = step-state (clocks f) (parse input) srv in
      elim (Bool-cases r.more) [
        | inl e ↦ rw (e, stays) (serve-state f clocks r.rest r.server)
        | inr e ↦ rw e stays
      ]

  go_on-SameData :
      (loop : Bytes → Server → Bool → Bytes × Server × Bool) (start : Handler) (out rest : Bytes)
      (more : Bool) (srv : Server) (state : Bool)
      → SameData start srv.handler
      → (loop rest srv true).2 ≡ true
      → ((loop rest srv false).2 ≡ false → SameData srv.handler (loop rest srv false).1.handler)
      → (go_on log_failure info_body client_addr loop
          (record { out = out; rest = rest; more = more; server = srv; authenticated = state })).2
        ≡ false
      → SameData start
          (go_on log_failure info_body client_addr loop (record {
            out = out;
            rest = rest;
            more = more;
            server = srv;
            authenticated = state;
          })).1.handler
  unfolding go_on
  go_on-SameData loop start out rest false srv state c stays ih h = c
  go_on-SameData loop start out rest true srv true c stays ih h = cc (stays, h)
  go_on-SameData loop start out rest true srv false c stays ih h =
      SameData-trans start srv.handler _ c (ih h)

  serve-SameData :
      (f : ℕ) (clocks : ℕ → Clock) (input : Bytes) (srv : Server)
      → srv.require_auth ≡ true
      → (serve log_failure info_body client_addr f clocks input srv false).2 ≡ false
      → SameData srv.handler
          (serve log_failure info_body client_addr f clocks input srv false).1.handler
  unfolding serve read_and_handle
  serve-SameData zero clocks input srv g h = SameData-refl srv.handler
  serve-SameData (suc f) clocks input srv g h =
      let r = read_and_handle log_failure info_body client_addr (clocks f) input srv false in
      let c = step-Closed (clocks f) (parse input) srv g in
      go_on-SameData (serve log_failure info_body client_addr f clocks) srv.handler r.out r.rest
        r.more r.server r.authenticated c.same (serve-state f clocks r.rest r.server)
        (serve-SameData f clocks r.rest r.server (c.gate ∙ g)) h

  from_state :
      (f : ℕ) (clocks : ℕ → Clock) (input : Bytes) (srv : Server) (state : Bool)
      → state ≡ false
      → srv.require_auth ≡ true
      → (serve log_failure info_body client_addr f clocks input srv state).2 ≡ false
      → SameData srv.handler
          (serve log_failure info_body client_addr f clocks input srv state).1.handler
  from_state f clocks input srv true e g h = cc
  from_state f clocks input srv false e g h = serve-SameData f clocks input srv g h

-- On a server that requires a password, a connection that is not authenticated at its end has, with
-- whatever bytes and at whatever times, changed nothing of the data, of the log or of the password.
pub closed_connection :
    (log_failure : Bytes) (info_body : Handler → Clock → Bytes) (client_addr : Bytes)
    (clocks : ℕ → Clock) (input : Bytes) (srv : Server)
    → srv.require_auth ≡ true
    → (handle_conn log_failure info_body client_addr clocks input srv).2 ≡ false
    → SameData srv.handler
        (handle_conn log_failure info_body client_addr clocks input srv).1.handler
unfolding handle_conn
closed_connection log_failure info_body client_addr clocks input srv g =
    from_state log_failure info_body client_addr (suc (length input)) clocks input srv
      (not srv.require_auth) (ap not g) g
