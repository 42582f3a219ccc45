-- ===== src/Server/Keeps.antt =====
-- server/server.go: what a whole connection keeps of the store.
use redis_glass.Prelude.{ℕ, zero, suc, Bool, not, length, Bytes, to_upper, ◌==◌, if-keeps}
use redis_glass.Resp.{
  Value, Values, value, nil, cons, str, Parsed, ok, err, panic, eof, malformed, out_of_fuel, parse,
}
use redis_glass.Store.{Store}
use redis_glass.Store.Operations.{Operation, perform, IsSound, perform-IsSound}
use redis_glass.Commands.State.{Handler, Clock}
use redis_glass.Commands.Dispatch.{Response, replied, panicked}
use redis_glass.Commands.Moves.Dispatch.{store_behind, handle-Moves, Moves-keeps}
use redis_glass.Server.{
  Server, Served, is_refused, respond, run_command, run_value, after_parse, read_and_handle, go_on,
  serve, handle_conn,
}

module _ (P : Store → Type 0) (kept : (op : Operation) (s : Store) → P s → P (perform op s))
    (failure : Bytes) (info_body : Handler → Clock → Bytes) (client_addr : Bytes) where
  abbrev HoldsIn : Served → Type 0
  HoldsIn r = P r.server.handler.store

  respond-keeps :
      (rest : Bytes) (srv : Server) (r : Response)
      → P (store_behind r)
      → HoldsIn (respond failure info_body client_addr rest srv r)
  unfolding respond store_behind
  respond-keeps rest srv (replied bytes h state) p = p
  respond-keeps rest srv (panicked h state) p = p

  run_command-keeps :
      (clock : Clock) (cmd : Bytes) (args : Values) (rest : Bytes) (srv : Server) (state : Bool)
      → P srv.handler.store
      → HoldsIn (run_command failure info_body client_addr clock cmd args rest srv state)
  unfolding run_command
  run_command-keeps clock cmd args rest srv state p =
      if-keeps HoldsIn (is_refused srv state (to_upper cmd)) _ _ p (
        respond-keeps rest srv _ (
          Moves-keeps P srv.handler.store _ kept
            (handle-Moves failure info_body clock cmd args client_addr srv.handler state) p))

  after_parse-keeps :
      (clock : Clock) (v : Parsed Value) (srv : Server) (state : Bool)
      → P srv.handler.store
      → HoldsIn (after_parse failure info_body client_addr clock v srv state)
  unfolding after_parse run_value
  after_parse-keeps clock (ok (value t s n nil) rest) srv state p = p
  after_parse-keeps clock (ok (value t s n (cons v vs)) rest) srv state p =
      if-keeps HoldsIn (t == b'*') _ _ (run_command-keeps clock (str v) vs rest _ state p) p
  after_parse-keeps clock (err eof) srv state p = p
  after_parse-keeps clock (err malformed) srv state p = p
  after_parse-keeps clock (err out_of_fuel) srv state p = p
  after_parse-keeps clock (panic rest) srv state p = p

  go_on-keeps :
      (loop : Bytes → Server → Bool → Bytes × Server × Bool) (r : Served)
      → HoldsIn r
      → P (loop r.rest r.server r.authenticated).1.handler.store
      → P (go_on failure info_body client_addr loop r).1.handler.store
  unfolding go_on
  go_on-keeps loop r p q =
      if-keeps (λ (x : Bytes × Server × Bool). P x.1.handler.store) r.more _ _ q p

  serve-keeps :
      (f : ℕ) (clocks : ℕ → Clock) (input : Bytes) (srv : Server) (state : Bool)
      → P srv.handler.store
      → P (serve failure info_body client_addr f clocks input srv state).1.handler.store
  unfolding serve read_and_handle
  serve-keeps zero clocks input srv state p = p
  serve-keeps (suc f) clocks input srv state p =
      let r = read_and_handle failure info_body client_addr (clocks f) input srv state in
      let p' = after_parse-keeps (clocks f) (parse input) srv state p in
      go_on-keeps (serve failure info_body client_addr f clocks) r p'
        (serve-keeps f clocks r.rest r.server r.authenticated p')

  handle_conn-keeps :
      (clocks : ℕ → Clock) (input : Bytes) (srv : Server)
      → P srv.handler.store
      → P (handle_conn failure info_body client_addr clocks input srv).1.handler.store
  unfolding handle_conn
  handle_conn-keeps clocks input srv p =
      serve-keeps (suc (length input)) clocks input srv (not srv.require_auth) p

-- A whole connection, with whatever bytes and at whatever times, keeps that `expiryKeys` holds exactly
-- the string keys whose entry has an expiry, and that the estimated memory is at or below the ceiling,
-- where there is one.
pub handle_conn-IsSound :
    (failure : Bytes) (info_body : Handler → Clock → Bytes) (client_addr : Bytes)
    (clocks : ℕ → Clock) (input : Bytes) (srv : Server)
    → IsSound srv.handler.store
    → IsSound (handle_conn failure info_body client_addr clocks input srv).1.handler.store
handle_conn-IsSound = handle_conn-keeps IsSound perform-IsSound
