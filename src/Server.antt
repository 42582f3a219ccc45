-- ===== src/Server.antt =====
-- server/server.go: a connection. The bytes that the client sends are a list, up to the end of the
-- stream; writes to the connection do not fail.
pub mod Gate
pub mod Closed
pub mod Stranger
pub mod Keeps
pub mod Listener
use redis_glass.Prelude.{
  ℕ, zero, suc, ◌+◌, Bool, true, false, not, ◌&&◌, List, [], ◌∷◌, ◌++◌, length, Bytes, codes,
  bytes_eq, to_upper, ◌==◌, if◌then◌else◌,
}
use redis_glass.Resp.{
  Value, Values, value, nil, cons, str, Parsed, ok, err, panic, ParseError, eof, malformed,
  out_of_fuel, parse, write_error,
}
use redis_glass.Commands.State.{Handler, Clock}
use redis_glass.Commands.Dispatch.{Response, replied, panicked, handle}

-- `Server`, with `RequireAuth` of its configuration.
pub record Server : Type 0 where
  pub handler : Handler
  pub require_auth : Bool
  pub cmd_count : ℕ

-- What one call of `readAndHandle` leaves: the reply, the input not yet read, whether the loop goes
-- on, the server, and whether the connection is authenticated.
pub record Served : Type 0 where
  pub out : Bytes
  pub rest : Bytes
  pub more : Bool
  pub server : Server
  pub authenticated : Bool

-- `ERR internal error`, the reply of the deferred recovery.
abbrev pub recovered : Bytes
recovered = write_error (codes "ERR internal error")

-- The commands that need no authentication.
unfoldable pub is_open_command : Bytes → Bool
is_open_command upper =
    if bytes_eq upper (codes "PING") then true else bytes_eq upper (codes "AUTH")

unfoldable pub is_refused : Server → Bool → Bytes → Bool
unfolding is_open_command
is_refused srv authenticated upper =
    srv.require_auth && (not authenticated && not (is_open_command upper))

module _ (log_failure : Bytes) (info_body : Handler → Clock → Bytes) (client_addr : Bytes) where
  unfoldable pub respond : Bytes → Server → Response → Served
  respond rest srv (replied bytes h state) = record {
    out = bytes;
    rest = rest;
    more = true;
    server = record srv { handler = h };
    authenticated = state;
  }
  respond rest srv (panicked h state) = record {
    out = recovered;
    rest = rest;
    more = true;
    server = record srv { handler = h };
    authenticated = state;
  }

  unfoldable pub run_command : Clock → Bytes → Values → Bytes → Server → Bool → Served
  unfolding respond is_refused handle
  run_command clock cmd args rest srv state =
      if is_refused srv state (to_upper cmd)
      then record {
        out = write_error (codes "NOAUTH Authentication required.");
        rest = rest;
        more = true;
        server = srv;
        authenticated = state;
      }
      else respond rest srv
          (handle log_failure info_body clock cmd args client_addr srv.handler state)

  abbrev pub say : Bytes → Bytes → Bool → Server → Bool → Served
  say out rest more srv state = record {
    out = out;
    rest = rest;
    more = more;
    server = srv;
    authenticated = state;
  }

  unfoldable pub run_value : Clock → Value → Bytes → Server → Bool → Served
  unfolding run_command
  run_value clock (value t s n nil) rest srv state =
      say (write_error (codes "ERR unknown command")) rest true srv state
  run_value clock (value t s n (cons v vs)) rest srv state =
      if t == b'*'
      then run_command clock (str v) vs rest (record srv { cmd_count = srv.cmd_count + 1 }) state
      else say (write_error (codes "ERR unknown command")) rest true srv state

  unfoldable pub after_parse : Clock → Parsed Value → Server → Bool → Served
  unfolding run_value
  after_parse clock (ok v rest) srv state = run_value clock v rest srv state
  after_parse clock (err eof) srv state = say [] [] false srv state
  after_parse clock (err e) srv state =
      say (write_error (codes "ERR Protocol error: malformed RESP input")) [] false srv state
  after_parse clock (panic rest) srv state = say recovered rest true srv state

  unfoldable pub read_and_handle : Clock → Bytes → Server → Bool → Served
  unfolding after_parse
  read_and_handle clock input srv state = after_parse clock (parse input) srv state

  -- The loop of `handleConn`, on fuel; `clocks` has the times of each command, by the fuel left. The
  -- result is all that is written, with the last state.
  unfoldable pub go_on :
      (Bytes → Server → Bool → Bytes × Server × Bool) → Served → Bytes × Server × Bool
  go_on loop r =
      let (out, srv, state) = loop r.rest r.server r.authenticated in
      if r.more then (r.out ++ out, srv, state) else (r.out, r.server, r.authenticated)

  unfoldable pub serve : ℕ → (ℕ → Clock) → Bytes → Server → Bool → Bytes × Server × Bool
  unfolding go_on read_and_handle
  serve zero clocks input srv state = ([], srv, state)
  serve (suc f) clocks input srv state =
      go_on (serve f clocks) (read_and_handle (clocks f) input srv state)

  -- `handleConn`. A call that goes on takes a byte at least off the input.
  unfoldable pub handle_conn : (ℕ → Clock) → Bytes → Server → Bytes × Server × Bool
  unfolding serve
  handle_conn clocks input srv = serve (suc (length input)) clocks input srv (not srv.require_auth)
