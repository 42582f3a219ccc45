-- ===== src/System.antt =====
-- main.go: the server as a whole. Requests of any clients, ticks of the sampler and rewrites of the
-- log come in any order; each of them is one event.
pub mod Trace
pub mod Log
pub mod Replayed
pub mod Mutations
pub mod Reads
pub mod Handlers
pub mod Ticks
pub mod Exact
pub mod ExactlyOnce
pub mod Keeps
pub mod Recovery
pub mod Durability
use redis_glass.Prelude.{ℕ, Bool, true, false, Option, none, some, List, [], ◌∷◌, Bytes, ℤ}
use redis_glass.Resp.{Values}
use redis_glass.Store.{Store}
use redis_glass.Store.Sampler.{sample_expire}
use redis_glass.Aof.Rewrite.{Aof, Outcome, rewrite_begin, rewrite_finish}
use redis_glass.Commands.State.{Handler, Clock}
use redis_glass.Commands.Dispatch.{Response, replied, panicked, handle}

-- The handler that the connections share, and the snapshot that a running rewrite is writing out.
pub record System : Type 0 where
  pub handler : Handler
  pub pending : Option Store

pub data Event : Type 0 where
  request : Clock → Bytes → Values → Bytes → Bool → Event
  tick : (ℕ → ℤ) → (ℕ → Store → List Bytes) → Event
  begin_rewrite : Event
  end_rewrite : ℤ → Outcome → Event

abbrev pub handler_behind : Response → Handler
handler_behind (replied bytes h state) = h
handler_behind (panicked h state) = h

-- Where a rewrite is running already, the new one fails at once.
unfoldable pub begun : Option (Store × Aof) → System → System
begun none sys = sys
begun (some (snap, a)) sys = record {
  handler = record sys.handler { aof = some a };
  pending = some snap;
}

unfoldable pub begin_with : Option Aof → System → System
unfolding begun
begin_with none sys = sys
begin_with (some a) sys = begun (rewrite_begin sys.handler.store a) sys

unfoldable pub end_with : ℤ → Outcome → Option Aof → Option Store → System → System
end_with now outcome (some a) (some snap) sys = record {
  handler = record sys.handler { aof = some (rewrite_finish now snap outcome a) };
  pending = none;
}
end_with now outcome _ _ sys = sys

module _ (log_failure : Bytes) (info_body : Handler → Clock → Bytes) where
  unfoldable pub serve_event : Event → System → System
  unfolding begin_with end_with
  serve_event (request clock cmd args client_addr state) sys = record sys {
    handler =
        handler_behind (handle log_failure info_body clock cmd args client_addr sys.handler state);
  }
  serve_event (tick clock order) sys = record sys {
    handler = record sys.handler { store = sample_expire clock order sys.handler.store };
  }
  serve_event begin_rewrite sys = begin_with sys.handler.aof sys
  serve_event (end_rewrite now outcome) sys = end_with now outcome sys.handler.aof sys.pending sys

  unfoldable pub serve_events : List Event → System → System
  unfolding serve_event
  serve_events [] sys = sys
  serve_events (e ∷ es) sys = serve_events es (serve_event e sys)
