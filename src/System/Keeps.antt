-- ===== src/System/Keeps.antt =====
-- main.go: properties of the store, under the events of the server.
use redis_glass.Prelude.{◌≡◌, refl, sym, Option, none, some, List, [], ◌∷◌, Bytes, ℤ}
use mathlib.Core.Path.{subst}
use redis_glass.Store.{Store}
use redis_glass.Store.Operations.{Operation, tick, perform}
use redis_glass.Aof.Rewrite.{Aof, Outcome, rewrite_begin}
use redis_glass.Commands.State.{Handler, Clock}
use redis_glass.Commands.Dispatch.{Response, replied, panicked, handle}
use redis_glass.Commands.Moves.Dispatch.{store_behind, handle-Moves, Moves-keeps}
use redis_glass.System
use redis_glass.System.{
  System, Event, request, begin_rewrite, end_rewrite, handler_behind, begun, begin_with, end_with,
  serve_event, serve_events,
}

begun-store :
    (o : Option (Store × Aof)) (sys : System) → (begun o sys).handler.store ≡ sys.handler.store
unfolding begun
begun-store none sys = refl
begun-store (some (snap, a)) sys = refl

begin_with-store :
    (o : Option Aof) (sys : System) → (begin_with o sys).handler.store ≡ sys.handler.store
unfolding begin_with
begin_with-store none sys = refl
begin_with-store (some a) sys = begun-store (rewrite_begin sys.handler.store a) sys

end_with-store :
    (now : ℤ) (outcome : Outcome) (o : Option Aof) (p : Option Store) (sys : System)
    → (end_with now outcome o p sys).handler.store ≡ sys.handler.store
unfolding end_with
end_with-store now outcome (some a) (some snap) sys = refl
end_with-store now outcome (some a) none sys = refl
end_with-store now outcome none p sys = refl

handler_behind-store : (r : Response) → (handler_behind r).store ≡ store_behind r
unfolding store_behind
handler_behind-store (replied bytes h state) = refl
handler_behind-store (panicked h state) = refl

module _ (P : Store → Type 0) (keeps : (op : Operation) (s : Store) → P s → P (perform op s))
    (log_failure : Bytes) (info_body : Handler → Clock → Bytes) where
  serve_event_keeps :
      (e : Event) (sys : System)
      → P sys.handler.store
      → P (serve_event log_failure info_body e sys).handler.store
  unfolding serve_event
  serve_event_keeps (request clock cmd args client_addr state) sys p =
      subst P
        (sym (
          handler_behind-store
            (handle log_failure info_body clock cmd args client_addr sys.handler state)))
        (Moves-keeps P sys.handler.store _ keeps
          (handle-Moves log_failure info_body clock cmd args client_addr sys.handler state) p)
  serve_event_keeps (System.tick clock order) sys p =
      unfold perform in keeps (tick clock order) sys.handler.store p
  serve_event_keeps begin_rewrite sys p = subst P (sym (begin_with-store sys.handler.aof sys)) p
  serve_event_keeps (end_rewrite now outcome) sys p =
      subst P (sym (end_with-store now outcome sys.handler.aof sys.pending sys)) p

  pub serve_events_keeps :
      (es : List Event) (sys : System)
      → P sys.handler.store
      → P (serve_events log_failure info_body es sys).handler.store
  unfolding serve_events
  serve_events_keeps [] sys p = p
  serve_events_keeps (e ∷ es) sys p = serve_events_keeps es _ (serve_event_keeps e sys p)
