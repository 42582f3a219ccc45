-- ===== src/System/ExactlyOnce.antt =====
-- main.go: the log file of the server as a whole, under any sequence of events.
use redis_glass.Prelude.{
  ◌≡◌, refl, sym, ap, ◌∙◌, arith, true, Option, none, some, List, [], ◌∷◌, ◌++◌, append-nil,
  append_assoc, Bytes, ℤ, inl,
}
use mathlib.Core.Path.{subst}
use mathlib.Core.Option.{some-injective}
use redis_glass.Commands.Moves.{Moves}
use redis_glass.Store.{Store}
use redis_glass.Store.Tracking.{TracksExpiry}
use redis_glass.Store.Tracking.Sampling.{sample_expire-TracksExpiry}
use redis_glass.Store.Operations.{perform-TracksExpiry}
use redis_glass.Aof.{Command}
use redis_glass.Aof.Rewrite.{Aof, FsyncPolicy, Outcome, new, rewrite_begin, rewrite_finish}
use redis_glass.Aof.Node.{Node, begin, finish, Reach, here, next, IsExact}
use redis_glass.Aof.ExactlyOnce.{exactly_once}
use redis_glass.Commands.State.{Handler, Clock}
use redis_glass.Commands.Dispatch.{Response, replied, panicked}
use redis_glass.Commands.Moves.Dispatch.{store_behind, handle-Moves, Moves-keeps}
use redis_glass.System.{
  System, Event, request, tick, begin_rewrite, end_rewrite, handler_behind, begun, begin_with,
  end_with, serve_event, serve_events,
}
use redis_glass.System.Trace.{entries, trace}
use redis_glass.System.Log.{node, Follows}
use redis_glass.System.Reads.{Reach-trans}
use redis_glass.System.Handlers.{handle-Follows}
use redis_glass.System.Ticks.{sample_expire_path}
use redis_glass.System.Exact.{
  keeps_open, all_keep_open, leaves_open, started, rewrite_finish-open, IsPaired,
  rewrite_begin-some, Reach-IsPaired, not_pending,
}

-- The server's state: the log is open, the keys with an expiry are tracked, and a node has come here
-- from the start, with these entries.
pub record IsServing (start : Node) (total : List Command) (sys : System) : Type 0 where
  pub aof : Aof
  pub same : sys.handler.aof ≡ some aof
  pub opened : aof.is_open ≡ true
  pub tracks : TracksExpiry sys.handler.store
  pub path : Reach start total (node sys.handler.store aof sys.pending)

module _ (log_failure : Bytes) (info_body : Handler → Clock → Bytes) (start : Node)
    (paired : IsPaired start) where
  request-IsServing :
      (total cs : List Command) (sys : System) (r : Response)
      → Moves sys.handler.store (store_behind r)
      → (w : IsServing start total sys)
      → Follows sys.handler.store w.aof sys.pending cs (handler_behind r)
      → IsServing start (total ++ cs) (record sys { handler = handler_behind r })
  unfolding store_behind
  request-IsServing total cs sys (replied bytes h state) m w f = record {
    aof = f.aof;
    same = f.same;
    opened = f.opened;
    tracks = Moves-keeps TracksExpiry sys.handler.store h.store perform-TracksExpiry m w.tracks;
    path = Reach-trans start (node sys.handler.store w.aof sys.pending) _ w.path f.path;
  }
  request-IsServing total cs sys (panicked h state) m w f = record {
    aof = f.aof;
    same = f.same;
    opened = f.opened;
    tracks = Moves-keeps TracksExpiry sys.handler.store h.store perform-TracksExpiry m w.tracks;
    path = Reach-trans start (node sys.handler.store w.aof sys.pending) _ w.path f.path;
  }

  same_entries :
      (total : List Command) (sys : System)
      → IsServing start total sys
      → IsServing start (total ++ []) sys
  same_entries total sys w = subst (λ cs. IsServing start cs sys) (sym (append-nil total)) w

  begun-IsServing :
      (total : List Command) (sys : System) (w : IsServing start total sys)
      (o : Option (Store × Aof))
      → rewrite_begin sys.handler.store w.aof ≡ o
      → IsServing start (total ++ []) (begun o sys)
  unfolding begun
  begun-IsServing total sys w none e = same_entries total sys w
  begun-IsServing total sys w (some (snap, b)) e =
      let facts = rewrite_begin-some sys.handler.store w.aof snap b e in
      let here = node sys.handler.store w.aof sys.pending in
      record {
        aof = b;
        same = refl;
        opened = facts.2 ∙ w.opened;
        tracks = w.tracks;
        path = next w.path (
            begin here snap b (not_pending here (Reach-IsPaired start here paired w.path) facts.0)
              e);
      }

  begin_with-IsServing :
      (total : List Command) (sys : System) (o : Option Aof)
      → sys.handler.aof ≡ o
      → IsServing start total sys
      → IsServing start (total ++ []) (begin_with o sys)
  unfolding begin_with
  begin_with-IsServing total sys none e w = same_entries total sys w
  begin_with-IsServing total sys (some a) e w =
      begun-IsServing total sys w (rewrite_begin sys.handler.store a)
        (ap (λ b. rewrite_begin sys.handler.store b) (some-injective w.aof a (sym w.same ∙ e)))

  end_with-IsServing :
      (total : List Command) (sys : System) (now : ℤ) (outcome : Outcome) (o : Option Aof)
      (p : Option Store)
      → leaves_open outcome ≡ true
      → sys.handler.aof ≡ o
      → sys.pending ≡ p
      → IsServing start total sys
      → IsServing start (total ++ []) (end_with now outcome o p sys)
  unfolding end_with
  end_with-IsServing total sys now outcome none none l e q w = same_entries total sys w
  end_with-IsServing total sys now outcome none (some snap) l e q w = same_entries total sys w
  end_with-IsServing total sys now outcome (some a) none l e q w = same_entries total sys w
  end_with-IsServing total sys now outcome (some a) (some snap) l e q w =
      let same = some-injective w.aof a (sym w.same ∙ e) in
      record {
        aof = rewrite_finish now snap outcome a;
        same = refl;
        opened =
            rewrite_finish-open now snap outcome a l
              (ap (λ (b : Aof). b.is_open) (sym same) ∙ w.opened);
        tracks = w.tracks;
        path =
            next (subst (λ b. Reach start total (node sys.handler.store b sys.pending)) same w.path)
              (finish (node sys.handler.store a sys.pending) now snap outcome q);
      }

  serve_event-IsServing :
      (total : List Command) (e : Event) (sys : System)
      → keeps_open e ≡ true
      → IsServing start total sys
      → IsServing start (total ++ entries e sys) (serve_event log_failure info_body e sys)
  unfolding serve_event entries
  serve_event-IsServing total (request clock cmd args client_addr state) sys k w =
      request-IsServing total _ sys _
        (handle-Moves log_failure info_body clock cmd args client_addr sys.handler state) w
        (handle-Follows log_failure info_body clock sys.handler w.aof sys.pending w.same w.opened
          cmd args client_addr state)
  serve_event-IsServing total (tick clock order) sys k w = record {
    aof = w.aof;
    same = w.same;
    opened = w.opened;
    tracks = sample_expire-TracksExpiry clock order sys.handler.store w.tracks;
    path =
        Reach-trans start (node sys.handler.store w.aof sys.pending) _ w.path
          (sample_expire_path w.aof sys.pending clock order sys.handler.store w.tracks);
  }
  serve_event-IsServing total begin_rewrite sys k w =
      begin_with-IsServing total sys sys.handler.aof refl w
  serve_event-IsServing total (end_rewrite now outcome) sys k w =
      end_with-IsServing total sys now outcome sys.handler.aof sys.pending k refl refl w

  pub serve_events-IsServing :
      (es : List Event) (total : List Command) (sys : System)
      → all_keep_open es ≡ true
      → IsServing start total sys
      → IsServing start
          (total ++ trace log_failure info_body es sys)
          (serve_events log_failure info_body es sys)
  unfolding serve_events trace
  serve_events-IsServing [] total sys k w = same_entries total sys w
  serve_events-IsServing (e ∷ es) total sys k w =
      subst (λ cs. IsServing start cs (serve_events log_failure info_body (e ∷ es) sys))
        (append_assoc total (entries e sys) _)
        (serve_events-IsServing es (total ++ entries e sys) _ (ground arith)
          (serve_event-IsServing total e sys (ground arith) w))

-- The log is open, and it is exact for what was loaded at the start and for these mutations.
pub record IsLogged (file : Bytes) (loaded : Store) (total : List Command) (sys : System)
    : Type 0 where
  pub aof : Aof
  pub same : sys.handler.aof ≡ some aof
  pub opened : aof.is_open ≡ true
  pub exact : IsExact file loaded total (node sys.handler.store aof sys.pending)

-- A server that starts from a store that tracks its expiries, with its log open, and whose rewrites
-- leave the log open, has after any sequence of events an exact log: whatever requests, of any clients
-- and with any arguments, ticks of the sampler and rewrites came in whatever order, the file is an image
-- of an earlier state and the last ones of the mutations that succeeded, in order, and these lead from
-- that state to the present one.
pub serve_events-IsLogged :
    (log_failure : Bytes) (info_body : Handler → Clock → Bytes) (h : Handler) (file : Bytes)
    (loaded : Store) (fsync : FsyncPolicy) (es : List Event)
    → TracksExpiry loaded
    → all_keep_open es ≡ true
    → IsLogged file loaded
        (trace log_failure info_body es (started h loaded file fsync))
        (serve_events log_failure info_body es (started h loaded file fsync))
unfolding IsPaired
serve_events-IsLogged log_failure info_body h file loaded fsync es t k =
    let start = node loaded (new file fsync) none in
    let w =
      serve_events-IsServing log_failure info_body start (inl refl) es []
        (started h loaded file fsync) k
        (record { aof = new file fsync; same = refl; opened = refl; tracks = t; path = here }) in
    record {
      aof = w.aof;
      same = w.same;
      opened = w.opened;
      exact = exactly_once file loaded fsync _ _ w.path;
    }
