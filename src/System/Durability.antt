-- ===== src/System/Durability.antt =====
-- main.go: what is on the disk, under any sequence of events.
use redis_glass.Prelude.{◌≡◌, refl, true, none, some, List, [], Bytes, inl}
use redis_glass.Store.{Store}
use redis_glass.Store.Tracking.{TracksExpiry}
use redis_glass.Aof.{Command}
use redis_glass.Aof.Rewrite.{Aof, always, new}
use redis_glass.Aof.Node.{here, IsExact}
use redis_glass.Aof.ExactlyOnce.{exactly_once}
use redis_glass.Aof.Durable.{IsDurable, Reach-IsDurable}
use redis_glass.Commands.State.{Handler, Clock}
use redis_glass.System.{System, Event, serve_events}
use redis_glass.System.Trace.{trace}
use redis_glass.System.Log.{node}
use redis_glass.System.Exact.{all_keep_open, started, IsPaired}
use redis_glass.System.ExactlyOnce.{serve_events-IsServing}

-- The log is there, it is exact for what was loaded at the start and for these mutations, and all of it
-- is on the disk.
pub record IsOnDisk (file : Bytes) (loaded : Store) (total : List Command) (sys : System)
    : Type 0 where
  pub aof : Aof
  pub same : sys.handler.aof ≡ some aof
  pub exact : IsExact file loaded total (node sys.handler.store aof sys.pending)
  pub durable : IsDurable aof

-- A server with the policy `always`, which starts from a store that tracks its expiries and whose
-- rewrites leave the log open, has after any sequence of events all of its log file forced to the disk;
-- and the file is an image of an earlier state with the last ones of the mutations that succeeded, in
-- order, which lead from that state to the present one.
pub serve_events-IsOnDisk :
    (log_failure : Bytes) (info_body : Handler → Clock → Bytes) (h : Handler) (file : Bytes)
    (loaded : Store) (es : List Event)
    → TracksExpiry loaded
    → all_keep_open es ≡ true
    → IsOnDisk file loaded
        (trace log_failure info_body es (started h loaded file always))
        (serve_events log_failure info_body es (started h loaded file always))
unfolding IsPaired
serve_events-IsOnDisk log_failure info_body h file loaded es t k =
    let start = node loaded (new file always) none in
    let w =
      serve_events-IsServing log_failure info_body start (inl refl) es []
        (started h loaded file always) k
        (record { aof = new file always; same = refl; opened = refl; tracks = t; path = here }) in
    record {
      aof = w.aof;
      same = w.same;
      exact = exactly_once file loaded always _ _ w.path;
      durable = Reach-IsDurable start _ (record { policy = refl; synced = refl }) w.path;
    }
