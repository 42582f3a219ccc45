-- ===== src/System/Recovery.antt =====
-- main.go and store/aof.go: a server that rewrites its log, and one that starts from that log.
use mathlib.Core.Path.{subst}
use redis_glass.Prelude.{
  sym, length, suc, ◌-◌, ◌≤◌, append-nil, ◌++◌, inl, ℕ, ◌≡◌, refl, ap, ◌∙◌, arith, true, false,
  Option, none, some, List, [], ◌∷◌, All, Bytes, ℤ,
}
use redis_glass.Resp
use redis_glass.Store.Tracking.{TracksExpiry-new}
use redis_glass.Store.{Store, new}
use redis_glass.Store.Distinct.{IsMapped}
use redis_glass.Store.Distinct.Keeps.{perform-IsMapped}
use redis_glass.Aof.Recovery.Sizes.{longest_log, All-FitsCommand}
use redis_glass.Aof.Replay.{parse-nil, replay-encode_log, run_log, FitsCommand}
use redis_glass.Aof.Rewrite
use redis_glass.Aof.Rewrite.{FsyncPolicy, Aof, complete, rewrite_begin, rewrite_finish}
use redis_glass.Aof.Node.{here}
use redis_glass.Aof.{Command, encode_log, done, replay}
use redis_glass.Aof.Recovery.{SameCollections}
use redis_glass.Aof.Recovery.Reached.{Reach-Recovers}
use redis_glass.Aof.Snapshot.{snapshot_commands, write_snapshot}
use redis_glass.Aof.Compaction.Restores.{Restores, replay-write_snapshot}
use redis_glass.Commands.State.{Handler, Clock}
use redis_glass.System.Log.{node}
use redis_glass.System.Exact.{all_keep_open, started, IsPaired}
use redis_glass.System.ExactlyOnce.{serve_events-IsServing}
use redis_glass.System.{
  System, Event, begin_rewrite, end_rewrite, begin_with, begun, end_with, serve_event, serve_events,
}
use redis_glass.System.Keeps.{serve_events_keeps}

-- What the log file holds.
abbrev file_of : Option Aof → Bytes
file_of none = []
file_of (some a) = a.file

abbrev pub log_file : System → Bytes
log_file sys = file_of sys.handler.aof

-- A rewrite with nothing between its two halves.
abbrev pub rewrite : ℤ → List Event
rewrite now = begin_rewrite ∷ end_rewrite now complete ∷ []

rewrite_begin-idle :
    (s : Store) (a : Aof)
    → a.rewrite_running ≡ false
    → rewrite_begin s a
      ≡ some (s, record a { rewrite_running = true; rewriting = true; rewrite_buf = [] })
unfolding rewrite_begin
rewrite_begin-idle s a e = rw e

rewrite_finish-file :
    (now : ℤ) (s : Store) (a : Aof)
    → a.rewrite_buf ≡ []
    → (rewrite_finish now s complete a).file ≡ write_snapshot now s
unfolding rewrite_finish
rewrite_finish-file now s a e = ground (arith, append-nil (write_snapshot now s))

module _ (log_failure : Bytes) (info_body : Handler → Clock → Bytes) where
  log_file-rewrite :
      (now : ℤ) (sys : System) (a : Aof)
      → sys.handler.aof ≡ some a
      → a.rewrite_running ≡ false
      → log_file (serve_events log_failure info_body (rewrite now) sys)
        ≡ write_snapshot now sys.handler.store
  unfolding serve_events serve_event begin_with begun end_with
  log_file-rewrite now sys a e idle =
      rw (e, rewrite_begin-idle sys.handler.store a idle)
        (rewrite_finish-file now sys.handler.store _ refl)

  -- A server that started from a store whose maps hold each key once, whatever events it has served,
  -- rewrites its log where no rewrite is running; each command of the snapshot fits in memory. A server
  -- that replays this log at any times, empty at first and without a memory limit, has the lists and
  -- hashes of the first, and its string keys: those without an expiry as they were, those whose lifetime
  -- was over not at all, and the others with the whole milliseconds that were left, counted from a
  -- reading of the clock in the replay, or without any expiry where less than one was left.
  pub rewrite-Restores :
      (es : List Event) (start : System) (now : ℤ) (clock : ℕ → ℤ) (a : Aof)
      → IsMapped start.handler.store
      → (serve_events log_failure info_body es start).handler.aof ≡ some a
      → a.rewrite_running ≡ false
      → All FitsCommand
          (snapshot_commands now (serve_events log_failure info_body es start).handler.store)
      → (s : Store) × (replay clock
            (log_file (
              serve_events log_failure info_body
                (rewrite now)
                (serve_events log_failure info_body es start)))
            new
          ≡ done s)
        × Restores now clock (serve_events log_failure info_body es start).handler.store s
  rewrite-Restores es start now clock a m e idle fits =
      let sys = serve_events log_failure info_body es start in
      let (s, replayed, same) =
        replay-write_snapshot clock now sys.handler.store
          (serve_events_keeps IsMapped perform-IsMapped log_failure info_body es start m) fits in
      (s, ap (λ file. replay clock file new) (log_file-rewrite now sys a e idle) ∙ replayed, same)

-- A start from a log, at some times, leads to a state with the lists and hashes of another.
pub record IsRecoverable (clock : ℕ → ℤ) (file : Bytes) (s : Store) : Type 0 where
  pub store : Store
  pub replayed : replay clock file new ≡ done store
  pub same : SameCollections s store

logged-IsRecoverable :
    (clock : ℕ → ℤ) (cs : List Command) (s : Store)
    → length (encode_log cs) ≤ longest_log
    → ((k : ℕ) → SameCollections s (run_log k clock cs new))
    → IsRecoverable clock (encode_log cs) s
logged-IsRecoverable clock cs s h l =
    let n = suc (length (encode_log cs ++ [])) - length cs in
    record {
      store = run_log n clock cs new;
      replayed =
          ap (λ file. replay clock file new) (sym (append-nil (encode_log cs)))
          ∙ replay-encode_log clock cs [] new Resp.eof (All-FitsCommand cs h) parse-nil;
      same = l n;
    }

-- A server that starts empty and without a memory limit, on an empty log, and whose rewrites leave the
-- log open: after any sequence of requests, of any clients, ticks of the sampler and rewrites, a replay
-- of its log, at whatever later times, makes the lists and hashes that the server has. None of their
-- changes is lost, and none is there twice. The log is no longer than 2 ^ 44 bytes.
pub serve_events-IsRecoverable :
    (log_failure : Bytes) (info_body : Handler → Clock → Bytes) (h : Handler) (fsync : FsyncPolicy)
    (es : List Event) (clock : ℕ → ℤ)
    → all_keep_open es ≡ true
    → length (log_file (serve_events log_failure info_body es (started h new [] fsync)))
      ≤ longest_log
    → IsRecoverable clock
        (log_file (serve_events log_failure info_body es (started h new [] fsync)))
        (serve_events log_failure info_body es (started h new [] fsync)).handler.store
unfolding IsPaired
serve_events-IsRecoverable log_failure info_body h fsync es clock open_kept short =
    let start = node new (Rewrite.new [] fsync) none in
    let sys = serve_events log_failure info_body es (started h new [] fsync) in
    let w =
      serve_events-IsServing log_failure info_body start (inl refl) es [] (started h new [] fsync)
        open_kept
        (record {
          aof = Rewrite.new [] fsync;
          same = refl;
          opened = refl;
          tracks = TracksExpiry-new;
          path = here;
        }) in
    let r = Reach-Recovers fsync _ w.path in
    let file = ap file_of w.same ∙ r.on_file in
    subst (λ l. IsRecoverable clock l sys.handler.store) (sym file)
      (logged-IsRecoverable clock r.cmds sys.handler.store
        (subst (λ l. length l ≤ longest_log) file short) (λ k. r.leads k clock))
