-- ===== src/Lib.antt =====
-- redis-glass: an in-memory key-value server that speaks RESP, with expiry, a memory ceiling, an
-- append-only file and an observability recorder.
--
-- The parts and how they interact. A connection (server/server.go) parses one command after another
-- (resp/parser.go), refuses what its client may not do, and passes the rest on to the handlers
-- (commands/handler.go), which work on the store (store/store.go), append each mutation to the log
-- (store/aof.go), reply (resp/writer.go), and report the command to the recorder (events/events.go).
-- A sampler deletes expired keys beside them, and a rewrite compacts the log beside them. main.go reads
-- the environment, replays the log and starts these parts, and a dashboard (monitor/dashboard.go)
-- that shows what the recorder has.
--
-- The files, by the code that they model:
--   Resp          resp/parser.go (`Parse`, `readLine`, `readFull`) and resp/writer.go
--   Store         store/store.go: the state and the operations on string keys; `Store.Lists`,
--                 `Store.Hashes`, `Store.Keys` (`Keys`, `Scan`) and `Store.Sampler` (`sampleExpire`)
--   Aof           store/aof.go: the encoding and `Replay`; `Aof.Snapshot` (`writeSnapshot`),
--                 `Aof.Rewrite` (`writeLocked`, `Rewrite`), `Aof.Durable` (`Sync` and the ticks of
--                 the loops), and `Aof.Node`, which interleaves them
--   Events        events/events.go: `Record`; `Events.Latency`, `Events.Hotness`,
--                 `Events.SlowQueries`, `Events.Redaction`, `Events.Stream` and
--                 `Events.CommandStats`
--   Commands      commands/handler.go: `Commands.State` (`mutateAndLog`), the handlers in
--                 `Commands.Strings`, `Commands.Collections` and `Commands.Observe`, the text of
--                 INFO in `Commands.Info`, and `Commands.Dispatch` (`Handle`)
--   Server        server/server.go: `readAndHandle` and `handleConn`, and `Run` in `Server.Listener`;
--                 `Server.Stranger` says what a client without the password sends
--   System        the server as a whole: requests, ticks of the sampler and the two halves of a
--                 rewrite, as events in any order; `System.Trace` specifies which of the requests
--                 are mutations that succeed, by what a replay of their commands would do
--   Config        main.go: the environment; store/aof.go: `ParseFsyncPolicy`
--   Startup       main.go: `main`, up to the loops, and its end
--   Dashboard     monitor/dashboard.go: `StartDashboard`, `requireAuth`, `serveMonitorStream`, and
--                 in `Dashboard.Escape` and `Dashboard.Page` the script of the page
--   Prelude       what these share: numbers, texts, maps and decimals
--   Tests         the theorems at concrete inputs
-- The other modules hold the proofs, and are named for what they are about.
--
-- State and operations. A record stands for each struct, with the source's fields (the field `data` of
-- the store is `strings`); a Go map is an association list, in which an insertion replaces; a method
-- is a function from a state to its result and the new state, with the times at which it reads the
-- clock as arguments. A method that takes its lock twice is two functions (`get_read` and
-- `get_finish`, `rewrite_begin` and `rewrite_finish`). Where the run-time chooses an order of
-- iteration that matters (`sampleExpire`), the order is an argument. Texts are lists of bytes.
--
-- Numbers. Lengths and counts are natural numbers; what the source computes in 64 bits wraps here
-- (`wrap`). Times are nanoseconds; the recorder's are seconds and microseconds.
--
-- Bounds and fuel. `parse` has as much fuel as its input has bytes, and one more, since a nested value
-- stands behind a line of its own. `replay` and `handle_conn` have as much fuel as there are bytes,
-- and one more, since each turn takes a byte. `make` panics above 2^48 bytes, the address space of
-- the run-time; the longest log that is considered for a restart has 2^44 bytes (16 terabytes).
-- A list of 500 elements or a hash of 500 fields is one chunk of a snapshot, as in the source.
--
-- Parameters. The text of INFO in the dispatch, and in that text (`Commands.Info`) the version of the
-- run-time and how a float is printed; the text of an error of the operating system; the handler that
-- `http.ServeMux` picks and the function SHA-256; how a browser prints times, durations and widths;
-- the environment, the content of the log file, and whether the port and the certificate can be had.
--
-- Assumptions. Letters change case, and fields are split and trimmed, as in ASCII. A write to an open
-- file succeeds as a whole, with its fsync, and one to a closed file fails; writes to a client
-- succeed. `Parse` calls itself for each level of nested arrays, and is taken not to meet the run-time's
-- limit on the stack, which no recovery catches. What the log file holds at the start is on the disk. In `System` each request is one event:
-- the two halves of `Get` and of `TTL`, between which another request may come, are one step there
-- (`Store` has them as two), and the replay is over before the first event.
--
-- Not modelled: the opening of the port and TLS, the HTTP server, JSON, and the text of the
-- dashboard's page (input and output only); the timers of `sampleExpire`, of the fsync and of
-- the automatic rewrite, of which each turn is modelled; and `Close` of the log, which `main`
-- does not call.
pub mod Prelude
pub mod Resp
pub mod Store
pub mod Aof
pub mod Events
pub mod Commands
pub mod Server
pub mod System
pub mod Config
pub mod Startup
pub mod Dashboard
pub mod Tests
