-- ===== src/Commands.antt =====
-- commands/handler.go: the dispatch of a command, the handlers, and the log behind each mutation. A
-- handler returns the bytes of its reply. It reads only the `Str` of an argument, so the arguments
-- are texts here (`argStrings`). The handlers are in the modules below.
pub mod State
pub mod Strings
pub mod Collections
pub mod Observe
pub mod Info
pub mod Dispatch
pub mod Moves
