-- ===== src/Close.antt =====
-- bluefin/src/net/close_handler.rs: the graceful close of a connection. `Defs` has the buffer and
-- its operations; `Runs` is about sequences of them.
pub mod Defs
pub mod Runs
unfoldable pub use Defs.*
