-- ===== src/Hosts.antt =====
-- bluefin/src/net/server.rs and client.rs: the two sides of a handshake. `Defs` has what `accept()` and
-- `connect()` do between their awaits, and `Start` is about the numbers that they agree on.
pub mod Defs
pub mod Start
unfoldable pub use Defs.*
