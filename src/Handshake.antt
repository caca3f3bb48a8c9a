-- ===== src/Handshake.antt =====
-- bluefin-proto/src/handshake/state_machine.rs and the tests on handshake packets in
-- bluefin/src/net/mod.rs. `Defs` has the handler, `Hello` the packets, `Runs` is about its calls.
pub mod Defs
pub mod Hello
pub mod Runs
unfoldable pub use Defs.*
unfoldable pub use Hello.*
