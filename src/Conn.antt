-- ===== src/Conn.antt =====
-- bluefin/src/net/connection.rs and ack_handler.rs: the buffers of a connection, and its close.
-- `Defs` and `Acks` have the buffers, and `Manager` the map in which a host finds them.
pub mod Defs
pub mod Acks
pub mod Manager
unfoldable pub use Defs.*
unfoldable pub use Acks.*
