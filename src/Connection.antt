-- ===== src/Connection.antt =====
-- bluefin/src/net/connection.rs: `BluefinConnection`, over the reader, the writer and the buffers.
pub mod Defs
pub mod Exchange
