-- ===== src/Receive.antt =====
-- bluefin/src/worker/conn_reader.rs and reader.rs: the tasks that take datagrams from a socket to the
-- buffers of a connection, and the reader that hands the bytes on.
pub mod Defs
pub mod Read
pub mod Route
pub mod Data
pub mod Closing
pub mod Eof
pub mod Reads
pub mod Hellos
pub mod Run
pub mod Routes
pub mod Tasks
unfoldable pub use Defs.*
