-- ===== src/OrderedBytes.antt =====
-- bluefin/src/net/ordered_bytes.rs: the reassembly buffer of a connection. `Defs` has the buffer and
-- what fills it, `Consume` the two ways to drain it; the rest are proofs.
pub mod Defs
pub mod Consume
pub mod Slots
pub mod Stream
pub mod Loop
pub mod Read
pub mod Insert
pub mod Pushes
pub mod Chunks
pub mod Reassemble
pub mod Rows
unfoldable pub use Defs.*
unfoldable pub use Consume.*
