-- ===== src/Writer.antt =====
-- bluefin/src/worker/writer.rs: the sending side of a connection. `Defs` packs queued payloads into
-- datagrams, `Acks` does the same for acks; `Chunk`, `Pack`, `Fill`, `Datagram`
-- and `AckRow` are proofs. `Control` is about the packets of the close.
pub mod Defs
pub mod Acks
pub mod Chunk
pub mod Pack
pub mod Fill
pub mod Datagram
pub mod AckRow
pub mod Pump
pub mod AckPump
pub mod AckKeeps
pub mod AckFlow
pub mod Control
unfoldable pub use Defs.*
unfoldable pub use Acks.*
