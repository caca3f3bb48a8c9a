-- ===== src/Packet.antt =====
-- bluefin/src/core/packet.rs: packets, and the datagrams that hold a row of them. `Defs` has the
-- packet and its serialisers, `Parse` the two datagram parsers; the rest are proofs.
pub mod Defs
pub mod Parse
pub mod Wire
pub mod RoundTrip
pub mod Exact
pub mod Datagram
pub mod Total
unfoldable pub use Defs.*
unfoldable pub use Parse.*
