-- ===== src/Header.antt =====
-- bluefin/src/core/header.rs: the packet header. `Kind` has the packet types, `Security` the
-- security byte, `Defs` the header and its two serialisers; `Wire` and `Write` are their proofs.
pub mod Kind
pub mod Security
pub mod Defs
pub mod Wire
pub mod Exact
pub mod Write
unfoldable pub use Kind.*
unfoldable pub use Defs.*
