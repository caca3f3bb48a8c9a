-- ===== src/Ring.antt =====
-- bluefin/src/utils/ring_buffer.rs: the ring of fixed capacity. `Defs` has the code, `Contents` the
-- sequence of its elements, `Deque` the operations on it.
pub mod Defs
pub mod Contents
pub mod Deque
unfoldable pub use Defs.*
