-- ===== src/Window.antt =====
-- bluefin/src/utils/window.rs: the sliding window of acknowledged packet numbers. `Defs` has the
-- code, `Sorted` the lists it keeps; `Insert`, `Range` and `Consume` are the operations' proofs.
pub mod Defs
pub mod Sorted
pub mod Insert
pub mod Range
pub mod Consume
unfoldable pub use Defs.*
