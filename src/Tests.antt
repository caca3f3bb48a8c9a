-- ===== src/Tests.antt =====
-- Runs of the model on concrete input, and the theorems at concrete input.
mod Wire
mod Datagrams
mod Windows
mod Rings
mod Sending
mod Reassembly
mod Receiving
mod Flushing
mod Delivery
mod Commands
mod Connections
