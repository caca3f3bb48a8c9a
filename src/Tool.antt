-- ===== src/Tool.antt =====
-- bluefintool/src/main.rs: the command line tool. `Pipe` is the loop between the terminal and a
-- connection.
pub mod Pipe
pub mod Flow
pub mod Turns
pub mod Ending
pub mod Runs
pub mod Args
pub mod Items
