-- ===== src/Debug.antt =====
-- debug.c: the lines of the debug log.
pub mod Line
pub mod Command
pub mod Text
pub mod Log
pub mod Slice
pub mod Parts
pub mod Inside
pub mod Relay
pub mod Heard
