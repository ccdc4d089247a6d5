-- ===== src/Mobile.antt =====
-- mobile.c: the adapter as a whole.
pub mod Handle
pub mod Actions
pub mod Loop
pub mod Stopping
pub mod Transfers
pub mod Loopback
