-- ===== src/Frames.antt =====
-- What each handler of a command leaves alone.
pub mod Tel
pub mod WaitCall
pub mod Internet
pub mod Prompt
