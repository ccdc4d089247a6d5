-- ===== src/Tests.antt =====
-- Runs of the program's parts on concrete inputs.
mod Serial
mod Names
mod Lookups
mod Rounds
mod Samples
mod Calls
mod Stored
pub mod Whole
pub mod Log
