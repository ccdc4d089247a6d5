-- ===== src/Sockets.antt =====
-- The sockets that the library holds open, as the embedding program sees them.
pub mod Ledger
pub mod Session
pub mod Frame
pub mod Relay
pub mod Procedure
pub mod Tel
pub mod WaitCall
pub mod Connect
pub mod Query
pub mod Started
pub mod Lookup
pub mod Start
pub mod Prompt
pub mod Transfer
pub mod Stream
pub mod Targets
pub mod Rounds
pub mod Finished
