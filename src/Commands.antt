-- ===== src/Commands.antt =====
-- commands.c: the commands of the game.
pub mod Base
pub mod Session
pub mod Query
pub mod Internet
pub mod Transfer
pub mod Tel
pub mod WaitCall
pub mod Lookup
pub mod Process
pub mod Confined
