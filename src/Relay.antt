-- ===== src/Relay.antt =====
-- relay.c: the client of the relay server, through which two adapters call each other.
pub mod Exchange
pub mod Connect
pub mod Procedure
