-- ===== src/Dns.antt =====
-- dns.c: asking a name server for an address.
pub mod Name
pub mod Query
pub mod Request
pub mod Defects
pub mod Bounds
pub mod Text
pub mod Labels
pub mod Echo
pub mod Asked
pub mod Answer
pub mod Resolved
pub mod Wrapped
