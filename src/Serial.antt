-- ===== src/Serial.antt =====
-- serial.c and serial.h: the byte-wise state machine of the link cable.
pub mod Types
pub mod Incoming
pub mod Outgoing
pub mod Transfer
pub mod Bounds
pub mod Safety
pub mod Receive
pub mod Packet
pub mod Send
pub mod Response
pub mod Turns
pub mod Diagram
pub mod Damage
pub mod Word
