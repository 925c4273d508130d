-- ===== src/Serial.antt =====
-- src/serial.c: the nodes, their links, the proxy's reads and writes, and the periodic work.
pub mod Nodes
pub mod Device
pub mod Link
pub mod Transfer
pub mod Upkeep
pub mod Sound
pub mod Relay
