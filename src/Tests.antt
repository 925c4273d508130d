-- ===== src/Tests.antt =====
-- The theorems at concrete inputs: a small configuration of one master and two virtuals.
mod Setup
mod Nodes
mod Transfer
mod Relay
mod Connect
mod Running
mod Daemon
mod Main
mod End
