-- ===== src/Examples.antt =====
-- Boards and states at which the theorems apply.
mod Boards
mod Transmit
mod Receive
mod Host
mod Commands
mod System
mod Start
mod Memory
mod Chips
mod Packets
