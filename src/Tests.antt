-- ===== src/Tests.antt =====
-- The properties' theorems at concrete inputs.
pub mod Inputs
pub mod Requests
pub mod Storage
pub mod Scheduling
pub mod Objects
pub mod Mutexes
pub mod Packets
pub mod Interrupts
pub mod Strings
pub mod Dma
