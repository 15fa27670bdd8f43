-- ===== src/Bus.antt =====
-- The registers of the USB controller, and programs that read and write them.
pub mod Regs
pub mod Monad
pub mod Access
pub mod Ready
