-- ===== src/Kernel.antt =====
-- The kernel, TNKernel.
pub mod Code
pub mod Links
pub mod Ready
pub mod Scheduler
pub mod Fifo
pub mod Task
pub mod Queue
pub mod Pool
pub mod Sem
pub mod Event
pub mod Ticks
pub mod Steps
pub mod Mutex
pub mod Delete
