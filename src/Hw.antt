-- ===== src/Hw.antt =====
-- The hardware layer of the driver, LPC2146_USB/usb_tests/tn_usb_hw.c, and its memory.
pub mod Memory
pub mod Command
pub mod Endpoint
pub mod Device
pub mod Engine
pub mod Answered
pub mod Settings
pub mod Transfer
