-- ===== src/Control.antt =====
-- Control transfers over endpoint 0: LPC2146_USB/usb_tests/tn_usb_req.c, and the two handlers of
-- endpoint 0 in tn_usb_ep.c.
pub mod State
pub mod Scan
pub mod Request
pub mod Interrupt
pub mod Configuration
pub mod Descriptor
pub mod Packet
pub mod Refused
pub mod Data
pub mod Enumerate
