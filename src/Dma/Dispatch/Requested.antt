-- ===== src/Dma/Dispatch/Requested.antt =====
-- The DMA interrupt of an endpoint that asks for a descriptor to receive to.
use usb_bulk.Bus.Access.{Answers, bus}
use usb_bulk.Kernel.Scheduler.{Scheduler}
use usb_bulk.Dma.Dispatch.{DmaDriver}

abbrev pub at_input : {S : Type 0} → Answers → DmaDriver S → DmaDriver S
at_input i d = record d { device = record d.device { bus = bus i d.device.bus.trace } }
