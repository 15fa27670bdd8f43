-- ===== src/Dma/Dispatch.antt =====
-- The DMA project's driver: what its tn_usb_hw.c has in place of the functions of LPC2146_USB, and
-- the part of tn_usb_int_func of its tn_user.c that is about DMA.
pub mod Requested
use usb_bulk.Prelude.{
  ℕ, zero, suc, ◌+◌, ◌*◌, ◌%◌, ◌^◌, bit_and, bit_or, Bool, Option, if◌then◌else◌, has_bits,
}
use usb_bulk.Bus.Regs.{re_ep, ep_ind, max_psize, dev_int_st, dev_int_clr, ep_rlzed}
use usb_bulk.Bus.Monad.{M, pure, ◌>>=◌, ◌>>◌, zoom}
use usb_bulk.Bus.Access.{Bus, read, write, wait_bits}
use usb_bulk.Hw.Memory.{Mem, half_at}
use usb_bulk.Hw.Command.{lpc_cmd_write}
use usb_bulk.Hw.Endpoint.{ep_set_status, ep_num_lg2ph}
use usb_bulk.Hw.Device.{dev_set_address, dev_set_mode, configure_device, reset_registers}
use usb_bulk.Control.State.{Device, on_bus, reset_data}
use usb_bulk.Kernel.Scheduler.{Scheduler}
use usb_bulk.Kernel.Fifo.{Dque}
use usb_bulk.Kernel.Pool.{Fmp, Cells}
use usb_bulk.Dma.{
  DmaAddr, DmaEndpoint, ep_dma_en, eot_int_clr, nddr_int_clr, tn_usb_dma_rx_init,
  tn_usb_dma_tx_init, ep_rx_end_of_transfer, ep_rx_dd_request, ep_tx_int_dd_request,
}

-- rUSBDMARClr, rUSBUDCAH, rUSBEpDMADis, rUSBDMAIntSt, rUSBDMAIntEn, rUSBEoTIntSt, rUSBNDDRIntSt and
-- rUSBSysErrIntClr
abbrev pub dmar_clr : ℕ
dmar_clr = 0xE0090054

abbrev pub udca_h : ℕ
udca_h = 0xE0090080

abbrev pub ep_dma_dis : ℕ
ep_dma_dis = 0xE009008C

abbrev pub dma_int_st : ℕ
dma_int_st = 0xE0090090

abbrev pub dma_int_en : ℕ
dma_int_en = 0xE0090094

abbrev pub eot_int_st : ℕ
eot_int_st = 0xE00900A0

abbrev pub nddr_int_st : ℕ
nddr_int_st = 0xE00900AC

abbrev pub sys_err_int_clr : ℕ
sys_err_int_clr = 0xE00900BC

abbrev pub udca_base : ℕ
udca_base = 0x7FD00000

unfoldable pub set_addr : ℕ → M Bus (Unit {0})
set_addr addr = do
  lpc_cmd_write dev_set_address (bit_or 0x80 (bit_and addr 0xFF))
  lpc_cmd_write dev_set_mode 32

-- The rounds of the loop that are left, from the endpoint `n` with the bit `mask`.
unfoldable pub configure_loop : ℕ → ℕ → ℕ → M Bus (Unit {0})
configure_loop zero n mask = pure tt
configure_loop (suc k) n mask =
    let rest = configure_loop k (n + 1) (mask * 2 % 2 ^ 32) in
    do
      enabled ← read ep_dma_en
      if has_bits enabled mask then lpc_cmd_write (bit_or ep_set_status n) 0 else pure tt
      rest

unfoldable pub configure : Bool → M Bus (Unit {0})
unfolding configure_loop configure_device
configure mode = do configure_loop 32 0 1; configure_device mode

-- `p` points at an endpoint descriptor.
unfoldable pub config_ep : Mem → ℕ → M Bus (Unit {0})
config_ep m p = do
  let ep_num_phys = ep_num_lg2ph (bit_and (m (p + 2)) 0x8F)
  old ← read re_ep
  write re_ep (bit_or old (2 ^ ep_num_phys))
  write ep_ind ep_num_phys
  write max_psize (half_at m (p + 4))
  _ ← wait_bits dev_int_st ep_rlzed
  write dev_int_clr ep_rlzed
  lpc_cmd_write (bit_or ep_set_status ep_num_phys) 0
  lpc_cmd_write (bit_or ep_set_status ep_num_phys) 0
  write ep_dma_en (2 ^ ep_num_phys)

-- What tn_usb_int_reset does before tn_usb_reset_data.
unfoldable pub reset_dma : M Bus (Unit {0})
unfolding reset_registers
reset_dma = do
  reset_registers
  write dma_int_en 0
  write udca_h udca_base
  write dmar_clr 0xFFFFFFFF
  write ep_dma_dis 0xFFFFFFFF
  write ep_dma_en 0
  write eot_int_clr 0xFFFFFFFF
  write nddr_int_clr 0xFFFFFFFF
  write sys_err_int_clr 0xFFFFFFFF

-- What an EP_DMA_INFO has of its own.
pub record DmaInfo : Type 0 where
  pub ep_dma_addr : DmaAddr
  pub p_udca_pos : ℕ
  pub queue : Option Dque
  pub mem_pool : Option Fmp
  pub ep_num_phys : ℕ

-- gUSBInfo with the registers; gEP2RX_EDI, gEP2TX_EDI, gEP5RX_EDI and gEP5TX_EDI; the USB RAM with
-- the memory of the pools; and the tasks.
pub record DmaDriver (S : Type 0) : Type 0 where
  pub device : Device
  pub ep2_rx : DmaInfo
  pub ep2_tx : DmaInfo
  pub ep5_rx : DmaInfo
  pub ep5_tx : DmaInfo
  pub cells : Cells
  pub tasks : S

module _ {S : Type 0} where
  abbrev pub on_device : {A : Type 0} → M Device A → M (DmaDriver S) A
  on_device m = zoom (λ d. d.device) (λ e d. record d { device = e }) m

  abbrev pub on_registers : {A : Type 0} → M Bus A → M (DmaDriver S) A
  on_registers m = on_device (on_bus m)

  -- An endpoint with what it shares with the others.
  abbrev pub seen : DmaInfo → DmaDriver S → DmaEndpoint S
  seen e d = record {
    bus = d.device.bus;
    cells = d.cells;
    ep_dma_addr = e.ep_dma_addr;
    p_udca_pos = e.p_udca_pos;
    queue = e.queue;
    mem_pool = e.mem_pool;
    ep_num_phys = e.ep_num_phys;
    tasks = d.tasks;
  }

  abbrev pub info : DmaEndpoint S → DmaInfo
  info e = record {
    ep_dma_addr = e.ep_dma_addr;
    p_udca_pos = e.p_udca_pos;
    queue = e.queue;
    mem_pool = e.mem_pool;
    ep_num_phys = e.ep_num_phys;
  }

  abbrev pub shared : DmaEndpoint S → DmaDriver S → DmaDriver S
  shared e d = record d {
    device = record d.device { bus = e.bus };
    cells = e.cells;
    tasks = e.tasks;
  }

  abbrev pub on_ep2_rx : M (DmaEndpoint S) (Unit {0}) → M (DmaDriver S) (Unit {0})
  on_ep2_rx m = zoom (λ d. seen d.ep2_rx d) (λ e d. record (shared e d) { ep2_rx = info e }) m

  abbrev pub on_ep2_tx : M (DmaEndpoint S) (Unit {0}) → M (DmaDriver S) (Unit {0})
  on_ep2_tx m = zoom (λ d. seen d.ep2_tx d) (λ e d. record (shared e d) { ep2_tx = info e }) m

  abbrev pub on_ep5_rx : M (DmaEndpoint S) (Unit {0}) → M (DmaDriver S) (Unit {0})
  on_ep5_rx m = zoom (λ d. seen d.ep5_rx d) (λ e d. record (shared e d) { ep5_rx = info e }) m

  abbrev pub on_ep5_tx : M (DmaEndpoint S) (Unit {0}) → M (DmaDriver S) (Unit {0})
  on_ep5_tx m = zoom (λ d. seen d.ep5_tx d) (λ e d. record (shared e d) { ep5_tx = info e }) m

  unfoldable pub int_reset : M (DmaDriver S) (Unit {0})
  unfolding reset_dma tn_usb_dma_rx_init tn_usb_dma_tx_init
  int_reset = do
    on_registers reset_dma
    on_device reset_data
    on_ep2_rx tn_usb_dma_rx_init
    on_ep2_tx tn_usb_dma_tx_init
    on_ep5_rx tn_usb_dma_rx_init
    on_ep5_tx tn_usb_dma_tx_init
    on_registers (write dma_int_en 3)

module _ {S : Type 0} (sched : Scheduler S) where
  -- The branch for End_of_transfer; the bits are those of EP2_RX, EP2_TX, EP5_RX and EP5_TX.
  unfoldable pub end_of_transfer : M (DmaDriver S) (Unit {0})
  unfolding ep_rx_end_of_transfer
  end_of_transfer = do
    status ← on_registers (read eot_int_st)
    if has_bits status 0x10 then on_ep2_rx (ep_rx_end_of_transfer sched) else pure tt
    if has_bits status 0x20 then on_registers (write eot_int_clr 0x20) else pure tt
    if has_bits status 0x400 then on_ep5_rx (ep_rx_end_of_transfer sched) else pure tt
    if has_bits status 0x800 then on_registers (write eot_int_clr 0x800) else pure tt

  -- The branch for DD_request
  unfoldable pub dd_request : M (DmaDriver S) (Unit {0})
  unfolding ep_rx_dd_request ep_tx_int_dd_request
  dd_request = do
    status ← on_registers (read nddr_int_st)
    if has_bits status 0x10 then on_ep2_rx ep_rx_dd_request else pure tt
    if has_bits status 0x20 then on_ep2_tx (ep_tx_int_dd_request sched) else pure tt
    if has_bits status 0x400 then on_ep5_rx ep_rx_dd_request else pure tt
    if has_bits status 0x800 then on_ep5_tx (ep_tx_int_dd_request sched) else pure tt

  -- The part behind the branch for EP_SLOW
  unfoldable pub dma_int : M (DmaDriver S) (Unit {0})
  unfolding end_of_transfer dd_request
  dma_int = do
    first ← on_registers (read dma_int_st)
    if has_bits first 4 then (do _ ← on_registers (read eot_int_st); pure tt) else pure tt
    second ← on_registers (read dma_int_st)
    if has_bits second 1 then end_of_transfer else pure tt
    third ← on_registers (read dma_int_st)
    if has_bits third 2 then dd_request else pure tt
