-- ===== src/Dispatch.antt =====
-- The interrupt of the USB controller: tn_usb_int_func of LPC2146_USB/usb_tests/tn_user.c, with
-- tn_usb_int_con_ch, tn_usb_int_suspend and tn_usb_int_resume of tn_usb_hw.c.
pub mod Reset
use usb_bulk.Prelude.{ℕ, Option, if◌then◌else◌, has_bits}
use usb_bulk.Bus.Regs.{dev_int_st, dev_int_clr, ep_int_st, dev_stat, ep_slow}
use usb_bulk.Bus.Monad.{M, pure, ◌>>=◌, ◌>>◌, zoom}
use usb_bulk.Bus.Access.{Bus, read, write}
use usb_bulk.Hw.Command.{lpc_cmd_read}
use usb_bulk.Hw.Device.{dev_status}
use usb_bulk.Control.State.{Device, on_bus}
use usb_bulk.Control.Interrupt.{int_reset, ep0_tx_int, ep0_rx_int}
use usb_bulk.Kernel.Scheduler.{Scheduler}
use usb_bulk.Kernel.Fifo.{Dque}
use usb_bulk.Kernel.Pool.{Fmp, Cells}
use usb_bulk.Bulk.{Endpoint, ep_rx_int, ep_tx_int}

-- EP_INFO
pub record EpInfo : Type 0 where
  pub queue : Option Dque
  pub mem_pool : Option Fmp
  pub ep_num_phys : ℕ

-- gUSBInfo with the registers; gEP2RX_EI, gEP2TX_EI, gEP5RX_EI and gEP5TX_EI; the memory of the
-- pools, which is apart from that of endpoint 0; and the tasks.
pub record Driver (S : Type 0) : Type 0 where
  pub device : Device
  pub ep2_rx : EpInfo
  pub ep2_tx : EpInfo
  pub ep5_rx : EpInfo
  pub ep5_tx : EpInfo
  pub cells : Cells
  pub tasks : S

-- RST, SUS, SUS_CH and CON_CH of the device's status
abbrev pub rst : ℕ
rst = 16

abbrev pub sus : ℕ
sus = 4

abbrev pub sus_ch : ℕ
sus_ch = 8

abbrev pub con_ch : ℕ
con_ch = 2

abbrev pub vic_vect_addr : ℕ
vic_vect_addr = 0xFFFFF030

-- tn_usb_int_suspend and tn_usb_int_resume do nothing.
unfoldable pub int_suspend : M Device (Unit {0})
int_suspend = pure tt

unfoldable pub int_resume : M Device (Unit {0})
int_resume = pure tt

unfoldable pub int_con_ch : ℕ → M Device (Unit {0})
int_con_ch status = int_reset

-- The branch for DEV_STAT
unfoldable pub device_status : M Device (Unit {0})
unfolding int_suspend int_resume int_con_ch
device_status = do
  status ← on_bus (lpc_cmd_read dev_status)
  if has_bits status rst then int_reset else pure tt
  if has_bits status sus_ch
      then (if has_bits status sus then int_suspend else int_resume)
      else pure tt
  if has_bits status con_ch then int_con_ch status else pure tt
  on_bus (write dev_int_clr dev_stat)

-- The part of the branch for EP_SLOW that is about endpoint 0
unfoldable pub control_endpoint : ℕ → ℕ → M Device (Unit {0})
control_endpoint fuel status =
    if has_bits status 1 then ep0_rx_int fuel else if has_bits status 2 then ep0_tx_int else pure tt

module _ {S : Type 0} where
  abbrev pub on_device : {A : Type 0} → M Device A → M (Driver S) A
  on_device m = zoom (λ d. d.device) (λ e d. record d { device = e }) m

  -- An endpoint with what it shares with the others.
  abbrev pub seen : EpInfo → Driver S → Endpoint S
  seen e d = record {
    bus = d.device.bus;
    cells = d.cells;
    queue = e.queue;
    mem_pool = e.mem_pool;
    ep_num_phys = e.ep_num_phys;
    tasks = d.tasks;
  }

  abbrev pub info : Endpoint S → EpInfo
  info e = record { queue = e.queue; mem_pool = e.mem_pool; ep_num_phys = e.ep_num_phys }

  abbrev pub shared : Endpoint S → Driver S → Driver S
  shared e d = record d {
    device = record d.device { bus = e.bus };
    cells = e.cells;
    tasks = e.tasks;
  }

  abbrev pub on_ep2_rx : M (Endpoint S) (Unit {0}) → M (Driver S) (Unit {0})
  on_ep2_rx m = zoom (λ d. seen d.ep2_rx d) (λ e d. record (shared e d) { ep2_rx = info e }) m

  abbrev pub on_ep2_tx : M (Endpoint S) (Unit {0}) → M (Driver S) (Unit {0})
  on_ep2_tx m = zoom (λ d. seen d.ep2_tx d) (λ e d. record (shared e d) { ep2_tx = info e }) m

  abbrev pub on_ep5_rx : M (Endpoint S) (Unit {0}) → M (Driver S) (Unit {0})
  on_ep5_rx m = zoom (λ d. seen d.ep5_rx d) (λ e d. record (shared e d) { ep5_rx = info e }) m

  abbrev pub on_ep5_tx : M (Endpoint S) (Unit {0}) → M (Driver S) (Unit {0})
  on_ep5_tx m = zoom (λ d. seen d.ep5_tx d) (λ e d. record (shared e d) { ep5_tx = info e }) m

module _ {S : Type 0} (sched : Scheduler S) where
  -- The branch for EP_SLOW; the bits are those of EP2_RX, EP2_TX, EP5_RX and EP5_TX.
  unfoldable pub endpoints : ℕ → M (Driver S) (Unit {0})
  endpoints fuel = do
    status ← on_device (on_bus (read ep_int_st))
    on_device (control_endpoint fuel status)
    if has_bits status 0x10 then on_ep2_rx (ep_rx_int sched) else pure tt
    if has_bits status 0x20 then on_ep2_tx (ep_tx_int sched) else pure tt
    if has_bits status 0x400 then on_ep5_rx (ep_rx_int sched) else pure tt
    if has_bits status 0x800 then on_ep5_tx (ep_tx_int sched) else pure tt
    on_device (on_bus (write dev_int_clr ep_slow))

  unfoldable pub int_func : ℕ → M (Driver S) (Unit {0})
  int_func fuel = do
    first ← on_device (on_bus (read dev_int_st))
    if has_bits first dev_stat then on_device device_status else pure tt
    second ← on_device (on_bus (read dev_int_st))
    if has_bits second ep_slow then endpoints fuel else pure tt
    on_device (on_bus (write vic_vect_addr 0))
