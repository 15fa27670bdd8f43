-- ===== src/Bulk.antt =====
-- The handlers of a bulk endpoint: tn_usb_ep_rx_int and tn_usb_ep_tx_int of
-- LPC2146_USB/usb_tests/tn_usb_ep.c, over the kernel's queue and pool.
pub mod Received
pub mod Sent
use usb_bulk.Prelude.{
  ℕ, ◌+◌, ◌/◌, ◌^◌, bit_or, Bool, true, Option, none, some, List, [], ◌∷◌, if◌then◌else◌, has_bits,
}
use usb_bulk.Bus.Regs.{ctrl, rx_plen, tx_plen, ep_int_clr, rd_en, wr_en, pkt_rdy}
use usb_bulk.Bus.Monad.{M, pure, ◌>>=◌, ◌>>◌, zoom}
use usb_bulk.Bus.Access.{Bus, write, wait_bits, drain_words, fill_words}
use usb_bulk.Hw.Memory.{shl}
use usb_bulk.Hw.Command.{lpc_cmd, lpc_cmd_read}
use usb_bulk.Hw.Endpoint.{ep_select, ep_clear_buffer, ep_validate_buffer}
use usb_bulk.Hw.Device.{usb_max_packet0}
use usb_bulk.Control.Interrupt.{ep_select_clear}
use usb_bulk.Kernel.Scheduler.{Scheduler}
use usb_bulk.Kernel.Fifo.{Dque}
use usb_bulk.Kernel.Queue.{tn_queue_isend_polling, tn_queue_ireceive}
use usb_bulk.Kernel.Pool.{Fmp, Cells, put_cell, tn_fmem_get_ipolling, tn_fmem_irelease}

-- EP_INFO with what it points to, the registers, memory, and the tasks' state `S`. A buffer is read
-- and written in whole cells.
pub record Endpoint (S : Type 0) : Type 0 where
  pub bus : Bus
  pub cells : Cells
  pub queue : Option Dque
  pub mem_pool : Option Fmp
  pub ep_num_phys : ℕ
  pub tasks : S

-- `*ptr1++ = ...` for each word
abbrev pub store_cells : Cells → ℕ → List ℕ → Cells
store_cells m p [] = m
store_cells m p (w ∷ ws) = store_cells (put_cell m p w) (p + 4) ws

-- The packet that the controller holds, and tn_usb_ep_rx_enable.
unfoldable pub read_packet : ℕ → M Bus (List ℕ)
read_packet ep = do
  write ctrl (bit_or rd_en (shl (ep / 2) 2))
  _ ← wait_bits rx_plen pkt_rdy
  ws ← drain_words
  write ctrl 0
  lpc_cmd (bit_or ep_select ep)
  lpc_cmd ep_clear_buffer
  pure ws

unfoldable pub write_packet : Cells → ℕ → ℕ → M Bus (Unit {0})
write_packet m ep p = do
  write ctrl (bit_or wr_en (shl (ep / 2) 2))
  write tx_plen usb_max_packet0
  fill_words m p
  write ctrl 0
  lpc_cmd (bit_or ep_select ep)
  lpc_cmd ep_validate_buffer

module _ {S : Type 0} where
  abbrev pub on_bus : {A : Type 0} → M Bus A → M (Endpoint S) A
  on_bus m = zoom (λ e. e.bus) (λ b e. record e { bus = b }) m

  abbrev pub get : M (Endpoint S) (Endpoint S)
  get e = some (e, e)

module _ {S : Type 0} (sched : Scheduler S) where
  -- tn_fmem_get_ipolling gives a block just when its code is TERR_NO_ERR.
  unfoldable pub get_block : M (Endpoint S) (Option ℕ)
  get_block e =
      let (rc, out, pool) = tn_fmem_get_ipolling sched e.mem_pool true e.cells e.tasks in
      some (out, record e { mem_pool = pool })

  unfoldable pub put_block : ℕ → M (Endpoint S) (Unit {0})
  put_block p e =
      let (rc, pool, m, s) = tn_fmem_irelease sched e.mem_pool p e.cells e.tasks in
      some (tt, record e { mem_pool = pool; cells = m; tasks = s })

  -- The result of tn_queue_isend_polling is not looked at.
  unfoldable pub send_block : ℕ → M (Endpoint S) (Unit {0})
  send_block p e =
      let (rc, queue, s) = tn_queue_isend_polling sched e.queue p e.tasks in
      some (tt, record e { queue = queue; tasks = s })

  -- tn_queue_ireceive gives an element just when its code is TERR_NO_ERR.
  unfoldable pub receive_block : M (Endpoint S) (Option ℕ)
  receive_block e =
      let (rc, out, queue, s) = tn_queue_ireceive sched e.queue true e.tasks in
      some (out, record e { queue = queue; tasks = s })

  -- The packet goes to the block `p`, and `p` to the queue.
  unfoldable pub read_to : ℕ → M (Endpoint S) (Unit {0})
  read_to p = do
    e ← get
    ws ← on_bus (read_packet e.ep_num_phys)
    λ e. some (tt, record e { cells = store_cells e.cells p ws })
    send_block p

  unfoldable pub take_packet : Option ℕ → M (Endpoint S) (Unit {0})
  take_packet none = pure tt
  take_packet (some p) = read_to p

  unfoldable pub ep_rx_int : M (Endpoint S) (Unit {0})
  ep_rx_int = do
    e ← get
    ep_status ← on_bus (lpc_cmd_read (bit_or ep_select_clear e.ep_num_phys))
    if has_bits ep_status 0x60 then (do block ← get_block; take_packet block) else pure tt
    on_bus (write ep_int_clr (2 ^ e.ep_num_phys))

  unfoldable pub give_packet : Option ℕ → M (Endpoint S) (Unit {0})
  give_packet none = pure tt
  give_packet (some p) = do e ← get; on_bus (write_packet e.cells e.ep_num_phys p); put_block p

  unfoldable pub ep_tx_int : M (Endpoint S) (Unit {0})
  ep_tx_int = do
    e ← get
    block ← receive_block
    give_packet block
    on_bus (write ep_int_clr (2 ^ e.ep_num_phys))
