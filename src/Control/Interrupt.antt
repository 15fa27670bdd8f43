-- ===== src/Control/Interrupt.antt =====
-- The handlers of endpoint 0: tn_usb_EP0_tx_int_func and tn_usb_EP0_rx_int_func of
-- LPC2146_USB/usb_tests/tn_usb_ep.c, and tn_usb_int_reset of tn_usb_hw.c.
use usb_bulk.Prelude.{
  ℕ, ◌+◌, ◌-◌, ◌*◌, ◌%◌, ◌^◌, bit_or, true, false, ◌||◌, none, some, ◌==◌, has_bits, gt_int,
  if◌then◌else◌,
}
use usb_bulk.Bus.Regs.{ep_int_clr}
use usb_bulk.Bus.Monad.{M, pure, ◌>>=◌, ◌>>◌}
use usb_bulk.Bus.Access.{write}
use usb_bulk.Hw.Memory.{store_words}
use usb_bulk.Hw.Command.{lpc_cmd_read}
use usb_bulk.Hw.Endpoint.{ep_read, stall_ep}
use usb_bulk.Hw.Device.{reset_registers}
use usb_bulk.Control.State.{
  Device, get, modify, on_bus, with_ep0, reset_data, st_datain, fill_setup,
}
use usb_bulk.Control.Request.{ep0_setup}

-- CMD_EP_SELECT_CLEAR, and STP of its answer
abbrev pub ep_select_clear : ℕ
ep_select_clear = 0x40

abbrev pub stp : ℕ
stp = 4

unfoldable pub int_reset : M Device (Unit {0})
int_reset = do on_bus reset_registers; reset_data

unfoldable pub ep0_tx_int : M Device (Unit {0})
ep0_tx_int = do
  _ ← on_bus (lpc_cmd_read (bit_or ep_select_clear 1))
  st_datain
  on_bus (write ep_int_clr 2)

-- The setup packet, read from the endpoint.
unfoldable pub read_setup : M Device (Unit {0})
read_setup = do
  (_, ws) ← on_bus (ep_read 0 true)
  λ d. elim (fill_setup d.setup ws) [ none ↦ none | some s ↦ some (tt, record d { setup = s }) ]

-- `if (eps->nbytes > usp->wLength)`, with the promoted `wLength`
abbrev pub limit_answer : Device → Device
limit_answer d =
    with_ep0 (if gt_int d.ep0.nbytes d.setup.w_length then d.setup.w_length else d.ep0.nbytes)
      d.ep0.pdata d

-- The branch of a SETUP command, without the last write.
unfoldable pub setup_stage : ℕ → M Device (Unit {0})
unfolding read_setup
setup_stage fuel = do
  read_setup
  modify (λ d. with_ep0 d.setup.w_length d.ep0.pbuf d)
  d ← get
  if d.setup.w_length == 0 || has_bits d.setup.bm_request_type 0x80
      then (do
        rc ← ep0_setup fuel
        if rc then (do modify limit_answer; st_datain) else on_bus (stall_ep 0 true))
      else pure tt

-- The end of a data packet: the request itself if it was the last, and else a read that drops what
-- the endpoint holds next.
unfoldable pub data_done : ℕ → M Device (Unit {0})
data_done fuel = do
  d ← get
  if d.ep0.nbytes == 0
      then (do
        modify (λ e. with_ep0 0 e.ep0.pbuf e)
        rc ← ep0_setup fuel
        if rc then st_datain else on_bus (stall_ep 0 true))
      else (do _ ← on_bus (ep_read 0 false); pure tt)

-- The branch of a data packet, without the last write.
unfoldable pub data_stage : ℕ → M Device (Unit {0})
unfolding data_done
data_stage fuel = do
  d ← get
  if gt_int d.ep0.nbytes 0
      then (do
        (bytes, ws) ← on_bus (ep_read 0 true)
        modify (λ e.
            with_ep0 ((e.ep0.nbytes + 2 ^ 32 - bytes) % 2 ^ 32) ((e.ep0.pdata + 4 * bytes) % 2 ^ 32)
              (record e { mem = store_words e.mem e.ep0.pdata ws }))
        data_done fuel)
      else pure tt

unfoldable pub ep0_rx_int : ℕ → M Device (Unit {0})
ep0_rx_int fuel = do
  ep_status ← on_bus (lpc_cmd_read ep_select_clear)
  if has_bits ep_status stp then setup_stage fuel else data_stage fuel
  on_bus (write ep_int_clr 1)
