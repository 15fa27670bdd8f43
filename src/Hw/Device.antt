-- ===== src/Hw/Device.antt =====
-- Settings of the whole device: tn_usb_connect, tn_usb_config_EP0, tn_usb_set_addr,
-- tn_usb_configure, tn_usb_configure_device, and the register part of tn_usb_int_reset.
use usb_bulk.Prelude.{
  ℕ, zero, suc, ◌+◌, ◌*◌, ◌%◌, ◌^◌, bit_and, bit_or, Bool, true, false, ◌&&◌, ◌||◌, has_bits, ltb,
  if◌then◌else◌,
}
use usb_bulk.Bus.Regs.{dev_int_en, dev_int_clr, ep_int_en, ep_int_clr, re_ep}
use usb_bulk.Bus.Monad.{M, pure, ◌>>=◌, ◌>>◌}
use usb_bulk.Bus.Access.{Bus, read, write}
use usb_bulk.Hw.Command.{lpc_cmd_write}
use usb_bulk.Hw.Endpoint.{ep_bulk_release, ep_set_status}

-- CMD_DEV_STATUS, CMD_DEV_CONFIG, CMD_DEV_SET_ADDRESS and CMD_DEV_SET_MODE
abbrev pub dev_status : ℕ
dev_status = 0xFE

abbrev pub dev_config : ℕ
dev_config = 0xD8

abbrev pub dev_set_address : ℕ
dev_set_address = 0xD0

abbrev pub dev_set_mode : ℕ
dev_set_mode = 0xF3

abbrev pub usb_max_packet0 : ℕ
usb_max_packet0 = 64

-- What TN_CHECK_NON_INT_CONTEXT tests.
pub record Context : Type 0 where
  pub int_counter : ℕ
  pub irq_disabled : Bool
  pub running : Bool

abbrev pub wrong_context : Context → Bool
wrong_context c = ltb 0 c.int_counter || (c.irq_disabled && c.running)

-- The result is whether it is TERR_NO_ERR; the other one is TERR_WCONTEXT.
unfoldable pub connect : Context → Bool → M Bus Bool
connect c mode =
    if wrong_context c
    then pure false
    else do lpc_cmd_write dev_status (if mode then 1 else 0); pure true

unfoldable pub config_ep0 : M Bus (Unit {0})
config_ep0 = do
  ep_bulk_release 0 usb_max_packet0
  ep_bulk_release 1 usb_max_packet0
  enabled ← read ep_int_en
  write ep_int_en (bit_or enabled 3)

-- What tn_usb_int_reset does before tn_usb_reset_data.
unfoldable pub reset_registers : M Bus (Unit {0})
reset_registers = do
  write ep_int_clr 0xFFFFFFFF
  config_ep0
  write dev_int_clr 0xFFFFFFFF
  enabled ← read dev_int_en
  write dev_int_en (bit_or enabled 12)

unfoldable pub set_addr : ℕ → M Bus (Unit {0})
set_addr addr = do
  lpc_cmd_write dev_set_address (bit_or 0x80 (bit_and addr 0xFF))
  lpc_cmd_write dev_set_mode (bit_or 32 64)

-- The rounds of the loop that are left, from the endpoint `n` with the bit `mask`.
configure_loop : ℕ → ℕ → ℕ → M Bus (Unit {0})
configure_loop zero n mask = pure tt
configure_loop (suc k) n mask =
    let rest = configure_loop k (n + 1) (mask * 2 % 2 ^ 32) in
    do
      enabled ← read ep_int_en
      if has_bits enabled mask then lpc_cmd_write (bit_or ep_set_status n) 0 else pure tt
      rest

unfoldable pub configure_device : Bool → M Bus (Unit {0})
configure_device mode = lpc_cmd_write dev_config (if mode then 1 else 0)

unfoldable pub configure : Bool → M Bus (Unit {0})
unfolding configure_loop configure_device
configure mode = do
  enabled ← read ep_int_en
  write re_ep enabled
  configure_loop 32 0 1
  configure_device mode
