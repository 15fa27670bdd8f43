-- ===== src/Hw/Command.antt =====
-- Commands to the protocol engine: tn_usb_lpc_cmd, tn_usb_lpc_cmd_write, tn_usb_lpc_cmd_read.
use usb_bulk.Prelude.{ℕ, bit_or}
use usb_bulk.Bus.Regs.{dev_int_st, dev_int_clr, cmd_code, cmd_data, ccemty, cdfull}
use usb_bulk.Bus.Monad.{M, pure, ◌>>=◌, ◌>>◌}
use usb_bulk.Bus.Access.{Bus, read, write, wait_bits}
use usb_bulk.Hw.Memory.{shl}

unfoldable pub lpc_cmd : ℕ → M Bus (Unit {0})
lpc_cmd cmd = do
  write dev_int_clr (bit_or cdfull ccemty)
  write cmd_code (bit_or 0x500 (shl cmd 16))
  _ ← wait_bits dev_int_st ccemty
  write dev_int_clr ccemty

unfoldable pub lpc_cmd_write : ℕ → ℕ → M Bus (Unit {0})
lpc_cmd_write cmd value = do
  write dev_int_clr (bit_or cdfull ccemty)
  write cmd_code (bit_or 0x500 (shl cmd 16))
  _ ← wait_bits dev_int_st ccemty
  write dev_int_clr ccemty
  write cmd_code (bit_or 0x100 (shl value 16))
  _ ← wait_bits dev_int_st ccemty
  write dev_int_clr ccemty

unfoldable pub lpc_cmd_read : ℕ → M Bus ℕ
lpc_cmd_read cmd = do
  write dev_int_clr (bit_or cdfull ccemty)
  write cmd_code (bit_or 0x500 (shl cmd 16))
  _ ← wait_bits dev_int_st ccemty
  write dev_int_clr ccemty
  write cmd_code (bit_or 0x200 (shl cmd 16))
  _ ← wait_bits dev_int_st cdfull
  ret_val ← read cmd_data
  write dev_int_clr cdfull
  pure ret_val
