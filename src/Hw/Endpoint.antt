-- ===== src/Hw/Endpoint.antt =====
-- Transfers and settings of one endpoint: ep_bulk_release, tn_usb_ep_read, tn_usb_ep0_write,
-- tn_usb_stall_ep, tn_usb_reset_ep and tn_usb_config_ep.
use usb_bulk.Prelude.{ℕ, ◌+◌, ◌*◌, ◌/◌, ◌^◌, bit_and, bit_or, Bool, List, [], if◌then◌else◌, gt_int}
use usb_bulk.Bus.Regs.{
  dev_int_st, dev_int_clr, rx_plen, tx_plen, ctrl, ep_int_en, re_ep, ep_ind, max_psize, ep_rlzed,
  rd_en, wr_en, pkt_rdy, pkt_lngth_mask,
}
use usb_bulk.Bus.Monad.{M, pure, ◌>>=◌, ◌>>◌}
use usb_bulk.Bus.Access.{Bus, read, write, wait_bits, drain_words, fill_words}
use usb_bulk.Hw.Memory.{Mem, half_at, word_at, shl}
use usb_bulk.Hw.Command.{lpc_cmd, lpc_cmd_write}

-- CMD_EP_SELECT, CMD_EP_SET_STATUS, CMD_EP_CLEAR_BUFFER and CMD_EP_VALIDATE_BUFFER
abbrev pub ep_select : ℕ
ep_select = 0x00

abbrev pub ep_set_status : ℕ
ep_set_status = 0x40

abbrev pub ep_clear_buffer : ℕ
ep_clear_buffer = 0xF2

abbrev pub ep_validate_buffer : ℕ
ep_validate_buffer = 0xFA

-- The logical number has the direction in bit 7, the physical one in bit 0.
abbrev pub ep_num_lg2ph : ℕ → ℕ
ep_num_lg2ph x = bit_or (bit_and x 0x0F * 2) (bit_and x 0x80 / 128)

unfoldable pub ep_bulk_release : ℕ → ℕ → M Bus (Unit {0})
ep_bulk_release ep_num_phys packet_size = do
  old ← read re_ep
  write re_ep (bit_or old (2 ^ ep_num_phys))
  write ep_ind ep_num_phys
  write max_psize packet_size
  _ ← wait_bits dev_int_st ep_rlzed
  write dev_int_clr ep_rlzed

-- The length, and the words that go to the buffer; `keep` is false where the source passes NULL.
unfoldable pub ep_read : ℕ → Bool → M Bus (ℕ × List ℕ)
ep_read ep_num_logical keep = do
  let ep = bit_and ep_num_logical 0x8F
  write ctrl (bit_or rd_en (shl ep 2))
  len ← wait_bits rx_plen pkt_rdy
  ws ← drain_words
  write ctrl 0
  lpc_cmd (bit_or ep_select (ep_num_lg2ph ep))
  lpc_cmd ep_clear_buffer
  pure (bit_and len pkt_lngth_mask, if keep then ws else [])

-- `if (nbytes > 0)` and its loop
unfoldable pub fill_buffer : Mem → ℕ → ℕ → M Bus (Unit {0})
fill_buffer m buf nbytes = if gt_int nbytes 0 then fill_words (word_at m) buf else pure tt

unfoldable pub ep0_write : Mem → ℕ → ℕ → ℕ → M Bus ℕ
ep0_write m ep_num_logical buf nbytes = do
  let ep = bit_and ep_num_logical 0x8F
  write ctrl (bit_or wr_en (shl (bit_and ep 0x0F) 2))
  write tx_plen nbytes
  fill_buffer m buf nbytes
  write ctrl 0
  lpc_cmd (bit_or ep_select (ep_num_lg2ph ep))
  lpc_cmd ep_validate_buffer
  pure nbytes

unfoldable pub stall_ep : ℕ → Bool → M Bus (Unit {0})
stall_ep ep_num_logical mode =
    lpc_cmd_write (bit_or ep_set_status (ep_num_lg2ph (bit_and ep_num_logical 0x8F)))
      (if mode then 1 else 0)

unfoldable pub reset_ep : ℕ → M Bus (Unit {0})
reset_ep ep_num_logical =
    lpc_cmd_write (bit_or ep_set_status (ep_num_lg2ph (bit_and ep_num_logical 0x8F))) 0

-- `p` points at an endpoint descriptor.
unfoldable pub config_ep : Mem → ℕ → M Bus (Unit {0})
config_ep m p = do
  let ep_num_phys = ep_num_lg2ph (bit_and (m (p + 2)) 0x8F)
  old ← read re_ep
  write re_ep (bit_or old (2 ^ ep_num_phys))
  write ep_ind ep_num_phys
  write max_psize (half_at m (p + 4))
  _ ← wait_bits dev_int_st ep_rlzed
  write dev_int_clr ep_rlzed
  lpc_cmd_write (bit_or ep_set_status ep_num_phys) 0
  lpc_cmd_write (bit_or ep_set_status ep_num_phys) 0
  enabled ← read ep_int_en
  write ep_int_en (bit_or enabled (2 ^ ep_num_phys))
