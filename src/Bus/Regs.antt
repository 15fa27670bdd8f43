-- ===== src/Bus/Regs.antt =====
-- The registers of lpc214x.h that the driver uses, by address, and the bit masks of tn_usb_hw.h.
use usb_bulk.Prelude.{ℕ}

abbrev pub dev_int_st : ℕ
dev_int_st = 0xE0090000

abbrev pub dev_int_en : ℕ
dev_int_en = 0xE0090004

abbrev pub dev_int_clr : ℕ
dev_int_clr = 0xE0090008

abbrev pub cmd_code : ℕ
cmd_code = 0xE0090010

abbrev pub cmd_data : ℕ
cmd_data = 0xE0090014

abbrev pub rx_data : ℕ
rx_data = 0xE0090018

abbrev pub tx_data : ℕ
tx_data = 0xE009001C

abbrev pub rx_plen : ℕ
rx_plen = 0xE0090020

abbrev pub tx_plen : ℕ
tx_plen = 0xE0090024

abbrev pub ctrl : ℕ
ctrl = 0xE0090028

abbrev pub ep_int_st : ℕ
ep_int_st = 0xE0090030

abbrev pub ep_int_en : ℕ
ep_int_en = 0xE0090034

abbrev pub ep_int_clr : ℕ
ep_int_clr = 0xE0090038

abbrev pub re_ep : ℕ
re_ep = 0xE0090044

abbrev pub ep_ind : ℕ
ep_ind = 0xE0090048

abbrev pub max_psize : ℕ
max_psize = 0xE009004C

-- CCEMTY, CDFULL, EP_RLZED, DEV_STAT and EP_SLOW, bits of rUSBDevIntSt
abbrev pub ccemty : ℕ
ccemty = 16

abbrev pub cdfull : ℕ
cdfull = 32

abbrev pub ep_rlzed : ℕ
ep_rlzed = 256

abbrev pub dev_stat : ℕ
dev_stat = 8

abbrev pub ep_slow : ℕ
ep_slow = 4

-- RD_EN and WR_EN, bits of rUSBCtrl
abbrev pub rd_en : ℕ
rd_en = 1

abbrev pub wr_en : ℕ
wr_en = 2

-- PKT_RDY and PKT_LNGTH_MASK, of rUSBRxPLen
abbrev pub pkt_rdy : ℕ
pkt_rdy = 2048

abbrev pub pkt_lngth_mask : ℕ
pkt_lngth_mask = 0x3FF
