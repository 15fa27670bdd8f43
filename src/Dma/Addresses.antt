-- ===== src/Dma/Addresses.antt =====
-- gDMAAddresses of tn_usb_ep_dma.c: where the endpoints' descriptors and buffers are in the USB RAM.
use usb_bulk.Prelude.{ℕ, ◌+◌, ◌*◌, ◌^◌, bit_or, List, [], ◌∷◌, ◌++◌}
use usb_bulk.Dma.{DmaAddr, dd_bytes}
use usb_bulk.Dma.Dispatch.{udca_base}

-- DMA_EP_BULK_WORD_1, EP_MAX_PACKET_SIZE, and EP2_RX_NUM_BUF, EP2_TX_NUM_BUF, EP5_RX_NUM_BUF and
-- EP5_TX_NUM_BUF, which are the same
abbrev ep_max_packet_size : ℕ
ep_max_packet_size = 64

abbrev dma_ep_bulk_word_1 : ℕ
dma_ep_bulk_word_1 = bit_or (ep_max_packet_size * 2 ^ 16) (ep_max_packet_size * 2 ^ 5)

abbrev num_buf : ℕ
num_buf = 8

-- EP2_RX_DD, EP2_TX_DD, EP5_RX_DD and EP5_TX_DD: each area is a ring with its buffers behind it.
abbrev area_bytes : ℕ
area_bytes = dd_bytes * num_buf + ep_max_packet_size * num_buf

abbrev ep2_rx_dd : ℕ
ep2_rx_dd = udca_base + 32 * 4

abbrev bulk_addr : ℕ → DmaAddr
bulk_addr dd = record {
  word_1 = dma_ep_bulk_word_1;
  nbuffers = num_buf;
  p_dd = dd;
  p_data_buffers = dd + dd_bytes * num_buf;
}

abbrev pub ep2_rx_addr : DmaAddr
ep2_rx_addr = bulk_addr ep2_rx_dd

abbrev pub ep2_tx_addr : DmaAddr
ep2_tx_addr = bulk_addr (ep2_rx_dd + area_bytes)

abbrev pub ep5_rx_addr : DmaAddr
ep5_rx_addr = bulk_addr (ep2_rx_dd + area_bytes * 2)

abbrev pub ep5_tx_addr : DmaAddr
ep5_tx_addr = bulk_addr (ep2_rx_dd + area_bytes * 3)

-- An endpoint without DMA.
abbrev no_addr : DmaAddr
no_addr = record { word_1 = 0; nbuffers = 0; p_dd = 0; p_data_buffers = 0 }

abbrev none_of_two : List DmaAddr
none_of_two = no_addr ∷ no_addr ∷ []

abbrev pub dma_addresses : List DmaAddr
dma_addresses =
    none_of_two
    ++ none_of_two
    ++ (ep2_rx_addr ∷ ep2_tx_addr ∷ [])
    ++ none_of_two
    ++ none_of_two
    ++ (ep5_rx_addr ∷ ep5_tx_addr ∷ [])
    ++ none_of_two
    ++ none_of_two
    ++ none_of_two
    ++ none_of_two
    ++ none_of_two
    ++ none_of_two
    ++ none_of_two
    ++ none_of_two
    ++ none_of_two
    ++ none_of_two
