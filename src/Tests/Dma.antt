-- ===== src/Tests/Dma.antt =====
-- Tests of Dma, on the descriptors of endpoint 2.
use usb_bulk.Prelude.{
  zero, suc, inr, ◌≤◌, ℕ, ◌+◌, ◌*◌, ◌≡◌, refl, true, some, [], ◌∷◌, inl, arith, ◌==◌, if◌then◌else◌,
}
use usb_bulk.Bus.Access.{bus}
use usb_bulk.Kernel.Fifo.Contents.{contents}
use usb_bulk.Kernel.Fifo.Laws.{IsValid}
use usb_bulk.Kernel.Queue.{tn_queue_ireceive}
use usb_bulk.Kernel.Pool.{Fmp, Cells}
use usb_bulk.Kernel.Pool.Free.{FreeList, IsPool, IsApart}
use usb_bulk.Bulk.Received.{Clears}
use usb_bulk.Dma.Received.{arrived, ep_rx_end_of_transfer-sent}
use usb_bulk.Dma.Sent.{IsNextDd, IsEnabled, ep_tx_int_dd_request-IsNextDd}
use usb_bulk.Dma.{
  DmaEndpoint, tn_usb_dma_rx_init, ep_rx_end_of_transfer, ep_tx_int_dd_request, copy_words,
  packet_words, fill_dd,
}
use usb_bulk.Dma.Addresses.{ep2_rx_addr}
use usb_bulk.Dma.Descriptors.{IsDd, tn_usb_dma_rx_init-IsDd}
use usb_bulk.Dma.Request.{fill_dd-overwrites}
use usb_bulk.Dma.Dispatch.{DmaInfo, DmaDriver, info, dma_int_st, nddr_int_st}
use usb_bulk.Tests.Inputs.{packet, device, tasks, own_number}
use usb_bulk.Kernel.Fifo.{Dque, dque_fifo_read}

abbrev empty_queue : Dque
empty_queue = record {
  wait_send_list = [];
  wait_receive_list = [];
  data_fifo = 0 ∷ 0 ∷ 0 ∷ [];
  num_entries = 3;
  tail_cnt = 1;
  header_cnt = 1;
  is_created = true;
}

-- The second descriptor is retired, and the first one, whose buffer is behind the ring, is
-- the current one; two blocks of 64 bytes are free.
abbrev memory : Cells
memory a =
    if a == 0x7FD00010
    then 0x7FD00080
    else if a == 0x7FD00094
    then 0x7FD00140
    else if a == 0x40001000
    then 0x40001040
    else if a == 0x40001040
    then 0
    else if a == 0x7FD000A4
    then 1
    else if a == 0x7FD000AC
    then 0x7FD00150
    else 5

abbrev pool : Fmp
pool = record {
  wait_queue = [];
  start_addr = 0x40001000;
  block_size = 64;
  num_blocks = 3;
  free_list = 0x40001000;
  fblkcnt = 2;
  is_created = true;
}

pool-IsPool : IsPool pool memory (0x40001000 ∷ 0x40001040 ∷ [])
unfolding FreeList
pool-IsPool = record {
  chain = (refl, omega arith, (refl, omega arith, refl));
  counted = refl;
  bounded = omega arith;
}

empty_queue-IsValid : IsValid empty_queue
empty_queue-IsValid = record { storage = refl; tail_in = omega arith; header_in = omega arith }

Clears-one : (p n b : ℕ) → p + 4 * n ≤ b → Clears p n (b ∷ [])
unfolding Clears IsApart
Clears-one p zero b h = tt
Clears-one p (suc n) b h = ((omega (arith, h), tt), Clears-one (p + 4) n b (omega (arith, h)))

abbrev endpoint : DmaEndpoint (ℕ → ℕ)
endpoint = record {
  bus = bus [] [];
  cells = memory;
  ep_dma_addr = ep2_rx_addr;
  p_udca_pos = 0x7FD00010;
  queue = some empty_queue;
  mem_pool = some pool;
  ep_num_phys = 4;
  tasks = own_number;
}

tn_usb_dma_rx_init-IsDd_example :
    (e' : DmaEndpoint (ℕ → ℕ)) × (tn_usb_dma_rx_init endpoint ≡ some (tt, e'))
    × (e'.cells 0x7FD00010 ≡ 0x7FD00080)
    × IsDd e'.cells 0x7FD000B0 0x00400800 1 0x7FD00160
tn_usb_dma_rx_init-IsDd_example = tn_usb_dma_rx_init-IsDd endpoint 2 (omega arith) (omega arith)

fill_dd-overwrites_example : fill_dd memory 0x7FD00080 0x40001000 (0x7FD00080 + 20 + 4 * 1) ≡ 5
fill_dd-overwrites_example =
    fill_dd-overwrites memory 0x7FD00080 0x40001000 1 (inl (omega arith)) (omega arith)

ep_rx_end_of_transfer-sent_example :
    let buf : ℕ = 0x7FD00140 in
    let cells : Cells = copy_words memory 0x40001000 buf packet_words in
    (g : Fmp) × (r : Dque) × (ep_rx_end_of_transfer tasks endpoint
      ≡ some (tt, arrived g r 0x40001000 buf endpoint))
    × (cells (0x40001000 + 4 * 3) ≡ 5)
    × IsPool g cells (0x40001040 ∷ [])
    × IsValid r
    × (contents r ≡ 0x40001000 ∷ [])
ep_rx_end_of_transfer-sent_example =
    ep_rx_end_of_transfer-sent tasks endpoint pool empty_queue 0x40001000 0x7FD00140 3
      (0x40001040 ∷ []) refl refl pool-IsPool refl refl empty_queue-IsValid refl refl refl
      (inr (omega arith)) (Clears-one 0x40001000 packet_words 0x40001040 (omega arith))
      (omega arith)

-- A packet at 0x40001080 is in the queue.
abbrev sender : DmaEndpoint (ℕ → ℕ)
sender = record endpoint {
  queue = some (record empty_queue { data_fifo = 0 ∷ 0x40001080 ∷ 0 ∷ []; header_cnt = 2 });
}

ep_tx_int_dd_request-IsNextDd_example :
    (dd : ℕ) × (e' : DmaEndpoint (ℕ → ℕ)) × (ep_tx_int_dd_request tasks sender ≡ some (tt, e'))
    × IsNextDd sender e'.cells (some 0x40001080) dd
    × IsEnabled sender (tn_queue_ireceive tasks sender.queue true own_number).2 dd e'
unfolding tn_queue_ireceive dque_fifo_read
ep_tx_int_dd_request-IsNextDd_example =
    ep_tx_int_dd_request-IsNextDd tasks sender (omega arith) (λ p e. ground (arith, e))

abbrev info_2 : DmaInfo
info_2 = info endpoint

-- Endpoint 2 has received a packet, and asks for another descriptor.
abbrev asked : DmaDriver (ℕ → ℕ)
asked = record {
  device =
      device (packet 0 0 0 0) 0
        ((dma_int_st, 2) ∷ (dma_int_st, 2) ∷ (dma_int_st, 2) ∷ (nddr_int_st, 0x10) ∷ []);
  ep2_rx = info_2;
  ep2_tx = info_2;
  ep5_rx = info_2;
  ep5_tx = info_2;
  cells = memory;
  tasks = own_number;
}
