-- ===== src/Dma.antt =====
-- The DMA project's bulk endpoints, LPC2146_USB_DMA/usb_tests/tn_usb_ep_dma.c: their rings of DMA
-- descriptors in the USB RAM, and the handlers of their interrupts. A descriptor is six words: the next
-- one's address, the configuration, the place in the buffer, the status, a word for isochronous
-- transfers, and the buffer's address. Addresses are multiples of 4, memory is by cells of a word, and a ring has at least one descriptor.
pub mod Descriptors
pub mod Ring
pub mod Request
pub mod Received
pub mod Loaded
pub mod Sent
pub mod Dispatch
pub mod Addresses
use usb_bulk.Prelude.{
  ℕ, zero, suc, ◌+◌, ◌-◌, ◌*◌, ◌/◌, ◌%◌, ◌^◌, bit_and, Bool, true, false, not, ◌&&◌, Option, none,
  some, ◌==◌, if◌then◌else◌, has_bits,
}
use usb_bulk.Bus.Monad.{M, pure, ◌>>=◌, ◌>>◌, zoom}
use usb_bulk.Bus.Access.{Bus, write}
use usb_bulk.Kernel.Scheduler.{Scheduler}
use usb_bulk.Kernel.Fifo.{Dque, is_full}
use usb_bulk.Kernel.Queue.{tn_queue_isend_polling, tn_queue_ireceive}
use usb_bulk.Kernel.Pool.{Fmp, Cells, put_cell, tn_fmem_get_ipolling, tn_fmem_irelease}

-- rUSBEpDMAEn, rUSBEoTIntClr and rUSBNDDRIntClr
abbrev pub ep_dma_en : ℕ
ep_dma_en = 0xE0090088

abbrev pub eot_int_clr : ℕ
eot_int_clr = 0xE00900A4

abbrev pub nddr_int_clr : ℕ
nddr_int_clr = 0xE00900B0

-- EP_DD_TOTAL_SIZE, in bytes
abbrev pub dd_bytes : ℕ
dd_bytes = 24

-- EP_DMA_ADDR
pub record DmaAddr : Type 0 where
  pub word_1 : ℕ
  pub nbuffers : ℕ
  pub p_dd : ℕ
  pub p_data_buffers : ℕ

-- EP_DMA_INFO with what it points to, the registers, memory, and the tasks' state `S`.
pub record DmaEndpoint (S : Type 0) : Type 0 where
  pub bus : Bus
  pub cells : Cells
  pub ep_dma_addr : DmaAddr
  pub p_udca_pos : ℕ
  pub queue : Option Dque
  pub mem_pool : Option Fmp
  pub ep_num_phys : ℕ
  pub tasks : S

-- s_memcpy of `n` words.
unfoldable pub copy_words : Cells → ℕ → ℕ → ℕ → Cells
copy_words m dst src zero = m
copy_words m dst src (suc n) = copy_words (put_cell m dst (m src)) (dst + 4) (src + 4) n

-- USB_MAX_PACKET0, in words
abbrev pub packet_words : ℕ
packet_words = 16

-- The distance of two buffers, as the code has it: a number of words that it adds to an address.
abbrev pub buf_size : ℕ → ℕ
buf_size word_1 = word_1 / 2 ^ 16 % 2 ^ 16 / 4

-- The six words of a descriptor, as they are set up: the first two, and the others with the status.
unfoldable pub begin_dd : Cells → ℕ → ℕ → Cells
begin_dd m dd config = put_cell (put_cell m dd 0) (dd + 4) config

unfoldable pub end_dd : Cells → ℕ → ℕ → ℕ → Cells
end_dd m dd retired buf =
    put_cell (put_cell (put_cell (put_cell m (dd + 12) retired) (dd + 8) buf) (dd + 16) 0) (dd + 20)
      buf

-- The loop of tn_usb_dma_rx_init, for the descriptors behind the first.
unfoldable pub rx_loop : Cells → ℕ → ℕ → ℕ → ℕ → Cells
unfolding begin_dd end_dd
rx_loop m word_1 dd buf zero = m
rx_loop m word_1 dd buf (suc n) =
    rx_loop (end_dd (begin_dd m dd word_1) dd 1 buf) word_1 (dd + dd_bytes) (buf + buf_size word_1)
      n

-- The first descriptor is the current one, and not retired.
unfoldable pub rx_dds : Cells → ℕ → ℕ → ℕ → ℕ → ℕ → Cells
unfolding begin_dd end_dd rx_loop
rx_dds m udca word_1 dd buf zero = m
rx_dds m udca word_1 dd buf (suc n) =
    rx_loop (end_dd (put_cell (begin_dd m dd word_1) udca dd) dd 0 buf) word_1 (dd + dd_bytes)
      (buf + buf_size word_1) n

-- The loop of tn_usb_dma_tx_init: the last descriptor is the current one, and has no packet.
unfoldable pub tx_dds : Cells → ℕ → ℕ → ℕ → ℕ → ℕ → Cells
unfolding begin_dd end_dd
tx_dds m udca word_1 dd buf zero = m
tx_dds m udca word_1 dd buf (suc n) =
    let last = n == 0 in
    let m' = begin_dd m dd (if last then bit_and word_1 0x1F else word_1) in
    let m'' = if last then put_cell m' udca dd else m' in
    tx_dds (end_dd m'' dd (if last then 0 else 1) buf) udca word_1 (dd + dd_bytes)
      (buf + buf_size word_1) n

abbrev pub is_skipped : Option ℕ → ℕ → Bool
is_skipped none dd = false
is_skipped (some p) dd = p == dd

-- The first of `n` descriptors whose status says that it is retired, but for `skip`.
unfoldable pub retired_dd : Cells → Option ℕ → ℕ → ℕ → Option ℕ
retired_dd m skip dd zero = none
retired_dd m skip dd (suc n) =
    let rest = retired_dd m skip (dd + dd_bytes) n in
    if not (is_skipped skip dd) && has_bits (m (dd + 12)) 1 then some dd else rest

-- A retired descriptor is used again, with its buffer from the start.
unfoldable pub renew_dd : Cells → ℕ → Cells
renew_dd m dd =
    let m' = put_cell (put_cell m dd 0) (dd + 12) 0 in put_cell m' (dd + 8) (m' (dd + 20))

-- The packet at `p` for a retired descriptor: the code makes the address of word 5 the place in the
-- buffer, and not word 5, and copies the packet there.
unfoldable pub fill_dd : Cells → ℕ → ℕ → Cells
unfolding copy_words
fill_dd m dd p =
    let m1 = put_cell (put_cell (put_cell m dd 0) (dd + 12) 0) (dd + 16) 0 in
    let m2 = put_cell m1 (dd + 8) (dd + 20) in copy_words m2 (m2 (dd + 8)) p packet_words

-- The last descriptor, without a packet.
unfoldable pub no_packet : Cells → ℕ → Cells
no_packet m dd =
    let m' = put_cell (put_cell (put_cell m dd 0) (dd + 4) 0) (dd + 12) 0 in
    put_cell m' (dd + 8) (m' (dd + 20))

module _ {S : Type 0} where
  abbrev on_bus : {A : Type 0} → M Bus A → M (DmaEndpoint S) A
  on_bus m = zoom (λ e. e.bus) (λ b e. record e { bus = b }) m

  abbrev get : M (DmaEndpoint S) (DmaEndpoint S)
  get e = some (e, e)

  abbrev set_cells : Cells → M (DmaEndpoint S) (Unit {0})
  set_cells m e = some (tt, record e { cells = m })

  unfoldable pub tn_usb_dma_rx_init : M (DmaEndpoint S) (Unit {0})
  unfolding rx_dds
  tn_usb_dma_rx_init = do
    e ← get
    let a = e.ep_dma_addr
    set_cells (rx_dds e.cells e.p_udca_pos a.word_1 a.p_dd a.p_data_buffers a.nbuffers)

  unfoldable pub tn_usb_dma_tx_init : M (DmaEndpoint S) (Unit {0})
  unfolding tx_dds
  tn_usb_dma_tx_init = do
    e ← get
    let a = e.ep_dma_addr
    set_cells (tx_dds e.cells e.p_udca_pos a.word_1 a.p_dd a.p_data_buffers a.nbuffers)

  -- The current descriptor is `dd`.
  abbrev set_current : ℕ → M (DmaEndpoint S) (Unit {0})
  set_current dd e = some (tt, record e { cells = put_cell e.cells e.p_udca_pos dd })

  -- Whether the queue is full, whose fields the code reads through the pointer.
  abbrev full_of : Option Dque → M (DmaEndpoint S) Bool
  full_of none e = none
  full_of (some q) e = some (is_full q, e)

  abbrev renew : Option ℕ → M (DmaEndpoint S) (Unit {0})
  renew none = pure tt
  renew (some dd) = do e ← get; set_cells (renew_dd e.cells dd); set_current dd

  unfoldable pub ep_rx_dd_request : M (DmaEndpoint S) (Unit {0})
  unfolding retired_dd renew_dd
  ep_rx_dd_request = do
    e ← get
    full ← full_of e.queue
    let a = e.ep_dma_addr
    let bit = 2 ^ e.ep_num_phys
    if full then on_bus (write nddr_int_clr bit) else (do
      renew (retired_dd e.cells (some (e.cells e.p_udca_pos)) a.p_dd a.nbuffers)
      on_bus (write nddr_int_clr bit)
      on_bus (write ep_dma_en bit))

module _ {S : Type 0} (sched : Scheduler S) where
  -- The block at `p` gets the packet of the current descriptor, and goes to the queue.
  abbrev send_packet : Option ℕ → M (DmaEndpoint S) (Unit {0})
  send_packet none = pure tt
  send_packet (some p) = do
    e ← get
    let buf = e.cells (e.cells e.p_udca_pos + 20)
    set_cells (copy_words e.cells p buf packet_words)
    λ e.
        let (rc, queue, s) = tn_queue_isend_polling sched e.queue p e.tasks in
        some (tt, record e { queue = queue; tasks = s })

  unfoldable pub ep_rx_end_of_transfer : M (DmaEndpoint S) (Unit {0})
  unfolding copy_words tn_fmem_get_ipolling tn_queue_isend_polling
  ep_rx_end_of_transfer = do
    block ← λ e.
        let (rc, out, pool) = tn_fmem_get_ipolling sched e.mem_pool true e.cells e.tasks in
        some (out, record e { mem_pool = pool })
    send_packet block
    e ← get
    on_bus (write eot_int_clr (2 ^ e.ep_num_phys))

  -- The block goes back to the pool.
  abbrev release : ℕ → M (DmaEndpoint S) (Unit {0})
  release p e =
      let (rc, pool, m, s) = tn_fmem_irelease sched e.mem_pool p e.cells e.tasks in
      some (tt, record e { mem_pool = pool; cells = m; tasks = s })

  -- The descriptor that the packet at `p` went to.
  unfoldable pub load : Option ℕ → M (DmaEndpoint S) (Option ℕ)
  unfolding retired_dd fill_dd tn_fmem_irelease
  load none = pure none
  load (some p) = do
    e ← get
    let a = e.ep_dma_addr
    let found = retired_dd e.cells none a.p_dd (a.nbuffers - 1)
    elim found [ none ↦ pure tt | some dd ↦ set_cells (fill_dd e.cells dd p) ]
    release p
    pure found

  -- Where there is none, the last descriptor.
  abbrev or_no_packet : Option ℕ → M (DmaEndpoint S) ℕ
  or_no_packet (some dd) = pure dd
  or_no_packet none = do
    e ← get
    let a = e.ep_dma_addr
    let dd = a.p_dd + (a.nbuffers - 1) * dd_bytes
    set_cells (no_packet e.cells dd)
    pure dd

  -- The end of the handler, with the descriptor that got a packet.
  abbrev pub enable_next : Option ℕ → M (DmaEndpoint S) (Unit {0})
  enable_next found = do
    dd ← or_no_packet found
    set_current dd
    e ← get
    let bit = 2 ^ e.ep_num_phys
    on_bus (write nddr_int_clr bit)
    on_bus (write ep_dma_en bit)

  unfoldable pub ep_tx_int_dd_request : M (DmaEndpoint S) (Unit {0})
  unfolding load no_packet tn_queue_ireceive
  ep_tx_int_dd_request = do
    block ← λ e.
        let (rc, out, queue, s) = tn_queue_ireceive sched e.queue true e.tasks in
        some (out, record e { queue = queue; tasks = s })
    found ← load block
    enable_next found
