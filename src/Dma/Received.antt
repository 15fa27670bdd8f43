-- ===== src/Dma/Received.antt =====
-- A packet that has arrived: ep_rx_end_of_transfer.
use usb_bulk.Prelude.{
  ℕ, zero, suc, ◌+◌, ◌*◌, ◌^◌, ◌<◌, ◌≡◌, refl, ap, ◌∙◌, true, some, List, [], ◌∷◌,
}
use usb_bulk.Bus.Access.{bus, write}
use usb_bulk.Kernel.Code.{Code, no_err}
use usb_bulk.Kernel.Scheduler.{Scheduler}
use usb_bulk.Kernel.Fifo.{Dque}
use usb_bulk.Kernel.Fifo.Contents.{contents}
use usb_bulk.Kernel.Fifo.Laws.{IsValid}
use usb_bulk.Kernel.Queue.{tn_queue_isend_polling}
use usb_bulk.Kernel.Queue.Order.{sent, tn_queue_isend_polling-sent}
use usb_bulk.Kernel.Pool.{Fmp, Cells, put_cell, tn_fmem_get_ipolling}
use usb_bulk.Kernel.Pool.Free.{FreeList, FreeList-put_cell, IsPool, tn_fmem_get_ipolling-got}
use usb_bulk.Bulk.Received.{Clears}
use usb_bulk.Dma.{DmaEndpoint, copy_words, packet_words, ep_rx_end_of_transfer, eot_int_clr}
use usb_bulk.Dma.Request.{IsApart, copy_words-at}

FreeList-copy_words :
    (m : Cells) (p src q n : ℕ) (bs : List ℕ)
    → Clears p n bs
    → FreeList m q bs
    → FreeList (copy_words m p src n) q bs
unfolding copy_words Clears
FreeList-copy_words m p src q zero bs clear h = h
FreeList-copy_words m p src q (suc n) bs clear h =
    FreeList-copy_words (put_cell m p (m src)) (p + 4) (src + 4) q n bs clear.1
      (FreeList-put_cell m p (m src) q bs clear.0 h)

-- The endpoint with a packet from the buffer at `buf` in the block at `b`, and the interrupt cleared.
abbrev pub arrived : {S : Type 0} → Fmp → Dque → ℕ → ℕ → DmaEndpoint S → DmaEndpoint S
arrived g r b buf e = record e {
  mem_pool = some g;
  queue = some r;
  cells = copy_words e.cells b buf packet_words;
  bus = bus e.bus.input ((eot_int_clr, 2 ^ e.ep_num_phys) ∷ e.bus.trace);
}

module _ {S : Type 0} (sched : Scheduler S) where
  end_of_transfer_run :
      (e : DmaEndpoint S) (f g : Fmp) (q r : Dque) (b : ℕ) (rc : Code)
      → e.mem_pool ≡ some f
      → e.queue ≡ some q
      → tn_fmem_get_ipolling sched (some f) true e.cells e.tasks ≡ (no_err, some b, some g)
      → tn_queue_isend_polling sched (some q) b e.tasks ≡ (rc, some r, e.tasks)
      → ep_rx_end_of_transfer sched e
        ≡ some (tt, arrived g r b (e.cells (e.cells e.p_udca_pos + 20)) e)
  unfolding ep_rx_end_of_transfer write
  end_of_transfer_run e f g q r b rc pool queue got told = simp (pool, queue, got, told) refl

  -- ep_rx_end_of_transfer while a block is free: word j of the 16 of the current descriptor's buffer is
  -- word j of the first free block, which is free no longer; it is at the end of the queue, unless that is
  -- full, when nothing holds the block; and the interrupt is cleared. The conditions: pool and
  -- queue are valid and in use, no task waits to receive, the handler runs in an interrupt, the block
  -- is apart from the buffer, and its 16 words from the other free blocks' first cells.
  pub ep_rx_end_of_transfer-sent :
      (e : DmaEndpoint S) (f : Fmp) (q : Dque) (b buf j : ℕ) (bs : List ℕ)
      → e.mem_pool ≡ some f
      → e.queue ≡ some q
      → IsPool f e.cells (b ∷ bs)
      → f.is_created ≡ true
      → sched.in_interrupt e.tasks ≡ true
      → IsValid q
      → q.is_created ≡ true
      → q.wait_receive_list ≡ []
      → e.cells (e.cells e.p_udca_pos + 20) ≡ buf
      → IsApart b buf packet_words
      → Clears b packet_words bs
      → j < packet_words
      → (g : Fmp) × (r : Dque) × (ep_rx_end_of_transfer sched e ≡ some (tt, arrived g r b buf e))
        × (copy_words e.cells b buf packet_words (b + 4 * j) ≡ e.cells (buf + 4 * j))
        × IsPool g (copy_words e.cells b buf packet_words) bs
        × IsValid r
        × (contents r ≡ (sent q.num_entries (contents q) b).1)
  ep_rx_end_of_transfer-sent e f q b buf j bs has_pool has_queue pool made may valid made' idle
        at_buf apart clear inside =
      let (g, got, free) =
        tn_fmem_get_ipolling-got sched f e.cells e.tasks (b ∷ bs) pool made may in
      let (r, told, held, still) =
        tn_queue_isend_polling-sent sched q b e.tasks valid made' idle may in
      (
        g,
        r,
        end_of_transfer_run e f g q r b (sent q.num_entries (contents q) b).0 has_pool has_queue got
              told
            ∙ ap (λ a. some (tt, arrived g r b a e)) at_buf,
        copy_words-at packet_words b buf j e.cells apart inside,
        record {
          chain = FreeList-copy_words e.cells b buf g.free_list packet_words bs clear free.chain;
          counted = free.counted;
          bounded = free.bounded;
        },
        still,
        held,
      )
