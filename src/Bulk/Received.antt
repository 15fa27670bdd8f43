-- ===== src/Bulk/Received.antt =====
-- A packet that a bulk endpoint receives: tn_usb_ep_rx_int.
use usb_bulk.Prelude.{
  ℕ, zero, suc, ◌+◌, ◌^◌, ◌<◌, ◌≡◌, refl, ap, ◌∙◌, bit_or, true, Option, some, List, [], ◌∷◌,
  length, arith, has_bits,
}
use usb_bulk.Prelude.Bits.{bit_or_40, bit_or_0}
use usb_bulk.Bus.Regs.{ctrl, rx_plen, ep_int_clr, pkt_rdy, dev_int_st, cdfull, cmd_data}
use usb_bulk.Bus.Access.{Answers, Trace, Bus, bus, write}
use usb_bulk.Bus.Ready.{Ready, Holds}
use usb_bulk.Hw.Command.{lpc_cmd_read}
use usb_bulk.Hw.Engine.{engine}
use usb_bulk.Hw.Answered.{
  Acked, Sends, Sends-then, Sends-bind, write-Sends, wait_bits-Sends, pure-Sends, drain_words-Sends,
  lpc_cmd-Sends, lpc_cmd_read-Sends,
}
use usb_bulk.Kernel.Code.{Code, no_err}
use usb_bulk.Kernel.Scheduler.{Scheduler}
use usb_bulk.Kernel.Fifo.{Dque}
use usb_bulk.Kernel.Fifo.Contents.{contents}
use usb_bulk.Kernel.Fifo.Laws.{IsValid}
use usb_bulk.Kernel.Queue.{tn_queue_isend_polling}
use usb_bulk.Kernel.Queue.Order.{sent, tn_queue_isend_polling-sent}
use usb_bulk.Kernel.Pool.{Fmp, Cells, put_cell, tn_fmem_get_ipolling}
use usb_bulk.Kernel.Pool.Free.{
  FreeList, FreeList-put_cell, IsApart, IsPool, tn_fmem_get_ipolling-got,
}
use usb_bulk.Bulk.{
  Endpoint, store_cells, read_packet, get_block, send_block, read_to, take_packet, ep_rx_int,
}

abbrev pub at_rest : {S : Type 0} → Bus → Cells → Option Dque → Option Fmp → ℕ → S → Endpoint S
at_rest b m q f ep s = record {
  bus = b;
  cells = m;
  queue = q;
  mem_pool = f;
  ep_num_phys = ep;
  tasks = s;
}

read_packet-Sends :
    (ep : ℕ) {len : ℕ} {ws : List ℕ} {i j k l n : Answers} (t : Trace)
    → ep < 32
    → Ready rx_plen pkt_rdy len j i
    → Holds k ws j
    → Acked k l
    → Acked l n
    → Sends (read_packet ep) ws i n t (λ e. (5, 0xF2) ∷ (5, ep) ∷ e)
unfolding read_packet
read_packet-Sends ep {len} {ws} {n} t low r h a b = Sends-then (write-Sends ctrl _ t refl) λ u1.
    Sends-bind _ (wait_bits-Sends u1 r) λ u2. Sends-bind _ (drain_words-Sends u2 h) λ u3.
      Sends-then (write-Sends ctrl 0 u3 refl) λ u4.
        Sends-then (rw (bit_or_0 ep low) (lpc_cmd-Sends ep (omega arith) u4 a))
          λ u5. Sends-then (lpc_cmd-Sends 0xF2 (omega arith) u5 b) λ u6. pure-Sends ws n u6

-- The words of a packet stored at `p` do not touch these blocks' first cells.
unfoldable pub Clears : ℕ → ℕ → List ℕ → Type 0
Clears p zero bs = Unit
Clears p (suc n) bs = IsApart p bs × Clears (p + 4) n bs

FreeList-store_cells :
    (m : Cells) (p q : ℕ) (ws bs : List ℕ)
    → Clears p (length ws) bs
    → FreeList m q bs
    → FreeList (store_cells m p ws) q bs
unfolding Clears
FreeList-store_cells m p q [] bs c h = h
FreeList-store_cells m p q (w ∷ ws) bs c h =
    FreeList-store_cells (put_cell m p w) (p + 4) q ws bs c.1 (FreeList-put_cell m p w q bs c.0 h)

module _ {S : Type 0} (sched : Scheduler S) where
  get_block_run :
      (m : Cells) (s : S) (queue : Option Dque) (pool pool' : Option Fmp) (ep : ℕ) (bb : Bus)
      (rc : Code) (out : Option ℕ)
      → tn_fmem_get_ipolling sched pool true m s ≡ (rc, out, pool')
      → get_block sched (at_rest bb m queue pool ep s) ≡ some (out, at_rest bb m queue pool' ep s)
  unfolding get_block
  get_block_run m s queue pool pool' ep bb rc out e = rw e refl

  send_block_run :
      (m : Cells) (s : S) (queue queue' : Option Dque) (pool : Option Fmp) (ep b : ℕ) (bb : Bus)
      (rc : Code)
      → tn_queue_isend_polling sched queue b s ≡ (rc, queue', s)
      → send_block sched b (at_rest bb m queue pool ep s) ≡ some (tt, at_rest bb m queue' pool ep s)
  unfolding send_block
  send_block_run m s queue queue' pool ep b bb rc e = rw e refl

  ep_rx_int_run :
      (m : Cells) (s : S) (queue queue' : Option Dque) (pool pool' : Option Fmp) (ep b status : ℕ)
      (ws : List ℕ) (i k p : Answers) (t t1 t2 : Trace)
      → lpc_cmd_read (bit_or 0x40 ep) (bus i t) ≡ some (status, bus k t1)
      → has_bits status 0x60 ≡ true
      → get_block sched (at_rest (bus k t1) m queue pool ep s)
        ≡ some (some b, at_rest (bus k t1) m queue pool' ep s)
      → read_packet ep (bus k t1) ≡ some (ws, bus p t2)
      → send_block sched b (at_rest (bus p t2) (store_cells m b ws) queue pool' ep s)
        ≡ some (tt, at_rest (bus p t2) (store_cells m b ws) queue' pool' ep s)
      → ep_rx_int sched (at_rest (bus i t) m queue pool ep s)
        ≡ some
            (tt, at_rest (bus p ((ep_int_clr, 2 ^ ep) ∷ t2)) (store_cells m b ws) queue' pool' ep s)
  unfolding ep_rx_int read_to take_packet write
  ep_rx_int_run m s queue queue' pool pool' ep b status ws i k p t t1 t2 e1 e2 e3 e4 e5 =
      ground (arith, e1, e2, e3, e4, e5)

  -- A bulk endpoint (of a number below 32) whose interrupt says that a buffer is full, while a block
  -- is free: the packet's words are stored in the first free block, the endpoint's buffer is selected
  -- and cleared, and the block is sent to the queue. The block is free no longer. When the queue's
  -- contents are one short of its size the block does not get into the queue either, so that nothing
  -- holds it. The conditions: pool and queue are valid and in use, the handler runs in an interrupt,
  -- no task waits to receive, and the packet fits its block.
  pub ep_rx_int-sent :
      (f : Fmp) (q : Dque) (m : Cells) (s : S) (ep b : ℕ) (bs ws : List ℕ) (status v len : ℕ)
      {i j k l n o p : Answers} (t : Trace)
      → ep < 32
      → IsPool f m (b ∷ bs)
      → f.is_created ≡ true
      → sched.in_interrupt s ≡ true
      → IsValid q
      → q.is_created ≡ true
      → q.wait_receive_list ≡ []
      → Clears b (length ws) bs
      → Acked i j
      → Ready dev_int_st cdfull v ((cmd_data, status) ∷ k) j
      → has_bits status 0x60 ≡ true
      → Ready rx_plen pkt_rdy len l k
      → Holds n ws l
      → Acked n o
      → Acked o p
      → (g : Fmp) × (r : Dque) × (t' : Trace) × (ep_rx_int sched
            (at_rest (bus i t) m (some q) (some f) ep s)
          ≡ some (tt, at_rest (bus p t') (store_cells m b ws) (some r) (some g) ep s))
        × IsPool g (store_cells m b ws) bs
        × IsValid r
        × (contents r ≡ (sent q.num_entries (contents q) b).1)
        × (engine t' ≡ (5, 0xF2) ∷ (5, ep) ∷ (2, 0x40 + ep) ∷ (5, 0x40 + ep) ∷ engine t)
  ep_rx_int-sent f q m s ep b bs ws status v len {i} {k} {p} t low pool made may valid made' idle
        clear a0 a1 full r h a b' =
      let (g, got, free) = tn_fmem_get_ipolling-got sched f m s (b ∷ bs) pool made may in
      let (q', told, held, still) = tn_queue_isend_polling-sent sched q b s valid made' idle may in
      let asked = lpc_cmd_read-Sends (bit_or 0x40 ep) (omega (arith, bit_or_40 ep low)) t a0 a1 in
      let packet = read_packet-Sends ep asked.after low r h a b' in
      (
        g,
        q',
        (ep_int_clr, 2 ^ ep) ∷ packet.after,
        ep_rx_int_run m s (some q) (some q') (some f) (some g) ep b status ws i k p t asked.after
            packet.after asked.runs full
            (get_block_run m s (some q) (some f) (some g) ep (bus k asked.after) no_err (some b)
              got)
            packet.runs
            (send_block_run (store_cells m b ws) s (some q) (some q') (some g) ep b
              (bus p packet.after) (sent q.num_entries (contents q) b).0 told),
        record {
          chain = FreeList-store_cells m b g.free_list ws bs clear free.chain;
          counted = free.counted;
          bounded = free.bounded;
        },
        still,
        held,
        packet.sent
            ∙ ap (λ e. (5, 0xF2) ∷ (5, ep) ∷ e)
                (asked.sent ∙ ap (λ c. (2, c) ∷ (5, c) ∷ engine t) (bit_or_40 ep low)),
      )
