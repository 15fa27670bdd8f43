-- ===== src/Bulk/Sent.antt =====
-- A packet that a bulk endpoint sends: tn_usb_ep_tx_int.
use usb_bulk.Prelude.{
  ℕ, zero, suc, ◌+◌, ◌*◌, ◌/◌, ◌%◌, ◌^◌, ◌<◌, ◌≡◌, refl, sym, ap, ◌∙◌, bit_or, true, Option, some,
  List, [], ◌∷◌, ◌++◌, append_assoc, length, get_or, arith,
}
use usb_bulk.Prelude.Bits.{bit_or_0}
use usb_bulk.Bus.Regs.{ctrl, tx_plen, tx_data, ep_int_clr}
use usb_bulk.Bus.Access.{Answers, Trace, bus, write}
use usb_bulk.Bus.Ready.{Takes, fill_words-Takes, words_sent}
use usb_bulk.Hw.Engine.{engine, decode_command}
use usb_bulk.Hw.Answered.{Acked, lpc_cmd-runs, command_trace}
use usb_bulk.Hw.Transfer.{writes_to, engine-words_sent}
use usb_bulk.Kernel.Code.{Code, no_err}
use usb_bulk.Kernel.Scheduler.{Scheduler}
use usb_bulk.Kernel.Fifo.{Dque}
use usb_bulk.Kernel.Fifo.Contents.{contents, used}
use usb_bulk.Kernel.Fifo.Laws.{IsValid, taken, taken-IsValid, contents-taken, dque_fifo_read-some}
use usb_bulk.Kernel.Queue.{tn_queue_ireceive, received, refill}
use usb_bulk.Kernel.Queue.Order.{length-contents, ireceive-received}
use usb_bulk.Kernel.Pool.{Fmp, Cells, tn_fmem_irelease}
use usb_bulk.Kernel.Pool.Free.{IsApart, IsPool, tn_fmem_irelease-free}
use usb_bulk.Bulk.{write_packet, receive_block, put_block, give_packet, ep_tx_int}
use usb_bulk.Bulk.Received.{at_rest}

-- `n` words of memory from `p` on, the last one first.
abbrev pub cells_back : Cells → ℕ → ℕ → List ℕ
cells_back m p zero = []
cells_back m p (suc n) = cells_back m (p + 4) n ++ (m p ∷ [])

writes_to-words_sent :
    (m : Cells) (p n : ℕ) (t : Trace)
    → writes_to tx_data (words_sent m p n t) ≡ cells_back m p n ++ writes_to tx_data t
unfolding words_sent
writes_to-words_sent m p zero t = refl
writes_to-words_sent m p (suc n) t =
    writes_to-words_sent m (p + 4) n ((tx_data, m p) ∷ t)
    ∙ sym (append_assoc (cells_back m (p + 4) n) (m p ∷ []) (writes_to tx_data t))

write_packet-runs :
    (m : Cells) (ep p n : ℕ) {i j k l : Answers} (t : Trace)
    → ep < 32
    → Takes j n i
    → Acked j k
    → Acked k l
    → (after : Trace) × (write_packet m ep p (bus i t) ≡ some (tt, bus l after))
      × (engine after ≡ (5, 0xFA) ∷ (5, ep) ∷ engine t)
      × (writes_to tx_data after ≡ cells_back m p n ++ writes_to tx_data t)
unfolding write_packet write
write_packet-runs m ep p n t low takes a b =
    let start = (tx_plen, 64) ∷ (ctrl, bit_or 2 (ep / 2 * 2 ^ 2 % 2 ^ 32)) ∷ t in
    let loaded = words_sent m p n start in
    let selected = command_trace ep ((ctrl, 0) ∷ loaded) in
    (
      command_trace 0xFA selected,
      ground (
        arith,
        fill_words-Takes m p start takes,
        bit_or_0 ep low,
        lpc_cmd-runs ep (omega arith) ((ctrl, 0) ∷ loaded) a,
        lpc_cmd-runs 0xFA (omega arith) selected b,
      ),
      ground (arith, decode_command ep (omega arith), engine-words_sent m p n start),
      writes_to-words_sent m p n start,
    )

tail : List ℕ → List ℕ
tail [] = []
tail (x ∷ xs) = xs

-- A queue that holds something, by what it holds.
holding :
    (q : Dque) (x : ℕ) (xs : List ℕ)
    → IsValid q
    → contents q ≡ x ∷ xs
    → (0 < used q) × (get_or q.data_fifo q.tail_cnt 0 ≡ x) × (contents (taken q) ≡ xs)
unfolding tail
holding q x xs v e =
    let pos : 0 < used q = omega (arith, sym (length-contents q) ∙ ap length e) in
    let split = sym (contents-taken q v pos) ∙ e in
    (pos, ap (λ l. get_or l 0 0) split, ap tail split)

module _ {S : Type 0} (sched : Scheduler S) where
  ireceive_runs :
      (q : Dque) (s : S)
      → q.is_created ≡ true
      → sched.in_interrupt s ≡ true
      → IsValid q
      → q.wait_send_list ≡ []
      → 0 < used q
      → tn_queue_ireceive sched (some q) true s
        ≡ (no_err, some (get_or q.data_fifo q.tail_cnt 0), some (taken q), s)
  unfolding received refill
  ireceive_runs q s made may v idle h =
      ireceive-received sched q s made may ∙ rw (dque_fifo_read-some q v h) (simp (idle) refl)

  ep_tx_int_run :
      (m m' : Cells) (s : S) (queue queue' : Option Dque) (fmp fmp' : Option Fmp) (ep b : ℕ)
      (i p : Answers) (t t' : Trace) (rc rc' : Code)
      → tn_queue_ireceive sched queue true s ≡ (rc, some b, queue', s)
      → write_packet m ep b (bus i t) ≡ some (tt, bus p t')
      → tn_fmem_irelease sched fmp b m s ≡ (rc', fmp', m', s)
      → ep_tx_int sched (at_rest (bus i t) m queue fmp ep s)
        ≡ some (tt, at_rest (bus p ((ep_int_clr, 2 ^ ep) ∷ t')) m' queue' fmp' ep s)
  unfolding ep_tx_int receive_block give_packet put_block write
  ep_tx_int_run m m' s queue queue' fmp fmp' ep b i p t t' rc rc' e1 e2 e3 =
      ground (arith, e1, e2, e3)

  -- A bulk endpoint (of a number below 32) whose queue holds the block `b` first, and whose
  -- interrupt says that the controller can take a packet: the handler sends as many words from `b`
  -- on as the controller takes, in order, selects the endpoint and validates its buffer, and gives `b` back
  -- to the pool, where it is the first free block; the queue keeps the rest. The conditions: pool and
  -- queue are valid and in use, the handler runs in an interrupt, no task waits for either, and `b` is not
  -- free already.
  pub ep_tx_int-released :
      (f : Fmp) (q : Dque) (m : Cells) (s : S) (ep b n : ℕ) (bs xs : List ℕ) {i j k l : Answers}
      (t : Trace)
      → ep < 32
      → IsPool f m bs
      → f.is_created ≡ true
      → f.wait_queue ≡ []
      → sched.in_interrupt s ≡ true
      → IsValid q
      → q.is_created ≡ true
      → q.wait_send_list ≡ []
      → contents q ≡ b ∷ xs
      → 0 < b
      → IsApart b bs
      → length bs < f.num_blocks
      → Takes j n i
      → Acked j k
      → Acked k l
      → (g : Fmp) × (r : Dque) × (m' : Cells) × (t' : Trace) × (ep_tx_int sched
            (at_rest (bus i t) m (some q) (some f) ep s)
          ≡ some (tt, at_rest (bus l t') m' (some r) (some g) ep s))
        × IsPool g m' (b ∷ bs)
        × IsValid r
        × (contents r ≡ xs)
        × (engine t' ≡ (5, 0xFA) ∷ (5, ep) ∷ engine t)
        × (writes_to tx_data t' ≡ cells_back m b n ++ writes_to tx_data t)
  ep_tx_int-released f q m s ep b n bs xs {i} {l} t low pool made free may valid made' idle e pos
        apart room takes a0 a1 =
      let (some_held, first, rest) = holding q b xs valid e in
      let (g, m', released, pool') =
        tn_fmem_irelease-free sched f m b s bs pool made may free pos apart room in
      let (after, runs, commands, words) = write_packet-runs m ep b n t low takes a0 a1 in
      let got =
        ireceive_runs q s made' may valid idle some_held
        ∙ ap (λ x. (no_err, some x, some (taken q), s)) first in
      (
        g,
        taken q,
        m',
        (ep_int_clr, 2 ^ ep) ∷ after,
        ep_tx_int_run m m' s (some q) (some (taken q)) (some f) (some g) ep b i l t after no_err
            no_err got runs released,
        pool',
        taken-IsValid q valid,
        rest,
        commands,
        words,
      )
