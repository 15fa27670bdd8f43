-- ===== src/Hw/Transfer.antt =====
-- What tn_usb_ep_read and tn_usb_ep0_write move between memory and the controller's buffers.
use usb_bulk.Prelude.{
  ℕ, zero, suc, ◌+◌, ◌^◌, ◌<◌, ◌≡◌, refl, ap, ◌∙◌, sym, Bool, true, some, List, [], ◌∷◌, ◌++◌,
  append_assoc, arith, bit_and, if◌then◌else◌, ◌==◌, gt_int,
}
use usb_bulk.Bus.Regs.{ctrl, rx_plen, tx_plen, tx_data, pkt_rdy}
use usb_bulk.Bus.Access.{Answers, Trace, bus, write}
use usb_bulk.Bus.Ready.{Ready, Holds, Takes, fill_words-Takes, words_sent}
use usb_bulk.Hw.Memory.{Mem, word_at}
use usb_bulk.Hw.Endpoint.{ep_read, fill_buffer, ep0_write}
use usb_bulk.Hw.Engine.{engine}
use usb_bulk.Hw.Answered.{
  Acked, Sends, Sends-then, Sends-bind, write-Sends, wait_bits-Sends, pure-Sends, drain_words-Sends,
  lpc_cmd-Sends, lpc_cmd-runs, command_trace,
}

-- The values written to the register `r`, the newest first.
abbrev pub writes_to : ℕ → Trace → List ℕ
writes_to r [] = []
writes_to r ((q, x) ∷ t) = let rest = writes_to r t in if q == r then x ∷ rest else rest

-- `n` words of memory from the address `p` on, the last one first.
abbrev pub words_back : Mem → ℕ → ℕ → List ℕ
words_back m p zero = []
words_back m p (suc n) = words_back m (p + 4) n ++ (word_at m p ∷ [])

writes_to-words_sent :
    (m : Mem) (p n : ℕ) (t : Trace)
    → writes_to tx_data (words_sent (word_at m) p n t) ≡ words_back m p n ++ writes_to tx_data t
unfolding words_sent
writes_to-words_sent m p zero t = refl
writes_to-words_sent m p (suc n) t =
    writes_to-words_sent m (p + 4) n ((tx_data, word_at m p) ∷ t)
    ∙ sym (append_assoc (words_back m (p + 4) n) (word_at m p ∷ []) (writes_to tx_data t))

pub engine-words_sent :
    (word : ℕ → ℕ) (p n : ℕ) (t : Trace) → engine (words_sent word p n t) ≡ engine t
unfolding words_sent
engine-words_sent word p zero t = refl
engine-words_sent word p (suc n) t = engine-words_sent word (p + 4) n ((tx_data, word p) ∷ t)

-- Reading endpoint 0: the length is the low ten bits of rUSBRxPLen, the words are those that the
-- controller holds, in order (none of them if the buffer is NULL), and the engine receives the
-- selection of the endpoint and the command that clears its buffer.
pub ep_read-Sends :
    (keep : Bool) {len : ℕ} {ws : List ℕ} {i j k l n : Answers} (t : Trace)
    → Ready rx_plen pkt_rdy len j i
    → Holds k ws j
    → Acked k l
    → Acked l n
    → Sends
        (ep_read 0 keep)
        (bit_and len 0x3FF, if keep then ws else [])
        i
        n
        t
        (λ e. (5, 0xF2) ∷ (5, 0) ∷ e)
unfolding ep_read
ep_read-Sends keep {len} {ws} {n} t r h a b = Sends-then (write-Sends ctrl _ t refl) λ u1.
    Sends-bind _ (wait_bits-Sends u1 r) λ u2. Sends-bind _ (drain_words-Sends u2 h) λ u3.
      Sends-then (write-Sends ctrl 0 u3 refl) λ u4.
        Sends-then (lpc_cmd-Sends 0 (omega arith) u4 a)
          λ u5. Sends-then (lpc_cmd-Sends 0xF2 (omega arith) u5 b) λ u6. pure-Sends _ n u6

-- What is left of the answers once a packet of `n` bytes has been filled in with `k` words: an empty
-- packet takes none.
pub data Fills (n k : ℕ) (j : Answers) : Answers → Type 0 where
  empty : n ≡ 0 → k ≡ 0 → Fills n k j j
  packet : {i : Answers} → 0 < n → n < 2 ^ 31 → Takes j k i → Fills n k j i

fill-Fills :
    (m : Mem) (buf n k : ℕ) {i j : Answers} (t : Trace)
    → Fills n k j i
    → fill_buffer m buf n (bus i t) ≡ some (tt, bus j (words_sent (word_at m) buf k t))
unfolding words_sent fill_buffer
fill-Fills m buf n k t (empty e z) = rw (e, z)
fill-Fills m buf n k t (packet p q h) =
    let pos : gt_int n 0 ≡ true = ground arith in rw pos (fill_words-Takes (word_at m) buf t h)

plen-words_sent :
    (word : ℕ → ℕ) (p n : ℕ) (t : Trace)
    → writes_to tx_plen (words_sent word p n t) ≡ writes_to tx_plen t
unfolding words_sent
plen-words_sent word p zero t = refl
plen-words_sent word p (suc n) t = plen-words_sent word (p + 4) n ((tx_data, word p) ∷ t)

-- Writing endpoint 0: the length register gets the number of bytes, the buffer gets the words from
-- `buf` on, as many as the controller takes, in order, and the engine receives the selection of
-- endpoint 1 and the command that validates its buffer. The result is the number of bytes.
pub ep0_write_lem :
    (m : Mem) (buf n k : ℕ) {i j l o : Answers} (t : Trace)
    → Fills n k j i
    → Acked j l
    → Acked l o
    → (after : Trace) × (ep0_write m 0x80 buf n (bus i t) ≡ some (n, bus o after))
      × (engine after ≡ (5, 0xFA) ∷ (5, 1) ∷ engine t)
      × (writes_to tx_data after ≡ words_back m buf k ++ writes_to tx_data t)
      × (writes_to tx_plen after ≡ n ∷ writes_to tx_plen t)
unfolding ep0_write write
ep0_write_lem m buf n k t f a b =
    let start = (tx_plen, n) ∷ (ctrl, 2) ∷ t in
    let loaded = words_sent (word_at m) buf k start in
    let selected = command_trace 1 ((ctrl, 0) ∷ loaded) in
    (
      command_trace 0xFA selected,
      ground (
        arith,
        fill-Fills m buf n k start f,
        lpc_cmd-runs 1 (omega arith) ((ctrl, 0) ∷ loaded) a,
        lpc_cmd-runs 0xFA (omega arith) selected b,
      ),
      ap (λ e. (5, 0xFA) ∷ (5, 1) ∷ e) (engine-words_sent (word_at m) buf k start),
      writes_to-words_sent m buf k start,
      plen-words_sent (word_at m) buf k start,
    )
