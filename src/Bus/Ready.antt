-- ===== src/Bus/Ready.antt =====
-- What the controller must answer for the waiting loops to end, and that they end with it.
use usb_bulk.Prelude.{
  ℕ, zero, suc, ◌+◌, ◌≡◌, some, true, false, List, [], ◌∷◌, arith, ◌==◌, has_bits,
}
use usb_bulk.Bus.Regs.{ctrl, rx_data, tx_data, rd_en, wr_en}
use usb_bulk.Bus.Access.{
  Answers, Trace, bus, wait_answers, wait_bits, drain_answers, drain_words, fill_answers,
  fill_words,
}

-- `Ready r mask v i j`: from the answers `i` on, the register `r` is read without a bit of `mask` a
-- number of times, then with one, as `v`, and `j` is left.
pub data Ready (r mask : ℕ) (v : ℕ) (j : Answers) : Answers → Type 0 where
  now : has_bits v mask ≡ true → Ready r mask v j ((r, v) ∷ j)
  later :
      {w : ℕ} {i : Answers}
      → has_bits w mask ≡ false
      → Ready r mask v j i
      → Ready r mask v j ((r, w) ∷ i)

==-refl : (a : ℕ) → (a == a) ≡ true
==-refl a = ground arith

wait_answers-Ready :
    {r mask v : ℕ} {j i : Answers} → Ready r mask v j i → wait_answers r mask i ≡ some (v, j)
unfolding wait_answers
wait_answers-Ready {r} (now h) = ground (arith, ==-refl r)
wait_answers-Ready {r} (later h k) = ground (arith, ==-refl r, wait_answers-Ready k)

pub wait_bits-Ready :
    {r mask v : ℕ} {j i : Answers} (t : Trace)
    → Ready r mask v j i
    → wait_bits r mask (bus i t) ≡ some (v, bus j t)
unfolding wait_bits
wait_bits-Ready t k = ground (arith, wait_answers-Ready k)

-- The controller holds the words `ws`, and drops RD_EN behind the last.
pub data Holds (j : Answers) : List ℕ → Answers → Type 0 where
  done : {v : ℕ} → has_bits v rd_en ≡ false → Holds j [] ((ctrl, v) ∷ j)
  more :
      {v w : ℕ} {ws : List ℕ} {i : Answers}
      → has_bits v rd_en ≡ true
      → Holds j ws i
      → Holds j (w ∷ ws) ((ctrl, v) ∷ (rx_data, w) ∷ i)

drain_answers-Holds :
    {j : Answers} {ws : List ℕ} {i : Answers} → Holds j ws i → drain_answers i ≡ some (ws, j)
unfolding drain_answers
drain_answers-Holds {j = []} (done h) = ground arith
drain_answers-Holds {j = a ∷ j} (done h) = ground arith
drain_answers-Holds (more h k) = ground (arith, drain_answers-Holds k)

pub drain_words-Holds :
    {j : Answers} {ws : List ℕ} {i : Answers} (t : Trace)
    → Holds j ws i
    → drain_words (bus i t) ≡ some (ws, bus j t)
unfolding drain_words
drain_words-Holds t k = ground (arith, drain_answers-Holds k)

-- The controller takes `n` words, and drops WR_EN behind the last.
pub data Takes (j : Answers) : ℕ → Answers → Type 0 where
  full : {v : ℕ} → has_bits v wr_en ≡ false → Takes j zero ((ctrl, v) ∷ j)
  space :
      {v n : ℕ} {i : Answers}
      → has_bits v wr_en ≡ true
      → Takes j n i
      → Takes j (suc n) ((ctrl, v) ∷ i)

-- The writes of `n` words from the address `p` on, the newest first.
unfoldable pub words_sent : (ℕ → ℕ) → ℕ → ℕ → Trace → Trace
words_sent word p zero t = t
words_sent word p (suc n) t = words_sent word (p + 4) n ((tx_data, word p) ∷ t)

fill_answers-Takes :
    {j : Answers} {n : ℕ} {i : Answers} (word : ℕ → ℕ) (p : ℕ) (t : Trace)
    → Takes j n i
    → fill_answers word p i t ≡ some (bus j (words_sent word p n t))
unfolding fill_answers words_sent
fill_answers-Takes word p t (full h) = ground arith
fill_answers-Takes word p t (space h k) =
    ground (arith, fill_answers-Takes word (p + 4) ((tx_data, word p) ∷ t) k)

pub fill_words-Takes :
    {j : Answers} {n : ℕ} {i : Answers} (word : ℕ → ℕ) (p : ℕ) (t : Trace)
    → Takes j n i
    → fill_words word p (bus i t) ≡ some (tt, bus j (words_sent word p n t))
unfolding fill_words
fill_words-Takes word p t k = ground (arith, fill_answers-Takes word p t k)
