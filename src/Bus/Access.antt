-- ===== src/Bus/Access.antt =====
-- Reads and writes of the controller's registers, and the loops that wait on one of them.
-- A run is given the answers that the controller makes to its reads, in turn, each with the register
-- that it is an answer of. It records its writes, the newest first.
use usb_bulk.Prelude.{
  ℕ, ◌+◌, Option, none, some, true, false, List, [], ◌∷◌, ◌==◌, has_bits, if◌then◌else◌,
}
use usb_bulk.Bus.Regs.{ctrl, rx_data, tx_data, rd_en, wr_en}
use usb_bulk.Bus.Monad.{M}

abbrev pub Answers : Type 0
Answers = List (ℕ × ℕ)

abbrev pub Trace : Type 0
Trace = List (ℕ × ℕ)

pub record Bus : Type 0 where
  pub input : Answers
  pub trace : Trace

abbrev pub bus : Answers → Trace → Bus
bus i t = record { input = i; trace = t }

-- `none`: the answers end, or the next one is that of another register.
unfoldable pub next_answer : ℕ → Answers → Option (ℕ × Answers)
next_answer r [] = none
next_answer r ((q, v) ∷ i) = if q == r then some (v, i) else none

unfoldable pub read : ℕ → M Bus ℕ
unfolding next_answer
read r b = elim (next_answer r b.input) [ none ↦ none | some (v, i) ↦ some (v, bus i b.trace) ]

unfoldable pub write : ℕ → ℕ → M Bus (Unit {0})
write r v b = some (tt, bus b.input ((r, v) ∷ b.trace))

-- `do v = r; while ((v & mask) == 0);` on the answers left.
unfoldable pub wait_answers : ℕ → ℕ → Answers → Option (ℕ × Answers)
wait_answers r mask [] = none
wait_answers r mask ((q, v) ∷ i) = elim (q == r) [
  | false ↦ none
  | true ↦ elim (has_bits v mask) [ true ↦ some (v, i) | false ↦ wait_answers r mask i ]
]

unfoldable pub wait_bits : ℕ → ℕ → M Bus ℕ
unfolding wait_answers
wait_bits r mask b = elim (wait_answers r mask b.input) [
  | none ↦ none
  | some (v, i) ↦ some (v, bus i b.trace)
]

-- `while (rUSBCtrl & RD_EN) *p++ = rUSBRxData;`: the words that it reads.
unfoldable pub drain_answers : Answers → Option (List ℕ × Answers)
drain_answers [] = none
drain_answers ((q, v) ∷ []) =
    if q == ctrl then (if has_bits v rd_en then none else some ([], [])) else none
drain_answers ((q, v) ∷ (p, w) ∷ i) =
    let rest = drain_answers i in
    if q == ctrl
    then (if has_bits v rd_en
        then (if p == rx_data
            then elim rest [ none ↦ none | some (ws, j) ↦ some (w ∷ ws, j) ]
            else none)
        else some ([], (p, w) ∷ i))
    else none

unfoldable pub drain_words : M Bus (List ℕ)
unfolding drain_answers
drain_words b = elim (drain_answers b.input) [
  | none ↦ none
  | some (ws, i) ↦ some (ws, bus i b.trace)
]

-- `while (rUSBCtrl & WR_EN) rUSBTxData = <the next word>;` from the address `p`, where `word` reads
-- four bytes of memory.
unfoldable pub fill_answers : (ℕ → ℕ) → ℕ → Answers → Trace → Option (Bus)
fill_answers word p [] t = none
fill_answers word p ((q, v) ∷ i) t =
    let rest = fill_answers word (p + 4) i ((tx_data, word p) ∷ t) in
    if q == ctrl then (if has_bits v wr_en then rest else some (bus i t)) else none

unfoldable pub fill_words : (ℕ → ℕ) → ℕ → M Bus (Unit {0})
unfolding fill_answers
fill_words word p b = elim (fill_answers word p b.input b.trace) [
  | none ↦ none
  | some b' ↦ some (tt, b')
]
