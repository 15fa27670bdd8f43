-- ===== src/Dma/Request.antt =====
-- The requests for a descriptor: where a packet to send goes, and which descriptor receives next.
use usb_bulk.Prelude.{
  ℕ, zero, suc, ◌+◌, ◌*◌, ◌≤◌, ◌<◌, ◌≡◌, refl, ◌∙◌, true, ◌∷◌, false, ◌⊎◌, inl, inr, some, arith,
  ◌==◌, ◌^◌,
}
use usb_bulk.Bus.Access.{bus}
use usb_bulk.Kernel.Fifo.{Dque, is_full}
use usb_bulk.Kernel.Pool.{Cells, put_cell}
use usb_bulk.Dma.Ring.{IsFree, AllBusy, enabled}
use usb_bulk.Dma.{copy_words, fill_dd, packet_words, DmaEndpoint, nddr_int_clr}

pub copy_words-others :
    (n dst src a : ℕ) (m : Cells)
    → ((j : ℕ) → j < n → (a == dst + 4 * j) ≡ false)
    → copy_words m dst src n a ≡ m a
unfolding copy_words
copy_words-others zero dst src a m apart = refl
copy_words-others (suc n) dst src a m apart =
    let first : (a == dst) ≡ false = ground (arith, apart 0 (omega arith)) in
    copy_words-others n (dst + 4) (src + 4) a (put_cell m dst (m src))
      (λ j inside. ground (arith, apart (suc j) (omega (arith, inside))))
    ∙ rw (first) refl

-- The words at `src` are apart from those at `dst`.
abbrev pub IsApart : ℕ → ℕ → ℕ → Type 0
IsApart dst src n = (src + 4 * n ≤ dst) ⊎ (dst + 4 * n ≤ src)

pub copy_words-at :
    (n dst src j : ℕ) (m : Cells)
    → IsApart dst src n
    → j < n
    → copy_words m dst src n (dst + 4 * j) ≡ m (src + 4 * j)
unfolding copy_words
copy_words-at zero dst src j m apart inside = absurd (omega (arith, inside))
copy_words-at (suc n) dst src zero m apart inside =
    let e : dst + 4 * 0 ≡ dst = omega arith in
    let e' : src + 4 * 0 ≡ src = omega arith in
    rw (e, e')
      (copy_words-others n (dst + 4) (src + 4) dst (put_cell m dst (m src))
          (λ i inside. ground arith)
        ∙ ground arith)
copy_words-at (suc n) dst src (suc j) m apart inside =
    let e : dst + 4 + 4 * j ≡ dst + 4 * suc j = omega arith in
    let e' : src + 4 + 4 * j ≡ src + 4 * suc j = omega arith in
    elim apart [
      | inl before ↦
          let other : (src + 4 + 4 * j == dst) ≡ false = ground (arith, before, inside) in
          rw (← e, ← e')
            (copy_words-at n (dst + 4) (src + 4) j (put_cell m dst (m src))
                (inl (omega (arith, before))) (omega (arith, inside))
              ∙ rw (other) refl)
      | inr behind ↦
          let other : (src + 4 + 4 * j == dst) ≡ false = ground (arith, behind, inside) in
          rw (← e, ← e')
            (copy_words-at n (dst + 4) (src + 4) j (put_cell m dst (m src))
                (inr (omega (arith, behind))) (omega (arith, inside))
              ∙ rw (other) refl)
    ]

-- A packet to send that is apart from the descriptor that it gets, and from the 64 bytes behind that
-- one's first five words: each of its 16 words lands 20 bytes behind the beginning of the descriptor
-- and further, the first in the descriptor's own word 5, and the others in the words of the
-- descriptors behind it.
pub fill_dd-overwrites :
    (m : Cells) (dd p j : ℕ)
    → (p + 64 ≤ dd) ⊎ (dd + 84 ≤ p)
    → j < packet_words
    → fill_dd m dd p (dd + 20 + 4 * j) ≡ m (p + 4 * j)
unfolding fill_dd
fill_dd-overwrites m dd p j apart inside =
    let m1 : Cells = put_cell (put_cell (put_cell m dd 0) (dd + 12) 0) (dd + 16) 0 in
    let m2 : Cells = put_cell m1 (dd + 8) (dd + 20) in
    let place : m2 (dd + 8) ≡ dd + 20 = ground arith in
    rw (place) (elim apart [
      | inl before ↦
          copy_words-at packet_words (dd + 20) p j m2 (inl (omega (arith, before))) inside
          ∙ ground (arith, before, inside)
      | inr behind ↦
          copy_words-at packet_words (dd + 20) p j m2 (inr (omega (arith, behind))) inside
          ∙ ground (arith, behind, inside)
    ])

-- What a request comes to, for an endpoint with the queue `q`: nothing where the queue is full; else
-- DMA is enabled, with the descriptor `found` as the current one, or the old one where none is free.
pub data IsRequestOutcome {S : Type 0} (q : Dque) (e : DmaEndpoint S) : DmaEndpoint S → Type 0 where
  refuses :
      is_full q ≡ true
      → IsRequestOutcome q e
          (record e { bus = bus e.bus.input ((nddr_int_clr, 2 ^ e.ep_num_phys) ∷ e.bus.trace) })
  stays :
      is_full q ≡ false
      → AllBusy e.cells (some (e.cells e.p_udca_pos)) e.ep_dma_addr.p_dd e.ep_dma_addr.nbuffers
      → IsRequestOutcome q e (record e { bus = enabled e })
  renews :
      (found : ℕ) (cells : Cells)
      → is_full q ≡ false
      → IsFree e.cells (some (e.cells e.p_udca_pos)) e.ep_dma_addr.p_dd e.ep_dma_addr.nbuffers found
      → cells e.p_udca_pos ≡ found
      → cells (found + 12) ≡ 0
      → cells (found + 8) ≡ e.cells (found + 20)
      → IsRequestOutcome q e (record e { bus = enabled e; cells = cells })
