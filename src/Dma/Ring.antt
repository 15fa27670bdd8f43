-- ===== src/Dma/Ring.antt =====
-- The descriptors of a ring that the requests look for.
use usb_bulk.Prelude.{
  ℕ, zero, suc, ◌+◌, ◌*◌, ◌<◌, ◌≡◌, Bool-cases, true, false, inl, inr, Option, none, some, ◌∷◌,
  arith, ◌^◌, has_bits, not, ◌&&◌,
}
use usb_bulk.Bus.Access.{Bus, bus}
use usb_bulk.Kernel.Pool.{Cells}
use usb_bulk.Dma.{DmaEndpoint, dd_bytes, retired_dd, is_skipped, nddr_int_clr, ep_dma_en}

-- A descriptor of the ring that starts at `dd`, retired, and not the one to skip.
pub record IsFree (m : Cells) (skip : Option ℕ) (dd n found : ℕ) : Type 0 where
  pub index : ℕ
  pub inside : index < n
  pub is_there : found ≡ dd + dd_bytes * index
  pub is_retired : has_bits (m (found + 12)) 1 ≡ true
  pub is_other : is_skipped skip found ≡ false

pub retired_dd-IsFree :
    (m : Cells) (skip : Option ℕ) (dd n found : ℕ)
    → retired_dd m skip dd n ≡ some found
    → IsFree m skip dd n found
unfolding retired_dd
retired_dd-IsFree m skip dd zero found e = cc
retired_dd-IsFree m skip dd (suc n) found e =
    elim (Bool-cases (not (is_skipped skip dd) && has_bits (m (dd + 12)) 1)) [
      | inl here ↦
          let same : dd ≡ found = ground (arith, e, here) in
          record {
            index = 0;
            inside = omega arith;
            is_there = omega (arith, same);
            is_retired = rw (← same) (ground (arith, here));
            is_other = ground (arith, here, same);
          }
      | inr not_here ↦
          let f = retired_dd-IsFree m skip (dd + dd_bytes) n found (ground (arith, e, not_here)) in
          record {
            index = suc f.index;
            inside = omega (arith, f.inside);
            is_there = omega (arith, f.is_there);
            is_retired = f.is_retired;
            is_other = f.is_other;
          }
    ]

-- No descriptor but the one to skip is retired.
abbrev pub AllBusy : Cells → Option ℕ → ℕ → ℕ → Type 0
AllBusy m skip dd n =
    (i : ℕ)
    → i < n
    → (not (is_skipped skip (dd + dd_bytes * i)) && has_bits (m (dd + dd_bytes * i + 12)) 1) ≡ false

pub retired_dd-AllBusy :
    (m : Cells) (skip : Option ℕ) (dd n : ℕ) → retired_dd m skip dd n ≡ none → AllBusy m skip dd n
unfolding retired_dd
retired_dd-AllBusy m skip dd zero e i inside = absurd (omega (arith, inside))
retired_dd-AllBusy m skip dd (suc n) e zero inside =
    let same : dd + dd_bytes * 0 ≡ dd = omega arith in
    rw (same) (elim (Bool-cases (not (is_skipped skip dd) && has_bits (m (dd + 12)) 1)) [
      | inl here ↦ ground (arith, e, here)
      | inr busy ↦ busy
    ])
retired_dd-AllBusy m skip dd (suc n) e (suc i) inside =
    let same : dd + dd_bytes + dd_bytes * i ≡ dd + dd_bytes * suc i = omega arith in
    rw (← same) (elim (Bool-cases (not (is_skipped skip dd) && has_bits (m (dd + 12)) 1)) [
      | inl here ↦ ground (arith, e, here)
      | inr busy ↦
          retired_dd-AllBusy m skip (dd + dd_bytes) n (ground (arith, e, busy)) i
            (omega (arith, inside))
    ])

-- The controller after the interrupt is cleared and DMA enabled.
abbrev pub enabled : {S : Type 0} → DmaEndpoint S → Bus
enabled e =
    let bit = 2 ^ e.ep_num_phys in
    bus e.bus.input ((ep_dma_en, bit) ∷ (nddr_int_clr, bit) ∷ e.bus.trace)
