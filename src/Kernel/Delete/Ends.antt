-- ===== src/Kernel/Delete/Ends.antt =====
-- The deletions end, and leave no task waiting.
use usb_bulk.Prelude.{
  ℕ, zero, suc, ◌≤◌, ◌<◌, ◌≡◌, refl, ap, ◌⊎◌, inl, inr, Bool, true, some, List, [], ◌∷◌, arith,
  if◌then◌else◌, is_empty, length,
}
use usb_bulk.Kernel.Delete.{Waiters, drain}

-- The state after one round of the loop.
abbrev pub after {ℓ} : {X : Type ℓ} → Waiters X → ℕ → Bool × X → X
after w t r = if r.0 then w.others (w.deleted t r.1) else r.1

-- While `P` holds, each round comes to a result, keeps `P`, and leaves no more tasks in the queue
-- than were behind the first.
abbrev pub IsDrainable {ℓ κ} : {X : Type ℓ} → (X → Type κ) → Waiters X → Type (ℓ ⊔ κ)
IsDrainable {X} P w =
    (t : ℕ) (ts : List ℕ) (x : X)
    → P x
    → w.list x ≡ t ∷ ts
    → (r : Bool × X) × (w.complete t (w.remove_head x) ≡ some r)
      × P (after w t r)
      × (length (w.list (after w t r)) ≤ length ts)

List-cases : (ts : List ℕ) → (ts ≡ []) ⊎ ((u : ℕ) × (us : List ℕ) × (ts ≡ u ∷ us))
List-cases [] = inl refl
List-cases (u ∷ us) = inr (u, us, refl)

pub drain-ends {ℓ κ} :
    {X : Type ℓ} (P : X → Type κ) (w : Waiters X)
    → IsDrainable P w
    → (fuel : ℕ) (x : X) → P x
    → length (w.list x) < fuel
    → (y : X) × (drain w fuel x ≡ some y) × P y × (w.list y ≡ [])
unfolding drain
drain-ends P w drains zero x p enough = absurd (omega (arith, enough))
drain-ends P w drains (suc fuel) x p enough = elim (List-cases (w.list x)) [
  | inl done ↦ let e : is_empty (w.list x) ≡ true = ap is_empty done in (x, simp (e) refl, p, done)
  | inr (t, ts, waiting) ↦
      let (r, ended, q, fewer) = drains t ts x p waiting in
      let n = ap length waiting in
      let (y, e, p', done) =
        drain-ends P w drains fuel (after w t r) q (omega (arith, fewer, enough, n)) in
      (y, rw (waiting) (rw (ended) e), p', done)
]
