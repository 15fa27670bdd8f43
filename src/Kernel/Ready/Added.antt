-- ===== src/Kernel/Ready/Added.antt =====
-- task_to_runnable keeps the lists, the map and the next task in step.
use usb_bulk.Prelude.{
  ℕ, ◌^◌, ◌≤◌, ◌<◌, ◌≡◌, refl, ap, inl, inr, true, false, Option, none, some, List, [], ◌∷◌, ◌++◌,
  arith, ◌==◌, ltb, ltb→lt, ==_iff, if◌then◌else◌, Bool-cases, update, is_empty, count, count-head,
  is_empty-head, head?-snoc,
}
use usb_bulk.Prelude.Words.{bit_or-lt, pow-lt}
use usb_bulk.Kernel.Ready.{Ready, num_priority, is_higher, to_runnable}
use usb_bulk.Kernel.Ready.First.{IsNext, first-IsNext, IsReady, set-IsMap}

-- The tasks of list q have priority q.
abbrev pub IsKnown : (ℕ → List ℕ) → (ℕ → ℕ) → Type 0
IsKnown lists prio = (n q : ℕ) → (count n (lists q) == 0) ≡ false → prio n ≡ q

module _ (lists : ℕ → List ℕ) (prio : ℕ → ℕ) (t p : ℕ) where
  abbrev pub longer : ℕ → List ℕ
  longer = update lists p (lists p ++ (t ∷ []))

  -- Where the lists before p are empty and so is p's, the task is the first.
  pub alone-IsNext :
      ((q : ℕ) → q < p → is_empty (lists q) ≡ true)
      → is_empty (lists p) ≡ true
      → IsNext longer (some t)
  alone-IsNext lower empty =
      first-IsNext longer (some t) p t (λ q h. ground (arith, lower q h))
        (ground (arith, head?-snoc (lists p) t)) refl

  pub added-IsNext :
      (next : Option ℕ)
      → IsNext lists next
      → IsKnown lists prio
      → IsNext longer (if is_higher prio p next then some t else next)
  unfolding IsNext
  added-IsNext none empty known = alone-IsNext (λ q h. empty q) (empty p)
  added-IsNext (some n) (k, lower, here) known =
      let e = known n k (count-head n (lists k) here) in
      elim (Bool-cases (ltb p (prio n))) [
        | inl higher ↦
            let before : p < k = omega (arith, e, ltb→lt p (prio n) higher) in
            let first = alone-IsNext (λ q h. lower q (omega arith)) (lower p before) in
            ground (arith, first)
        | inr lower_or_same ↦
            let from : k ≤ p = ground (arith, e, lower_or_same) in
            first-IsNext longer (if ltb p (prio n) then some t else some n) k n
              (λ q h. ground (arith, lower q h))
              (elim (Bool-cases (p == k)) [
                | inl same ↦
                    let e = ap lists ((==_iff p k).0 same) in
                    ground (arith, e, here, head?-snoc (lists p) t, is_empty-head n (lists k) here)
                | inr apart ↦ ground (arith, here)
              ])
              (rw (lower_or_same) refl)
      ]

-- task_to_runnable
pub to_runnable-IsReady :
    (prio : ℕ → ℕ) (t p : ℕ) (r : Ready)
    → IsReady r
    → p < num_priority
    → IsKnown r.ready_list prio
    → IsReady (to_runnable prio t p r)
unfolding to_runnable
to_runnable-IsReady prio t p r ready low known = record {
  is_map = set-IsMap r.ready_list r.ready_to_run_bmp p t ready.is_map;
  none_above = λ q h. ground (arith, ready.none_above q h);
  word = bit_or-lt num_priority r.ready_to_run_bmp (2 ^ p) ready.word (pow-lt p num_priority low);
  is_first = added-IsNext r.ready_list prio t p r.next_task_to_run ready.is_first known;
}
