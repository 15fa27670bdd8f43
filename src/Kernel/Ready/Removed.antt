-- ===== src/Kernel/Ready/Removed.antt =====
-- task_to_non_runnable keeps the lists, the map and the next task in step.
use usb_bulk.Prelude.{
  ℕ, suc, ◌-◌, ◌^◌, ◌≤◌, ◌<◌, ◌≡◌, ap, sym, ◌∙◌, inl, inr, true, false, Option, none, some, List,
  arith, ◌==◌, ==_iff, if◌then◌else◌, Bool-cases, update, is_empty, head?, remove, is_empty-remove,
  head?-remove, head-is_empty,
}
use usb_bulk.Prelude.Words.{bit, bit-zero, bit_and-lt}
use usb_bulk.Kernel.Ready.{
  Ready, num_priority, find_next_task_to_run, clear_bit, is_next, to_non_runnable,
}
use usb_bulk.Kernel.Ready.First.{
  IsNext, first-IsNext, none-IsNext, IsMap, IsReady, find-IsNext, clear-IsMap,
}

module _ (r : Ready) (t p : ℕ) (ready : IsReady r) (low : p < num_priority)
    (only : (q : ℕ) → head? (r.ready_list q) ≡ some t → p ≡ q) where
  abbrev pub que : List ℕ
  que = remove t (r.ready_list p)

  abbrev pub lists : ℕ → List ℕ
  lists = update r.ready_list p que

  pub lists-none_above : (q : ℕ) → num_priority ≤ q → is_empty (lists q) ≡ true
  lists-none_above q h = ground (arith, ready.none_above q h)

  pub lists-lower :
      (k q : ℕ)
      → ((q : ℕ) → q < k → is_empty (r.ready_list q) ≡ true)
      → q < k
      → is_empty (lists q) ≡ true
  lists-lower k q lower h = elim (Bool-cases (p == q)) [
    | inl same ↦
        let e = (==_iff p q).0 same in
        let gone : is_empty (r.ready_list p) ≡ true =
          ap (λ q. is_empty (r.ready_list q)) e ∙ lower q h in
        ground (arith, is_empty-remove t (r.ready_list p) gone)
    | inr other ↦ ground (arith, lower q h)
  ]

  -- Another task than `t` stays the first.
  pub other-IsNext :
      (next : Option ℕ) → IsNext r.ready_list next → is_next next t ≡ false → IsNext lists next
  unfolding IsNext
  other-IsNext none empty other = λ q. lists-lower (suc q) q (λ q h. empty q) (omega arith)
  other-IsNext (some n) (k, lower, here) other =
      let kept = head?-remove t n (r.ready_list k) here other in
      (
        k,
        (λ q h. lists-lower k q lower h),
        elim (Bool-cases (p == k)) [
          | inl same ↦
              let e = ap (λ p. head? (remove t (r.ready_list p))) ((==_iff p k).0 same) in
              ground (arith, e, kept)
          | inr apart ↦ ground (arith, here)
        ],
      )

  -- Where `t` was the first and its list keeps a task, the first one there is the next.
  kept-IsNext :
      (next : Option ℕ)
      → IsNext r.ready_list next
      → is_next next t ≡ true
      → is_empty que ≡ false
      → IsNext lists (head? que)
  unfolding IsNext
  kept-IsNext none empty same full = ground arith
  kept-IsNext (some n) (k, lower, here) same full =
      let e = only k (here ∙ ap some (sym ((==_iff t n).0 same))) in
      let (u, first) = head-is_empty que full in
      first-IsNext lists (head? que) k u (λ q h. lists-lower k q lower h) (ground (arith, e, first))
        first

  abbrev pub cleared : ℕ
  cleared = clear_bit r.ready_to_run_bmp p

  pub lists-IsMap : IsMap lists (if is_empty que then cleared else r.ready_to_run_bmp)
  lists-IsMap = clear-IsMap r.ready_list r.ready_to_run_bmp p t ready.is_map ready.none_above low

  pub cleared-word : cleared < 2 ^ num_priority
  cleared-word =
      bit_and-lt num_priority r.ready_to_run_bmp (2 ^ num_priority - 1 - 2 ^ p) ready.word

  pub to_non_runnable-IsReady : IsReady (to_non_runnable t p r)
  unfolding to_non_runnable find_next_task_to_run
  to_non_runnable-IsReady = elim (Bool-cases (is_empty que)) [
    | inl gone ↦
        let map : IsMap lists cleared = λ q. ground (arith, lists-IsMap q) in
        elim (Bool-cases (cleared == 0)) [
          | inl no_bit ↦
              let e = (==_iff cleared 0).0 no_bit in
              simp (gone, no_bit)
                record {
                  is_map = map;
                  none_above = lists-none_above;
                  word = cleared-word;
                  is_first =
                      none-IsNext lists
                        (λ q. ground (arith, map q, ap (λ w. bit w q) e, bit-zero q));
                }
          | inr some_bit ↦
              simp (gone, some_bit)
                record {
                  is_map = map;
                  none_above = lists-none_above;
                  word = cleared-word;
                  is_first = find-IsNext lists cleared map cleared-word some_bit;
                }
        ]
    | inr full ↦
        let map : IsMap lists r.ready_to_run_bmp = λ q. ground (arith, lists-IsMap q) in
        elim (Bool-cases (is_next r.next_task_to_run t)) [
          | inl next ↦
              simp (full, next)
                record {
                  is_map = map;
                  none_above = lists-none_above;
                  word = ready.word;
                  is_first = kept-IsNext r.next_task_to_run ready.is_first next full;
                }
          | inr other ↦
              simp (full, other)
                record {
                  is_map = map;
                  none_above = lists-none_above;
                  word = ready.word;
                  is_first = other-IsNext r.next_task_to_run ready.is_first other;
                }
        ]
  ]

-- The list of priority p loses the task, and no other list changes.
pub to_non_runnable-list :
    (t p : ℕ) (r : Ready)
    → (to_non_runnable t p r).ready_list ≡ update r.ready_list p (remove t (r.ready_list p))
unfolding to_non_runnable find_next_task_to_run
to_non_runnable-list t p r = ground arith
