-- ===== src/Kernel/Ready/Changed.antt =====
-- change_running_task_priority keeps the lists, the map and the next task in step.
use usb_bulk.Prelude.{
  ℕ, ◌^◌, ◌≤◌, ◌<◌, ◌≡◌, refl, ap, sym, subst, ◌∙◌, inl, inr, true, false, Option, none, some, List,
  [], ◌∷◌, ◌++◌, arith, ◌==◌, leb, ==_iff, if◌then◌else◌, Bool-cases, update, is_empty, head?,
  remove, count-head, count-remove,
}
use usb_bulk.Prelude.Words.{bit, bit-or, bit-pow, bit-zero, bit_or-lt, pow-lt}
use usb_bulk.Kernel.Ready.{
  Ready, num_priority, find_next_task_to_run, clear_bit, set_bit, is_next, is_higher,
  change_priority,
}
use usb_bulk.Kernel.Ready.First.{IsNext, IsMap, IsReady, find-IsNext, set-IsMap}
use usb_bulk.Kernel.Ready.Removed.{
  lists-IsMap, lists-none_above, lists-lower, cleared-word, other-IsNext,
}
use usb_bulk.Kernel.Ready.Added.{IsKnown, alone-IsNext, added-IsNext}

-- A map in which a bit was set is not 0.
set_bit-some : (bmp p : ℕ) → (set_bit bmp p == 0) ≡ false
set_bit-some bmp p = elim (Bool-cases (set_bit bmp p == 0)) [
  | inl zero_map ↦
      let e = (==_iff (set_bit bmp p) 0).0 zero_map in
      ground (arith, bit-or p bmp (2 ^ p), bit-pow p p, ap (λ w. bit w p) e, bit-zero p)
  | inr some_map ↦ some_map
]

module _ (prio : ℕ → ℕ) (t old new : ℕ) (r : Ready) (ready : IsReady r) (low : old < num_priority)
    (new_low : new < num_priority) (known : IsKnown r.ready_list prio) (e_old : prio t ≡ old) where
  only : (q : ℕ) → head? (r.ready_list q) ≡ some t → old ≡ q
  only q here = sym e_old ∙ known t q (count-head t (r.ready_list q) here)

  abbrev que : List ℕ
  que = remove t (r.ready_list old)

  abbrev lists : ℕ → List ℕ
  lists = update r.ready_list old que

  abbrev bmp : ℕ
  bmp = if is_empty que then clear_bit r.ready_to_run_bmp old else r.ready_to_run_bmp

  bmp-word : bmp < 2 ^ num_priority
  bmp-word = elim (Bool-cases (is_empty que)) [
    | inl gone ↦ ground (arith, cleared-word r t old ready low only)
    | inr full ↦ ground (arith, ready.word)
  ]

  lists-IsKnown : IsKnown lists prio
  lists-IsKnown n q there =
      ground (arith, known n q, count-remove t n (r.ready_list old), known n old)

  abbrev lists' : ℕ → List ℕ
  lists' = update lists new (lists new ++ (t ∷ []))

  lists'-IsMap : IsMap lists' (set_bit bmp new)
  lists'-IsMap = set-IsMap lists bmp new t (lists-IsMap r t old ready low only)

  lists'-none_above : (q : ℕ) → num_priority ≤ q → is_empty (lists' q) ≡ true
  lists'-none_above q h = ground (arith, lists-none_above r t old ready low only q h)

  set-word : set_bit bmp new < 2 ^ num_priority
  set-word = bit_or-lt num_priority bmp (2 ^ new) bmp-word (pow-lt new num_priority new_low)

  -- A task that was the first is the first at a higher priority too.
  raised-IsNext :
      (next : Option ℕ)
      → IsNext r.ready_list next
      → is_next next t ≡ true
      → new < old
      → IsNext lists' next
  unfolding IsNext
  raised-IsNext none empty same h = ground arith
  raised-IsNext (some n) (k, lower, here) same h =
      let e = (==_iff t n).0 same in
      let at_old = only k (here ∙ ap some (sym e)) in
      let gone : (q : ℕ) → q < old → is_empty (lists q) ≡ true =
        λ q before. lists-lower r t old ready low only k q lower (omega (arith, at_old)) in
      subst (λ n. IsNext lists' (some n)) e
        (alone-IsNext lists prio t new (λ q before. gone q (omega arith)) (gone new h))

  -- change_running_task_priority of a ready task, from its priority to another, both below 32, where
  -- the tasks of each ready list have that list's priority: bit p of the ready map says afterwards as
  -- before whether list p has a task, and the next task to run is the first of the highest priority
  -- that has one.
  pub change_priority-IsReady : IsReady (change_priority prio t old new r).1
  unfolding change_priority find_next_task_to_run
  change_priority-IsReady = elim (Bool-cases (is_next r.next_task_to_run t)) [
    | inl next ↦ elim (Bool-cases (leb old new)) [
      | inl lowered ↦
          simp (next, lowered)
            record {
              is_map = lists'-IsMap;
              none_above = lists'-none_above;
              word = set-word;
              is_first =
                  find-IsNext lists' (set_bit bmp new) lists'-IsMap set-word (set_bit-some bmp new);
            }
      | inr raised ↦
          simp (next, raised)
            record {
              is_map = lists'-IsMap;
              none_above = lists'-none_above;
              word = set-word;
              is_first = raised-IsNext r.next_task_to_run ready.is_first next (ground arith);
            }
    ]
    | inr other ↦
        let first = other-IsNext r t old ready low only r.next_task_to_run ready.is_first other in
        let added = added-IsNext lists prio t new r.next_task_to_run first lists-IsKnown in
        elim (Bool-cases (is_higher prio new r.next_task_to_run)) [
          | inl higher ↦
              simp (other, higher)
                record {
                  is_map = lists'-IsMap;
                  none_above = lists'-none_above;
                  word = set-word;
                  is_first = subst (IsNext lists') (rw (higher) refl) added;
                }
          | inr lower ↦
              simp (other, lower)
                record {
                  is_map = lists'-IsMap;
                  none_above = lists'-none_above;
                  word = set-word;
                  is_first = subst (IsNext lists') (rw (lower) refl) added;
                }
        ]
  ]

-- The task goes from the list of its old priority to the end of that of the new.
pub change_priority-list :
    (prio : ℕ → ℕ) (t old new : ℕ) (r : Ready)
    → let lists = update r.ready_list old (remove t (r.ready_list old)) in
      (change_priority prio t old new r).1.ready_list ≡ update lists new (lists new ++ (t ∷ []))
unfolding change_priority find_next_task_to_run
change_priority-list prio t old new r = ground arith
