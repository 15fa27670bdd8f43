-- ===== src/Kernel/Ready/First.antt =====
-- The next task to run is the first of the highest priority: find_next_task_to_run, and what the
-- other functions of Ready keep.
use usb_bulk.Prelude.{
  ℕ, zero, suc, ◌+◌, ◌-◌, ◌^◌, ◌≤◌, ◌<◌, ◌≡◌, refl, ap, ◌∙◌, ◌⊎◌, inl, inr, true, false, not,
  Option, none, some, List, [], ◌∷◌, ◌++◌, arith, ◌==◌, ==_iff, if◌then◌else◌, Bool-cases, update,
  is_empty, head?, remove, is_empty-remove, is_empty-snoc, head-is_empty,
}
use usb_bulk.Prelude.Words.{bit, bit-or, bit-and, bit-pow, bit-others, bit-none}
use usb_bulk.Kernel.Ready.{
  Ready, num_priority, first_bit, find_next_task_to_run, clear_bit, set_bit,
}

-- `next` is the head of the first list that has one, or no list has one.
unfoldable pub IsNext : (ℕ → List ℕ) → Option ℕ → Type 0
IsNext lists none = (q : ℕ) → is_empty (lists q) ≡ true
IsNext lists (some t) =
    (p : ℕ) × ((q : ℕ) → q < p → is_empty (lists q) ≡ true) × (head? (lists p) ≡ some t)

pub first-IsNext :
    (lists : ℕ → List ℕ) (next : Option ℕ) (p t : ℕ)
    → ((q : ℕ) → q < p → is_empty (lists q) ≡ true)
    → head? (lists p) ≡ some t
    → next ≡ some t
    → IsNext lists next
unfolding IsNext
first-IsNext lists next p t lower here e = rw (e) (p, lower, here)

pub none-IsNext : (lists : ℕ → List ℕ) → ((q : ℕ) → is_empty (lists q) ≡ true) → IsNext lists none
unfolding IsNext
none-IsNext lists empty = empty

-- Bit p of the map is whether list p has an entry.
abbrev pub IsMap : (ℕ → List ℕ) → ℕ → Type 0
IsMap lists bmp = (p : ℕ) → bit bmp p ≡ not (is_empty (lists p))

pub record IsReady (r : Ready) : Type 0 where
  pub is_map : IsMap r.ready_list r.ready_to_run_bmp
  pub none_above : (p : ℕ) → num_priority ≤ p → is_empty (r.ready_list p) ≡ true
  pub word : r.ready_to_run_bmp < 2 ^ num_priority
  pub is_first : IsNext r.ready_list r.next_task_to_run

-- The search finds the lowest bit that is set, or none of those it looks at is.
first_bit-lowest :
    (n i bmp : ℕ)
    → ((bit bmp (first_bit n i bmp) ≡ true)
        × ((q : ℕ) → i ≤ q → q < first_bit n i bmp → bit bmp q ≡ false))
      ⊎ ((q : ℕ) → i ≤ q → q < i + n → bit bmp q ≡ false)
unfolding first_bit
first_bit-lowest zero i bmp = inr (λ q h k. absurd (omega arith))
first_bit-lowest (suc n) i bmp = elim (Bool-cases (bit bmp i)) [
  | inl set ↦ rw (set) (inl (set, λ q h k. absurd (omega arith)))
  | inr clear ↦ rw (clear) elim (first_bit-lowest n (suc i) bmp) [
    | inl (found, lower) ↦ inl (
      found,
      λ q h k. elim (Bool-cases (q == i)) [
        | inl here ↦ ap (bit bmp) ((==_iff q i).0 here) ∙ clear
        | inr later ↦ lower q (ground arith) k
      ],
    )
    | inr absent ↦ inr (λ q h k. elim (Bool-cases (q == i)) [
      | inl here ↦ ap (bit bmp) ((==_iff q i).0 here) ∙ clear
      | inr later ↦ absent q (ground arith) (omega arith)
    ])
  ]
]

-- Where some bit of the map is set, the search finds the next task.
pub find-IsNext :
    (lists : ℕ → List ℕ) (bmp : ℕ)
    → IsMap lists bmp
    → bmp < 2 ^ num_priority
    → (bmp == 0) ≡ false
    → IsNext lists (head? (lists (first_bit num_priority 0 bmp)))
unfolding IsNext
find-IsNext lists bmp is_map word some_set = elim (first_bit-lowest num_priority 0 bmp) [
  | inl (found, lower) ↦
      let k = first_bit num_priority 0 bmp in
      let full : is_empty (lists k) ≡ false = ground (arith, is_map k) in
      let (t, e) = head-is_empty (lists k) full in
      rw (e) (k, (λ q h. ground (arith, is_map q, lower q (omega arith) h)), e)
  | inr absent ↦
      let zero_map = bit-none num_priority bmp word (λ i h. absent i (omega arith) (omega arith)) in
      absurd (ground (arith, zero_map))
]

pub clear-IsMap :
    (lists : ℕ → List ℕ) (bmp p t : ℕ)
    → IsMap lists bmp
    → ((q : ℕ) → num_priority ≤ q → is_empty (lists q) ≡ true)
    → p < num_priority
    → let que = remove t (lists p) in
      IsMap (update lists p que) (if is_empty que then clear_bit bmp p else bmp)
clear-IsMap lists bmp p t is_map above low q = elim (Bool-cases (p == q)) [
  | inl same ↦
      let e = (==_iff p q).0 same in
      ground (
        arith,
        bit-and q bmp (2 ^ num_priority - 1 - 2 ^ p),
        bit-others p num_priority q low,
        is_map q,
        ap lists e,
        is_empty-remove t (lists p),
      )
  | inr other ↦ ground (
    arith,
    bit-and q bmp (2 ^ num_priority - 1 - 2 ^ p),
    bit-others p num_priority q low,
    is_map q,
    above q,
  )
]

pub set-IsMap :
    (lists : ℕ → List ℕ) (bmp p t : ℕ)
    → IsMap lists bmp
    → IsMap (update lists p (lists p ++ (t ∷ []))) (set_bit bmp p)
set-IsMap lists bmp p t is_map q =
    ground (arith, bit-or q bmp (2 ^ p), bit-pow p q, is_map q, is_empty-snoc (lists p) t)

-- Where bit p of the ready map says for each p whether the list of priority p has a task, and some bit
-- of the 32 is set, find_next_task_to_run makes the next task the first one of the highest priority
-- that has a task, and changes nothing else.
pub find_next_task_to_run-IsNext :
    (r : Ready)
    → IsMap r.ready_list r.ready_to_run_bmp
    → r.ready_to_run_bmp < 2 ^ num_priority
    → (r.ready_to_run_bmp == 0) ≡ false
    → IsNext r.ready_list (find_next_task_to_run r).next_task_to_run
      × ((find_next_task_to_run r).ready_list ≡ r.ready_list)
      × ((find_next_task_to_run r).ready_to_run_bmp ≡ r.ready_to_run_bmp)
unfolding find_next_task_to_run
find_next_task_to_run-IsNext r is_map word some_bit =
    (find-IsNext r.ready_list r.ready_to_run_bmp is_map word some_bit, refl, refl)
