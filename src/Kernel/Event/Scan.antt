-- ===== src/Kernel/Event/Scan.antt =====
-- scan_event_waitqueue and tn_event_set: which tasks are released.
use usb_bulk.Prelude.{
  ℕ, ◌≤◌, ◌≡◌, refl, ap, sym, ◌∙◌, inl, inr, Bool, true, false, List, [], ◌∷◌, arith, ◌==◌, ==_iff,
  if◌then◌else◌, Bool-cases, update, remove, count, count-cons, remove-head, remove-other,
}
use usb_bulk.Kernel.Task.{Tcb, System, task_wait_complete}
use usb_bulk.Kernel.Task.Released.{task_wait_complete-others, task_wait_complete-wait_list}
use usb_bulk.Kernel.Event.{is_met, scan_event_waitqueue}

-- Whether the condition of a task is met.
abbrev pub task_met : ℕ → Tcb → Bool
task_met pattern c = is_met pattern c.ewait_mode c.ewait_pattern

-- The tasks whose condition is not met, in their order.
unfoldable pub unmet : ℕ → (ℕ → Tcb) → List ℕ → List ℕ
unmet pattern tcb [] = []
unmet pattern tcb (t ∷ ts) =
    let rest = unmet pattern tcb ts in if task_met pattern (tcb t) then rest else t ∷ rest

-- The system after the release of one task, which is in the queue `w`.
abbrev pub left : ℕ → ℕ → ℕ → System → System
left w pattern t s = record s {
  tcb = update s.tcb t (record (s.tcb t) { ewait_pattern = pattern });
  wait_list = update s.wait_list w (remove t (s.wait_list w));
}

-- Each task of the list is in it once.
unfoldable pub IsApart : List ℕ → Type 0
IsApart [] = Unit
IsApart (t ∷ ts) = (count t ts ≡ 0) × IsApart ts

pub count-IsApart : (ts : List ℕ) → ((u : ℕ) → count u ts ≤ 1) → IsApart ts
unfolding IsApart
count-IsApart [] once = tt
count-IsApart (t ∷ ts) once = (
  ground (arith, once t, count-cons t t ts),
  count-IsApart ts (λ u. ground (arith, once u, count-cons u t ts)),
)

-- What remains of `queue` when the tasks of a list were looked at.
unfoldable pub sweep : ℕ → (ℕ → Tcb) → List ℕ → List ℕ → List ℕ
sweep pattern tcb [] queue = queue
sweep pattern tcb (t ∷ ts) queue =
    sweep pattern tcb ts (if task_met pattern (tcb t) then remove t queue else queue)

sweep-cons :
    (pattern : ℕ) (tcb : ℕ → Tcb) (ts : List ℕ) (t : ℕ) (queue : List ℕ)
    → count t ts ≡ 0
    → sweep pattern tcb ts (t ∷ queue) ≡ t ∷ sweep pattern tcb ts queue
unfolding sweep
sweep-cons pattern tcb [] t queue absent = refl
sweep-cons pattern tcb (u ∷ us) t queue absent =
    let other : (u == t) ≡ false = ground (arith, absent, count-cons t u us) in
    let later : count t us ≡ 0 = ground (arith, absent, count-cons t u us) in
    elim (Bool-cases (task_met pattern (tcb u))) [
      | inl met ↦
          let rest = sweep-cons pattern tcb us t (remove u queue) later in
          let e = ap (sweep pattern tcb us) (remove-other u t queue other) ∙ rest in rw (met) e
      | inr not_met ↦ let e = sweep-cons pattern tcb us t queue later in rw (not_met) e
    ]

pub sweep-unmet :
    (pattern : ℕ) (tcb : ℕ → Tcb) (ts : List ℕ)
    → IsApart ts
    → sweep pattern tcb ts ts ≡ unmet pattern tcb ts
unfolding sweep unmet IsApart
sweep-unmet pattern tcb [] apart = refl
sweep-unmet pattern tcb (t ∷ ts) (absent, apart) = elim (Bool-cases (task_met pattern (tcb t))) [
  | inl met ↦
      let e =
        ap (sweep pattern tcb ts) (remove-head t ts absent) ∙ sweep-unmet pattern tcb ts apart in
      rw (met) e
  | inr not_met ↦
      let e =
        sweep-cons pattern tcb ts t ts absent
        ∙ ap (λ us. t ∷ us) (sweep-unmet pattern tcb ts apart) in
      rw (not_met) e
]

-- The scan leaves a task alone that it does not look at.
pub scan-others :
    (w pattern : ℕ) (ts : List ℕ) (s : System) (u : ℕ)
    → count u ts ≡ 0
    → (scan_event_waitqueue w pattern ts s).1.tcb u ≡ s.tcb u
unfolding scan_event_waitqueue
scan-others w pattern [] s u absent = refl
scan-others w pattern (t ∷ ts) s u absent =
    let other : (t == u) ≡ false = ground (arith, absent, count-cons u t ts) in
    let later : count u ts ≡ 0 = ground (arith, absent, count-cons u t ts) in
    let s1 : System = left w pattern t s in
    let s' = (task_wait_complete t s1).1 in
    let done : s'.tcb u ≡ s.tcb u = task_wait_complete-others t s1 u other ∙ rw (other) refl in
    elim (Bool-cases (task_met pattern (s.tcb t))) [
      | inl met ↦ let e = scan-others w pattern ts s' u later ∙ done in rw (met) e
      | inr not_met ↦ let e = scan-others w pattern ts s u later in rw (not_met) e
    ]

-- What the scan leaves of the queue, where the tasks to look at are as in `tcb`.
pub scan-wait_list :
    (w pattern : ℕ) (tcb : ℕ → Tcb) (ts : List ℕ) (s : System)
    → IsApart ts
    → ((u : ℕ) → (count u ts == 0) ≡ false → s.tcb u ≡ tcb u)
    → (scan_event_waitqueue w pattern ts s).1.wait_list w ≡ sweep pattern tcb ts (s.wait_list w)
unfolding scan_event_waitqueue IsApart sweep
scan-wait_list w pattern tcb [] s apart same = refl
scan-wait_list w pattern tcb (t ∷ ts) s (absent, apart) same =
    let here : s.tcb t ≡ tcb t = same t (ground (arith, count-cons t t ts)) in
    let s1 : System = left w pattern t s in
    let s' = (task_wait_complete t s1).1 in
    let others : (u : ℕ) → (count u ts == 0) ≡ false → (t == u) ≡ false = λ u there.
      elim (Bool-cases (t == u)) [
        | inl equal ↦ ground (arith, absent, ap (λ t. count t ts) ((==_iff t u).0 equal))
        | inr other ↦ other
      ] in
    let same' : (u : ℕ) → (count u ts == 0) ≡ false → s'.tcb u ≡ tcb u = λ u there.
      task_wait_complete-others t s1 u (others u there)
      ∙ rw (others u there) (same u (ground (arith, count-cons u t ts))) in
    let queue : s'.wait_list w ≡ remove t (s.wait_list w) =
      ap (λ f. f w) (task_wait_complete-wait_list t s1) ∙ ground arith in
    elim (Bool-cases (task_met pattern (s.tcb t))) [
      | inl met ↦
          let met' : task_met pattern (tcb t) ≡ true = ap (task_met pattern) (sym here) ∙ met in
          let e =
            scan-wait_list w pattern tcb ts s' apart same' ∙ ap (sweep pattern tcb ts) queue in
          rw (met, met') e
      | inr not_met ↦
          let not_met' : task_met pattern (tcb t) ≡ false =
            ap (task_met pattern) (sym here) ∙ not_met in
          let e =
            scan-wait_list w pattern tcb ts s apart
              (λ u there. same u (ground (arith, count-cons u t ts))) in
          rw (not_met, not_met') e
    ]
