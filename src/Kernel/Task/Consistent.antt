-- ===== src/Kernel/Task/Consistent.antt =====
-- The wait queues and the list of timers hold the tasks that wait there, each once: what the end and
-- the beginning of a wait make of that.
use usb_bulk.Prelude.{
  ℕ, ◌≡◌, ap, subst, inl, inr, not, ◌&&◌, List, [], ◌∷◌, ◌++◌, arith, ◌==◌, ==_iff, if◌then◌else◌,
  Bool-cases, update, remove, count, count-remove, count-snoc,
}
use usb_bulk.Kernel.Ready.{is_next}
use usb_bulk.Kernel.Task.{Tcb, System, has_wait, wait_infinite}
use usb_bulk.Kernel.Task.Scheduled.{IsScheduled}

-- How often a task is in the queue named `w`, and in the list of timers.
abbrev pub waits_at : Tcb → ℕ → ℕ
waits_at c w = if has_wait c.task_state && is_next c.pwait_queue w then 1 else 0

abbrev pub timed : Tcb → ℕ
timed c = if has_wait c.task_state && not (c.tick_count == wait_infinite) then 1 else 0

abbrev pub IsQueued : (ℕ → Tcb) → (ℕ → List ℕ) → Type 0
IsQueued tcb lists = (u w : ℕ) → count u (lists w) ≡ waits_at (tcb u) w

abbrev pub IsTimed : (ℕ → Tcb) → List ℕ → Type 0
IsTimed tcb timers = (u : ℕ) → count u timers ≡ timed (tcb u)

-- `t` was taken out of the queue that it waits at, or is in none.
abbrev pub IsQueuedBut : ℕ → (ℕ → Tcb) → (ℕ → List ℕ) → Type 0
IsQueuedBut t tcb lists = (u w : ℕ) → count u (lists w) ≡ (if t == u then 0 else waits_at (tcb u) w)

pub record IsConsistent (s : System) : Type 0 where
  pub scheduled : IsScheduled s.tcb s.ready
  pub is_queued : IsQueued s.tcb s.wait_list
  pub is_timed : IsTimed s.tcb s.wait_timeout_list

module _ (tcb : ℕ → Tcb) (t : ℕ) (c : Tcb) where
  pub out-IsQueued :
      (lists : ℕ → List ℕ)
      → IsQueuedBut t tcb lists
      → ((w : ℕ) → waits_at c w ≡ 0)
      → IsQueued (update tcb t c) lists
  out-IsQueued lists but off u w = ground (arith, but u w, off w)

  pub same-IsQueued :
      (lists : ℕ → List ℕ)
      → IsQueued tcb lists
      → ((w : ℕ) → waits_at c w ≡ waits_at (tcb t) w)
      → IsQueued (update tcb t c) lists
  same-IsQueued lists queued same u w = elim (Bool-cases (t == u)) [
    | inl here ↦
        let e = ap (λ t. waits_at (tcb t) w) ((==_iff t u).0 here) in
        ground (arith, queued u w, same w, e)
    | inr other ↦ ground (arith, queued u w)
  ]

  pub same-IsTimed :
      (timers : List ℕ)
      → IsTimed tcb timers
      → timed c ≡ timed (tcb t)
      → IsTimed (update tcb t c) timers
  same-IsTimed timers is_timed same u = elim (Bool-cases (t == u)) [
    | inl here ↦
        let e = ap (λ t. timed (tcb t)) ((==_iff t u).0 here) in ground (arith, is_timed u, same, e)
    | inr other ↦ ground (arith, is_timed u)
  ]

  pub out-IsTimed :
      (timers : List ℕ)
      → IsTimed tcb timers
      → timed c ≡ 0
      → IsTimed
          (update tcb t c)
          (if (tcb t).tick_count == wait_infinite then timers else remove t timers)
  out-IsTimed timers is_timed off u = elim (Bool-cases (t == u)) [
    | inl here ↦
        let e = (==_iff t u).0 here in
        let none_there = subst (λ u. count u timers ≡ timed (tcb t)) e (is_timed t) in
        ground (arith, none_there, off, count-remove t u timers)
    | inr other ↦ ground (arith, is_timed u, count-remove t u timers)
  ]

  pub added-IsQueued :
      (lists : ℕ → List ℕ) (w : ℕ)
      → IsQueued tcb lists
      → ((v : ℕ) → waits_at (tcb t) v ≡ 0)
      → ((v : ℕ) → waits_at c v ≡ (if w == v then 1 else 0))
      → IsQueued (update tcb t c) (update lists w (lists w ++ (t ∷ [])))
  added-IsQueued lists w queued off on u v = elim (Bool-cases (t == u)) [
    | inl same ↦
        let e = (==_iff t u).0 same in
        let nowhere = subst (λ u. count u (lists v) ≡ waits_at (tcb t) v) e (queued t v) in
        let absent = subst (λ u. count u (lists w) ≡ waits_at (tcb t) w) e (queued t w) in
        ground (arith, nowhere, absent, off v, off w, on v, count-snoc u t (lists w))
    | inr other ↦ elim (Bool-cases (w == v)) [
      | inl here ↦
          let e = ap lists ((==_iff w v).0 here) in
          ground (arith, ap (count u) e, queued u v, count-snoc u t (lists w))
      | inr apart ↦ ground (arith, queued u v)
    ]
  ]

  pub added-IsTimed :
      (timers : List ℕ) (timeout : ℕ)
      → IsTimed tcb timers
      → timed (tcb t) ≡ 0
      → timed c ≡ (if timeout == wait_infinite then 0 else 1)
      → IsTimed (update tcb t c) (if timeout == wait_infinite then timers else timers ++ (t ∷ []))
  added-IsTimed timers timeout is_timed off on u = elim (Bool-cases (t == u)) [
    | inl same ↦
        let e = (==_iff t u).0 same in
        let absent = subst (λ u. count u timers ≡ timed (tcb t)) e (is_timed t) in
        ground (arith, absent, off, on, count-snoc u t timers)
    | inr other ↦ ground (arith, is_timed u, count-snoc u t timers)
  ]
