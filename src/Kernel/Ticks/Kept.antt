-- ===== src/Kernel/Ticks/Kept.antt =====
-- A tick without time slices, while the tasks with a timer are in no object's queue, keeps the lists
-- of the tasks in step with their TCBs.
use usb_bulk.Prelude.{
  update_self, ℕ, ◌-◌, ◌≤◌, ◌≡◌, refl, ap, sym, ◌∙◌, subst, inl, inr, Bool, true, false, not, ◌&&◌,
  none, List, [], ◌∷◌, arith, ◌==◌, gt_int, ==_iff, Bool-cases, count, count-cons,
}
use usb_bulk.Kernel.Code.{Code}
use usb_bulk.Kernel.Task.{
  Tcb, System, has_wait, in_interrupt, wait_infinite, set_tcb, task_wait_complete,
}
use usb_bulk.Kernel.Task.Scheduled.{IsTcb, same-IsScheduled}
use usb_bulk.Kernel.Task.Consistent.{IsConsistent, same-IsQueued, same-IsTimed}
use usb_bulk.Kernel.Task.Waits.{task_wait_complete-IsConsistent}
use usb_bulk.Kernel.Task.Woken.{apart-IsQueuedBut}
use usb_bulk.Kernel.Task.Kept.{same-IsConsistent, request_switch-IsNeutral}
use usb_bulk.Kernel.Ticks.Timers.{after_due, tick_timer-after}
use usb_bulk.Kernel.Task.Released.{task_wait_complete-others}
use usb_bulk.Kernel.Ticks.{slice, tick_timer, tick_timers, tn_tick_int_processing}

-- A task that waits in no object's queue.
abbrev pub IsApartFrom : Tcb → Type 0
IsApartFrom c = (has_wait c.task_state ≡ true) × (c.pwait_queue ≡ none)

still-IsTcb : (c : Tcb) (n : ℕ) → IsTcb c → IsTcb (record c { tick_count = n })
still-IsTcb c n good = record {
  low = good.low;
  base_low = good.base_low;
  no_task = good.no_task;
  no_queue = good.no_queue;
  asleep = good.asleep;
}

-- A count that gets less, and was not that of no timeout.
counted-IsConsistent :
    (t : ℕ) (s : System)
    → IsConsistent s
    → ((s.tcb t).tick_count == wait_infinite) ≡ false
    → gt_int (s.tcb t).tick_count 0 ≡ true
    → IsConsistent (set_tcb s t (record (s.tcb t) { tick_count = (s.tcb t).tick_count - 1 }))
counted-IsConsistent t s good finite pos =
    let c : Tcb = record (s.tcb t) { tick_count = (s.tcb t).tick_count - 1 } in
    record {
      scheduled =
          same-IsScheduled s.tcb s.ready good.scheduled t c refl (λ h. refl)
            (still-IsTcb (s.tcb t) ((s.tcb t).tick_count - 1) (good.scheduled.is_tcb t));
      is_queued = same-IsQueued s.tcb t c s.wait_list good.is_queued (λ w. refl);
      is_timed =
          same-IsTimed s.tcb t c s.wait_timeout_list good.is_timed (ground (arith, finite, pos));
    }

after_due-IsConsistent :
    (t : ℕ) (switch : Bool) (s : System) → IsConsistent s → IsConsistent (after_due t switch s)
after_due-IsConsistent t true s good =
    let c : Tcb = record (s.tcb t) { task_wait_rc = Code.timeout } in
    let is_tcb : IsTcb c = record {
      low = (good.scheduled.is_tcb t).low;
      base_low = (good.scheduled.is_tcb t).base_low;
      no_task = (good.scheduled.is_tcb t).no_task;
      no_queue = (good.scheduled.is_tcb t).no_queue;
      asleep = (good.scheduled.is_tcb t).asleep;
    } in
    let done = same-IsConsistent t c s good refl refl refl refl (λ h. refl) is_tcb in
    request_switch-IsNeutral (set_tcb s t c) done
after_due-IsConsistent t false s good = good

after_due-others :
    (t u : ℕ) (switch : Bool) (s : System)
    → (t == u) ≡ false
    → (after_due t switch s).tcb u ≡ s.tcb u
after_due-others t u true s other = rw (other) refl
after_due-others t u false s other = refl

tick_timer-others : (t u : ℕ) (s : System) → (t == u) ≡ false → (tick_timer t s).tcb u ≡ s.tcb u
unfolding tick_timer
tick_timer-others t u s other =
    let s1 : System = set_tcb s t (record (s.tcb t) { tick_count = (s.tcb t).tick_count - 1 }) in
    let done : (task_wait_complete t s1).1.tcb u ≡ s.tcb u =
      task_wait_complete-others t s1 u other ∙ rw (other) refl in
    elim (Bool-cases
      (gt_int (s.tcb t).tick_count 0 && not ((s.tcb t).tick_count == wait_infinite))) [
        | inl runs ↦ elim (Bool-cases ((s.tcb t).tick_count - 1 == 0)) [
          | inl due ↦
              let e =
                after_due-others t u (task_wait_complete t s1).0 (task_wait_complete t s1).1 other
                ∙ done in
              subst (λ s'. s'.tcb u ≡ s.tcb u)
                (sym (tick_timer-after t s (ground (arith, runs, due)))) e
          | inr later ↦ simp (runs, later) (rw (other) refl)
        ]
        | inr still ↦ simp (still) refl
      ]

tick_timer-IsConsistent :
    (t : ℕ) (s : System) → IsConsistent s → IsApartFrom (s.tcb t) → IsConsistent (tick_timer t s)
unfolding tick_timer
tick_timer-IsConsistent t s good (waits, apart) =
    let c : Tcb = record (s.tcb t) { tick_count = (s.tcb t).tick_count - 1 } in
    let s1 : System = set_tcb s t c in
    let e1 : s1.tcb t ≡ c = update_self s.tcb t c in
    elim (Bool-cases
      (gt_int (s.tcb t).tick_count 0 && not ((s.tcb t).tick_count == wait_infinite))) [
        | inl runs ↦
            let counted : IsConsistent s1 =
              counted-IsConsistent t s good (ground (arith, runs)) (ground (arith, runs)) in
            elim (Bool-cases ((s.tcb t).tick_count - 1 == 0)) [
              | inl due ↦
                  let r = task_wait_complete t s1 in
                  let ended : IsConsistent r.1 =
                    task_wait_complete-IsConsistent t s1 counted.scheduled counted.is_timed
                      (apart-IsQueuedBut t s1 counted (ap (λ c. c.pwait_queue) e1 ∙ apart))
                      (ap (λ c. has_wait c.task_state) e1 ∙ waits) in
                  let done = after_due-IsConsistent t r.0 r.1 ended in
                  subst IsConsistent (sym (tick_timer-after t s (ground (arith, runs, due)))) done
              | inr later ↦ simp (runs, later) counted
            ]
        | inr still ↦ simp (still) good
      ]

tick_timers-IsConsistent :
    (ts : List ℕ) (s : System)
    → IsConsistent s
    → ((u : ℕ) → count u ts ≤ 1)
    → ((u : ℕ) → (count u ts == 0) ≡ false → IsApartFrom (s.tcb u))
    → IsConsistent (tick_timers ts s)
unfolding tick_timers
tick_timers-IsConsistent [] s good once apart = good
tick_timers-IsConsistent (t ∷ ts) s good once apart =
    tick_timers-IsConsistent ts (tick_timer t s)
      (tick_timer-IsConsistent t s good (apart t (ground (arith, count-cons t t ts))))
      (λ u. ground (arith, once u, count-cons u t ts))
      (λ u there.
        let other : (t == u) ≡ false = elim (Bool-cases (t == u)) [
          | inl same ↦ ground (arith, once u, count-cons u t ts, ==_iff t u, there)
          | inr other ↦ other
        ] in
        subst IsApartFrom (sym (tick_timer-others t u s other))
          (apart u (ground (arith, there, count-cons u t ts))))

-- A tick, where the running task's priority has no time slice and the tasks in the list of timers are
-- in no object's queue.
pub tn_tick_int_processing-IsConsistent :
    (s : System)
    → IsConsistent s
    → (s.tslice_ticks (s.tcb s.curr_run_task).priority == 0) ≡ true
    → ((u : ℕ) → (count u s.wait_timeout_list == 0) ≡ false → (s.tcb u).pwait_queue ≡ none)
    → IsConsistent (tn_tick_int_processing s)
unfolding tn_tick_int_processing slice
tn_tick_int_processing-IsConsistent s good off apart =
    let timers = s.wait_timeout_list in
    let done =
      tick_timers-IsConsistent timers s good (λ u. ground (arith, good.is_timed u))
        (λ u there. (ground (arith, good.is_timed u, there), apart u there)) in
    elim (Bool-cases (in_interrupt s)) [
      | inl may ↦ simp (may, off) done
      | inr not_here ↦ simp (not_here) good
    ]
