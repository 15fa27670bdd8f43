-- ===== src/Kernel/Ticks/Timers.antt =====
-- The tick: what it does to the timers, and what the time slices leave as it is.
use usb_bulk.Prelude.{
  update_self, ℕ, ◌+◌, ◌-◌, ◌≡◌, refl, ap, sym, ◌∙◌, subst, inl, inr, Bool, true, false, not, ◌&&◌,
  [], arith, ◌==◌, ltb, gt_int, if◌then◌else◌, Bool-cases,
}
use usb_bulk.Kernel.Code.{Code, no_err}
use usb_bulk.Kernel.Task.{
  Tcb, System, is_runnable, has_suspend, in_interrupt, wait_infinite, set_tcb, task_wait_complete,
}
use usb_bulk.Kernel.Task.Services.{request_switch}
use usb_bulk.Kernel.Task.Released.{
  task_wait_complete-others, task_wait_complete-wait_list, task_wait_complete-rc,
  task_wait_complete-runnable, task_wait_complete-switch, task_wait_complete-request,
}
use usb_bulk.Kernel.Ticks.{slice, tick_timer, tick_timers, tn_tick_int_processing}

slice-same :
    (s : System)
    → ((slice s).wait_timeout_list ≡ s.wait_timeout_list)
      × ((slice s).ready.next_task_to_run ≡ s.ready.next_task_to_run)
      × ((slice s).curr_run_task ≡ s.curr_run_task)
      × ((slice s).context_switch_request ≡ s.context_switch_request)
unfolding slice
slice-same s =
    let c = s.tcb s.curr_run_task in
    elim (Bool-cases (s.tslice_ticks c.priority == 0)) [
      | inl off ↦ simp (off) (refl, refl, refl, refl)
      | inr on ↦ elim (Bool-cases (ltb (s.tslice_ticks c.priority) (c.tslice_count + 1))) [
        | inl over ↦ simp (on, over) (refl, refl, refl, refl)
        | inr within ↦ simp (on, within) (refl, refl, refl, refl)
      ]
    ]

-- Whatever the time slices are, while no timer is in the list: a tick leaves the next task to run, the
-- running task and the request for a switch as they are. So the end of a time slice, which puts the
-- last ready task of the priority before the running one, lets no other task run.
pub tn_tick_int_processing-slice :
    (s : System)
    → s.wait_timeout_list ≡ []
    → let s' = tn_tick_int_processing s in
      (s'.ready.next_task_to_run ≡ s.ready.next_task_to_run)
      × (s'.curr_run_task ≡ s.curr_run_task)
      × (s'.context_switch_request ≡ s.context_switch_request)
unfolding tn_tick_int_processing tick_timers
tn_tick_int_processing-slice s e =
    let (timers, next, curr, request) = slice-same s in
    elim (Bool-cases (in_interrupt s)) [
      | inl may ↦ rw (may, timers ∙ e) (next, curr, request)
      | inr not_here ↦ rw (not_here) (refl, refl, refl)
    ]

-- What follows the end of the wait, in the system `s2`.
abbrev pub after_due : ℕ → Bool → System → System
after_due t switch s2 =
    if switch
    then request_switch (set_tcb s2 t (record (s2.tcb t) { task_wait_rc = Code.timeout }))
    else s2

pub tick_timer-after :
    (t : ℕ) (s : System)
    → (s.tcb t).tick_count ≡ 1
    → let s1 = set_tcb s t (record (s.tcb t) { tick_count = (s.tcb t).tick_count - 1 }) in
      tick_timer t s ≡ after_due t (task_wait_complete t s1).0 (task_wait_complete t s1).1
unfolding tick_timer
tick_timer-after t s e =
    let due : gt_int (s.tcb t).tick_count 0 && not ((s.tcb t).tick_count == wait_infinite) ≡ true =
      ground (arith, e) in
    let last : ((s.tcb t).tick_count - 1 == 0) ≡ true = ground (arith, e) in simp (due, last) refl

abbrev IsDue : ℕ → System → System → Type 0
IsDue t s s' =
    let held = has_suspend (s.tcb t).task_state in
    (is_runnable (s'.tcb t).task_state ≡ not held)
    × ((s'.tcb t).task_wait_rc ≡ (if held then no_err else Code.timeout))
    × (s'.context_switch_request ≡ (if held then s.context_switch_request else true))
    × (s'.wait_list ≡ s.wait_list)
    × ((u : ℕ) → (t == u) ≡ false → s'.tcb u ≡ s.tcb u)

after_due-IsDue :
    (t : ℕ) (s s2 : System) (switch : Bool)
    → switch ≡ not (has_suspend (s.tcb t).task_state)
    → is_runnable (s2.tcb t).task_state ≡ not (has_suspend (s.tcb t).task_state)
    → (s2.tcb t).task_wait_rc ≡ no_err
    → s2.context_switch_request ≡ s.context_switch_request
    → s2.wait_list ≡ s.wait_list
    → ((u : ℕ) → (t == u) ≡ false → s2.tcb u ≡ s.tcb u)
    → IsDue t s (after_due t switch s2)
after_due-IsDue t s s2 true turn runs rc request lists others =
    let free : has_suspend (s.tcb t).task_state ≡ false = ground arith in
    (
      ground (arith, runs),
      ground (arith, free),
      ground (arith, free),
      lists,
      λ u other. rw (other) (others u other),
    )
after_due-IsDue t s s2 false turn runs rc request lists others =
    let held : has_suspend (s.tcb t).task_state ≡ true = ground arith in
    (runs, rw (held) rc, rw (held) request, lists, others)

-- The tick of a timer that has one tick to go: the task is runnable, with the code TERR_TIMEOUT and a
-- request for a switch, unless it is suspended; then its wait ends with TERR_NO_ERR and no switch is
-- requested. No wait queue loses an entry by that, the task's own included, and no other task changes.
pub tick_timer-due :
    (t : ℕ) (s : System)
    → (s.tcb t).tick_count ≡ 1
    → let s' = tick_timer t s in
      let held = has_suspend (s.tcb t).task_state in
      (is_runnable (s'.tcb t).task_state ≡ not held)
      × ((s'.tcb t).task_wait_rc ≡ (if held then no_err else Code.timeout))
      × (s'.context_switch_request ≡ (if held then s.context_switch_request else true))
      × (s'.wait_list ≡ s.wait_list)
      × ((u : ℕ) → (t == u) ≡ false → s'.tcb u ≡ s.tcb u)
tick_timer-due t s e =
    let c : Tcb = record (s.tcb t) { tick_count = (s.tcb t).tick_count - 1 } in
    let s1 : System = set_tcb s t c in
    let state : not (has_suspend (s1.tcb t).task_state) ≡ not (has_suspend (s.tcb t).task_state) =
      ap (λ c. not (has_suspend c.task_state)) (update_self s.tcb t c) in
    let done =
      after_due-IsDue t s (task_wait_complete t s1).1 (task_wait_complete t s1).0
        (task_wait_complete-switch t s1 ∙ state) (task_wait_complete-runnable t s1 ∙ state)
        (task_wait_complete-rc t s1) (task_wait_complete-request t s1)
        (task_wait_complete-wait_list t s1)
        (λ u other. task_wait_complete-others t s1 u other ∙ rw (other) refl) in
    subst (IsDue t s) (sym (tick_timer-after t s e)) done
