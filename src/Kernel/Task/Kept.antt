-- ===== src/Kernel/Task/Kept.antt =====
-- The services of Services keep the lists of the tasks in step with their TCBs.
use usb_bulk.Prelude.{
  ℕ, ◌-◌, ◌≡◌, refl, sym, subst, inl, inr, Bool, true, false, not, ◌&&◌, Option, none, some, arith,
  ◌==◌, ltb, if◌then◌else◌, Bool-cases, update,
}
use usb_bulk.Kernel.Code.{Code}
use usb_bulk.Kernel.Scheduler.{sleep}
use usb_bulk.Kernel.Ready.{is_next, to_non_runnable}
use usb_bulk.Kernel.Task.{
  Tcb, System, TaskState, runnable, wait, suspend, waitsusp, dormant, is_runnable, has_wait,
  has_suspend, is_dormant, tn_id_task, priority_of, set_tcb, in_task, switch_context,
  switch_if_other, task_to_non_runnable, task_to_runnable, task_curr_to_wait_action,
}
use usb_bulk.Kernel.Task.Scheduled.{IsScheduled, IsTcb, removed-IsScheduled, same-IsScheduled}
use usb_bulk.Kernel.Task.Consistent.{IsConsistent, same-IsQueued, same-IsTimed}
use usb_bulk.Kernel.Task.Waits.{
  has_wait-is_runnable, has_wait-is_dormant, task_to_runnable-IsConsistent,
  task_curr_to_wait_action-IsConsistent,
}
use usb_bulk.Kernel.Task.Services.{
  on_task, suspend_task, resume_task, tn_task_sleep, request_switch,
}

-- What only changes the running task, or asks for a switch.
abbrev pub IsNeutral : (System → System) → Type 0
IsNeutral next = (s : System) → IsConsistent s → IsConsistent (next s)

pub if-IsConsistent :
    (b : Bool) (x y : System)
    → (b ≡ true → IsConsistent x)
    → (b ≡ false → IsConsistent y)
    → IsConsistent (if b then x else y)
if-IsConsistent true x y h k = h refl
if-IsConsistent false x y h k = k refl

pub switch_context-IsNeutral : IsNeutral switch_context
unfolding switch_context
switch_context-IsNeutral s good = record {
  scheduled = good.scheduled;
  is_queued = good.is_queued;
  is_timed = good.is_timed;
}

pub request_switch-IsNeutral : IsNeutral request_switch
request_switch-IsNeutral s good = record {
  scheduled = good.scheduled;
  is_queued = good.is_queued;
  is_timed = good.is_timed;
}

pub switch_if_other-IsNeutral : IsNeutral switch_if_other
unfolding switch_if_other
switch_if_other-IsNeutral s good =
    elim (Bool-cases
      (not (is_next s.ready.next_task_to_run s.curr_run_task) && s.enable_switch_context)) [
        | inl other ↦ let e = switch_context-IsNeutral s good in simp (other) e
        | inr same ↦ simp (same) good
      ]

pub on_task-IsConsistent :
    (may_call : System → Bool) (body : ℕ → System → Code × System) (o : Option ℕ) (s : System)
    → IsConsistent s
    → ((t : ℕ) → o ≡ some t → ((s.tcb t).id_task == tn_id_task) ≡ true → IsConsistent (body t s).1)
    → IsConsistent (on_task may_call body o s).1
unfolding on_task
on_task-IsConsistent may_call body none s good kept = good
on_task-IsConsistent may_call body (some t) s good kept =
    elim (Bool-cases ((s.tcb t).id_task == tn_id_task)) [
      | inl is_task ↦ elim (Bool-cases (may_call s)) [
        | inl may ↦ let e = kept t refl is_task in simp (is_task, may) e
        | inr not_here ↦ simp (is_task, not_here) good
      ]
      | inr no_task ↦ simp (no_task) good
    ]

-- A change of one task that leaves its lists as they are.
pub same-IsConsistent :
    (t : ℕ) (c : Tcb) (s : System)
    → IsConsistent s
    → is_runnable c.task_state ≡ is_runnable (s.tcb t).task_state
    → has_wait c.task_state ≡ has_wait (s.tcb t).task_state
    → c.pwait_queue ≡ (s.tcb t).pwait_queue
    → c.tick_count ≡ (s.tcb t).tick_count
    → (is_runnable c.task_state ≡ true → c.priority ≡ (s.tcb t).priority)
    → IsTcb c
    → IsConsistent (set_tcb s t c)
same-IsConsistent t c s good runs waits queue ticks prio is_tcb = record {
  scheduled = same-IsScheduled s.tcb s.ready good.scheduled t c runs prio is_tcb;
  is_queued = same-IsQueued s.tcb t c s.wait_list good.is_queued (λ w. rw (waits, queue) refl);
  is_timed = same-IsTimed s.tcb t c s.wait_timeout_list good.is_timed (rw (waits, ticks) refl);
}

only-wait :
    (st : TaskState)
    → has_suspend st ≡ false
    → is_dormant st ≡ false
    → is_runnable st ≡ false
    → true ≡ has_wait st
only-wait runnable a b c = ground arith
only-wait wait a b c = refl
only-wait suspend a b c = ground arith
only-wait waitsusp a b c = refl
only-wait dormant a b c = ground arith

only-suspend :
    (st : TaskState)
    → has_suspend st ≡ true
    → has_wait st ≡ false
    → (is_runnable st ≡ false) × (is_dormant st ≡ false)
only-suspend runnable a b = ground arith
only-suspend wait a b = ground arith
only-suspend suspend a b = (refl, refl)
only-suspend waitsusp a b = ground arith
only-suspend dormant a b = ground arith

pub suspend_task-IsConsistent :
    (t : ℕ) (s : System)
    → IsConsistent s
    → ((s.tcb t).id_task == tn_id_task) ≡ true
    → IsConsistent (suspend_task t s).1
unfolding suspend_task task_to_non_runnable
suspend_task-IsConsistent t s good is_task = elim (Bool-cases (has_suspend (s.tcb t).task_state)) [
  | inl already ↦ simp (already) good
  | inr not_yet ↦ elim (Bool-cases (is_dormant (s.tcb t).task_state)) [
    | inl ended ↦ simp (not_yet, ended) good
    | inr alive ↦ elim (Bool-cases (t == s.curr_run_task && not s.enable_switch_context)) [
      | inl held ↦ simp (not_yet, alive, held) good
      | inr free ↦ elim (Bool-cases (is_runnable (s.tcb t).task_state)) [
        | inl runs ↦
            let c : Tcb = record (s.tcb t) { task_state = suspend } in
            let e : priority_of (set_tcb s t c) t ≡ priority_of s t = ground arith in
            let s' : System = task_to_non_runnable t (set_tcb s t c) in
            let kept : IsConsistent s' = record {
              scheduled =
                  subst (λ p. IsScheduled (update s.tcb t c) (to_non_runnable t p s.ready)) (sym e)
                    (removed-IsScheduled s.tcb s.ready good.scheduled t c refl record {
                      low = (good.scheduled.is_tcb t).low;
                      base_low = (good.scheduled.is_tcb t).base_low;
                      no_task = λ h. ground (arith, (good.scheduled.is_tcb t).no_task h);
                      no_queue = λ h. ground arith;
                      asleep = λ h k. ground arith;
                    });
              is_queued =
                  same-IsQueued s.tcb t c s.wait_list good.is_queued (λ w. ground (arith, runs));
              is_timed =
                  same-IsTimed s.tcb t c s.wait_timeout_list good.is_timed (ground (arith, runs));
            } in
            let done = switch_if_other-IsNeutral s' kept in simp (not_yet, alive, free, runs) done
        | inr waits ↦
            let c : Tcb = record (s.tcb t) { task_state = waitsusp } in
            let done =
              same-IsConsistent t c s good (sym waits)
                (only-wait (s.tcb t).task_state not_yet alive waits) refl refl (λ h. ground arith)
                record {
                  low = (good.scheduled.is_tcb t).low;
                  base_low = (good.scheduled.is_tcb t).base_low;
                  no_task = λ h. ground (arith, (good.scheduled.is_tcb t).no_task h);
                  no_queue = λ h. ground arith;
                  asleep = λ h k.
                      (good.scheduled.is_tcb t).asleep
                        (sym (only-wait (s.tcb t).task_state not_yet alive waits)) k;
                } in
            simp (not_yet, alive, free, waits) done
      ]
    ]
  ]
]

pub resume_task-IsConsistent :
    (t : ℕ) (s : System)
    → IsConsistent s
    → ((s.tcb t).id_task == tn_id_task) ≡ true
    → IsConsistent (resume_task t s).1
unfolding resume_task
resume_task-IsConsistent t s good is_task = elim (Bool-cases (has_suspend (s.tcb t).task_state)) [
  | inl held ↦ elim (Bool-cases (has_wait (s.tcb t).task_state)) [
    | inl waits ↦
        let c : Tcb = record (s.tcb t) { task_state = wait } in
        let off = has_wait-is_runnable (s.tcb t).task_state waits in
        let alive = has_wait-is_dormant (s.tcb t).task_state waits in
        let done =
          same-IsConsistent t c s good (sym off) (sym waits) refl refl (λ h. ground arith)
            record {
              low = (good.scheduled.is_tcb t).low;
              base_low = (good.scheduled.is_tcb t).base_low;
              no_task = λ h. ground (arith, (good.scheduled.is_tcb t).no_task h);
              no_queue = λ h. ground arith;
              asleep = λ h k. (good.scheduled.is_tcb t).asleep waits k;
            } in
        simp (held, waits) done
    | inr idle ↦
        let (off, alive) = only-suspend (s.tcb t).task_state held idle in
        let s' = task_to_runnable t s in
        let kept =
          task_to_runnable-IsConsistent t s good off (λ w. ground (arith, idle))
            (ground (arith, idle)) (ground (arith, is_task)) in
        let done = switch_if_other-IsNeutral s' kept in simp (held, idle) done
  ]
  | inr free ↦ simp (free) good
]

-- A sleep, by a task that runs.
pub tn_task_sleep-IsConsistent :
    (timeout : ℕ) (s : System)
    → IsConsistent s
    → is_runnable (s.tcb s.curr_run_task).task_state ≡ true
    → IsConsistent (tn_task_sleep timeout s).1
unfolding tn_task_sleep
tn_task_sleep-IsConsistent timeout s good runs = elim (Bool-cases (timeout == 0)) [
  | inl zero_time ↦ simp (zero_time) good
  | inr some_time ↦ elim (Bool-cases (in_task s)) [
    | inl may ↦
        let t = s.curr_run_task in
        elim (Bool-cases (ltb 0 (s.tcb t).wakeup_count)) [
          | inl woken ↦
              let c : Tcb = record (s.tcb t) { wakeup_count = (s.tcb t).wakeup_count - 1 } in
              let done =
                same-IsConsistent t c s good refl refl refl refl (λ h. refl)
                  record {
                    low = (good.scheduled.is_tcb t).low;
                    base_low = (good.scheduled.is_tcb t).base_low;
                    no_task = (good.scheduled.is_tcb t).no_task;
                    no_queue = (good.scheduled.is_tcb t).no_queue;
                    asleep = (good.scheduled.is_tcb t).asleep;
                  } in
              simp (some_time, may, woken) done
          | inr asleep ↦
              let s' = task_curr_to_wait_action none sleep timeout s in
              let kept =
                task_curr_to_wait_action-IsConsistent none sleep timeout s good runs (inl refl) in
              let done = switch_context-IsNeutral s' kept in simp (some_time, may, asleep) done
        ]
    | inr not_here ↦ simp (some_time, not_here) good
  ]
]
