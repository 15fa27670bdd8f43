-- ===== src/Kernel/Task/Woken.antt =====
-- The ends of waits and the activations of Services keep the lists of the tasks in step with their TCBs.
use usb_bulk.Prelude.{
  ℕ, ◌+◌, ◌≡◌, refl, subst, inl, inr, true, false, not, ◌&&◌, none, arith, ◌==◌, ==_iff, Bool-cases,
  count,
}
use usb_bulk.Kernel.Ready.{is_next}
use usb_bulk.Kernel.Task.{
  Tcb, System, TaskState, runnable, wait, suspend, waitsusp, dormant, is_runnable, has_wait,
  is_dormant, is_sleep, tn_id_task, task_to_runnable, task_wait_complete,
}
use usb_bulk.Kernel.Task.Consistent.{IsQueuedBut, IsConsistent, waits_at}
use usb_bulk.Kernel.Task.Waits.{task_to_runnable-IsConsistent, task_wait_complete-IsConsistent}
use usb_bulk.Kernel.Task.Services.{wakeup_task, activate_task, release_task}
use usb_bulk.Kernel.Task.Kept.{IsNeutral, same-IsConsistent}

-- A task that is in no queue.
pub apart-IsQueuedBut :
    (t : ℕ) (s : System)
    → IsConsistent s
    → (s.tcb t).pwait_queue ≡ none
    → IsQueuedBut t s.tcb s.wait_list
apart-IsQueuedBut t s good e u w = elim (Bool-cases (t == u)) [
  | inl same ↦
      let here =
        subst (λ u. count u (s.wait_list w) ≡ waits_at (s.tcb t) w) ((==_iff t u).0 same)
          (good.is_queued t w) in
      ground (arith, here, e)
  | inr other ↦ ground (arith, good.is_queued u w)
]

pub release_task-IsConsistent :
    (next : System → System)
    → IsNeutral next
    → (t : ℕ) (s : System) → IsConsistent s
    → (has_wait (s.tcb t).task_state ≡ true → (s.tcb t).pwait_queue ≡ none)
    → IsConsistent (release_task next t s).1
unfolding release_task
release_task-IsConsistent next neutral t s good apart =
    elim (Bool-cases (has_wait (s.tcb t).task_state)) [
      | inl waits ↦
          let (switch, s') = task_wait_complete t s in
          let kept =
            task_wait_complete-IsConsistent t s good.scheduled good.is_timed
              (apart-IsQueuedBut t s good (apart waits)) waits in
          let done = neutral s' kept in
          elim (Bool-cases switch) [
            | inl resched ↦ simp (waits, resched) done
            | inr stay ↦ simp (waits, stay) kept
          ]
      | inr idle ↦ simp (idle) good
    ]

pub wakeup_task-IsConsistent :
    (next : System → System)
    → IsNeutral next
    → (t : ℕ) (s : System) → IsConsistent s
    → IsConsistent (wakeup_task next t s).1
unfolding wakeup_task
wakeup_task-IsConsistent next neutral t s good =
    elim (Bool-cases (is_dormant (s.tcb t).task_state)) [
      | inl ended ↦ simp (ended) good
      | inr alive ↦
          elim (Bool-cases (has_wait (s.tcb t).task_state && is_sleep (s.tcb t).task_wait_reason)) [
            | inl both ↦
                let waits : has_wait (s.tcb t).task_state ≡ true = ground arith in
                let sleeps : is_sleep (s.tcb t).task_wait_reason ≡ true = ground arith in
                let (switch, s') = task_wait_complete t s in
                let apart = (good.scheduled.is_tcb t).asleep waits sleeps in
                let kept =
                  task_wait_complete-IsConsistent t s good.scheduled good.is_timed
                    (apart-IsQueuedBut t s good apart) waits in
                let done = neutral s' kept in
                elim (Bool-cases switch) [
                  | inl resched ↦ simp (alive, both, resched) done
                  | inr stay ↦ simp (alive, both, stay) kept
                ]
            | inr awake ↦
                let u = s.curr_run_task in
                elim (Bool-cases ((s.tcb u).wakeup_count == 0)) [
                  | inl first ↦
                      let c : Tcb = record (s.tcb u) {
                        wakeup_count = (s.tcb u).wakeup_count + 1;
                      } in
                      let done =
                        same-IsConsistent u c s good refl refl refl refl (λ h. refl)
                          record {
                            low = (good.scheduled.is_tcb u).low;
                            base_low = (good.scheduled.is_tcb u).base_low;
                            no_task = (good.scheduled.is_tcb u).no_task;
                            no_queue = (good.scheduled.is_tcb u).no_queue;
                            asleep = (good.scheduled.is_tcb u).asleep;
                          } in
                      simp (alive, awake, first) done
                  | inr again ↦ simp (alive, awake, again) good
                ]
          ]
    ]

pub dormant-idle :
    (st : TaskState) → is_dormant st ≡ true → (is_runnable st ≡ false) × (has_wait st ≡ false)
dormant-idle runnable h = ground arith
dormant-idle wait h = ground arith
dormant-idle suspend h = ground arith
dormant-idle waitsusp h = ground arith
dormant-idle dormant h = (refl, refl)

pub activate_task-IsConsistent :
    (next : System → System)
    → IsNeutral next
    → (t : ℕ) (s : System) → IsConsistent s
    → ((s.tcb t).id_task == tn_id_task) ≡ true
    → IsConsistent (activate_task next t s).1
unfolding activate_task
activate_task-IsConsistent next neutral t s good is_task =
    elim (Bool-cases (is_dormant (s.tcb t).task_state)) [
      | inl ended ↦
          let (off, idle) = dormant-idle (s.tcb t).task_state ended in
          let s' = task_to_runnable t s in
          let kept =
            task_to_runnable-IsConsistent t s good off (λ w. ground (arith, idle))
              (ground (arith, idle)) (ground (arith, is_task)) in
          let done = neutral s' kept in
          elim (Bool-cases (
            not (is_next s'.ready.next_task_to_run s'.curr_run_task) && s'.enable_switch_context)) [
              | inl resched ↦ simp (ended, resched) done
              | inr stay ↦ simp (ended, stay) kept
            ]
      | inr alive ↦ elim (Bool-cases ((s.tcb t).activate_count == 0)) [
        | inl first ↦
            let c : Tcb = record (s.tcb t) { activate_count = (s.tcb t).activate_count + 1 } in
            let done =
              same-IsConsistent t c s good refl refl refl refl (λ h. refl)
                record {
                  low = (good.scheduled.is_tcb t).low;
                  base_low = (good.scheduled.is_tcb t).base_low;
                  no_task = (good.scheduled.is_tcb t).no_task;
                  no_queue = (good.scheduled.is_tcb t).no_queue;
                  asleep = (good.scheduled.is_tcb t).asleep;
                } in
            simp (alive, first) done
        | inr again ↦ simp (alive, again) good
      ]
    ]
