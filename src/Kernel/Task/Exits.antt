-- ===== src/Kernel/Task/Exits.antt =====
-- The services of Endings, and the creation of a task, keep the lists of the tasks in step with their
-- TCBs.
use usb_bulk.Prelude.{
  ℕ, ◌<◌, ◌≡◌, refl, ap, ◌∙◌, inl, inr, Bool, true, false, ◌&&◌, ◌||◌, arith, ◌==◌, ltb,
  if◌then◌else◌, Bool-cases,
}
use usb_bulk.Kernel.Ready.{num_priority}
use usb_bulk.Kernel.Task.{
  Tcb, System, is_runnable, has_wait, is_dormant, tn_id_task, priority_of, set_tcb, in_interrupt,
  switch_context, switch_if_other, task_to_non_runnable,
}
use usb_bulk.Kernel.Task.Scheduled.{IsTcb}
use usb_bulk.Kernel.Task.Consistent.{IsConsistent, same-IsQueued, same-IsTimed}
use usb_bulk.Kernel.Ready.{change_priority}
use usb_bulk.Kernel.Task.Scheduled.{changed-IsScheduled}
use usb_bulk.Kernel.Task.Endings.{
  end_task, leave_queues, terminate_task, tn_task_exit, delete_tcb, set_priority,
  change_running_task_priority,
}
use usb_bulk.Kernel.Task.Kept.{
  same-IsConsistent, switch_context-IsNeutral, switch_if_other-IsNeutral, if-IsConsistent,
}
use usb_bulk.Kernel.Task.Ended.{
  IsGone, idle-IsGone, non_runnable-IsGone, leave_queues-IsGone, task_to_non_runnable-tcb,
  leave_queues-tcb, end_task-IsConsistent, end_task-dormant,
}

pub delete_tcb-IsConsistent :
    (t : ℕ) (s : System)
    → IsConsistent s
    → is_dormant (s.tcb t).task_state ≡ true
    → IsConsistent (delete_tcb t s)
unfolding delete_tcb
delete_tcb-IsConsistent t s good ended =
    let c : Tcb = record (s.tcb t) { id_task = 0 } in
    let done =
      same-IsConsistent t c s good refl refl refl refl (λ h. refl)
        record {
          low = (good.scheduled.is_tcb t).low;
          base_low = (good.scheduled.is_tcb t).base_low;
          no_task = λ h. ended;
          no_queue = (good.scheduled.is_tcb t).no_queue;
          asleep = (good.scheduled.is_tcb t).asleep;
        } in
    record { scheduled = done.scheduled; is_queued = done.is_queued; is_timed = done.is_timed }

-- A running task exits. A task that is deleted has no activation left.
pub tn_task_exit-IsConsistent :
    (delete : Bool) (s : System)
    → IsConsistent s
    → is_runnable (s.tcb s.curr_run_task).task_state ≡ true
    → (delete ≡ true → ((s.tcb s.curr_run_task).activate_count == 0) ≡ true)
    → IsConsistent (tn_task_exit delete s)
unfolding tn_task_exit
tn_task_exit-IsConsistent delete s good runs over =
    let t = s.curr_run_task in
    let s1 : System = task_to_non_runnable t s in
    let s' : System = end_task t s1 in
    let same = task_to_non_runnable-tcb t s in
    let is_task : ((s1.tcb t).id_task == 0) ≡ false =
      ap (λ tcb. (tcb t).id_task == 0) same
      ∙ ground (arith, (good.scheduled.is_tcb t).no_task, runs) in
    let ended : IsConsistent s' =
      end_task-IsConsistent t s1 (non_runnable-IsGone t s good runs) is_task in
    let over : delete ≡ true → is_dormant (s'.tcb t).task_state ≡ true =
      λ gone. end_task-dormant t s1 (ap (λ tcb. (tcb t).activate_count == 0) same ∙ over gone) in
    let s2 : System = if delete then delete_tcb t s' else s' in
    let left =
      if-IsConsistent delete (delete_tcb t s') s'
        (λ gone. delete_tcb-IsConsistent t s' ended (over gone)) (λ stays. ended) in
    if-IsConsistent (in_interrupt s) (switch_context s2) s (λ may. switch_context-IsNeutral s2 left)
      (λ not_here. good)

pub terminate_task-IsConsistent :
    (t : ℕ) (s : System)
    → IsConsistent s
    → ((s.tcb t).id_task == tn_id_task) ≡ true
    → IsConsistent (terminate_task t s).1
unfolding terminate_task
terminate_task-IsConsistent t s good is_task =
    let runs = is_runnable (s.tcb t).task_state in
    let waits = has_wait (s.tcb t).task_state in
    let s' : System =
      if runs then task_to_non_runnable t s else if waits then leave_queues t s else s in
    let s'' : System = end_task t s' in
    let not_zero : ((s.tcb t).id_task == 0) ≡ false = ground (arith, is_task) in
    let gone : IsGone t s' × (((s'.tcb t).id_task == 0) ≡ false) = elim (Bool-cases runs) [
      | inl on ↦ rw (on) (
        non_runnable-IsGone t s good on,
        ap (λ tcb. (tcb t).id_task == 0) (task_to_non_runnable-tcb t s) ∙ not_zero,
      )
      | inr off ↦ elim (Bool-cases waits) [
        | inl there ↦
            rw (off, there)
              (
                leave_queues-IsGone t s good there,
                ap (λ tcb. (tcb t).id_task == 0) (leave_queues-tcb t s) ∙ not_zero,
              )
        | inr idle ↦ rw (off, idle) (idle-IsGone t s good off idle, not_zero)
      ]
    ] in
    let ended : IsConsistent s'' = end_task-IsConsistent t s' gone.0 gone.1 in
    let done =
      if-IsConsistent (ltb 0 (s.tcb t).activate_count) (switch_if_other s'') s''
        (λ again. switch_if_other-IsNeutral s'' ended) (λ over. ended) in
    elim (Bool-cases (is_dormant (s.tcb t).task_state || s.curr_run_task == t)) [
      | inl refused ↦ simp (refused) good
      | inr may ↦ simp (may) done
    ]

-- A new priority that is in range.
pub set_priority-IsConsistent :
    (new_priority t : ℕ) (s : System)
    → IsConsistent s
    → new_priority < num_priority
    → IsConsistent (set_priority new_priority t s).1
unfolding set_priority change_running_task_priority
set_priority-IsConsistent new_priority t s good low =
    let new = if new_priority == 0 then (s.tcb t).base_priority else new_priority in
    let new_low : new < num_priority = ground (arith, (good.scheduled.is_tcb t).base_low) in
    let c : Tcb = record (s.tcb t) { priority = new } in
    let is_tcb : IsTcb c = record {
      low = new_low;
      base_low = (good.scheduled.is_tcb t).base_low;
      no_task = (good.scheduled.is_tcb t).no_task;
      no_queue = (good.scheduled.is_tcb t).no_queue;
      asleep = (good.scheduled.is_tcb t).asleep;
    } in
    let (moved, ready) = change_priority (priority_of s) t (priority_of s t) new s.ready in
    let s' : System = record (set_tcb s t c) { ready = ready } in
    elim (Bool-cases (is_dormant (s.tcb t).task_state)) [
      | inl ended ↦ simp (ended) good
      | inr alive ↦ elim (Bool-cases (is_runnable (s.tcb t).task_state)) [
        | inl runs ↦
            let changed : IsConsistent s' = record {
              scheduled = changed-IsScheduled s.tcb s.ready good.scheduled t c runs runs is_tcb;
              is_queued = same-IsQueued s.tcb t c s.wait_list good.is_queued (λ w. refl);
              is_timed = same-IsTimed s.tcb t c s.wait_timeout_list good.is_timed refl;
            } in
            let done =
              if-IsConsistent (moved && s.enable_switch_context) (switch_context s') s'
                (λ now. switch_context-IsNeutral s' changed) (λ later. changed) in
            simp (alive, runs) done
        | inr off ↦
            let done =
              same-IsConsistent t c s good refl refl refl refl (λ h. ground arith) is_tcb in
            simp (alive, off) done
      ]
    ]
