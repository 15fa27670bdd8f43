-- ===== src/Kernel/Task/Waits.antt =====
-- What the beginning and the end of a wait, and a task made runnable, make of the lists of the tasks.
use usb_bulk.Prelude.{
  ℕ, ◌≡◌, ◌⊎◌, refl, ap, sym, ◌∙◌, inl, inr, true, false, Option, none, some, arith, ◌==◌,
  if◌then◌else◌, Bool-cases, update, remove,
}
use usb_bulk.Kernel.Scheduler.{WaitReason}
use usb_bulk.Kernel.Task.{
  Tcb, System, TaskState, runnable, wait, suspend, waitsusp, dormant, is_runnable, has_wait,
  has_suspend, is_dormant, is_sleep, wait_infinite, out_of_wait, task_to_non_runnable,
  task_to_runnable, task_wait_complete, task_curr_to_wait_action,
}
use usb_bulk.Kernel.Task.Scheduled.{
  IsScheduled, removed-IsScheduled, added-IsScheduled, same-IsScheduled,
}
use usb_bulk.Kernel.Task.Consistent.{
  IsQueuedBut, IsTimed, IsConsistent, waits_at, timed, out-IsQueued, same-IsQueued, same-IsTimed,
  out-IsTimed, added-IsQueued, added-IsTimed,
}

-- A state excludes the others.
pub has_wait-is_runnable : (st : TaskState) → has_wait st ≡ true → is_runnable st ≡ false
has_wait-is_runnable runnable h = ground arith
has_wait-is_runnable wait h = refl
has_wait-is_runnable suspend h = refl
has_wait-is_runnable waitsusp h = refl
has_wait-is_runnable dormant h = refl

pub has_wait-is_dormant : (st : TaskState) → has_wait st ≡ true → is_dormant st ≡ false
has_wait-is_dormant runnable h = ground arith
has_wait-is_dormant wait h = refl
has_wait-is_dormant suspend h = refl
has_wait-is_dormant waitsusp h = refl
has_wait-is_dormant dormant h = ground arith

-- A task that neither waits nor runs becomes runnable.
pub task_to_runnable-IsConsistent :
    (t : ℕ) (s : System)
    → IsConsistent s
    → is_runnable (s.tcb t).task_state ≡ false
    → ((w : ℕ) → waits_at (s.tcb t) w ≡ 0)
    → timed (s.tcb t) ≡ 0
    → ((s.tcb t).id_task == 0) ≡ false
    → IsConsistent (task_to_runnable t s)
unfolding task_to_runnable
task_to_runnable-IsConsistent t s good off no_wait no_time is_task =
    let c : Tcb = record (s.tcb t) { task_state = runnable; pwait_queue = none } in
    record {
      scheduled = added-IsScheduled s.tcb s.ready good.scheduled t c off refl refl record {
        low = (good.scheduled.is_tcb t).low;
        base_low = (good.scheduled.is_tcb t).base_low;
        no_task = λ h. ground arith;
        no_queue = λ h. refl;
        asleep = λ h k. refl;
      };
      is_queued =
          same-IsQueued s.tcb t c s.wait_list good.is_queued (λ w. ground (arith, no_wait w));
      is_timed = same-IsTimed s.tcb t c s.wait_timeout_list good.is_timed (ground (arith, no_time));
    }

-- The end of the wait of a task that was taken from the queue that it waited at.
pub task_wait_complete-IsConsistent :
    (t : ℕ) (s : System)
    → IsScheduled s.tcb s.ready
    → IsTimed s.tcb s.wait_timeout_list
    → IsQueuedBut t s.tcb s.wait_list
    → has_wait (s.tcb t).task_state ≡ true
    → IsConsistent (task_wait_complete t s).1
unfolding task_wait_complete task_to_runnable
task_wait_complete-IsConsistent t s scheduled is_timed but waiting =
    let off = has_wait-is_runnable (s.tcb t).task_state waiting in
    let is_task = has_wait-is_dormant (s.tcb t).task_state waiting in
    elim (Bool-cases (has_suspend (s.tcb t).task_state)) [
      | inl suspended ↦
          let c : Tcb = record (out_of_wait (s.tcb t)) { task_state = suspend } in
          simp (suspended) record {
            scheduled =
                same-IsScheduled s.tcb s.ready scheduled t c (sym off) (λ h. ground arith)
                  record {
                    low = (scheduled.is_tcb t).low;
                    base_low = (scheduled.is_tcb t).base_low;
                    no_task = λ h. ground (arith, (scheduled.is_tcb t).no_task);
                    no_queue = λ h. refl;
                    asleep = λ h k. refl;
                  };
            is_queued = out-IsQueued s.tcb t c s.wait_list but (λ w. refl);
            is_timed = out-IsTimed s.tcb t c s.wait_timeout_list is_timed refl;
          }
      | inr alone ↦
          let s1 : System = record s {
            tcb = update s.tcb t (out_of_wait (s.tcb t));
            wait_timeout_list =
                if (s.tcb t).tick_count == wait_infinite
                then s.wait_timeout_list
                else remove t s.wait_timeout_list;
          } in
          let e : s1.tcb t ≡ out_of_wait (s.tcb t) = ground arith in
          let good : IsConsistent s1 = record {
            scheduled =
                same-IsScheduled s.tcb s.ready scheduled t (out_of_wait (s.tcb t)) refl (λ h. refl)
                  record {
                    low = (scheduled.is_tcb t).low;
                    base_low = (scheduled.is_tcb t).base_low;
                    no_task = (scheduled.is_tcb t).no_task;
                    no_queue = λ h. refl;
                    asleep = λ h k. refl;
                  };
            is_queued =
                out-IsQueued s.tcb t (out_of_wait (s.tcb t)) s.wait_list but (λ w. ground arith);
            is_timed =
                out-IsTimed s.tcb t (out_of_wait (s.tcb t)) s.wait_timeout_list is_timed
                  (ground arith);
          } in
          let done =
            task_to_runnable-IsConsistent t s1 good (ap (λ c. is_runnable c.task_state) e ∙ off)
              (λ w. ap (λ c. waits_at c w) e ∙ ground arith) (ap timed e ∙ ground arith)
              (ap (λ c. c.id_task == 0) e ∙ ground (arith, (scheduled.is_tcb t).no_task)) in
          simp (alone) done
    ]

-- A runnable task waits: in the queue that is given, and for the time that is given.
pub task_curr_to_wait_action-IsConsistent :
    (wait_que : Option ℕ) (reason : WaitReason) (timeout : ℕ) (s : System)
    → IsConsistent s
    → is_runnable (s.tcb s.curr_run_task).task_state ≡ true
    → (wait_que ≡ none ⊎ (is_sleep reason ≡ false))
    → IsConsistent (task_curr_to_wait_action wait_que reason timeout s)
unfolding task_curr_to_wait_action task_to_non_runnable
task_curr_to_wait_action-IsConsistent none reason timeout s good runs awake =
    let t = s.curr_run_task in
    let c : Tcb = record (s.tcb t) {
      task_state = wait;
      task_wait_reason = reason;
      tick_count = timeout;
    } in
    let none_there = (good.scheduled.is_tcb t).no_queue runs in
    record {
      scheduled = removed-IsScheduled s.tcb s.ready good.scheduled t c refl record {
        low = (good.scheduled.is_tcb t).low;
        base_low = (good.scheduled.is_tcb t).base_low;
        no_task = λ h. ground (arith, (good.scheduled.is_tcb t).no_task h, runs);
        no_queue = λ h. ground arith;
        asleep = λ h k. none_there;
      };
      is_queued =
          same-IsQueued s.tcb t c s.wait_list good.is_queued
            (λ w. ground (arith, runs, none_there));
      is_timed =
          added-IsTimed s.tcb t c s.wait_timeout_list timeout good.is_timed (ground (arith, runs))
            (ground arith);
    }
task_curr_to_wait_action-IsConsistent (some w) reason timeout s good runs awake =
    let t = s.curr_run_task in
    let c : Tcb = record (s.tcb t) {
      task_state = wait;
      task_wait_reason = reason;
      tick_count = timeout;
      pwait_queue = some w;
    } in
    record {
      scheduled = removed-IsScheduled s.tcb s.ready good.scheduled t c refl record {
        low = (good.scheduled.is_tcb t).low;
        base_low = (good.scheduled.is_tcb t).base_low;
        no_task = λ h. ground (arith, (good.scheduled.is_tcb t).no_task h, runs);
        no_queue = λ h. ground arith;
        asleep = λ h k. ground (arith, awake, k);
      };
      is_queued =
          added-IsQueued s.tcb t c s.wait_list w good.is_queued (λ v. ground (arith, runs))
            (λ v. ground arith);
      is_timed =
          added-IsTimed s.tcb t c s.wait_timeout_list timeout good.is_timed (ground (arith, runs))
            (ground arith);
    }
