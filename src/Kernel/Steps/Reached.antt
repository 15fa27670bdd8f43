-- ===== src/Kernel/Steps/Reached.antt =====
-- Every state that the system reaches has its lists in step with its TCBs.
use usb_bulk.Prelude.{ℕ, ◌-◌, ◌≡◌, refl, false, some, [], arith, count, count-is_empty}
use usb_bulk.Prelude.Words.{bit-zero}
use usb_bulk.Kernel.Ready.{num_priority}
use usb_bulk.Kernel.Ready.First.{none-IsNext}
use usb_bulk.Kernel.Task.{
  System, in_task, in_interrupt, switch_context, task_to_runnable, task_set_dormant_state,
}
use usb_bulk.Kernel.Task.Services.{
  tn_task_create, is_creatable, create_task, suspend_task, resume_task, wakeup_task, activate_task,
  release_task, request_switch, tn_task_suspend, tn_task_resume, tn_task_wakeup, tn_task_iwakeup,
  tn_task_activate, tn_task_iactivate, tn_task_release_wait, tn_task_irelease_wait,
}
use usb_bulk.Kernel.Task.Endings.{terminate_task, tn_task_terminate}
use usb_bulk.Kernel.Task.Consistent.{IsConsistent}
use usb_bulk.Kernel.Task.Waits.{task_to_runnable-IsConsistent}
use usb_bulk.Kernel.Task.Kept.{
  switch_context-IsNeutral, request_switch-IsNeutral, on_task-IsConsistent,
  suspend_task-IsConsistent, resume_task-IsConsistent, tn_task_sleep-IsConsistent,
}
use usb_bulk.Kernel.Task.Woken.{
  release_task-IsConsistent, wakeup_task-IsConsistent, activate_task-IsConsistent,
}
use usb_bulk.Kernel.Task.Exits.{tn_task_exit-IsConsistent, terminate_task-IsConsistent}
use usb_bulk.Kernel.Task.Created.{tn_task_create-IsConsistent}
use usb_bulk.Kernel.Sem.{signal, tn_sem_signal, tn_sem_isignal}
use usb_bulk.Kernel.Sem.Laws.{signal-IsConsistent}
use usb_bulk.Kernel.Event.{tn_event_set, tn_event_iset}
use usb_bulk.Kernel.Ticks.{reset, timer_task, idle_task, system_args, tn_start_system}
use usb_bulk.Kernel.Ticks.Kept.{tn_tick_int_processing-IsConsistent}
use usb_bulk.Kernel.Steps.Calls.{
  change_priority-IsConsistent, delete-IsConsistent, on_sem-IsConsistent, acquire-IsConsistent,
  wait_event-IsConsistent, set-IsConsistent,
}
use usb_bulk.Kernel.Steps.{Step, Reach, zeroed}

-- The start.
start-IsConsistent : IsConsistent (tn_start_system zeroed)
unfolding tn_start_system tn_task_create is_creatable create_task task_set_dormant_state
    task_to_runnable in_task
start-IsConsistent =
    let s0 : System = reset zeroed in
    let empty : (u : ℕ) → count u [] ≡ 0 = λ u. count-is_empty u [] refl in
    let good : IsConsistent s0 = record {
      scheduled = record {
        is_ready = record {
          is_map = λ p. bit-zero p;
          none_above = λ p h. refl;
          word = ground arith;
          is_first = none-IsNext (λ p. []) (λ p. refl);
        };
        is_listed = λ t q. empty t;
        is_tcb = λ t. record {
          low = ground arith;
          base_low = ground arith;
          no_task = λ h. refl;
          no_queue = λ h. refl;
          asleep = λ h k. refl;
        };
      };
      is_queued = λ u w. empty u;
      is_timed = empty;
    } in
    let s1 : System = (tn_task_create (some timer_task) (system_args 0 64 0x80) s0).1 in
    let good1 : IsConsistent s1 =
      tn_task_create-IsConsistent (some timer_task) (system_args 0 64 0x80) s0 good in
    let s2 : System =
      (tn_task_create (some idle_task) (system_args (num_priority - 1) 48 0x40) s1).1 in
    let good2 : IsConsistent s2 =
      tn_task_create-IsConsistent (some idle_task) (system_args (num_priority - 1) 48 0x40) s1
        good1 in
    let s3 : System = task_to_runnable idle_task s2 in
    let good3 : IsConsistent s3 =
      task_to_runnable-IsConsistent idle_task s2 good2 refl (λ w. refl) refl refl in
    let s4 : System = task_to_runnable timer_task s3 in
    let good4 : IsConsistent s4 =
      task_to_runnable-IsConsistent timer_task s3 good3 refl (λ w. refl) refl refl in
    record { scheduled = good4.scheduled; is_queued = good4.is_queued; is_timed = good4.is_timed }

-- Each step keeps the lists in step.
pub Step-IsConsistent : {s s' : System} → Step s s' → IsConsistent s → IsConsistent s'
unfolding tn_task_suspend tn_task_resume tn_task_wakeup tn_task_iwakeup tn_task_activate
    tn_task_iactivate tn_task_release_wait tn_task_irelease_wait tn_task_terminate tn_sem_signal
    tn_sem_isignal tn_event_set tn_event_iset
Step-IsConsistent {s} (Step.create o a) good = tn_task_create-IsConsistent o a s good
Step-IsConsistent {s} (Step.suspends o) good =
    on_task-IsConsistent in_task suspend_task o s good
      (λ t e is_task. suspend_task-IsConsistent t s good is_task)
Step-IsConsistent {s} (Step.resumes o) good =
    on_task-IsConsistent in_task resume_task o s good
      (λ t e is_task. resume_task-IsConsistent t s good is_task)
Step-IsConsistent {s} (Step.sleeps time live) good = tn_task_sleep-IsConsistent time s good live
Step-IsConsistent {s} (Step.wakes o) good =
    on_task-IsConsistent in_task (wakeup_task switch_context) o s good
      (λ t e is_task. wakeup_task-IsConsistent switch_context switch_context-IsNeutral t s good)
Step-IsConsistent {s} (Step.iwakes o) good =
    on_task-IsConsistent in_interrupt (wakeup_task request_switch) o s good
      (λ t e is_task. wakeup_task-IsConsistent request_switch request_switch-IsNeutral t s good)
Step-IsConsistent {s} (Step.activates o) good =
    on_task-IsConsistent in_task (activate_task switch_context) o s good (λ t e is_task.
      activate_task-IsConsistent switch_context switch_context-IsNeutral t s good is_task)
Step-IsConsistent {s} (Step.iactivates o) good =
    on_task-IsConsistent in_interrupt (activate_task request_switch) o s good (λ t e is_task.
      activate_task-IsConsistent request_switch request_switch-IsNeutral t s good is_task)
Step-IsConsistent {s} (Step.releases o apart) good =
    on_task-IsConsistent in_task (release_task switch_context) o s good (λ t e is_task.
      release_task-IsConsistent switch_context switch_context-IsNeutral t s good (apart t e))
Step-IsConsistent {s} (Step.ireleases o apart) good =
    on_task-IsConsistent in_interrupt (release_task request_switch) o s good (λ t e is_task.
      release_task-IsConsistent request_switch request_switch-IsNeutral t s good (apart t e))
Step-IsConsistent {s} (Step.exits delete live over) good =
    tn_task_exit-IsConsistent delete s good live over
Step-IsConsistent {s} (Step.terminates o awake) good =
    on_task-IsConsistent in_task terminate_task o s good
      (λ t e is_task. terminate_task-IsConsistent t s good is_task)
Step-IsConsistent {s} (Step.deletes o) good = delete-IsConsistent o s good
Step-IsConsistent {s} (Step.changes_priority o p) good = change_priority-IsConsistent o p s good
Step-IsConsistent {s} (Step.signals q) good =
    on_sem-IsConsistent in_task (λ q s. signal switch_context q (s.wait_list q.wait_queue) s) q s
      good
      (λ q.
        signal-IsConsistent switch_context switch_context-IsNeutral q (s.wait_list q.wait_queue) s
          good refl)
Step-IsConsistent {s} (Step.isignals q) good =
    on_sem-IsConsistent in_interrupt (λ q s. signal request_switch q (s.wait_list q.wait_queue) s) q
      s good
      (λ q.
        signal-IsConsistent request_switch request_switch-IsNeutral q (s.wait_list q.wait_queue) s
          good refl)
Step-IsConsistent {s} (Step.acquires q time live) good = acquire-IsConsistent q time s good live
Step-IsConsistent {s} (Step.isets e pattern) good =
    set-IsConsistent in_interrupt request_switch request_switch-IsNeutral e pattern s good
Step-IsConsistent {s} (Step.sets e pattern) good =
    set-IsConsistent in_task switch_context switch_context-IsNeutral e pattern s good
Step-IsConsistent {s} (Step.waits_event e pattern mode has_place time live) good =
    wait_event-IsConsistent e pattern mode has_place time s good live
Step-IsConsistent {s} (Step.ticks off apart) good =
    tn_tick_int_processing-IsConsistent s good off apart
Step-IsConsistent {s} (Step.context depth disabled running) good = record {
  scheduled = good.scheduled;
  is_queued = good.is_queued;
  is_timed = good.is_timed;
}
Step-IsConsistent {s} Step.dispatch good =
    switch_context-IsNeutral (record s { context_switch_request = false })
      record { scheduled = good.scheduled; is_queued = good.is_queued; is_timed = good.is_timed }

-- In every state that the system, without mutexes, reaches from its start through ticks and calls of
-- the task, semaphore and event services, as Steps lists them with their conditions: a task is in the
-- ready list of its priority exactly when it is runnable, in an object's queue exactly when it waits
-- there, in the list of timers exactly when it waits with a timeout, and in each once; bit p of the
-- ready map says whether list p has a task; and the next task to run is the first of the highest
-- priority that has one.
pub Reach-IsConsistent : (s : System) → Reach s → IsConsistent s
Reach-IsConsistent s Reach.start = start-IsConsistent
Reach-IsConsistent s (Reach.step reached next) =
    Step-IsConsistent next (Reach-IsConsistent _ reached)
