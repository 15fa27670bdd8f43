-- ===== src/Tests/Scheduling.antt =====
-- Tests of Kernel.Task, Kernel.Ready, Kernel.Steps and Kernel.Ticks.
use usb_bulk.Prelude.{
  ◌^◌, ◌≡◌, refl, true, false, some, [], ◌∷◌, arith, update, ◌∙◌, count-is_empty, count-cons,
}
use usb_bulk.Kernel.Code.{no_err}
use usb_bulk.Kernel.Ready.{Ready, to_runnable, change_priority}
use usb_bulk.Prelude.Words.{bit-pow}
use usb_bulk.Kernel.Ready.First.{IsReady, IsNext}
use usb_bulk.Kernel.Ready.Added.{IsKnown}
use usb_bulk.Kernel.Ready.Changed.{change_priority-IsReady}
use usb_bulk.Kernel.Task.{
  Tcb, System, TaskState, runnable, suspend, waitsusp, is_runnable, in_task, task_set_dormant_state,
  task_to_runnable, tn_id_task, wait_infinite, in_interrupt, switch_context,
}
use usb_bulk.Kernel.Task.Services.{
  CreateArgs, is_creatable, create_task, tn_task_create, tn_task_sleep, tn_task_suspend,
  tn_task_resume, tn_task_activate,
}
use usb_bulk.Kernel.Task.Consistent.{IsConsistent}
use usb_bulk.Kernel.Task.Running.{IsRunning, services-IsRunning}
use usb_bulk.Kernel.Task.Interface.{system_scheduler, tn_queue_isend_polling-runnable}
use usb_bulk.Kernel.Fifo.{Dque}
use usb_bulk.Kernel.Fifo.Contents.{contents}
use usb_bulk.Kernel.Queue.{tn_queue_isend_polling}
use usb_bulk.Kernel.Ticks.{tn_start_system}
use usb_bulk.Kernel.Steps.{Step, Reach, zeroed, zeroed_tcb}
use usb_bulk.Kernel.Steps.Reached.{Reach-IsConsistent}
use usb_bulk.Tests.Storage.{full_queue}

-- A task that is made runnable, with priority 5.
abbrev pub args : CreateArgs
args = record { has_func = true; has_stack = true; priority = 5; stack_size = 32; option = 1 }

-- The start, with the task 2 created; the timer task, which runs first, sleeps, so that task 2 runs.
abbrev pub created : System
created = (tn_task_create (some 2) args (tn_start_system zeroed)).1

abbrev pub running : System
running =
    switch_context
      (record (record created { int_counter = 0; irq_disabled = false; is_running = true }) {
        context_switch_request = false;
      })

abbrev pub asleep : System
asleep = (tn_task_sleep wait_infinite running).1

pub running_live : is_runnable (running.tcb running.curr_run_task).task_state ≡ true
unfolding tn_start_system tn_task_create is_creatable create_task task_set_dormant_state
    task_to_runnable to_runnable in_task switch_context
running_live = refl

pub running-Reach : Reach running
running-Reach =
    Reach.step
      (Reach.step (Reach.step Reach.start (Step.create (some 2) args)) (Step.context 0 false true))
      Step.dispatch

asleep-Reach : Reach asleep
asleep-Reach = Reach.step running-Reach (Step.sleeps wait_infinite running_live)

Reach-IsConsistent_example : IsConsistent asleep
Reach-IsConsistent_example = Reach-IsConsistent asleep asleep-Reach

-- Task 2 in the list of its priority, 5, and in none of the others.
abbrev pub one_ready : Ready
one_ready = record {
  ready_list = update (λ p. []) 5 (2 ∷ []);
  ready_to_run_bmp = 2 ^ 5;
  next_task_to_run = some 2;
}

one_ready-IsReady : IsReady one_ready
unfolding IsNext
one_ready-IsReady = record {
  is_map = λ p. bit-pow 5 p ∙ ground arith;
  none_above = λ p h. ground arith;
  word = ground arith;
  is_first = (5, (λ q h. ground arith), refl);
}

one_ready-IsKnown : IsKnown one_ready.ready_list (λ t. 5)
one_ready-IsKnown n q there = ground (arith, count-is_empty n [] refl, count-cons n 2 [])

change_priority-IsReady_example : IsReady (change_priority (λ t. 5) 2 5 7 one_ready).1
change_priority-IsReady_example =
    change_priority-IsReady (λ t. 5) 2 5 7 one_ready one_ready-IsReady (ground arith) (ground arith)
      one_ready-IsKnown refl

-- The TCB of a task with priority 5.
abbrev pub task_tcb : TaskState → Tcb
task_tcb state = record zeroed_tcb {
  base_priority = 5;
  priority = 5;
  id_task = tn_id_task;
  task_state = state;
}

-- Task 2 runs, with switches enabled; `c` is task 3's TCB.
abbrev pub two_tasks : Tcb → System
two_tasks c = record zeroed {
  tcb = update (update (λ t. zeroed_tcb) 2 (task_tcb runnable)) 3 c;
  ready = one_ready;
  curr_run_task = 2;
  enable_switch_context = true;
  irq_disabled = false;
  is_running = true;
}

in_task_two : in_task (two_tasks (task_tcb suspend)) ≡ true
unfolding in_task
in_task_two = refl

in_interrupt_two : in_interrupt (two_tasks (task_tcb waitsusp)) ≡ true
unfolding in_interrupt
in_interrupt_two = refl

services-IsRunning_example :
    let s = two_tasks (task_tcb suspend) in
    IsRunning (tn_task_suspend (some 3) s).1
    × IsRunning (tn_task_resume (some 3) s).1
    × IsRunning (tn_task_activate (some 3) s).1
    × IsRunning (tn_task_sleep 10 s).1
services-IsRunning_example =
    services-IsRunning (some 3) 10 (two_tasks (task_tcb suspend)) (λ u e. ground (arith, e)) refl

-- Task 3 waits to receive an element, and is suspended too.
tn_queue_isend_polling-runnable_example :
    let s = two_tasks (task_tcb waitsusp) in
    let q = record (full_queue []) { wait_receive_list = 3 ∷ [] } in
    (r : Dque) × (s' : System) × (tn_queue_isend_polling system_scheduler (some q) 9 s
      ≡ (no_err, some r, s'))
    × (contents r ≡ contents q)
    × (r.wait_receive_list ≡ [])
    × ((s'.tcb 3).data_elem ≡ 9)
    × ((s'.tcb 3).task_wait_rc ≡ no_err)
    × (is_runnable (s'.tcb 3).task_state ≡ false)
tn_queue_isend_polling-runnable_example =
    tn_queue_isend_polling-runnable (record (full_queue []) { wait_receive_list = 3 ∷ [] }) 9 3 []
      (two_tasks (task_tcb waitsusp)) refl refl in_interrupt_two

-- Two tasks of one priority, and a time slice of one tick, which ends.
abbrev pub sliced : System
sliced = record (two_tasks (task_tcb runnable)) {
  tcb =
      update (update (λ t. zeroed_tcb) 2 (record (task_tcb runnable) { tslice_count = 1 })) 3
        (task_tcb runnable);
  ready = record one_ready { ready_list = update (λ p. []) 5 (2 ∷ 3 ∷ []) };
  tslice_ticks = λ p. 1;
}
