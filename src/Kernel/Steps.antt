-- ===== src/Kernel/Steps.antt =====
-- The system from its start on, as steps: each call of a service that Task, Sem and Event model is one
-- step, with any arguments, and so are a tick and the way into and out of an interrupt.
pub mod Calls
pub mod Reached
use usb_bulk.Prelude.{ℕ, ◌≡◌, ◌≢◌, Bool, true, false, Option, none, some, List, [], ◌==◌, count}
use usb_bulk.Kernel.Code.{no_err}
use usb_bulk.Kernel.Scheduler.{no_reason}
use usb_bulk.Kernel.Ready.{Ready}
use usb_bulk.Kernel.Task.{Tcb, System, dormant, is_runnable, has_wait, is_sleep, switch_context}
use usb_bulk.Kernel.Task.Services.{
  CreateArgs, tn_task_create, tn_task_suspend, tn_task_resume, tn_task_sleep, tn_task_wakeup,
  tn_task_iwakeup, tn_task_activate, tn_task_iactivate, tn_task_release_wait, tn_task_irelease_wait,
}
use usb_bulk.Kernel.Task.Endings.{
  tn_task_exit, tn_task_terminate, tn_task_delete, tn_task_change_priority,
}
use usb_bulk.Kernel.Sem.{Sem, tn_sem_signal, tn_sem_isignal, tn_sem_acquire}
use usb_bulk.Kernel.Event.{Event, tn_event_set, tn_event_iset, tn_event_wait}
use usb_bulk.Kernel.Ticks.{tn_start_system, tn_tick_int_processing}

-- The memory before the start: TCBs that hold 0, and empty queues.
abbrev pub zeroed_tcb : Tcb
zeroed_tcb = record {
  pwait_queue = none;
  blk_task = none;
  create_linked = false;
  base_priority = 0;
  priority = 0;
  id_task = 0;
  task_state = dormant;
  task_wait_reason = no_reason;
  task_wait_rc = no_err;
  tick_count = 0;
  tslice_count = 0;
  ewait_pattern = 0;
  ewait_mode = 0;
  data_elem = 0;
  activate_count = 0;
  wakeup_count = 0;
  suspend_count = 0;
}

abbrev pub zeroed : System
zeroed = record {
  tcb = λ t. zeroed_tcb;
  ready = record { ready_list = λ p. []; ready_to_run_bmp = 0; next_task_to_run = none };
  curr_run_task = 0;
  create_queue = [];
  created_tasks_qty = 0;
  wait_timeout_list = [];
  blocked_tasks_list = [];
  wait_list = λ w. [];
  tslice_ticks = λ p. 0;
  enable_switch_context = false;
  context_switch_request = false;
  int_counter = 0;
  irq_disabled = true;
  is_running = false;
}

-- The running task is runnable.
abbrev pub IsLive : System → Type 0
IsLive s = is_runnable (s.tcb s.curr_run_task).task_state ≡ true

-- Calls that can block or end the running task are made by one that is runnable. Three calls are
-- steps only where the links of the code's queues stay whole, which Links is about: the release of a
-- task that is in no object's queue, the termination of one that does not sleep, and an exit with
-- deletion while no activation is left. A tick is a step while no task with a timer is in an object's
-- queue and the running task's priority has no time slice.
pub data Step : System → System → Type 0 where
  create : {s : System} (o : Option ℕ) (a : CreateArgs) → Step s (tn_task_create o a s).1
  suspends : {s : System} (o : Option ℕ) → Step s (tn_task_suspend o s).1
  resumes : {s : System} (o : Option ℕ) → Step s (tn_task_resume o s).1
  sleeps : {s : System} (time : ℕ) → IsLive s → Step s (tn_task_sleep time s).1
  wakes : {s : System} (o : Option ℕ) → Step s (tn_task_wakeup o s).1
  iwakes : {s : System} (o : Option ℕ) → Step s (tn_task_iwakeup o s).1
  activates : {s : System} (o : Option ℕ) → Step s (tn_task_activate o s).1
  iactivates : {s : System} (o : Option ℕ) → Step s (tn_task_iactivate o s).1
  releases :
      {s : System} (o : Option ℕ)
      → ((t : ℕ) → o ≡ some t → has_wait (s.tcb t).task_state ≡ true → (s.tcb t).pwait_queue ≡ none)
      → Step s (tn_task_release_wait o s).1
  ireleases :
      {s : System} (o : Option ℕ)
      → ((t : ℕ) → o ≡ some t → has_wait (s.tcb t).task_state ≡ true → (s.tcb t).pwait_queue ≡ none)
      → Step s (tn_task_irelease_wait o s).1
  exits :
      {s : System} (delete : Bool)
      → IsLive s
      → (delete ≡ true → ((s.tcb s.curr_run_task).activate_count == 0) ≡ true)
      → Step s (tn_task_exit delete s)
  terminates :
      {s : System} (o : Option ℕ)
      → ((t : ℕ) → o ≡ some t → is_sleep (s.tcb t).task_wait_reason ≡ false)
      → Step s (tn_task_terminate o s).1
  deletes : {s : System} (o : Option ℕ) → Step s (tn_task_delete o s).1
  changes_priority : {s : System} (o : Option ℕ) (p : ℕ) → Step s (tn_task_change_priority o p s).1
  signals : {s : System} (q : Option Sem) → Step s (tn_sem_signal q s).2
  isignals : {s : System} (q : Option Sem) → Step s (tn_sem_isignal q s).2
  acquires :
      {s : System} (q : Option Sem) (time : ℕ) → IsLive s → Step s (tn_sem_acquire q time s).2
  isets : {s : System} (e : Option Event) (pattern : ℕ) → Step s (tn_event_iset e pattern s).2
  sets : {s : System} (e : Option Event) (pattern : ℕ) → Step s (tn_event_set e pattern s).2
  waits_event :
      {s : System} (e : Option Event) (pattern mode : ℕ) (has_place : Bool) (time : ℕ)
      → IsLive s
      → Step s (tn_event_wait e pattern mode has_place time s).2
  ticks :
      {s : System}
      → (s.tslice_ticks (s.tcb s.curr_run_task).priority == 0) ≡ true
      → ((u : ℕ) → (count u s.wait_timeout_list == 0) ≡ false → (s.tcb u).pwait_queue ≡ none)
      → Step s (tn_tick_int_processing s)
  -- An interrupt begins or ends, or the system is declared to run.
  context :
      {s : System} (depth : ℕ) (disabled running : Bool)
      → Step s (record s { int_counter = depth; irq_disabled = disabled; is_running = running })
  -- The end of the last interrupt, after a request for a switch.
  dispatch : {s : System} → Step s (switch_context (record s { context_switch_request = false }))

pub data Reach : System → Type 0 where
  start : Reach (tn_start_system zeroed)
  step : {s s' : System} → Reach s → Step s s' → Reach s'
