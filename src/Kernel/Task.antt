-- ===== src/Kernel/Task.antt =====
-- The tasks and the scheduler's variables, TNKernel/tn.h and tn.c, and what TNKernel/tn_tasks.c does
-- to them on behalf of the services. A task is named by a number, and so is the wait queue of an
-- object. The stacks and the registers of a task are left out.
-- The parts under USE_MUTEXES, for tasks that hold a mutex or wait for one, are in Mutex: what is here
-- is the whole for a task that does neither.
pub mod Scheduled
pub mod Consistent
pub mod Waits
pub mod Services
pub mod Kept
pub mod Released
pub mod Popped
pub mod Running
pub mod Interface
pub mod Woken
pub mod Ended
pub mod Exits
pub mod Created
pub mod Endings
use usb_bulk.Prelude.{
  ℕ, ◌-◌, ◌+◌, ◌^◌, Bool, true, false, not, ◌&&◌, ◌||◌, Option, none, some, List, [], ◌∷◌, ◌++◌,
  ◌==◌, ltb, if◌then◌else◌, update, remove,
}
use usb_bulk.Kernel.Code.{Code, no_err}
use usb_bulk.Kernel.Scheduler.{WaitReason, no_reason}
use usb_bulk.Kernel.Ready.{Ready, is_next, to_non_runnable, to_runnable}

-- TSK_STATE_RUNNABLE and so on; `waitsusp` is WAIT with SUSPEND. A TCB that was never used holds 0:
-- no service looks at its state, and it counts as dormant.
pub data TaskState : Type 0 where
  runnable : TaskState
  wait : TaskState
  suspend : TaskState
  waitsusp : TaskState
  dormant : TaskState

abbrev pub is_runnable : TaskState → Bool
is_runnable runnable = true
is_runnable other = false

-- `task_state & TSK_STATE_WAIT`
abbrev pub has_wait : TaskState → Bool
has_wait wait = true
has_wait waitsusp = true
has_wait other = false

-- `task_state & TSK_STATE_SUSPEND`
abbrev pub has_suspend : TaskState → Bool
has_suspend suspend = true
has_suspend waitsusp = true
has_suspend other = false

abbrev pub is_dormant : TaskState → Bool
is_dormant dormant = true
is_dormant other = false

abbrev pub is_sleep : WaitReason → Bool
is_sleep WaitReason.sleep = true
is_sleep other = false

-- TN_TCB. `create_linked` is whether the links of its create_queue are those of an entry of
-- tn_create_queue: after queue_reset they lead to itself, and a removal of the entry does nothing.
-- The priorities and the counts are never negative.
pub record Tcb : Type 0 where
  pub pwait_queue : Option ℕ
  pub blk_task : Option ℕ
  pub create_linked : Bool
  pub base_priority : ℕ
  pub priority : ℕ
  pub id_task : ℕ
  pub task_state : TaskState
  pub task_wait_reason : WaitReason
  pub task_wait_rc : Code
  pub tick_count : ℕ
  pub tslice_count : ℕ
  pub ewait_pattern : ℕ
  pub ewait_mode : ℕ
  pub data_elem : ℕ
  pub activate_count : ℕ
  pub wakeup_count : ℕ
  pub suspend_count : ℕ

abbrev pub tn_id_task : ℕ
tn_id_task = 0x47ABCF69

abbrev pub wait_infinite : ℕ
wait_infinite = 0xFFFFFFFF

-- The variables of tn.c. `wait_list w` is the list at the wait queue named `w`; `irq_disabled` is
-- tn_chk_irq_disabled; `is_running` is tn_system_state == TN_ST_STATE_RUNNING.
pub record System : Type 0 where
  pub tcb : ℕ → Tcb
  pub ready : Ready
  pub curr_run_task : ℕ
  pub create_queue : List ℕ
  pub created_tasks_qty : ℕ
  pub wait_timeout_list : List ℕ
  pub blocked_tasks_list : List ℕ
  pub wait_list : ℕ → List ℕ
  pub tslice_ticks : ℕ → ℕ
  pub enable_switch_context : Bool
  pub context_switch_request : Bool
  pub int_counter : ℕ
  pub irq_disabled : Bool
  pub is_running : Bool

-- TN_CHECK_NON_INT_CONTEXT lets the call pass.
unfoldable pub in_task : System → Bool
in_task s = not (ltb 0 s.int_counter || (s.irq_disabled && s.is_running))

-- TN_CHECK_INT_CONTEXT lets the call pass.
unfoldable pub in_interrupt : System → Bool
in_interrupt s = not (ltb 1 s.int_counter || (s.irq_disabled && not s.is_running))

abbrev pub priority_of : System → ℕ → ℕ
priority_of s t = (s.tcb t).priority

abbrev pub set_tcb : System → ℕ → Tcb → System
set_tcb s t c = record s { tcb = update s.tcb t c }

-- tn_switch_context, which is assembler: the next task becomes the running one. It is not called while
-- no task is ready: it would take its stack from a null pointer.
unfoldable pub switch_context : System → System
switch_context s = record s {
  curr_run_task = elim s.ready.next_task_to_run [ none ↦ s.curr_run_task | some t ↦ t ];
}

-- The switch where the next task is not the running one and switches are enabled.
unfoldable pub switch_if_other : System → System
unfolding switch_context
switch_if_other s =
    if not (is_next s.ready.next_task_to_run s.curr_run_task) && s.enable_switch_context
    then switch_context s
    else s

unfoldable pub task_to_non_runnable : ℕ → System → System
unfolding to_non_runnable
task_to_non_runnable t s = record s { ready = to_non_runnable t (priority_of s t) s.ready }

unfoldable pub task_to_runnable : ℕ → System → System
unfolding to_runnable
task_to_runnable t s =
    let s' = set_tcb s t (record (s.tcb t) { task_state = runnable; pwait_queue = none }) in
    record s' { ready = to_runnable (priority_of s) t (priority_of s t) s.ready }

-- The fields that the end of a wait sets.
abbrev pub out_of_wait : Tcb → Tcb
out_of_wait c = record c {
  task_wait_reason = no_reason;
  pwait_queue = none;
  task_wait_rc = no_err;
  tick_count = wait_infinite;
}

-- task_wait_complete of a task that is no null pointer and waits for no mutex. Of one that waits for a
-- mutex it is the part outside USE_MUTEXES.
unfoldable pub task_wait_complete : ℕ → System → Bool × System
unfolding task_to_runnable
task_wait_complete t s =
    let c = s.tcb t in
    let timers =
      if c.tick_count == wait_infinite then s.wait_timeout_list else remove t s.wait_timeout_list in
    let s' = record s { wait_timeout_list = timers } in
    if has_suspend c.task_state
    then (false, set_tcb s' t (record (out_of_wait c) { task_state = suspend }))
    else (true, task_to_runnable t (set_tcb s' t (out_of_wait c)))

-- `wait_que` is `none` for a null pointer.
unfoldable pub task_curr_to_wait_action : Option ℕ → WaitReason → ℕ → System → System
unfolding task_to_non_runnable
task_curr_to_wait_action wait_que reason timeout s =
    let t = s.curr_run_task in
    let s' = task_to_non_runnable t s in
    let c = record (s.tcb t) {
      task_state = wait;
      task_wait_reason = reason;
      tick_count = timeout;
    } in
    let timers =
      if timeout == wait_infinite then s.wait_timeout_list else s.wait_timeout_list ++ (t ∷ []) in
    elim wait_que [
      | none ↦ record s' { tcb = update s.tcb t c; wait_timeout_list = timers }
      | some w ↦ record s' {
        tcb = update s.tcb t (record c { pwait_queue = some w });
        wait_timeout_list = timers;
        wait_list = update s.wait_list w (s.wait_list w ++ (t ∷ []));
      }
    ]

-- The fields that task_set_dormant_state sets, but for the links.
abbrev pub dormant_tcb : Tcb → Tcb
dormant_tcb c = record c {
  pwait_queue = none;
  blk_task = none;
  create_linked = false;
  priority = c.base_priority;
  task_state = dormant;
  task_wait_reason = no_reason;
  task_wait_rc = no_err;
  ewait_pattern = 0;
  ewait_mode = 0;
  data_elem = 0;
  tick_count = wait_infinite;
  wakeup_count = 0;
  suspend_count = 0;
  tslice_count = 0;
}

unfoldable pub task_set_dormant_state : ℕ → System → System
task_set_dormant_state t s = set_tcb s t (dormant_tcb (s.tcb t))
