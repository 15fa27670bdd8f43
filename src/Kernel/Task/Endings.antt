-- ===== src/Kernel/Task/Endings.antt =====
-- The services of TNKernel/tn_tasks.c that end tasks, here tasks that hold no mutex, and
-- tn_task_change_priority. Mutex/Endings has the end of a task that holds mutexes.
use usb_bulk.Prelude.{
  ℕ, ◌-◌, Bool, ◌&&◌, ◌||◌, Option, none, some, ◌==◌, ltb, if◌then◌else◌, update, remove,
}
use usb_bulk.Kernel.Code.{Code, no_err, wrong_param, wcontext}
use usb_bulk.Kernel.Ready.{num_priority, change_priority}
use usb_bulk.Kernel.Task.{
  System, is_runnable, has_wait, is_dormant, tn_id_task, wait_infinite, priority_of, set_tcb,
  in_task, in_interrupt, switch_context, switch_if_other, task_to_non_runnable, task_to_runnable,
  task_set_dormant_state,
}
use usb_bulk.Kernel.Task.Services.{on_task}

-- `queue_remove_entry(&(task->create_queue)); tn_created_tasks_qty--; task->id_task = 0`
unfoldable pub delete_tcb : ℕ → System → System
delete_tcb t s =
    let c = s.tcb t in
    record (set_tcb s t (record c { id_task = 0 })) {
      create_queue = if c.create_linked then remove t s.create_queue else s.create_queue;
      created_tasks_qty = s.created_tasks_qty - 1;
    }

-- A task ends: it is dormant, and runnable again where an activation is left.
unfoldable pub end_task : ℕ → System → System
unfolding task_set_dormant_state task_to_runnable
end_task t s =
    let s' = task_set_dormant_state t s in
    let c = s'.tcb t in
    if ltb 0 c.activate_count
    then task_to_runnable t (set_tcb s' t (record c { activate_count = c.activate_count - 1 }))
    else s'

-- tn_task_exit, once no mutex is locked. `delete` is `attr == TN_EXIT_AND_DELETE_TASK`. The running task does not come back where its call
-- is let through: tn_switch_context_exit.
unfoldable pub tn_task_exit : Bool → System → System
unfolding task_to_non_runnable end_task delete_tcb switch_context
tn_task_exit delete s =
    let t = s.curr_run_task in
    let s' = end_task t (task_to_non_runnable t s) in
    if in_interrupt s then switch_context (if delete then delete_tcb t s' else s') else s

-- The links that hold a waiting task: its object's queue, the list of blocked tasks, the timers.
-- A task that sleeps is in no queue; its task_queue holds the links of its last one, which are
-- written here, and which the lists do not show.
unfoldable pub leave_queues : ℕ → System → System
leave_queues t s =
    let c = s.tcb t in
    let s' = record s {
      blocked_tasks_list = remove t s.blocked_tasks_list;
      wait_timeout_list =
          if c.tick_count == wait_infinite
          then s.wait_timeout_list
          else remove t s.wait_timeout_list;
    } in
    elim c.pwait_queue [
      | none ↦ s'
      | some w ↦ record s' { wait_list = update s.wait_list w (remove t (s.wait_list w)) }
    ]

-- tn_task_terminate of a task that holds no mutex
unfoldable pub terminate_task : ℕ → System → Code × System
unfolding task_to_non_runnable leave_queues end_task switch_if_other
terminate_task t s =
    let c = s.tcb t in
    let s' =
      if is_runnable c.task_state
      then task_to_non_runnable t s
      else if has_wait c.task_state
      then leave_queues t s
      else s in
    let s'' = end_task t s' in
    if is_dormant c.task_state || s.curr_run_task == t
    then (wcontext, s)
    else (no_err, if ltb 0 c.activate_count then switch_if_other s'' else s'')

unfoldable pub tn_task_terminate : Option ℕ → System → Code × System
unfolding on_task terminate_task
tn_task_terminate = on_task in_task terminate_task

unfoldable pub tn_task_delete : Option ℕ → System → Code × System
unfolding on_task delete_tcb
tn_task_delete =
    on_task in_task
      (λ t s. if is_dormant (s.tcb t).task_state then (no_err, delete_tcb t s) else (wcontext, s))

-- change_running_task_priority, whose result is whether to switch
unfoldable pub change_running_task_priority : ℕ → ℕ → System → Bool × System
unfolding change_priority
change_running_task_priority t new s =
    let (moved, ready) = change_priority (priority_of s) t (priority_of s t) new s.ready in
    (
      moved && s.enable_switch_context,
      record (set_tcb s t (record (s.tcb t) { priority = new })) { ready = ready },
    )

unfoldable pub set_priority : ℕ → ℕ → System → Code × System
unfolding change_running_task_priority switch_context
set_priority new_priority t s =
    let c = s.tcb t in
    let new = if new_priority == 0 then c.base_priority else new_priority in
    let (switch, s') = change_running_task_priority t new s in
    if is_dormant c.task_state
    then (wcontext, s)
    else if is_runnable c.task_state
    then (no_err, if switch then switch_context s' else s')
    else (no_err, set_tcb s t (record c { priority = new }))

-- The order of the tests is that of the code: a priority out of range counts before the context.
unfoldable pub tn_task_change_priority : Option ℕ → ℕ → System → Code × System
unfolding on_task set_priority
tn_task_change_priority none new_priority s = (wrong_param, s)
tn_task_change_priority (some t) new_priority s =
    if (s.tcb t).id_task == tn_id_task && ltb (num_priority - 2) new_priority
    then (wrong_param, s)
    else on_task in_task (set_priority new_priority) (some t) s
