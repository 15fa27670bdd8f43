-- ===== src/Kernel/Task/Services.antt =====
-- The services of TNKernel/tn_tasks.c that make tasks, and suspend, resume, put to sleep, wake up,
-- activate and release them. A null pointer is `none`; an `int` is its 32-bit pattern. Interrupts are
-- off while a service works, so that each is one step, the switch at its end included.
use usb_bulk.Prelude.{
  ℕ, ◌-◌, ◌+◌, ◌^◌, Bool, true, not, ◌&&◌, ◌||◌, Option, none, some, [], ◌∷◌, ◌++◌, ◌==◌, ltb,
  has_bits, if◌then◌else◌,
}
use usb_bulk.Kernel.Code.{Code, no_err, wrong_param, noexs, wcontext, wstate, overflow}
use usb_bulk.Kernel.Scheduler.{sleep}
use usb_bulk.Kernel.Ready.{num_priority, is_next}
use usb_bulk.Kernel.Task.{
  System, suspend, wait, waitsusp, is_runnable, has_wait, has_suspend, is_dormant, is_sleep,
  tn_id_task, set_tcb, in_task, in_interrupt, switch_context, switch_if_other, task_to_non_runnable,
  task_to_runnable, task_wait_complete, task_curr_to_wait_action, task_set_dormant_state,
}

-- The pointers' part of a call of tn_task_create: whether `task_func` and `task_stack_start` are not
-- null.
pub record CreateArgs : Type 0 where
  pub has_func : Bool
  pub has_stack : Bool
  pub priority : ℕ
  pub stack_size : ℕ
  pub option : ℕ

-- "Light weight checking of system tasks recreation", and the ranges; a negative number is above them.
unfoldable pub is_creatable : CreateArgs → Bool
is_creatable a =
    not (
      (a.priority == 0 && not (has_bits a.option 0x80))
      || (a.priority == num_priority - 1 && not (has_bits a.option 0x40)))
    && not (ltb (num_priority - 1) a.priority)
    && not (ltb a.stack_size 20 || ltb (2 ^ 31 - 1) a.stack_size)
    && a.has_func
    && a.has_stack

-- Under the tests of tn_task_create, which fails where interrupts are in the way.
unfoldable pub create_task : ℕ → CreateArgs → System → System
unfolding task_set_dormant_state task_to_runnable
create_task t a s =
    let c = record (s.tcb t) {
      base_priority = a.priority;
      activate_count = 0;
      id_task = tn_id_task;
    } in
    let s1 = task_set_dormant_state t (set_tcb s t c) in
    let s2 = set_tcb s1 t (record (s1.tcb t) { create_linked = true }) in
    let s3 = record s2 {
      create_queue = s.create_queue ++ (t ∷ []);
      created_tasks_qty = s.created_tasks_qty + 1;
    } in
    if has_bits a.option 1 then task_to_runnable t s3 else s3

unfoldable pub tn_task_create : Option ℕ → CreateArgs → System → Code × System
unfolding is_creatable create_task
tn_task_create none a s = (wrong_param, s)
tn_task_create (some t) a s =
    if is_creatable a && (s.tcb t).id_task == 0
    then if in_task s then (no_err, create_task t a s) else (wcontext, s)
    else (wrong_param, s)

-- The tests that most services begin with, where `may_call` is that of the context.
unfoldable pub on_task :
    (System → Bool) → (ℕ → System → Code × System) → Option ℕ → System → Code × System
on_task may_call body none s = (wrong_param, s)
on_task may_call body (some t) s =
    if (s.tcb t).id_task == tn_id_task
    then if may_call s then body t s else (wcontext, s)
    else (noexs, s)

-- `task_state |= TSK_STATE_SUSPEND`, where only WAIT is left
unfoldable pub suspend_task : ℕ → System → Code × System
unfolding task_to_non_runnable switch_if_other
suspend_task t s =
    let c = s.tcb t in
    if has_suspend c.task_state
    then (overflow, s)
    else if is_dormant c.task_state
    then (wstate, s)
    else if t == s.curr_run_task && not s.enable_switch_context
    then (wcontext, s)
    else if is_runnable c.task_state
    then (
      no_err,
      switch_if_other (task_to_non_runnable t (set_tcb s t (record c { task_state = suspend }))),
    )
    else (no_err, set_tcb s t (record c { task_state = waitsusp }))

unfoldable pub tn_task_suspend : Option ℕ → System → Code × System
unfolding on_task suspend_task
tn_task_suspend = on_task in_task suspend_task

unfoldable pub resume_task : ℕ → System → Code × System
unfolding task_to_runnable switch_if_other
resume_task t s =
    let c = s.tcb t in
    if has_suspend c.task_state
    then if has_wait c.task_state
      then (no_err, set_tcb s t (record c { task_state = wait }))
      else (no_err, switch_if_other (task_to_runnable t s))
    else (wstate, s)

unfoldable pub tn_task_resume : Option ℕ → System → Code × System
unfolding on_task resume_task
tn_task_resume = on_task in_task resume_task

-- The code is TERR_NO_ERR also where the task slept, whatever ended that.
unfoldable pub tn_task_sleep : ℕ → System → Code × System
unfolding task_curr_to_wait_action switch_context
tn_task_sleep timeout s =
    if timeout == 0
    then (wrong_param, s)
    else if in_task s
    then (let c = s.tcb s.curr_run_task in
        if ltb 0 c.wakeup_count
        then (no_err, set_tcb s s.curr_run_task (record c { wakeup_count = c.wakeup_count - 1 }))
        else (no_err, switch_context (task_curr_to_wait_action none sleep timeout s)))
    else (wcontext, s)

-- `next` is what follows the end of a wait: a switch, or the request for one.
unfoldable pub wakeup_task : (System → System) → ℕ → System → Code × System
unfolding task_wait_complete
wakeup_task next t s =
    let c = s.tcb t in
    let curr = s.tcb s.curr_run_task in
    let (switch, s') = task_wait_complete t s in
    if is_dormant c.task_state
    then (wcontext, s)
    else if has_wait c.task_state && is_sleep c.task_wait_reason
    then (no_err, if switch then next s' else s')
    else if curr.wakeup_count == 0
    then (no_err, set_tcb s s.curr_run_task (record curr { wakeup_count = curr.wakeup_count + 1 }))
    else (overflow, s)

abbrev pub request_switch : System → System
request_switch s = record s { context_switch_request = true }

unfoldable pub tn_task_wakeup : Option ℕ → System → Code × System
unfolding on_task wakeup_task switch_context
tn_task_wakeup = on_task in_task (wakeup_task switch_context)

unfoldable pub tn_task_iwakeup : Option ℕ → System → Code × System
unfolding on_task wakeup_task
tn_task_iwakeup = on_task in_interrupt (wakeup_task request_switch)

unfoldable pub activate_task : (System → System) → ℕ → System → Code × System
unfolding task_to_runnable
activate_task next t s =
    let c = s.tcb t in
    let s' = task_to_runnable t s in
    if is_dormant c.task_state
    then (
      no_err,
      if not (is_next s'.ready.next_task_to_run s'.curr_run_task) && s'.enable_switch_context
          then next s'
          else s',
    )
    else if c.activate_count == 0
    then (no_err, set_tcb s t (record c { activate_count = c.activate_count + 1 }))
    else (overflow, s)

unfoldable pub tn_task_activate : Option ℕ → System → Code × System
unfolding on_task activate_task switch_context
tn_task_activate = on_task in_task (activate_task switch_context)

unfoldable pub tn_task_iactivate : Option ℕ → System → Code × System
unfolding on_task activate_task
tn_task_iactivate = on_task in_interrupt (activate_task request_switch)

-- The task stays in the wait queue of the object that it waited for.
unfoldable pub release_task : (System → System) → ℕ → System → Code × System
unfolding task_wait_complete
release_task next t s =
    let (switch, s') = task_wait_complete t s in
    if has_wait (s.tcb t).task_state
    then (no_err, if switch then next s' else s')
    else (wcontext, s)

unfoldable pub tn_task_release_wait : Option ℕ → System → Code × System
unfolding on_task release_task switch_context
tn_task_release_wait = on_task in_task (release_task switch_context)

unfoldable pub tn_task_irelease_wait : Option ℕ → System → Code × System
unfolding on_task release_task
tn_task_irelease_wait = on_task in_interrupt (release_task request_switch)
