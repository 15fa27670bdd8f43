-- ===== src/Kernel/Ticks.antt =====
-- The timer tick and the time slices, TNKernel/tn.c, and the start of the system.
pub mod Timers
pub mod Kept
use usb_bulk.Prelude.{
  ℕ, ◌+◌, ◌-◌, Bool, true, false, not, ◌&&◌, ◌||◌, Option, none, some, List, [], ◌∷◌, ◌++◌, ◌==◌,
  ltb, gt_int, if◌then◌else◌, update,
}
use usb_bulk.Kernel.Code.{Code, no_err, wrong_param, wcontext, timeout}
use usb_bulk.Kernel.Ready.{Ready, num_priority}
use usb_bulk.Kernel.Task.{
  Tcb, System, in_task, in_interrupt, wait_infinite, set_tcb, task_wait_complete, task_to_runnable,
}
use usb_bulk.Kernel.Task.Services.{CreateArgs, tn_task_create, request_switch}

-- Where the priority or the value is out of range, the code returns with interrupts disabled.
-- `value` and `priority` are 32-bit patterns.
unfoldable pub tn_sys_tslice_ticks : ℕ → ℕ → System → Code × System
tn_sys_tslice_ticks priority value s =
    if in_task s
    then if priority == 0 || ltb (num_priority - 2) priority || ltb 0xFFFE value
      then (wrong_param, record s { irq_disabled = true })
      else (no_err, record s { tslice_ticks = update s.tslice_ticks priority value })
    else (wcontext, s)

-- The last task goes to the head of a list that has more than one.
unfoldable pub rotate : List ℕ → List ℕ
rotate [] = []
rotate (t ∷ []) = t ∷ []
rotate (t ∷ u ∷ ts) = elim (rotate (u ∷ ts)) [ [] ↦ [] | last ∷ rest ↦ last ∷ t ∷ rest ]

-- The round-robin part of tn_tick_int_processing.
unfoldable pub slice : System → System
unfolding rotate
slice s =
    let t = s.curr_run_task in
    let c = s.tcb t in
    let p = c.priority in
    let ready = record s.ready {
      ready_list = update s.ready.ready_list p (rotate (s.ready.ready_list p));
    } in
    if s.tslice_ticks p == 0
    then s
    else if ltb (s.tslice_ticks p) (c.tslice_count + 1)
    then record (set_tcb s t (record c { tslice_count = 0 })) { ready = ready }
    else set_tcb s t (record c { tslice_count = c.tslice_count + 1 })

-- One entry of the list of timers: `tick_count` is an `int`, so that a count of 2 ^ 31 and more never
-- gets less.
unfoldable pub tick_timer : ℕ → System → System
unfolding task_wait_complete
tick_timer t s =
    let c = s.tcb t in
    let s1 = set_tcb s t (record c { tick_count = c.tick_count - 1 }) in
    let (switch, s2) = task_wait_complete t s1 in
    if gt_int c.tick_count 0 && not (c.tick_count == wait_infinite)
    then if c.tick_count - 1 == 0
      then if switch
        then request_switch (set_tcb s2 t (record (s2.tcb t) { task_wait_rc = Code.timeout }))
        else s2
      else s1
    else s

unfoldable pub tick_timers : List ℕ → System → System
unfolding tick_timer
tick_timers [] s = s
tick_timers (t ∷ ts) s = tick_timers ts (tick_timer t s)

unfoldable pub tn_tick_int_processing : System → System
unfolding slice tick_timers
tn_tick_int_processing s =
    let s' = slice s in if in_interrupt s then tick_timers s'.wait_timeout_list s' else s

-- The arguments for the two tasks of the system, and their numbers.
abbrev pub timer_task : ℕ
timer_task = 0

abbrev pub idle_task : ℕ
idle_task = 1

abbrev pub system_args : ℕ → ℕ → ℕ → CreateArgs
system_args priority size option = record {
  has_func = true;
  has_stack = true;
  priority = priority;
  stack_size = size;
  option = option;
}

-- The variables at the start.
abbrev pub reset : System → System
reset s = record s {
  ready = record { ready_list = λ p. []; ready_to_run_bmp = 0; next_task_to_run = none };
  tslice_ticks = λ p. 0;
  create_queue = [];
  created_tasks_qty = 0;
  is_running = false;
  enable_switch_context = true;
  context_switch_request = false;
  int_counter = 0;
  blocked_tasks_list = [];
  wait_timeout_list = [];
}

-- tn_start_system up to tn_start_exe.
unfoldable pub tn_start_system : System → System
unfolding tn_task_create task_to_runnable
tn_start_system s =
    let s1 = (tn_task_create (some timer_task) (system_args 0 64 0x80) (reset s)).1 in
    let s2 = (tn_task_create (some idle_task) (system_args (num_priority - 1) 48 0x40) s1).1 in
    record (task_to_runnable timer_task (task_to_runnable idle_task s2)) {
      curr_run_task = idle_task;
    }
