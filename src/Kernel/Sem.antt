-- ===== src/Kernel/Sem.antt =====
-- The services of a semaphore, TNKernel/tn_sem.c, but for tn_sem_delete, which is in Delete. A null
-- pointer is `none`. The tasks that wait are those of the queue of the system that `wait_queue` names.
pub mod Laws
use usb_bulk.Prelude.{
  ℕ, ◌+◌, ◌-◌, Bool, true, false, not, ◌&&◌, ◌||◌, Option, none, some, List, [], ◌∷◌, ◌==◌, ltb,
  gt_int, if◌then◌else◌, update,
}
use usb_bulk.Kernel.Code.{Code, no_err, wrong_param, noexs, wcontext, overflow, timeout}
use usb_bulk.Kernel.Scheduler.{WaitReason}
use usb_bulk.Kernel.Queue.{Reply, returned, waits}
use usb_bulk.Kernel.Task.{
  System, in_task, in_interrupt, switch_context, task_wait_complete, task_curr_to_wait_action,
}
use usb_bulk.Kernel.Task.Services.{request_switch}

-- TN_SEM. The counts are never negative.
pub record Sem : Type 0 where
  pub wait_queue : ℕ
  pub count : ℕ
  pub max_count : ℕ
  pub id_sem : ℕ

abbrev pub tn_id_semaphore : ℕ
tn_id_semaphore = 0x6FA173EB

-- `start_value` and `max_val` are the 32-bit patterns of the arguments. For a null pointer the code
-- writes max_count all the same: what that write changes is left out.
unfoldable pub tn_sem_create : Option Sem → ℕ → ℕ → System → Code × Option Sem × System
tn_sem_create none start_value max_val s = (wrong_param, none, s)
tn_sem_create (some q) start_value max_val s =
    if not (gt_int max_val 0)
      || not (start_value == 0 || gt_int start_value 0)
      || ltb max_val start_value
      || not (q.id_sem == 0)
    then (wrong_param, some (record q { max_count = 0 }), s)
    else if in_task s
    then (
      no_err,
      some (record q { count = start_value; max_count = max_val; id_sem = tn_id_semaphore }),
      record s { wait_list = update s.wait_list q.wait_queue [] },
    )
    else (wcontext, some q, s)

-- A signal, for the tasks that wait; `next` is what follows the end of a wait.
unfoldable pub signal : (System → System) → Sem → List ℕ → System → Code × Sem × System
unfolding task_wait_complete
signal next q [] s =
    if ltb q.count q.max_count
    then (no_err, record q { count = q.count + 1 }, s)
    else (overflow, q, s)
signal next q (t ∷ ts) s =
    let (switch, s') =
      task_wait_complete t (record s { wait_list = update s.wait_list q.wait_queue ts }) in
    (no_err, q, if switch then next s' else s')

-- The tests that the services begin with, and then `body`.
unfoldable pub on_sem :
    (System → Bool)
    → (Sem → System → Code × Sem × System)
    → Option Sem
    → System
    → Code × Option Sem × System
on_sem may_call body none s = (wrong_param, none, s)
on_sem may_call body (some q) s =
    let (rc, r, s') = body q s in
    if q.max_count == 0
    then (wrong_param, some q, s)
    else if q.id_sem == tn_id_semaphore
    then if may_call s then (rc, some r, s') else (wcontext, some q, s)
    else (noexs, some q, s)

unfoldable pub tn_sem_signal : Option Sem → System → Code × Option Sem × System
unfolding on_sem signal switch_context
tn_sem_signal = on_sem in_task (λ q s. signal switch_context q (s.wait_list q.wait_queue) s)

unfoldable pub tn_sem_isignal : Option Sem → System → Code × Option Sem × System
unfolding on_sem signal
tn_sem_isignal = on_sem in_interrupt (λ q s. signal request_switch q (s.wait_list q.wait_queue) s)

unfoldable pub poll : Sem → System → Code × Sem × System
poll q s =
    if ltb 0 q.count then (no_err, record q { count = q.count - 1 }, s) else (Code.timeout, q, s)

unfoldable pub tn_sem_polling : Option Sem → System → Code × Option Sem × System
unfolding on_sem poll
tn_sem_polling = on_sem in_task poll

unfoldable pub tn_sem_ipolling : Option Sem → System → Code × Option Sem × System
unfolding on_sem poll
tn_sem_ipolling = on_sem in_interrupt poll

unfoldable pub tn_sem_acquire : Option Sem → ℕ → System → Reply Unit × Option Sem × System
unfolding task_curr_to_wait_action switch_context
tn_sem_acquire none time s = (returned wrong_param tt, none, s)
tn_sem_acquire (some q) time s =
    if time == 0 || q.max_count == 0
    then (returned wrong_param tt, some q, s)
    else if q.id_sem == tn_id_semaphore
    then if in_task s
      then if ltb 0 q.count
        then (returned no_err tt, some (record q { count = q.count - 1 }), s)
        else (
          waits,
          some q,
          switch_context (task_curr_to_wait_action (some q.wait_queue) WaitReason.sem time s),
        )
      else (returned wcontext tt, some q, s)
    else (returned noexs tt, some q, s)

-- What a call that waited returns when its task runs again.
abbrev pub resumed : System → Code
resumed s = (s.tcb s.curr_run_task).task_wait_rc
