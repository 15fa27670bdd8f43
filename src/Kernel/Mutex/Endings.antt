-- ===== src/Kernel/Mutex/Endings.antt =====
-- tn_task_exit and tn_task_terminate of TNKernel/tn_tasks.c with their parts under USE_MUTEXES, which
-- unlock the mutexes of the task that ends.
use usb_bulk.Prelude.{
  ℕ, zero, suc, Bool, ◌||◌, Option, none, some, List, [], ◌∷◌, ◌==◌, ltb, if◌then◌else◌, update,
  is_empty, head?,
}
use usb_bulk.Prelude.Options.{◌>>=◌}
use usb_bulk.Kernel.Code.{Code, no_err, wrong_param, wcontext, noexs}
use usb_bulk.Kernel.Task.{
  is_runnable, has_wait, is_dormant, tn_id_task, in_task, in_interrupt, switch_if_other,
  task_to_non_runnable,
}
use usb_bulk.Kernel.Task.Endings.{leave_queues, end_task, tn_task_exit}
use usb_bulk.Kernel.Mutex.{Locks}
use usb_bulk.Kernel.Mutex.Unlock.{do_unlock_mutex}

-- What queue_remove_head leaves.
abbrev pub behind_head : List ℕ → List ℕ
behind_head [] = []
behind_head (m ∷ ms) = ms

-- The loop that unlocks the mutexes of task `t`, with fuel for its rounds.
unfoldable pub unlock_all : ℕ → ℕ → ℕ → Locks → Option Locks
unfolding do_unlock_mutex
unlock_all fuel zero t k = none
unlock_all fuel (suc rounds) t k =
    let ms = k.mutex_queue t in
    let k' = record k { mutex_queue = update k.mutex_queue t (behind_head ms) } in
    let rest : Option Locks =
      head? ms >>= λ m. do_unlock_mutex fuel m k' >>= λ r. unlock_all fuel rounds t r.1 in
    if is_empty ms then some k else rest

-- tn_task_exit, the whole
unfoldable pub exit_task : ℕ → ℕ → Bool → Locks → Option Locks
unfolding unlock_all tn_task_exit
exit_task fuel rounds delete k =
    let t = k.system.curr_run_task in
    if in_interrupt k.system
    then (unlock_all fuel rounds t k >>= λ k'.
        some (record k' { system = tn_task_exit delete k'.system }))
    else some k

-- tn_task_terminate of a task, the whole. do_unlock_mutex works for the running task, whose priority
-- it sets, though the mutexes are those of task `t`.
unfoldable pub terminate_held : ℕ → ℕ → ℕ → Locks → Option (Code × Locks)
unfolding task_to_non_runnable leave_queues unlock_all end_task switch_if_other
terminate_held fuel rounds t k =
    let c = k.system.tcb t in
    let s =
      if is_runnable c.task_state
      then task_to_non_runnable t k.system
      else if has_wait c.task_state
      then leave_queues t k.system
      else k.system in
    let ended : Option (Code × Locks) = unlock_all fuel rounds t (record k { system = s }) >>= λ k'.
    let c' = k'.system.tcb t in
    let s' = end_task t k'.system in
    some
      (no_err, record k' { system = if ltb 0 c'.activate_count then switch_if_other s' else s' }) in
    if is_dormant c.task_state || k.system.curr_run_task == t then some (wcontext, k) else ended

unfoldable pub terminate : ℕ → ℕ → Option ℕ → Locks → Option (Code × Locks)
unfolding terminate_held
terminate fuel rounds none k = some (wrong_param, k)
terminate fuel rounds (some t) k =
    if (k.system.tcb t).id_task == tn_id_task
    then if in_task k.system then terminate_held fuel rounds t k else some (wcontext, k)
    else some (noexs, k)
