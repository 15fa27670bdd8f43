-- ===== src/Kernel/Delete.antt =====
-- The services of the kernel that delete an object, tn_sem_delete, tn_event_delete, tn_queue_delete,
-- tn_fmem_delete and tn_mutex_delete of TNKernel. They end the waits of all tasks, one after the
-- other, with a switch after each: what runs from a switch until the deleting task runs again is the
-- parameter `others`, of the object and the system. A null pointer is `none`, as an argument; a result
-- of `none` is a walk beyond the fuel.
pub mod Ends
pub mod Objects
use usb_bulk.Prelude.{
  ℕ, zero, suc, Bool, Option, none, some, List, [], ◌∷◌, ◌==◌, if◌then◌else◌, is_empty, head?,
  update, remove, false,
}
use usb_bulk.Prelude.Options.{◌>>=◌}
use usb_bulk.Kernel.Code.{Code, no_err, wrong_param, noexs, wcontext, dlt}
use usb_bulk.Kernel.Scheduler.{Scheduler}
use usb_bulk.Kernel.Task.{System, in_task, set_tcb, task_wait_complete}
use usb_bulk.Kernel.Sem.{Sem, tn_id_semaphore}
use usb_bulk.Kernel.Event.{Event, tn_id_event}
use usb_bulk.Kernel.Fifo.{Dque}
use usb_bulk.Kernel.Pool.{Fmp}
use usb_bulk.Kernel.Mutex.{Locks, tn_id_mutex, holder_of, wait_complete}
use usb_bulk.Kernel.Mutex.Unlock.{leave_lists, is_none}
use usb_bulk.Kernel.Mutex.Endings.{behind_head}

-- The queue that a deletion empties: its tasks, its removal of the first, the end of a task's wait,
-- whether or not it asks for a switch, the assignment of TERR_DLT, and the run of the others.
pub record Waiters {ℓ} (X : Type ℓ) : Type ℓ where
  pub list : X → List ℕ
  pub remove_head : X → X
  pub complete : ℕ → X → Option (Bool × X)
  pub deleted : ℕ → X → X
  pub others : X → X

-- The loop over the tasks that wait.
unfoldable pub drain {ℓ} : {X : Type ℓ} → Waiters X → ℕ → X → Option X
drain w zero x = none
drain {X} w (suc fuel) x =
    let rest : Option X = head? (w.list x) >>= λ t. w.complete t (w.remove_head x) >>= λ r.
    drain w fuel (if r.0 then w.others (w.deleted t r.1) else r.1) in
    if is_empty (w.list x) then some x else rest

-- `task->task_wait_rc = TERR_DLT`
abbrev pub set_dlt : ℕ → System → System
set_dlt t s = set_tcb s t (record (s.tcb t) { task_wait_rc = dlt })

-- The tasks in the queue of the system that the object names.
abbrev pub system_waiters :
    {A : Type 0} → (A → ℕ) → (A × System → A × System) → Waiters (A × System)
system_waiters queue others = record {
  list = λ x. x.1.wait_list (queue x.0);
  remove_head = λ x.
      let w = queue x.0 in
      (x.0, record x.1 { wait_list = update x.1.wait_list w (behind_head (x.1.wait_list w)) });
  complete = λ t x. let r = task_wait_complete t x.1 in some (r.0, (x.0, r.1));
  deleted = λ t x. (x.0, set_dlt t x.1);
  others = others;
}

abbrev pub sem_waiters : (Sem × System → Sem × System) → Waiters (Sem × System)
sem_waiters others = system_waiters (λ q. q.wait_queue) others

unfoldable pub tn_sem_delete :
    (Sem × System → Sem × System) → ℕ → Option Sem → System → Option (Code × Option Sem × System)
unfolding drain task_wait_complete
tn_sem_delete others fuel none s = some (wrong_param, none, s)
tn_sem_delete others fuel (some q) s =
    if q.id_sem == tn_id_semaphore
    then if in_task s
      then (drain (sem_waiters others) fuel (q, s) >>= λ x.
          some (no_err, some (record x.0 { id_sem = 0 }), x.1))
      else some (wcontext, some q, s)
    else some (noexs, some q, s)

abbrev pub event_waiters : (Event × System → Event × System) → Waiters (Event × System)
event_waiters others = system_waiters (λ e. e.wait_queue) others

unfoldable pub tn_event_delete :
    (Event × System → Event × System)
    → ℕ
    → Option Event
    → System
    → Option (Code × Option Event × System)
unfolding drain task_wait_complete
tn_event_delete others fuel none s = some (wrong_param, none, s)
tn_event_delete others fuel (some e) s =
    if e.id_event == tn_id_event
    then if in_task s
      then (drain (event_waiters others) fuel (e, s) >>= λ x.
          some (no_err, some (record x.0 { id_event = 0 }), x.1))
      else some (wcontext, some e, s)
    else some (noexs, some e, s)

module _ {S : Type 0} (sched : Scheduler S) where
  abbrev pub send_waiters : (Dque × S → Dque × S) → Waiters (Dque × S)
  send_waiters others = record {
    list = λ x. x.0.wait_send_list;
    remove_head = λ x. (record x.0 { wait_send_list = behind_head x.0.wait_send_list }, x.1);
    complete = λ t x. let r = sched.task_wait_complete t x.1 in some (r.0, (x.0, r.1));
    deleted = λ t x. (x.0, sched.set_task_wait_rc t dlt x.1);
    others = others;
  }

  abbrev pub receive_waiters : (Dque × S → Dque × S) → Waiters (Dque × S)
  receive_waiters others = record {
    list = λ x. x.0.wait_receive_list;
    remove_head = λ x. (record x.0 { wait_receive_list = behind_head x.0.wait_receive_list }, x.1);
    complete = λ t x. let r = sched.task_wait_complete t x.1 in some (r.0, (x.0, r.1));
    deleted = λ t x. (x.0, sched.set_task_wait_rc t dlt x.1);
    others = others;
  }

  unfoldable pub tn_queue_delete :
      (Dque × S → Dque × S) → ℕ → Option Dque → S → Option (Code × Option Dque × S)
  unfolding drain
  tn_queue_delete others fuel none s = some (wrong_param, none, s)
  tn_queue_delete others fuel (some q) s =
      if q.is_created
      then if sched.in_task s
        then (drain (send_waiters others) fuel (q, s) >>= λ x.
            drain (receive_waiters others) fuel x >>= λ y.
            some (no_err, some (record y.0 { is_created = false }), y.1))
        else some (wcontext, some q, s)
      else some (noexs, some q, s)

  abbrev pub pool_waiters : (Fmp × S → Fmp × S) → Waiters (Fmp × S)
  pool_waiters others = record {
    list = λ x. x.0.wait_queue;
    remove_head = λ x. (record x.0 { wait_queue = behind_head x.0.wait_queue }, x.1);
    complete = λ t x. let r = sched.task_wait_complete t x.1 in some (r.0, (x.0, r.1));
    deleted = λ t x. (x.0, sched.set_task_wait_rc t dlt x.1);
    others = others;
  }

  unfoldable pub tn_fmem_delete :
      (Fmp × S → Fmp × S) → ℕ → Option Fmp → S → Option (Code × Option Fmp × S)
  unfolding drain
  tn_fmem_delete others fuel none s = some (wrong_param, none, s)
  tn_fmem_delete others fuel (some f) s =
      if f.is_created
      then if sched.in_task s
        then (drain (pool_waiters others) fuel (f, s) >>= λ x.
            some (no_err, some (record x.0 { is_created = false }), x.1))
        else some (wcontext, some f, s)
      else some (noexs, some f, s)

-- `chain` is the fuel of set_current_priority.
abbrev pub mutex_waiters : ℕ → ℕ → (Locks → Locks) → Waiters Locks
mutex_waiters chain m others = record {
  list = λ k. k.system.wait_list m;
  remove_head = λ k. record k {
    system = record k.system {
      wait_list = update k.system.wait_list m (behind_head (k.system.wait_list m));
    };
  };
  complete = λ t k. wait_complete chain t (record k {
    system = record k.system { blocked_tasks_list = remove t k.system.blocked_tasks_list };
  });
  deleted = λ t k. record k { system = set_dlt t k.system };
  others = others;
}

unfoldable pub tn_mutex_delete : (Locks → Locks) → ℕ → ℕ → Option ℕ → Locks → Option (Code × Locks)
unfolding drain wait_complete leave_lists
tn_mutex_delete others chain fuel none k = some (wrong_param, k)
tn_mutex_delete others chain fuel (some m) k =
    if (k.mutex m).id_mutex == tn_id_mutex
    then if in_task k.system
      then (drain (mutex_waiters chain m others) fuel k >>= λ k'.
          let k'' = if is_none (holder_of k' m) then k' else leave_lists m k' in
          some (
            no_err,
            record k'' { mutex = update k''.mutex m (record (k''.mutex m) { id_mutex = 0 }) },
          ))
      else some (wcontext, k)
    else some (noexs, k)
