-- ===== src/Kernel/Task/Interface.antt =====
-- The tasks as the scheduler that the data queues take, in an interrupt: what Queue proves over any
-- scheduler holds of the system.
use usb_bulk.Prelude.{
  update_self, ℕ, ◌≡◌, refl, ap, ◌∙◌, inl, inr, true, not, none, some, List, ◌∷◌, Bool-cases,
}
use usb_bulk.Kernel.Code.{no_err}
use usb_bulk.Kernel.Scheduler.{Scheduler}
use usb_bulk.Kernel.Task.{
  System, in_task, in_interrupt, set_tcb, is_runnable, has_suspend, task_wait_complete,
  task_curr_to_wait_action,
}
use usb_bulk.Kernel.Task.Services.{request_switch}
use usb_bulk.Kernel.Task.Released.{
  task_wait_complete-data_elem, task_wait_complete-rc, task_wait_complete-runnable,
}
use usb_bulk.Kernel.Fifo.{Dque}
use usb_bulk.Kernel.Fifo.Contents.{contents}
use usb_bulk.Kernel.Queue.{complete, send_now, tn_queue_isend_polling}
use usb_bulk.Kernel.Queue.Order.{Keeps}
use usb_bulk.Kernel.Queue.Handed.{Stores}

abbrev pub set_data_elem : ℕ → ℕ → System → System
set_data_elem t x s = set_tcb s t (record (s.tcb t) { data_elem = x })

-- The queue itself holds the list of the tasks that wait there.
unfoldable pub system_scheduler : Scheduler System
unfolding in_interrupt in_task task_wait_complete task_curr_to_wait_action
system_scheduler = record {
  in_interrupt = in_interrupt;
  in_task = in_task;
  curr_run_task = λ s. s.curr_run_task;
  data_elem = λ t s. (s.tcb t).data_elem;
  set_data_elem = set_data_elem;
  task_wait_rc = λ t s. (s.tcb t).task_wait_rc;
  set_task_wait_rc = λ t rc s. set_tcb s t (record (s.tcb t) { task_wait_rc = rc });
  task_wait_complete = task_wait_complete;
  curr_to_wait = λ reason timeout s. task_curr_to_wait_action none reason timeout s;
  request_switch = request_switch;
}

pub system-Stores : Stores system_scheduler
unfolding system_scheduler
system-Stores t x s =
    ap (λ c. c.data_elem) (update_self s.tcb t (record (s.tcb t) { data_elem = x }))

complete-tcb :
    (t : ℕ) (s : System) → (complete system_scheduler t s).tcb ≡ (task_wait_complete t s).1.tcb
unfolding system_scheduler complete
complete-tcb t s = elim (Bool-cases (task_wait_complete t s).0) [
  | inl now ↦ simp (now) refl
  | inr later ↦ simp (later) refl
]

-- The end of a wait changes no task's element, whatever switch it asks for.
pub system-Keeps : Keeps system_scheduler
unfolding system_scheduler
system-Keeps t u s =
    ap (λ tcb. (tcb u).data_elem) (complete-tcb t s) ∙ task_wait_complete-data_elem t s u

-- An element is sent from an interrupt while a task waits to receive, on the system's tasks: the send
-- succeeds however full the storage is, and the contents stay as they are; the element is the task's,
-- the code of its wait is TERR_NO_ERR, and it is runnable unless it is suspended.
pub tn_queue_isend_polling-runnable :
    (q : Dque) (x t : ℕ) (ts : List ℕ) (s : System)
    → q.is_created ≡ true
    → q.wait_receive_list ≡ t ∷ ts
    → in_interrupt s ≡ true
    → (r : Dque) × (s' : System) × (tn_queue_isend_polling system_scheduler (some q) x s
        ≡ (no_err, some r, s'))
      × (contents r ≡ contents q)
      × (r.wait_receive_list ≡ ts)
      × ((s'.tcb t).data_elem ≡ x)
      × ((s'.tcb t).task_wait_rc ≡ no_err)
      × (is_runnable (s'.tcb t).task_state ≡ not (has_suspend (s.tcb t).task_state))
unfolding tn_queue_isend_polling send_now system_scheduler
tn_queue_isend_polling-runnable q x t ts s made waiting may =
    let s1 : System = set_data_elem t x s in
    let s' : System = complete system_scheduler t s1 in
    let same = complete-tcb t s1 in
    let state : not (has_suspend (s1.tcb t).task_state) ≡ not (has_suspend (s.tcb t).task_state) =
      ap (λ c. not (has_suspend c.task_state))
        (update_self s.tcb t (record (s.tcb t) { data_elem = x })) in
    (
      record q { wait_receive_list = ts },
      s',
      simp (made, may, waiting) refl,
      refl,
      refl,
      system-Keeps t t s1 ∙ system-Stores t x s,
      ap (λ tcb. (tcb t).task_wait_rc) same ∙ task_wait_complete-rc t s1,
      ap (λ tcb. is_runnable (tcb t).task_state) same ∙ task_wait_complete-runnable t s1 ∙ state,
    )
