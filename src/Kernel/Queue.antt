-- ===== src/Kernel/Queue.antt =====
-- The services of a data queue: TNKernel/tn_dqueue.c, but for tn_queue_delete, which is in
-- Delete. A null pointer is `none`. Interrupts are off while a service works, so that each is one step.
pub mod Order
pub mod Handed
use usb_bulk.Prelude.{
  ℕ, Bool, true, false, ◌||◌, Option, none, some, List, [], ◌∷◌, ◌++◌, ◌==◌, if◌then◌else◌, length,
}
use usb_bulk.Kernel.Code.{Code, no_err, wcontext, timeout, wrong_param, noexs}
use usb_bulk.Kernel.Scheduler.{Scheduler, WaitReason, dque_wsend, dque_wreceive}
use usb_bulk.Kernel.Fifo.{Dque, dque_fifo_write, dque_fifo_read}

-- A negative number of entries is `none`; so is a null `data_fifo`.
unfoldable pub tn_queue_create : Option Dque → Option (List ℕ) → Option ℕ → Code × Option Dque
tn_queue_create none data_fifo num = (wrong_param, none)
tn_queue_create (some q) data_fifo none = (wrong_param, some q)
tn_queue_create (some q) data_fifo (some n) = if q.is_created then (wrong_param, some q) else (
  no_err,
  some record {
    wait_send_list = [];
    wait_receive_list = [];
    data_fifo = elim data_fifo [ none ↦ [] | some xs ↦ xs ];
    num_entries = elim data_fifo [ none ↦ 0 | some xs ↦ n ];
    tail_cnt = 0;
    header_cnt = 0;
    is_created = true;
  },
)

-- What a service that can wait comes to: it returns, or the task waits.
pub data Reply (A : Type 0) : Type 0 where
  returned : Code → A → Reply A
  waits : Reply A

-- "Just convert errorcode"
abbrev pub or_timeout : Code → Code
or_timeout no_err = no_err
or_timeout rc = timeout

module _ {S : Type 0} (sched : Scheduler S) where
  -- The end of a task's wait, and the switch that it asks for.
  unfoldable pub complete : ℕ → S → S
  complete task s =
      let (switch, s') = sched.task_wait_complete task s in
      if switch then sched.request_switch s' else s'

  -- The sending of `x`, for the tasks that wait to receive. The code is that of dque_fifo_write
  -- where none does.
  unfoldable pub send_now : List ℕ → Dque → ℕ → S → Code × Dque × S
  send_now [] q x s = let (rc, r) = dque_fifo_write q x in (rc, r, s)
  send_now (task ∷ tasks) q x s =
      (no_err, record q { wait_receive_list = tasks }, complete task (sched.set_data_elem task x s))

  -- A polling send, where `may_call` is the test of the context.
  unfoldable pub send_polling : (S → Bool) → Option Dque → ℕ → S → Code × Option Dque × S
  unfolding send_now
  send_polling may_call none x s = (wrong_param, none, s)
  send_polling may_call (some q) x s =
      if q.is_created
      then if may_call s
        then (let (rc, r, s') = send_now q.wait_receive_list q x s in (or_timeout rc, some r, s'))
        else (wcontext, some q, s)
      else (noexs, some q, s)

  unfoldable pub tn_queue_send_polling : Option Dque → ℕ → S → Code × Option Dque × S
  unfolding send_polling
  tn_queue_send_polling = send_polling sched.in_task

  unfoldable pub tn_queue_isend_polling : Option Dque → ℕ → S → Code × Option Dque × S
  unfolding send_polling
  tn_queue_isend_polling = send_polling sched.in_interrupt

  -- The current task waits to send `x` where dque_fifo_write failed.
  unfoldable pub or_wait_send : ℕ → ℕ → Code × Dque × S → Reply Unit × Dque × S
  or_wait_send x time (no_err, q, s) = (returned no_err tt, q, s)
  or_wait_send x time (rc, q, s) =
      let task = sched.curr_run_task s in
      (
        waits,
        record q { wait_send_list = q.wait_send_list ++ (task ∷ []) },
        sched.request_switch (sched.curr_to_wait dque_wsend time (sched.set_data_elem task x s)),
      )

  unfoldable pub tn_queue_send : Option Dque → ℕ → ℕ → S → Reply Unit × Option Dque × S
  unfolding send_now or_wait_send
  tn_queue_send none x time s = (returned wrong_param tt, none, s)
  tn_queue_send (some q) x time s =
      if time == 0
      then (returned wrong_param tt, some q, s)
      else if q.is_created
      then if sched.in_task s
        then (let (reply, r, s') = or_wait_send x time (send_now q.wait_receive_list q x s) in
            (reply, some r, s'))
        else (returned wcontext tt, some q, s)
      else (returned noexs tt, some q, s)

  -- After a read from the storage: the first task that waits to send has its element stored.
  unfoldable pub refill : List ℕ → Dque → S → Dque × S
  refill [] q s = (q, s)
  refill (task ∷ tasks) q s =
      let (rc, r) =
        dque_fifo_write (record q { wait_send_list = tasks }) (sched.data_elem task s) in
      (r, complete task s)

  -- Where the storage is empty: the element comes from the first task that waits to send.
  unfoldable pub from_sender : List ℕ → Dque → S → Code × Option ℕ × Dque × S
  from_sender [] q s = (timeout, none, q, s)
  from_sender (task ∷ tasks) q s =
      (no_err, some (sched.data_elem task s), record q { wait_send_list = tasks }, complete task s)

  -- The receipt, from what dque_fifo_read gave.
  unfoldable pub received : Code × Option ℕ × Dque → S → Code × Option ℕ × Dque × S
  unfolding refill from_sender
  received (no_err, out, q) s = let (r, s') = refill q.wait_send_list q s in (no_err, out, r, s')
  received (rc, out, q) s = from_sender q.wait_send_list q s

  -- A polling receive. `has_place` is `data_ptr != NULL`; the option is what goes to `*data_ptr`.
  unfoldable pub receive_polling :
      (S → Bool) → Option Dque → Bool → S → Code × Option ℕ × Option Dque × S
  unfolding received
  receive_polling may_call none has_place s = (wrong_param, none, none, s)
  receive_polling may_call (some q) false s = (wrong_param, none, some q, s)
  receive_polling may_call (some q) true s =
      if q.is_created
      then if may_call s
        then (let (rc, out, r, s') = received (dque_fifo_read q) s in (rc, out, some r, s'))
        else (wcontext, none, some q, s)
      else (noexs, none, some q, s)

  unfoldable pub tn_queue_receive_polling :
      Option Dque → Bool → S → Code × Option ℕ × Option Dque × S
  unfolding receive_polling
  tn_queue_receive_polling = receive_polling sched.in_task

  unfoldable pub tn_queue_ireceive : Option Dque → Bool → S → Code × Option ℕ × Option Dque × S
  unfolding receive_polling
  tn_queue_ireceive = receive_polling sched.in_interrupt

  -- The current task waits to receive where nothing is there.
  unfoldable pub or_wait_receive : ℕ → Code × Option ℕ × Dque × S → Reply (Option ℕ) × Dque × S
  or_wait_receive time (no_err, out, q, s) = (returned no_err out, q, s)
  or_wait_receive time (rc, out, q, s) = (
    waits,
    record q { wait_receive_list = q.wait_receive_list ++ (sched.curr_run_task s ∷ []) },
    sched.request_switch (sched.curr_to_wait dque_wreceive time s),
  )

  unfoldable pub tn_queue_receive : Option Dque → Bool → ℕ → S → Reply (Option ℕ) × Option Dque × S
  unfolding received or_wait_receive
  tn_queue_receive none has_place time s = (returned wrong_param none, none, s)
  tn_queue_receive (some q) false time s = (returned wrong_param none, some q, s)
  tn_queue_receive (some q) true time s =
      if time == 0
      then (returned wrong_param none, some q, s)
      else if q.is_created
      then if sched.in_task s
        then (let (reply, r, s') = or_wait_receive time (received (dque_fifo_read q) s) in
            (reply, some r, s'))
        else (returned wcontext none, some q, s)
      else (returned noexs none, some q, s)

  -- What a receive that waited returns, and stores, when its task runs again.
  unfoldable pub receive_resumed : S → Code × Option ℕ
  receive_resumed s =
      let task = sched.curr_run_task s in (sched.task_wait_rc task s, some (sched.data_elem task s))
