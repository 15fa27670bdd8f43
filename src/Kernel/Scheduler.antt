-- ===== src/Kernel/Scheduler.antt =====
-- What the services need of the tasks and the scheduler, tn_tasks.c, over any state `S` of theirs.
-- A task is named by a number.
use usb_bulk.Prelude.{ℕ, Bool}
use usb_bulk.Kernel.Code.{Code}

-- The wait reasons of tn.h, but for those of the rendezvous and TSK_WAIT_REASON_MUTEX_H, which no
-- code uses. `no_reason` is 0.
pub data WaitReason : Type 0 where
  no_reason : WaitReason
  sleep : WaitReason
  sem : WaitReason
  event : WaitReason
  dque_wsend : WaitReason
  dque_wreceive : WaitReason
  mutex_c : WaitReason
  mutex_c_blk : WaitReason
  mutex_i : WaitReason
  wfixmem : WaitReason

pub record Scheduler (S : Type 0) : Type 0 where
  -- TN_CHECK_INT_CONTEXT and TN_CHECK_NON_INT_CONTEXT let the call pass.
  pub in_interrupt : S → Bool
  pub in_task : S → Bool
  pub curr_run_task : S → ℕ
  -- `task->data_elem` and `task->task_wait_rc`, each with its assignment
  pub data_elem : ℕ → S → ℕ
  pub set_data_elem : ℕ → ℕ → S → S
  pub task_wait_rc : ℕ → S → Code
  pub set_task_wait_rc : ℕ → Code → S → S
  -- the result of task_wait_complete is whether to switch
  pub task_wait_complete : ℕ → S → Bool × S
  -- task_curr_to_wait_action, but for the object's wait list, with the timeout
  pub curr_to_wait : WaitReason → ℕ → S → S
  -- `tn_context_switch_request = TRUE`, and the request for a switch in tn_switch_context
  pub request_switch : S → S
