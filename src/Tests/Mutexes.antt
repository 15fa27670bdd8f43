-- ===== src/Tests/Mutexes.antt =====
-- Tests of Kernel.Mutex and Kernel.Delete.
use usb_bulk.Prelude.{
  ℕ, ◌<◌, ◌≡◌, refl, ◌⊎◌, inl, inr, Bool, true, false, Option, none, some, [], ◌∷◌, arith, ◌==◌,
  if◌then◌else◌, Bool-cases, update, count, count-is_empty, count-cons, length,
}
use usb_bulk.Kernel.Code.{no_err}
use usb_bulk.Kernel.Scheduler.{WaitReason}
use usb_bulk.Kernel.Queue.{Reply}
use usb_bulk.Kernel.Fifo.{Dque}
use usb_bulk.Kernel.Task.{System, in_task, wait, wait_infinite}
use usb_bulk.Kernel.Task.Interface.{system_scheduler}
use usb_bulk.Kernel.Mutex.{
  Mutex, Locks, attr_ceiling, attr_inherit, tn_id_mutex, is_in_way, enable_lock_mutex,
  set_current_priority,
}
use usb_bulk.Kernel.Mutex.Services.{tn_mutex_lock, tn_mutex_unlock}
use usb_bulk.Kernel.Mutex.Blockers.{IsClear, AllBelow, enable_lock_mutex-IsBlocker}
use usb_bulk.Kernel.Mutex.Owned.{IsOwned}
use usb_bulk.Kernel.Mutex.Passed.{IsRanked, IsRepriced, set_current_priority-IsRepriced}
use usb_bulk.Kernel.Mutex.Locked.{IsLockOutcome, tn_mutex_lock-IsLockOutcome}
use usb_bulk.Kernel.Mutex.Handed.{IsHanded, tn_mutex_unlock-IsHanded}
use usb_bulk.Kernel.Delete.{tn_queue_delete}
use usb_bulk.Kernel.Delete.Objects.{tn_queue_delete-ends}
use usb_bulk.Tests.Scheduling.{task_tcb, two_tasks}
use usb_bulk.Tests.Storage.{full_queue}

abbrev mutex : ℕ → Option ℕ → Mutex
mutex attr holder = record {
  attr = attr;
  holder = holder;
  ceil_priority = 1;
  cnt = 0;
  id_mutex = tn_id_mutex;
}

-- Task 2 runs and holds mutex 7, for which task 3 waits; mutex 8 is free.
abbrev held : Locks
held = record {
  system =
      record (two_tasks (record (task_tcb wait) {
        pwait_queue = some 7;
        task_wait_reason = WaitReason.mutex_i;
        tick_count = wait_infinite;
      })) { wait_list = update (λ w. []) 7 (3 ∷ []) };
  mutex = update (λ m. mutex attr_inherit none) 7 (mutex attr_inherit (some 2));
  mutex_queue = update (λ t. []) 2 (7 ∷ []);
  locked_mutexes_list = [];
  list_as_task = 0;
}

held-IsOwned : IsOwned held
held-IsOwned t m = ground (arith, count-cons m 7 [], count-is_empty m [] refl)

-- Task 3 waits for task 2.
abbrev rank : ℕ → ℕ
rank t = if 3 == t then 1 else 0

held-IsRanked : IsRanked rank held
held-IsRanked t waits = elim (Bool-cases (3 == t)) [
  | inl here ↦ (7, 2, ground (arith, here), ground (arith, here), ground (arith, here))
  | inr other ↦ absurd (ground (arith, other, waits))
]

rank-bound : (t : ℕ) → rank t < 2
rank-bound t = ground arith

tn_mutex_unlock-IsHanded_example :
    (k' : Locks) × (tn_mutex_unlock 2 (some 7) held ≡ some (no_err, k')) × IsHanded 7 3 [] held k'
unfolding in_task
tn_mutex_unlock-IsHanded_example =
    tn_mutex_unlock-IsHanded rank 2 3 7 [] held refl refl refl refl held-IsOwned held-IsRanked
      rank-bound refl refl

tn_mutex_lock-IsLockOutcome_example :
    (r : Reply Unit × Locks) × (tn_mutex_lock 2 (some 8) 5 held ≡ some r) × IsLockOutcome 8 held r
tn_mutex_lock-IsLockOutcome_example =
    tn_mutex_lock-IsLockOutcome rank 2 8 5 held refl held-IsOwned held-IsRanked rank-bound

set_current_priority-IsRepriced_example :
    (r : Bool × Locks) × (set_current_priority 2 3 1 held ≡ some r) × IsRepriced held r.1
set_current_priority-IsRepriced_example =
    set_current_priority-IsRepriced rank 2 3 1 held held-IsRanked (rank-bound 3)

-- Mutex 9, with a ceiling, is held by task `h`, and no task waits.
abbrev ceiled : ℕ → Locks
ceiled h = record {
  system = two_tasks (task_tcb wait);
  mutex = λ m. mutex attr_ceiling (some h);
  mutex_queue = update (λ t. []) h (9 ∷ []);
  locked_mutexes_list = 9 ∷ [];
  list_as_task = 0;
}

enable_lock_mutex-IsBlocker_example :
    (((enable_lock_mutex 2 (ceiled 3)).0 ≡ true) × IsClear (ceiled 3).mutex 2 5 (9 ∷ []))
    ⊎ (((enable_lock_mutex 2 (ceiled 3)).0 ≡ false)
        × (m : ℕ) × ((count m (9 ∷ []) == 0) ≡ false)
        × (is_in_way 2 5 ((ceiled 3).mutex m) ≡ true)
        × ((enable_lock_mutex 2 (ceiled 3)).1 ≡ ((ceiled 3).mutex m).holder)
        × AllBelow (ceiled 3).mutex 2 5 (9 ∷ []) ((ceiled 3).mutex m).ceil_priority)
enable_lock_mutex-IsBlocker_example =
    enable_lock_mutex-IsBlocker 2 (ceiled 3) (λ m there. omega arith)

-- Task 3 waits to send.
abbrev sending : Dque
sending = full_queue (3 ∷ [])

tn_queue_delete-ends_example :
    (q' : Dque) × (s' : System) × (tn_queue_delete system_scheduler
        (λ x. x)
        2
        (some sending)
        held.system
      ≡ some (no_err, some q', s'))
    × (q'.is_created ≡ false)
    × (length q'.wait_send_list ≡ 0)
    × (length q'.wait_receive_list ≡ 0)
unfolding system_scheduler in_task
tn_queue_delete-ends_example =
    tn_queue_delete-ends system_scheduler (λ x. x) 2 sending held.system refl refl
      (λ x. omega arith) (λ x. omega arith) (omega arith) (omega arith)
