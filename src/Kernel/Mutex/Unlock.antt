-- ===== src/Kernel/Mutex/Unlock.antt =====
-- The locking and the unlocking of a mutex inside TNKernel/tn_mutex.c: what do_unlock_mutex and
-- try_lock_mutex do.
use usb_bulk.Prelude.{
  ℕ, ◌-◌, Bool, true, false, not, ◌&&◌, ◌||◌, Option, none, some, List, [], ◌∷◌, ◌++◌, ◌==◌, ltb,
  if◌then◌else◌, is_empty, update, remove, count,
}
use usb_bulk.Prelude.Options.{◌>>=◌}
use usb_bulk.Kernel.Scheduler.{WaitReason}
use usb_bulk.Kernel.Ready.{is_next, num_priority}
use usb_bulk.Kernel.Task.{priority_of, set_tcb}
use usb_bulk.Kernel.Mutex.{
  Mutex, Locks, holder_of, is_ceiling, has_protocol, attr_inherit, find_max_blocked_priority,
  enable_lock_mutex, set_current_priority, wait_complete,
}

abbrev pub is_none : Option ℕ → Bool
is_none none = true
is_none (some h) = false

-- `mutex->holder = task`, and the mutex at the end of the task's mutex_queue.
unfoldable pub hold_mutex : ℕ → ℕ → Locks → Locks
hold_mutex t m k = record k {
  mutex = update k.mutex m (record (k.mutex m) { holder = some t });
  mutex_queue = update k.mutex_queue t (k.mutex_queue t ++ (m ∷ []));
}

-- The same of a mutex with a ceiling.
unfoldable pub lock_ceiling : ℕ → ℕ → Locks → Locks
unfolding hold_mutex
lock_ceiling t m k =
    let k' = hold_mutex t m k in
    record k' {
      system = set_tcb k.system t (record (k.system.tcb t) { blk_task = none });
      locked_mutexes_list = k.locked_mutexes_list ++ (m ∷ []);
    }

-- A task out of the queue of a mutex, and out of the list of blocked tasks.
unfoldable pub leave_wait : ℕ → ℕ → Locks → Locks
leave_wait t m k = record k {
  system = record k.system {
    wait_list = update k.system.wait_list m (remove t (k.system.wait_list m));
    blocked_tasks_list = remove t k.system.blocked_tasks_list;
  };
}

unfoldable pub try_lock_mutex : ℕ → ℕ → Locks → Option (Bool × Locks)
unfolding enable_lock_mutex leave_wait wait_complete lock_ceiling
try_lock_mutex fuel t k = (k.system.tcb t).pwait_queue >>= λ m. elim (holder_of k m) [
  | some h ↦ some (false, k)
  | none ↦
      if (enable_lock_mutex t k).0
      then (wait_complete fuel t (leave_wait t m k) >>= λ r. some (r.0, lock_ceiling t m r.1))
      else some (false, k)
]

-- The mutex out of the mutex_queue of its holder.
unfoldable pub left_queues : ℕ → Option ℕ → (ℕ → List ℕ) → ℕ → List ℕ
left_queues m none queues = queues
left_queues m (some h) queues = update queues h (remove m (queues h))

-- The mutex out of the mutex_queue of its holder and out of the list of locked mutexes. Where its
-- entry is in no list any more, nothing changes.
unfoldable pub leave_lists : ℕ → Locks → Locks
unfolding left_queues
leave_lists m k = record k {
  mutex_queue = left_queues m (holder_of k m) k.mutex_queue;
  locked_mutexes_list = remove m k.locked_mutexes_list;
}

-- The highest priority of the running task and those that wait for the mutexes that it holds.
unfoldable pub highest_waiting : Locks → List ℕ → ℕ → ℕ
highest_waiting k [] pr = pr
highest_waiting k (m ∷ ms) pr = highest_waiting k ms (find_max_blocked_priority k m pr)

-- The new priority of the running task.
unfoldable pub lower_priority : ℕ → ℕ → Locks → Option (Bool × Locks)
unfolding set_current_priority highest_waiting
lower_priority fuel m k =
    let me = k.system.curr_run_task in
    let c = k.system.tcb me in
    let pr = highest_waiting k (k.mutex_queue me) c.base_priority in
    if is_empty (k.mutex_queue me)
    then set_current_priority fuel me c.base_priority k
    else if has_protocol (k.mutex m) && not (pr == c.priority)
    then set_current_priority fuel me pr k
    else some (false, k)

-- The first of the waiting tasks with the highest priority above that of the idle task.
unfoldable pub hi_pri_task : (ℕ → ℕ) → List ℕ → ℕ → Option ℕ → Option ℕ
hi_pri_task prio [] priority hi = hi
hi_pri_task prio (t ∷ ts) priority hi =
    hi_pri_task prio ts (if ltb (prio t) priority then prio t else priority)
      (if ltb (prio t) priority then some t else hi)

-- A mutex with a ceiling goes to the task `t`, or the task stays blocked.
unfoldable pub give_ceiling : ℕ → ℕ → ℕ → Bool → Locks → Option (Bool × Locks)
unfolding enable_lock_mutex leave_wait wait_complete lock_ceiling
give_ceiling fuel t m need k =
    let (enabled, blk) = enable_lock_mutex t k in
    let s = k.system in
    let blocked = record (s.tcb t) { task_wait_reason = WaitReason.mutex_c_blk; blk_task = blk } in
    let added = record (set_tcb s t blocked) {
      blocked_tasks_list = s.blocked_tasks_list ++ (t ∷ []);
    } in
    if enabled
    then (wait_complete fuel t (leave_wait t m k) >>= λ r. some (r.0 || need, lock_ceiling t m r.1))
    else some (need, if count t s.blocked_tasks_list == 0 then record k { system = added } else k)

-- An inherited mutex goes to the first task that waits.
unfoldable pub give_inherit : ℕ → ℕ → ℕ → List ℕ → Bool → Locks → Option (Bool × Locks)
unfolding wait_complete hold_mutex
give_inherit fuel m t ts need k =
    let s = record k.system { wait_list = update k.system.wait_list m ts } in
    wait_complete fuel t (record k { system = s }) >>= λ r. some (r.0 || need, hold_mutex t m r.1)

-- "try to lock another mutexes for tasks,that are now in block_queue", but for `hi`
unfoldable pub lock_blocked : ℕ → Option ℕ → List ℕ → Bool → Locks → Option (Bool × Locks)
unfolding try_lock_mutex
lock_blocked fuel hi [] need k = some (need, k)
lock_blocked fuel hi (t ∷ ts) need k =
    (if is_next hi t then some (false, k) else try_lock_mutex fuel t k) >>= λ r.
    lock_blocked fuel hi ts (r.0 || need) r.1

-- The loop over the blocked tasks, where the mutex has a ceiling and is held by nobody now. It ends at
-- the last one, but takes one before it looks for the end: of an empty list it takes the list itself
-- for a task.
unfoldable pub lock_others : ℕ → Mutex → Option ℕ → Bool → Locks → Option (Bool × Locks)
unfolding lock_blocked
lock_others fuel x hi need k =
    let ts = k.system.blocked_tasks_list in
    if is_ceiling x && is_none x.holder
    then lock_blocked fuel hi (if is_empty ts then k.list_as_task ∷ [] else ts) need k
    else some (need, k)

-- The task that the mutex is for, of those that wait, or the running one.
unfoldable pub next_holder : ℕ → Locks → List ℕ → Option ℕ
unfolding hi_pri_task
next_holder m k [] = some k.system.curr_run_task
next_holder m k (t ∷ ts) = hi_pri_task (priority_of k.system) (t ∷ ts) (num_priority - 1) none

-- The mutex goes to a task of those that wait, or to none.
unfoldable pub give_away : ℕ → ℕ → List ℕ → Bool → Locks → Option (Bool × Locks)
unfolding give_ceiling give_inherit next_holder
give_away fuel m [] need k =
    some (need, record k { mutex = update k.mutex m (record (k.mutex m) { holder = none }) })
give_away fuel m (t ∷ ts) need k =
    if is_ceiling (k.mutex m)
    then (next_holder m k (t ∷ ts) >>= λ hi. give_ceiling fuel hi m need k)
    else if (k.mutex m).attr == attr_inherit
    then give_inherit fuel m t ts need k
    else some (need, k)

unfoldable pub do_unlock_mutex : ℕ → ℕ → Locks → Option (Bool × Locks)
unfolding leave_lists lower_priority next_holder give_away lock_others
do_unlock_mutex fuel m k = lower_priority fuel m (leave_lists m k) >>= λ r.
    give_away fuel m (r.1.system.wait_list m) r.0 r.1 >>= λ r'.
    lock_others fuel (r'.1.mutex m) (next_holder m r.1 (r.1.system.wait_list m)) r'.0 r'.1
