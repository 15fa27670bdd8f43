-- ===== src/Kernel/Mutex/Services.antt =====
-- The services of TNKernel/tn_mutex.c, but for tn_mutex_delete, which is in Delete. A null pointer is `none`, as an
-- argument; the fuel is that of set_current_priority.
use usb_bulk.Prelude.{
  ℕ, ◌-◌, Bool, not, ◌&&◌, ◌||◌, Option, none, some, [], ◌∷◌, ◌++◌, ◌==◌, ltb, if◌then◌else◌,
  update,
}
use usb_bulk.Prelude.Options.{◌>>=◌}
use usb_bulk.Kernel.Code.{Code, no_err, wrong_param, wcontext, noexs, iluse}
use usb_bulk.Kernel.Scheduler.{WaitReason}
use usb_bulk.Kernel.Ready.{is_next, num_priority}
use usb_bulk.Kernel.Queue.{Reply, returned, waits}
use usb_bulk.Kernel.Task.{in_task, priority_of, set_tcb, switch_context, task_curr_to_wait_action}
use usb_bulk.Kernel.Mutex.{
  Mutex, Locks, tn_id_mutex, attr_ceiling, attr_inherit, holder_of, is_ceiling, enable_lock_mutex,
  set_current_priority,
}
use usb_bulk.Kernel.Mutex.Unlock.{hold_mutex, lock_ceiling, do_unlock_mutex}

-- `attribute` and `ceil_priority` are the 32-bit patterns of the arguments.
unfoldable pub tn_mutex_create : Option ℕ → ℕ → ℕ → Locks → Code × Locks
tn_mutex_create none attribute ceil_priority k = (wrong_param, k)
tn_mutex_create (some m) attribute ceil_priority k =
    let x : Mutex = record {
      attr = attribute;
      holder = none;
      ceil_priority = ceil_priority;
      cnt = 0;
      id_mutex = tn_id_mutex;
    } in
    if not ((k.mutex m).id_mutex == 0)
      || not (attribute == attr_ceiling || attribute == attr_inherit)
      || (attribute == attr_ceiling && (ceil_priority == 0 || ltb (num_priority - 2) ceil_priority))
    then (wrong_param, k)
    else (
      no_err,
      record k {
        system = record k.system { wait_list = update k.system.wait_list m [] };
        mutex = update k.mutex m x;
      },
    )

-- The wait of the running task for mutex `m`.
unfoldable pub wait_mutex : ℕ → WaitReason → ℕ → Locks → Reply Unit × Locks
unfolding task_curr_to_wait_action switch_context
wait_mutex m reason timeout k =
    let s = task_curr_to_wait_action (some m) reason timeout k.system in
    (waits, record k { system = switch_context s })

-- Task `t` inherits the priority of the running task, where this one's is higher.
unfoldable pub inherit : ℕ → ℕ → Locks → Option Locks
unfolding set_current_priority
inherit fuel t k =
    let pr = priority_of k.system k.system.curr_run_task in
    if ltb pr (priority_of k.system t)
    then (set_current_priority fuel t pr k >>= λ r. some r.1)
    else some k

-- The running task in the list of the blocked tasks, with the task that blocks it.
unfoldable pub join_blocked : Option ℕ → Locks → Locks
join_blocked blk k =
    let s = k.system in
    let me = s.curr_run_task in
    record k {
      system = record (set_tcb s me (record (s.tcb me) { blk_task = blk })) {
        blocked_tasks_list = s.blocked_tasks_list ++ (me ∷ []);
      };
    }

-- The lock of a free mutex with a ceiling fails: the running task waits, for the task that blocks it.
unfoldable pub block : ℕ → ℕ → Option ℕ → ℕ → Locks → Option (Reply Unit × Locks)
unfolding inherit join_blocked wait_mutex
block fuel m blk timeout k =
    let raised : Option Locks = elim blk [ none ↦ some k | some b ↦ inherit fuel b k ] in
    raised >>= λ k'. some (wait_mutex m WaitReason.mutex_c_blk timeout (join_blocked blk k'))

-- "Recursive locking not enabled", and "base pri of task higher"
unfoldable pub is_illegal : ℕ → Locks → Bool
is_illegal m k =
    let me = k.system.curr_run_task in
    is_next (holder_of k m) me
    || (is_ceiling (k.mutex m) && ltb (k.system.tcb me).base_priority (k.mutex m).ceil_priority)

-- The lock, for a mutex that is held by `h` and one that is free.
unfoldable pub lock : ℕ → ℕ → Option ℕ → ℕ → Locks → Option (Reply Unit × Locks)
unfolding enable_lock_mutex hold_mutex lock_ceiling block inherit wait_mutex
lock fuel m none timeout k =
    let me = k.system.curr_run_task in
    let (enabled, blk) = enable_lock_mutex me k in
    if is_ceiling (k.mutex m)
    then if enabled
      then some (returned no_err tt, lock_ceiling me m k)
      else block fuel m blk timeout k
    else if (k.mutex m).attr == attr_inherit
    then some (returned no_err tt, hold_mutex me m k)
    else some (returned no_err tt, k)
lock fuel m (some h) timeout k =
    if is_ceiling (k.mutex m)
    then (inherit fuel h k >>= λ k'. some (wait_mutex m WaitReason.mutex_c timeout k'))
    else if (k.mutex m).attr == attr_inherit
    then (inherit fuel h k >>= λ k'. some (wait_mutex m WaitReason.mutex_i timeout k'))
    else some (returned no_err tt, k)

unfoldable pub tn_mutex_lock : ℕ → Option ℕ → ℕ → Locks → Option (Reply Unit × Locks)
unfolding is_illegal lock
tn_mutex_lock fuel none timeout k = some (returned wrong_param tt, k)
tn_mutex_lock fuel (some m) timeout k =
    if timeout == 0
    then some (returned wrong_param tt, k)
    else if (k.mutex m).id_mutex == tn_id_mutex
    then if in_task k.system
      then if is_illegal m k
        then some (returned iluse tt, k)
        else lock fuel m (holder_of k m) timeout k
      else some (returned wcontext tt, k)
    else some (returned noexs tt, k)

-- The lock that does not wait.
unfoldable pub lock_now : ℕ → Option ℕ → Locks → Code × Locks
unfolding enable_lock_mutex hold_mutex lock_ceiling
lock_now m none k =
    let me = k.system.curr_run_task in
    if is_ceiling (k.mutex m)
    then if (enable_lock_mutex me k).0 then (no_err, lock_ceiling me m k) else (Code.timeout, k)
    else if (k.mutex m).attr == attr_inherit
    then (no_err, hold_mutex me m k)
    else (no_err, k)
lock_now m (some h) k = (Code.timeout, k)

unfoldable pub tn_mutex_lock_polling : Option ℕ → Locks → Code × Locks
unfolding is_illegal lock_now
tn_mutex_lock_polling none k = (wrong_param, k)
tn_mutex_lock_polling (some m) k =
    if (k.mutex m).id_mutex == tn_id_mutex
    then if in_task k.system
      then if is_illegal m k then (iluse, k) else lock_now m (holder_of k m) k
      else (wcontext, k)
    else (noexs, k)

unfoldable pub tn_mutex_unlock : ℕ → Option ℕ → Locks → Option (Code × Locks)
unfolding do_unlock_mutex switch_context
tn_mutex_unlock fuel none k = some (wrong_param, k)
tn_mutex_unlock fuel (some m) k =
    if (k.mutex m).id_mutex == tn_id_mutex
    then if in_task k.system
      then if is_next (holder_of k m) k.system.curr_run_task
        then (do_unlock_mutex fuel m k >>= λ r.
            let s = r.1.system in
            some (no_err, if r.0 then record r.1 { system = switch_context s } else r.1))
        else some (iluse, k)
      else some (wcontext, k)
    else some (noexs, k)
