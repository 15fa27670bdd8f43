-- ===== src/Kernel/Mutex.antt =====
-- The state of the mutexes, TNKernel/tn.h, the tests and choices of TNKernel/tn_mutex.c, and the two
-- functions of TNKernel/tn_tasks.c that pass priorities on: set_current_priority, and the whole of
-- task_wait_complete, of which Task has the part outside USE_MUTEXES. A mutex is named by a number,
-- that of its wait queue, which is the first member of a TN_MUTEX. A result of `none` is a null
-- pointer, or memory that is no object, followed, or rounds beyond the fuel.
pub mod Unlock
pub mod Services
pub mod Endings
pub mod Blockers
pub mod Owned
pub mod Passed
pub mod Locked
pub mod Handed
use usb_bulk.Prelude.{
  ℕ, zero, suc, Bool, true, false, not, ◌&&◌, ◌||◌, Option, none, some, List, [], ◌∷◌, ◌++◌, ◌==◌,
  ltb, if◌then◌else◌, update, remove,
}
use usb_bulk.Prelude.Options.{◌>>=◌}
use usb_bulk.Kernel.Scheduler.{WaitReason}
use usb_bulk.Kernel.Ready.{is_next}
use usb_bulk.Kernel.Task.{System, is_runnable, has_wait, priority_of, set_tcb, task_wait_complete}
use usb_bulk.Kernel.Task.Endings.{change_running_task_priority}

abbrev pub tn_id_mutex : ℕ
tn_id_mutex = 0x17129E45

-- TN_MUTEX_ATTR_CEILING and TN_MUTEX_ATTR_INHERIT
abbrev pub attr_ceiling : ℕ
attr_ceiling = 1

abbrev pub attr_inherit : ℕ
attr_inherit = 2

-- TN_MUTEX, but for its queues
pub record Mutex : Type 0 where
  pub attr : ℕ
  pub holder : Option ℕ
  pub ceil_priority : ℕ
  pub cnt : ℕ
  pub id_mutex : ℕ

-- The system with its mutexes: `mutex_queue t` has the mutexes in the mutex_queue of task `t`, and
-- `list_as_task` stands for tn_blocked_tasks_list taken for the block_queue of a task: its TCB is what
-- lies around the list in memory.
pub record Locks : Type 0 where
  pub system : System
  pub mutex : ℕ → Mutex
  pub mutex_queue : ℕ → List ℕ
  pub locked_mutexes_list : List ℕ
  pub list_as_task : ℕ

abbrev pub holder_of : Locks → ℕ → Option ℕ
holder_of k m = (k.mutex m).holder

abbrev pub is_ceiling : Mutex → Bool
is_ceiling x = x.attr == attr_ceiling

-- `attr == TN_MUTEX_ATTR_INHERIT || attr == TN_MUTEX_ATTR_CEILING`
abbrev pub has_protocol : Mutex → Bool
has_protocol x = x.attr == attr_inherit || x.attr == attr_ceiling

-- The three reasons of the mutexes.
abbrev pub is_mutex_wait : WaitReason → Bool
is_mutex_wait WaitReason.mutex_c = true
is_mutex_wait WaitReason.mutex_c_blk = true
is_mutex_wait WaitReason.mutex_i = true
is_mutex_wait other = false

abbrev pub is_blocked : WaitReason → Bool
is_blocked WaitReason.mutex_c_blk = true
is_blocked other = false

-- The loop of find_max_blocked_priority: the least number is the highest priority.
unfoldable pub highest : (ℕ → ℕ) → List ℕ → ℕ → ℕ
highest prio [] p = p
highest prio (t ∷ ts) p = highest prio ts (if ltb (prio t) p then prio t else p)

unfoldable pub find_max_blocked_priority : Locks → ℕ → ℕ → ℕ
unfolding highest
find_max_blocked_priority k m ref_priority =
    if has_protocol (k.mutex m)
    then highest (priority_of k.system) (k.system.wait_list m) ref_priority
    else ref_priority

-- Whether a locked mutex keeps task `t`, of priority `p`, from locking another one.
abbrev pub is_in_way : ℕ → ℕ → Mutex → Bool
is_in_way t p x = is_ceiling x && not (is_next x.holder t) && ltb x.ceil_priority p

-- The loop of enable_lock_mutex, with its `result`, `priority` and `res_t`.
unfoldable pub blocker_in : (ℕ → Mutex) → ℕ → ℕ → List ℕ → Bool → ℕ → Option ℕ → Bool × Option ℕ
blocker_in mutex t p [] result priority res = (result, res)
blocker_in mutex t p (m ∷ ms) result priority res =
    let x = mutex m in
    let way = is_in_way t p x in
    let above = way && ltb priority x.ceil_priority in
    blocker_in mutex t p ms (if way then false else result)
      (if above then x.ceil_priority else priority) (if above then x.holder else res)

-- The result, and what is stored at `blk_task`.
unfoldable pub enable_lock_mutex : ℕ → Locks → Bool × Option ℕ
unfolding blocker_in
enable_lock_mutex t k =
    blocker_in k.mutex t (priority_of k.system t) k.locked_mutexes_list true 0 none

-- The task that blocks one that waits for mutex `m`.
abbrev pub blocker_of : Locks → ℕ → ℕ → Option ℕ
blocker_of k t m =
    if is_blocked (k.system.tcb t).task_wait_reason
    then (k.system.tcb t).blk_task
    else holder_of k m

-- The loop of set_current_priority, at `curr`, for the task that it was called with. A round ends at
-- a task that waits for no mutex, and sets the priority of the task of the call there.
unfoldable pub pass_on : ℕ → ℕ → ℕ → ℕ → Locks → Option (Bool × Locks)
unfolding change_running_task_priority find_max_blocked_priority
pass_on zero task curr new k = none
pass_on (suc fuel) task curr new k =
    let c = k.system.tcb curr in
    let rest : Option (Bool × Locks) = c.pwait_queue >>= λ m. blocker_of k curr m >>= λ next.
    pass_on fuel task next
      (if ltb c.priority new
        then find_max_blocked_priority k m (k.system.tcb next).base_priority
        else new)
      k in
    let (switch, s) = change_running_task_priority curr new k.system in
    let set = set_tcb k.system task (record (k.system.tcb task) { priority = new }) in
    if c.priority == new
    then some (false, k)
    else if is_runnable c.task_state
    then some (switch, record k { system = s })
    else if has_wait c.task_state && is_mutex_wait c.task_wait_reason
    then rest
    else some (false, record k { system = set })

unfoldable pub set_current_priority : ℕ → ℕ → ℕ → Locks → Option (Bool × Locks)
unfolding pass_on
set_current_priority fuel task new k = pass_on fuel task task new k

-- The end of task_wait_complete, under USE_MUTEXES, after the wait of task `t` for mutex `m`, with its
-- holder: the reason of the wait is 0 by then, so that the code takes the holder whatever the task
-- waited for.
unfoldable pub hand_back : ℕ → ℕ → ℕ → Option ℕ → Bool → Locks → Option (Bool × Locks)
unfolding set_current_priority find_max_blocked_priority
hand_back fuel t m none rc k = some (rc, k)
hand_back fuel t m (some h) rc k =
    let c = k.system.tcb h in
    let back =
      set_current_priority fuel h (find_max_blocked_priority k m c.base_priority) k >>= λ r.
      some (r.0 || rc, r.1) in
    if not (c.priority == c.base_priority) && c.priority == priority_of k.system t
    then back
    else some (rc, k)

-- task_wait_complete, the whole
unfoldable pub wait_complete : ℕ → ℕ → Locks → Option (Bool × Locks)
unfolding task_wait_complete hand_back
wait_complete fuel t k =
    let c = k.system.tcb t in
    let (rc, s) = task_wait_complete t k.system in
    let k' = record k { system = s } in
    if is_mutex_wait c.task_wait_reason
    then (c.pwait_queue >>= λ m. hand_back fuel t m (holder_of k' m) rc k')
    else some (rc, k')
