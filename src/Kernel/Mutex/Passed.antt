-- ===== src/Kernel/Mutex/Passed.antt =====
-- Priorities that are passed on along the mutexes: set_current_priority ends, where no task waits in
-- a circle, and changes nothing but priorities and the ready lists.
use usb_bulk.Prelude.{
  ℕ, zero, suc, ◌<◌, ◌≡◌, refl, ap, inl, inr, Bool, true, false, ◌&&◌, some, arith, ◌==◌, ltb,
  ==_iff, if◌then◌else◌, Bool-cases, update,
}
use usb_bulk.Kernel.Ready.{Ready}
use usb_bulk.Kernel.Task.{Tcb, is_runnable, has_wait, priority_of, set_tcb}
use usb_bulk.Kernel.Task.Endings.{change_running_task_priority}
use usb_bulk.Kernel.Mutex.{
  Locks, is_mutex_wait, blocker_of, find_max_blocked_priority, pass_on, set_current_priority,
}

-- The task waits for a mutex.
abbrev pub waits_mutex : Tcb → Bool
waits_mutex c = has_wait c.task_state && is_mutex_wait c.task_wait_reason

-- Each task that waits for a mutex has a queue and a task that blocks it, of a lower rank than its
-- own: no circle of tasks waits for each other.
abbrev pub IsRanked : (ℕ → ℕ) → Locks → Type 0
IsRanked rank k =
    (t : ℕ)
    → waits_mutex (k.system.tcb t) ≡ true
    → (m : ℕ) × (u : ℕ) × ((k.system.tcb t).pwait_queue ≡ some m)
      × (blocker_of k t m ≡ some u)
      × (rank u < rank t)

-- The same system, but for the priorities and the ready lists.
abbrev pub repriced : Locks → (ℕ → ℕ) → Ready → Locks
repriced k prio ready = record k {
  system = record k.system {
    tcb = λ t. record (k.system.tcb t) { priority = prio t };
    ready = ready;
  };
}

abbrev pub IsRepriced : Locks → Locks → Type 0
IsRepriced k k' = (prio : ℕ → ℕ) × (ready : Ready) × (k' ≡ repriced k prio ready)

repriced-tcb :
    (tcb : ℕ → Tcb) (t new u : ℕ)
    → update tcb t (record (tcb t) { priority = new }) u
      ≡ record (tcb u) { priority = update (λ t. (tcb t).priority) t new u }
repriced-tcb tcb t new u = elim (Bool-cases (t == u)) [
  | inl same ↦
      let e = ap (λ t. record (tcb t) { priority = new }) ((==_iff t u).0 same) in rw (same) e
  | inr other ↦ rw (other) refl
]

set_one-IsRepriced :
    (t new : ℕ) (ready : Ready) (k : Locks)
    → IsRepriced k (record k {
      system = record (set_tcb k.system t (record (k.system.tcb t) { priority = new })) {
        ready = ready;
      };
    })
set_one-IsRepriced t new ready k = (
  update (priority_of k.system) t new,
  ready,
  λ i. record k {
    system = record k.system { tcb = λ u. repriced-tcb k.system.tcb t new u i; ready = ready };
  },
)

pass_on-IsRepriced :
    (rank : ℕ → ℕ) (fuel task curr new : ℕ) (k : Locks)
    → IsRanked rank k
    → rank curr < fuel
    → (r : Bool × Locks) × (pass_on fuel task curr new k ≡ some r) × IsRepriced k r.1
unfolding pass_on change_running_task_priority
pass_on-IsRepriced rank zero task curr new k ranked enough = absurd (omega (arith, enough))
pass_on-IsRepriced rank (suc fuel) task curr new k ranked enough =
    let c = k.system.tcb curr in
    let kept : IsRepriced k k = (priority_of k.system, k.system.ready, refl) in
    let r = change_running_task_priority curr new k.system in
    elim (Bool-cases (c.priority == new)) [
      | inl same ↦ ((false, k), rw (same) refl, kept)
      | inr differs ↦ elim (Bool-cases (is_runnable c.task_state)) [
        | inl runs ↦ (
          (r.0, record k { system = r.1 }),
          simp (differs, runs) refl,
          set_one-IsRepriced curr new r.1.ready k,
        )
        | inr stays ↦ elim (Bool-cases (waits_mutex c)) [
          | inl waits ↦
              let (m, u, at, by, lower) = ranked curr waits in
              let p =
                if ltb c.priority new
                then find_max_blocked_priority k m (k.system.tcb u).base_priority
                else new in
              let (r, e, done) =
                pass_on-IsRepriced rank fuel task u p k ranked (omega (arith, lower, enough)) in
              (r, simp (differs, stays, waits, at, by) e, done)
          | inr free ↦ (
            (false, _),
            simp (differs, stays, free) refl,
            set_one-IsRepriced task new k.system.ready k,
          )
        ]
      ]
    ]

-- set_current_priority ends, where each task that waits for a mutex is blocked by a task of a lower
-- rank and the fuel is above the rank of the task: it changes nothing but priorities, the ready
-- lists with their map, and the next task to run.
pub set_current_priority-IsRepriced :
    (rank : ℕ → ℕ) (fuel task new : ℕ) (k : Locks)
    → IsRanked rank k
    → rank task < fuel
    → (r : Bool × Locks) × (set_current_priority fuel task new k ≡ some r) × IsRepriced k r.1
unfolding set_current_priority
set_current_priority-IsRepriced rank fuel task new k ranked enough =
    pass_on-IsRepriced rank fuel task task new k ranked enough
