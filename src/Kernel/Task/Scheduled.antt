-- ===== src/Kernel/Task/Scheduled.antt =====
-- The runnable tasks are those in the ready lists, each once and in the list of its priority, and the
-- next task to run is the first of the highest priority: how a change of one task keeps that.
use usb_bulk.Prelude.{
  ℕ, ◌<◌, ◌≡◌, refl, sym, subst, inl, inr, true, false, ◌&&◌, none, some, arith, ◌==◌,
  if◌then◌else◌, Bool-cases, update, head?, remove, count, count-head, count-remove, count-snoc,
}
use usb_bulk.Kernel.Ready.{Ready, num_priority, to_non_runnable, to_runnable, change_priority}
use usb_bulk.Kernel.Ready.First.{IsReady}
use usb_bulk.Kernel.Ready.Removed.{to_non_runnable-IsReady, to_non_runnable-list}
use usb_bulk.Kernel.Ready.Added.{IsKnown, to_runnable-IsReady}
use usb_bulk.Kernel.Ready.Changed.{change_priority-IsReady, change_priority-list}
use usb_bulk.Kernel.Task.{Tcb, is_runnable, has_wait, is_dormant, is_sleep}

-- How often a task is in the ready list of priority `q`.
abbrev pub listed : Tcb → ℕ → ℕ
listed c q = if is_runnable c.task_state && (c.priority == q) then 1 else 0

-- The priorities of a task are in range, a TCB that is no task is dormant, and a runnable task is in
-- no object's queue.
pub record IsTcb (c : Tcb) : Type 0 where
  pub low : c.priority < num_priority
  pub base_low : c.base_priority < num_priority
  pub no_task : (c.id_task == 0) ≡ true → is_dormant c.task_state ≡ true
  pub no_queue : is_runnable c.task_state ≡ true → c.pwait_queue ≡ none
  pub asleep :
      has_wait c.task_state ≡ true → is_sleep c.task_wait_reason ≡ true → c.pwait_queue ≡ none

pub record IsScheduled (tcb : ℕ → Tcb) (r : Ready) : Type 0 where
  pub is_ready : IsReady r
  pub is_listed : (t q : ℕ) → count t (r.ready_list q) ≡ listed (tcb t) q
  pub is_tcb : (t : ℕ) → IsTcb (tcb t)

module _ (tcb : ℕ → Tcb) (r : Ready) (scheduled : IsScheduled tcb r) where
  pub all-IsKnown : IsKnown r.ready_list (λ t. (tcb t).priority)
  all-IsKnown n q there = ground (arith, scheduled.is_listed n q)

  pub only : (t q : ℕ) → head? (r.ready_list q) ≡ some t → (tcb t).priority ≡ q
  only t q here = all-IsKnown t q (count-head t (r.ready_list q) here)

  pub update-IsTcb : (t : ℕ) (c : Tcb) → IsTcb c → (u : ℕ) → IsTcb (update tcb t c u)
  update-IsTcb t c is_tcb u = elim (Bool-cases (t == u)) [
    | inl same ↦ let e : update tcb t c u ≡ c = rw (same) refl in subst IsTcb (sym e) is_tcb
    | inr other ↦
        let e : update tcb t c u ≡ tcb u = rw (other) refl in
        subst IsTcb (sym e) (scheduled.is_tcb u)
  ]

  -- A task leaves the ready lists.
  pub removed-IsScheduled :
      (t : ℕ) (c : Tcb)
      → is_runnable c.task_state ≡ false
      → IsTcb c
      → IsScheduled (update tcb t c) (to_non_runnable t (tcb t).priority r)
  removed-IsScheduled t c off is_tcb = record {
    is_ready =
        to_non_runnable-IsReady r t (tcb t).priority scheduled.is_ready (scheduled.is_tcb t).low
          (only t);
    is_listed = λ u q.
        rw (to_non_runnable-list t (tcb t).priority r) ground
          (arith, scheduled.is_listed u q, count-remove t u (r.ready_list (tcb t).priority), off);
    is_tcb = update-IsTcb t c is_tcb;
  }

  -- A task that is in none of them comes to the end of the list of its priority.
  pub added-IsScheduled :
      (t : ℕ) (c : Tcb)
      → is_runnable (tcb t).task_state ≡ false
      → is_runnable c.task_state ≡ true
      → c.priority ≡ (tcb t).priority
      → IsTcb c
      → IsScheduled (update tcb t c) (to_runnable (λ u. (tcb u).priority) t (tcb t).priority r)
  unfolding to_runnable
  added-IsScheduled t c off on same is_tcb = record {
    is_ready =
        to_runnable-IsReady (λ u. (tcb u).priority) t (tcb t).priority r scheduled.is_ready
          (scheduled.is_tcb t).low all-IsKnown;
    is_listed = λ u q. ground (
      arith,
      scheduled.is_listed u q,
      count-snoc u t (r.ready_list (tcb t).priority),
      off,
      on,
      same,
    );
    is_tcb = update-IsTcb t c is_tcb;
  }

  -- A runnable task goes from the list of its priority to that of another.
  pub changed-IsScheduled :
      (t : ℕ) (c : Tcb)
      → is_runnable (tcb t).task_state ≡ true
      → is_runnable c.task_state ≡ true
      → IsTcb c
      → IsScheduled
          (update tcb t c)
          (change_priority (λ u. (tcb u).priority) t (tcb t).priority c.priority r).1
  changed-IsScheduled t c was on is_tcb = record {
    is_ready =
        change_priority-IsReady (λ u. (tcb u).priority) t (tcb t).priority c.priority r
          scheduled.is_ready (scheduled.is_tcb t).low is_tcb.low all-IsKnown refl;
    is_listed = λ u q.
        let old = (tcb t).priority in
        rw (change_priority-list (λ u. (tcb u).priority) t old c.priority r) ground (
          arith,
          scheduled.is_listed u q,
          scheduled.is_listed u old,
          count-remove t u (r.ready_list old),
          count-snoc u t (remove t (r.ready_list old)),
          count-snoc u t (r.ready_list c.priority),
          was,
          on,
        );
    is_tcb = update-IsTcb t c is_tcb;
  }

  -- What concerns neither the lists nor the priority of a runnable task.
  pub same-IsScheduled :
      (t : ℕ) (c : Tcb)
      → is_runnable c.task_state ≡ is_runnable (tcb t).task_state
      → (is_runnable c.task_state ≡ true → c.priority ≡ (tcb t).priority)
      → IsTcb c
      → IsScheduled (update tcb t c) r
  same-IsScheduled t c state same is_tcb = record {
    is_ready = scheduled.is_ready;
    is_listed = λ u q. ground (arith, scheduled.is_listed u q, state, same);
    is_tcb = update-IsTcb t c is_tcb;
  }
