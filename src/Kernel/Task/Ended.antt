-- ===== src/Kernel/Task/Ended.antt =====
-- A task that is in no list of ready or waiting tasks ends: task_set_dormant_state, and what goes
-- before it.
use usb_bulk.Prelude.{
  update_self, ℕ, ◌-◌, ◌≡◌, refl, ap, sym, ◌∙◌, subst, inl, inr, true, false, List, arith, ◌==◌,
  ltb, ==_iff, if◌then◌else◌, Bool-cases, Option-cases, update, remove, count, count-remove,
}
use usb_bulk.Kernel.Task.{
  Tcb, System, is_runnable, has_wait, is_dormant, dormant_tcb, wait_infinite, priority_of, set_tcb,
  task_to_non_runnable, task_set_dormant_state,
}
use usb_bulk.Kernel.Task.Scheduled.{IsTcb}
use usb_bulk.Kernel.Task.Consistent.{IsQueuedBut, IsConsistent, waits_at, timed}
use usb_bulk.Kernel.Task.Waits.{has_wait-is_runnable, task_to_runnable-IsConsistent}
use usb_bulk.Kernel.Ready.First.{IsReady}
use usb_bulk.Kernel.Ready.Removed.{to_non_runnable-IsReady, to_non_runnable-list}
use usb_bulk.Kernel.Task.Scheduled.{listed, only}
use usb_bulk.Kernel.Task.Endings.{end_task, leave_queues}
use usb_bulk.Kernel.Task.Kept.{same-IsConsistent}

-- The lists hold the tasks as their TCBs say, but that `t` is in none of them.
pub record IsGone (t : ℕ) (s : System) : Type 0 where
  pub is_ready : IsReady s.ready
  pub is_listed :
      (u q : ℕ) → count u (s.ready.ready_list q) ≡ (if t == u then 0 else listed (s.tcb u) q)
  pub is_tcb : (u : ℕ) → IsTcb (s.tcb u)
  pub is_queued : IsQueuedBut t s.tcb s.wait_list
  pub is_timed : (u : ℕ) → count u s.wait_timeout_list ≡ (if t == u then 0 else timed (s.tcb u))

-- What is counted for each task, where `t` counts for nothing.
but_self :
    (f g : ℕ → ℕ) (t : ℕ)
    → ((u : ℕ) → f u ≡ g u)
    → g t ≡ 0
    → (u : ℕ) → f u ≡ (if t == u then 0 else g u)
but_self f g t same off u = elim (Bool-cases (t == u)) [
  | inl here ↦
      let e : f u ≡ g t = subst (λ u. f u ≡ g t) ((==_iff t u).0 here) (same t) in
      ground (arith, e, off)
  | inr other ↦ ground (arith, same u)
]

-- `t` is in none of them either where it neither runs nor waits.
pub idle-IsGone :
    (t : ℕ) (s : System)
    → IsConsistent s
    → is_runnable (s.tcb t).task_state ≡ false
    → has_wait (s.tcb t).task_state ≡ false
    → IsGone t s
idle-IsGone t s good off idle = record {
  is_ready = good.scheduled.is_ready;
  is_listed = λ u q.
      but_self (λ u. count u (s.ready.ready_list q)) (λ u. listed (s.tcb u) q) t
        (λ u. good.scheduled.is_listed u q) (ground (arith, off)) u;
  is_tcb = good.scheduled.is_tcb;
  is_queued = λ u w.
      but_self (λ u. count u (s.wait_list w)) (λ u. waits_at (s.tcb u) w) t
        (λ u. good.is_queued u w) (ground (arith, idle)) u;
  is_timed =
      but_self (λ u. count u s.wait_timeout_list) (λ u. timed (s.tcb u)) t good.is_timed
        (ground (arith, idle));
}

pub task_to_non_runnable-tcb : (t : ℕ) (s : System) → (task_to_non_runnable t s).tcb ≡ s.tcb
unfolding task_to_non_runnable
task_to_non_runnable-tcb t s = refl

pub non_runnable-IsGone :
    (t : ℕ) (s : System)
    → IsConsistent s
    → is_runnable (s.tcb t).task_state ≡ true
    → IsGone t (task_to_non_runnable t s)
unfolding task_to_non_runnable
non_runnable-IsGone t s good runs =
    let p = priority_of s t in
    record {
      is_ready =
          to_non_runnable-IsReady s.ready t p good.scheduled.is_ready (good.scheduled.is_tcb t).low
            (only s.tcb s.ready good.scheduled t);
      is_listed = λ u q. rw (to_non_runnable-list t p s.ready) elim (Bool-cases (t == u)) [
        | inl here ↦
            let e =
              subst (λ u. count u (s.ready.ready_list q) ≡ listed (s.tcb t) q) ((==_iff t u).0 here)
                (good.scheduled.is_listed t q) in
            ground (arith, e, here, count-remove t u (s.ready.ready_list p))
        | inr other ↦
            ground (arith, good.scheduled.is_listed u q, count-remove t u (s.ready.ready_list p))
      ];
      is_tcb = good.scheduled.is_tcb;
      is_queued = λ u w.
          but_self (λ u. count u (s.wait_list w)) (λ u. waits_at (s.tcb u) w) t
            (λ u. good.is_queued u w) (ground (arith, runs)) u;
      is_timed =
          but_self (λ u. count u s.wait_timeout_list) (λ u. timed (s.tcb u)) t good.is_timed
            (ground (arith, runs));
    }

pub leave_queues-tcb : (t : ℕ) (s : System) → (leave_queues t s).tcb ≡ s.tcb
unfolding leave_queues
leave_queues-tcb t s = elim (Option-cases (s.tcb t).pwait_queue) [
  | inl apart ↦ simp (apart, leave_queues) refl
  | inr (w, there) ↦ simp (there, leave_queues) refl
]

-- The links of a waiting task.
pub leave_queues-IsGone :
    (t : ℕ) (s : System)
    → IsConsistent s
    → has_wait (s.tcb t).task_state ≡ true
    → IsGone t (leave_queues t s)
unfolding leave_queues
leave_queues-IsGone t s good waits =
    let timers : List ℕ =
      if (s.tcb t).tick_count == wait_infinite
      then s.wait_timeout_list
      else remove t s.wait_timeout_list in
    let is_listed : (u q : ℕ)
        → count u (s.ready.ready_list q) ≡ (if t == u then 0 else listed (s.tcb u) q) =
      λ u q.
        but_self (λ u. count u (s.ready.ready_list q)) (λ u. listed (s.tcb u) q) t
          (λ u. good.scheduled.is_listed u q)
          (ground (arith, has_wait-is_runnable (s.tcb t).task_state waits)) u in
    let is_timed : (u : ℕ) → count u timers ≡ (if t == u then 0 else timed (s.tcb u)) = λ u.
      elim (Bool-cases (t == u)) [
        | inl here ↦
            let e =
              subst (λ u. count u s.wait_timeout_list ≡ timed (s.tcb t)) ((==_iff t u).0 here)
                (good.is_timed t) in
            ground (arith, e, here, count-remove t u s.wait_timeout_list)
        | inr other ↦ ground (arith, good.is_timed u, count-remove t u s.wait_timeout_list)
      ] in
    elim (Option-cases (s.tcb t).pwait_queue) [
      | inl apart ↦
          simp (apart, leave_queues)
            record {
              is_ready = good.scheduled.is_ready;
              is_listed = is_listed;
              is_tcb = good.scheduled.is_tcb;
              is_queued = λ u w.
                  but_self (λ u. count u (s.wait_list w)) (λ u. waits_at (s.tcb u) w) t
                    (λ u. good.is_queued u w) (ground (arith, apart)) u;
              is_timed = is_timed;
            }
      | inr (w, there) ↦
          simp (there, leave_queues)
            record {
              is_ready = good.scheduled.is_ready;
              is_listed = is_listed;
              is_tcb = good.scheduled.is_tcb;
              is_queued = λ u v. elim (Bool-cases (t == u)) [
                | inl here ↦
                    let e =
                      subst (λ u. count u (s.wait_list v) ≡ waits_at (s.tcb t) v)
                        ((==_iff t u).0 here) (good.is_queued t v) in
                    ground (arith, e, here, there, count-remove t u (s.wait_list w))
                | inr other ↦ elim (Bool-cases (w == v)) [
                  | inl same ↦ ground (
                    arith,
                    good.is_queued u v,
                    ap (λ w. count u (s.wait_list w)) ((==_iff w v).0 same),
                    count-remove t u (s.wait_list w),
                  )
                  | inr apart ↦ ground (arith, good.is_queued u v)
                ]
              ];
              is_timed = is_timed;
            }
    ]

gone-IsConsistent :
    (t : ℕ) (c : Tcb) (s : System)
    → IsGone t s
    → is_runnable c.task_state ≡ false
    → has_wait c.task_state ≡ false
    → IsTcb c
    → IsConsistent (set_tcb s t c)
gone-IsConsistent t c s gone off idle is_tcb = record {
  scheduled = record {
    is_ready = gone.is_ready;
    is_listed = λ u q. ground (arith, gone.is_listed u q, off);
    is_tcb = λ u. elim (Bool-cases (t == u)) [
      | inl same ↦ let e : update s.tcb t c u ≡ c = rw (same) refl in subst IsTcb (sym e) is_tcb
      | inr other ↦
          let e : update s.tcb t c u ≡ s.tcb u = rw (other) refl in
          subst IsTcb (sym e) (gone.is_tcb u)
    ];
  };
  is_queued = λ u w. ground (arith, gone.is_queued u w, idle);
  is_timed = λ u. ground (arith, gone.is_timed u, idle);
}

pub dormant-IsConsistent :
    (t : ℕ) (s : System) → IsGone t s → IsConsistent (task_set_dormant_state t s)
unfolding task_set_dormant_state
dormant-IsConsistent t s gone =
    gone-IsConsistent t (dormant_tcb (s.tcb t)) s gone refl refl record {
      low = (gone.is_tcb t).base_low;
      base_low = (gone.is_tcb t).base_low;
      no_task = λ h. refl;
      no_queue = λ h. refl;
      asleep = λ h k. refl;
    }

-- What follows: the task is dormant, or runnable where an activation is left.
pub end_task-IsConsistent :
    (t : ℕ) (s : System)
    → IsGone t s
    → ((s.tcb t).id_task == 0) ≡ false
    → IsConsistent (end_task t s)
unfolding end_task
end_task-IsConsistent t s gone is_task =
    let s' : System = task_set_dormant_state t s in
    let e : s'.tcb t ≡ dormant_tcb (s.tcb t) = update_self s.tcb t (dormant_tcb (s.tcb t)) in
    let ended : IsConsistent s' = dormant-IsConsistent t s gone in
    elim (Bool-cases (ltb 0 (s'.tcb t).activate_count)) [
      | inl again ↦
          let c : Tcb = record (s'.tcb t) { activate_count = (s'.tcb t).activate_count - 1 } in
          let s1 : System = set_tcb s' t c in
          let e1 : s1.tcb t ≡ c = update_self s'.tcb t c in
          let counted : IsConsistent s1 =
            same-IsConsistent t c s' ended refl refl refl refl (λ h. refl)
              record {
                low = (ended.scheduled.is_tcb t).low;
                base_low = (ended.scheduled.is_tcb t).base_low;
                no_task = (ended.scheduled.is_tcb t).no_task;
                no_queue = (ended.scheduled.is_tcb t).no_queue;
                asleep = (ended.scheduled.is_tcb t).asleep;
              } in
          let done =
            task_to_runnable-IsConsistent t s1 counted
              (ap (λ c. is_runnable c.task_state) e1 ∙ ap (λ c. is_runnable c.task_state) e)
              (λ w. ap (λ c. waits_at c w) e1 ∙ ap (λ c. waits_at c w) e) (ap timed e1 ∙ ap timed e)
              (ap (λ c. c.id_task == 0) e1 ∙ ap (λ c. c.id_task == 0) e ∙ is_task) in
          simp (again) done
      | inr over ↦ simp (over) ended
    ]

-- Where no activation is left, the task is dormant.
pub end_task-dormant :
    (t : ℕ) (s : System)
    → ((s.tcb t).activate_count == 0) ≡ true
    → is_dormant ((end_task t s).tcb t).task_state ≡ true
unfolding end_task task_set_dormant_state
end_task-dormant t s over =
    let e = update_self s.tcb t (dormant_tcb (s.tcb t)) in
    let none_left : ltb 0 (update s.tcb t (dormant_tcb (s.tcb t)) t).activate_count ≡ false =
      ap (λ c. ltb 0 c.activate_count) e ∙ ground arith in
    simp (none_left) (ap (λ c. is_dormant c.task_state) e)
