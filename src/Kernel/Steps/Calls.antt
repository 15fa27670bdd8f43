-- ===== src/Kernel/Steps/Calls.antt =====
-- The lists stay in step in the calls that choose between refusals: the change of a priority, the
-- deletion, and the calls of a semaphore and of an event.
use usb_bulk.Prelude.{
  update_self, ℕ, ◌-◌, ◌<◌, ◌≡◌, refl, ap, ◌∙◌, inl, inr, Bool, true, false, not, ◌||◌, Option,
  none, Option-cases, some, arith, ◌==◌, ltb, if◌then◌else◌, Bool-cases,
}
use usb_bulk.Kernel.Code.{Code, no_err, wrong_param, wcontext, noexs}
use usb_bulk.Kernel.Scheduler.{WaitReason}
use usb_bulk.Kernel.Ready.{num_priority}
use usb_bulk.Kernel.Task.{
  Tcb, System, is_runnable, is_dormant, tn_id_task, in_task, switch_context, set_tcb,
  task_curr_to_wait_action,
}
use usb_bulk.Kernel.Task.Services.{on_task}
use usb_bulk.Kernel.Task.Endings.{delete_tcb, tn_task_delete, tn_task_change_priority}
use usb_bulk.Kernel.Task.Consistent.{IsConsistent}
use usb_bulk.Kernel.Task.Waits.{task_curr_to_wait_action-IsConsistent}
use usb_bulk.Kernel.Task.Kept.{
  IsNeutral, switch_context-IsNeutral, on_task-IsConsistent, same-IsConsistent,
}
use usb_bulk.Kernel.Task.Exits.{delete_tcb-IsConsistent, set_priority-IsConsistent}
use usb_bulk.Kernel.Sem.{Sem, tn_id_semaphore, on_sem, tn_sem_acquire}
use usb_bulk.Kernel.Queue.{returned, waits}
use usb_bulk.Kernel.Event.Release.{set_event-IsConsistent}
use usb_bulk.Kernel.Event.{Event, refusal, is_met, on_event, tn_id_event, set_event, tn_event_wait}
use usb_bulk.Kernel.Steps.{IsLive}

-- A test, of a call that gives two more values.
if-kept :
    {A B : Type 0} (b : Bool) (x y : A × B × System)
    → (b ≡ true → IsConsistent x.2)
    → (b ≡ false → IsConsistent y.2)
    → IsConsistent (if b then x else y).2
if-kept true x y h k = h refl
if-kept false x y h k = k refl

pub change_priority-IsConsistent :
    (o : Option ℕ) (p : ℕ) (s : System)
    → IsConsistent s
    → IsConsistent (tn_task_change_priority o p s).1
unfolding tn_task_change_priority on_task
change_priority-IsConsistent none p s good = good
change_priority-IsConsistent (some t) p s good =
    elim (Bool-cases ((s.tcb t).id_task == tn_id_task)) [
      | inl is_task ↦ elim (Bool-cases (ltb (num_priority - 2) p)) [
        | inl high ↦ simp (is_task, high) good
        | inr low ↦
            let in_range : p < num_priority = ground (arith, low) in
            let done = set_priority-IsConsistent p t s good in_range in
            elim (Bool-cases (in_task s)) [
              | inl may ↦ simp (is_task, low, may) done
              | inr not_here ↦ simp (is_task, low, not_here) good
            ]
      ]
      | inr no_task ↦ simp (no_task) good
    ]

pub delete-IsConsistent :
    (o : Option ℕ) (s : System) → IsConsistent s → IsConsistent (tn_task_delete o s).1
unfolding tn_task_delete
delete-IsConsistent o s good =
    on_task-IsConsistent in_task
      (λ t s. if is_dormant (s.tcb t).task_state then (no_err, delete_tcb t s) else (wcontext, s)) o
      s good
      (λ t e is_task. elim (Bool-cases (is_dormant (s.tcb t).task_state)) [
        | inl ended ↦ let done = delete_tcb-IsConsistent t s good ended in simp (ended) done
        | inr alive ↦ simp (alive) good
      ])

pub on_sem-IsConsistent :
    (may_call : System → Bool) (body : Sem → System → Code × Sem × System) (o : Option Sem)
    (s : System)
    → IsConsistent s
    → ((q : Sem) → IsConsistent (body q s).2)
    → IsConsistent (on_sem may_call body o s).2
unfolding on_sem
on_sem-IsConsistent may_call body none s good kept = good
on_sem-IsConsistent may_call body (some q) s good kept =
    if-kept (q.max_count == 0) (wrong_param, some q, s) _ (λ h. good)
      (λ h.
        if-kept (q.id_sem == tn_id_semaphore) _ (noexs, some q, s)
          (λ h.
            if-kept (may_call s) ((body q s).0, some (body q s).1, (body q s).2)
              (wcontext, some q, s) (λ h. kept q) (λ h. good))
          (λ h. good))

pub acquire-IsConsistent :
    (o : Option Sem) (time : ℕ) (s : System)
    → IsConsistent s
    → IsLive s
    → IsConsistent (tn_sem_acquire o time s).2
unfolding tn_sem_acquire
acquire-IsConsistent none time s good live = good
acquire-IsConsistent (some q) time s good live =
    let s' : System = task_curr_to_wait_action (some q.wait_queue) WaitReason.sem time s in
    let kept : IsConsistent s' =
      task_curr_to_wait_action-IsConsistent (some q.wait_queue) WaitReason.sem time s good live
        (inr refl) in
    if-kept (time == 0 || q.max_count == 0) (returned wrong_param tt, some q, s) _ (λ h. good)
      (λ h.
        if-kept (q.id_sem == tn_id_semaphore) _ (returned noexs tt, some q, s)
          (λ h.
            if-kept (in_task s) _ (returned wcontext tt, some q, s)
              (λ h.
                if-kept (ltb 0 q.count)
                  (returned no_err tt, some (record q { count = q.count - 1 }), s)
                  (waits, some q, switch_context s') (λ h. good)
                  (λ h. switch_context-IsNeutral s' kept))
              (λ h. good))
          (λ h. good))

pub wait_event-IsConsistent :
    (o : Option Event) (pattern mode : ℕ) (has_place : Bool) (time : ℕ) (s : System)
    → IsConsistent s
    → IsLive s
    → IsConsistent (tn_event_wait o pattern mode has_place time s).2
unfolding tn_event_wait
wait_event-IsConsistent none pattern mode has_place time s good live = good
wait_event-IsConsistent (some e) pattern mode has_place time s good live =
    let t = s.curr_run_task in
    let c : Tcb = record (s.tcb t) { ewait_mode = mode; ewait_pattern = pattern } in
    let s0 : System = set_tcb s t c in
    let shown : IsConsistent s0 =
      same-IsConsistent t c s good refl refl refl refl (λ h. refl)
        record {
          low = (good.scheduled.is_tcb t).low;
          base_low = (good.scheduled.is_tcb t).base_low;
          no_task = (good.scheduled.is_tcb t).no_task;
          no_queue = (good.scheduled.is_tcb t).no_queue;
          asleep = (good.scheduled.is_tcb t).asleep;
        } in
    let live0 : IsLive s0 = ap (λ c. is_runnable c.task_state) (update_self s.tcb t c) ∙ live in
    let s' : System = task_curr_to_wait_action (some e.wait_queue) WaitReason.event time s0 in
    let kept : IsConsistent s' =
      task_curr_to_wait_action-IsConsistent (some e.wait_queue) WaitReason.event time s0 shown live0
        (inr refl) in
    let done : IsConsistent (switch_context s') = switch_context-IsNeutral s' kept in
    elim (Bool-cases (time == 0)) [
      | inl zero_time ↦ simp (zero_time) good
      | inr some_time ↦ elim (Option-cases (refusal in_task pattern has_place e s)) [
        | inl passed ↦ elim (Bool-cases (is_met e.pattern mode pattern)) [
          | inl met ↦ simp (some_time, passed, met) good
          | inr not_met ↦ simp (some_time, passed, not_met) done
        ]
        | inr (rc, refused) ↦ simp (some_time, refused) good
      ]
    ]

pub set-IsConsistent :
    (may_call : System → Bool) (next : System → System)
    → IsNeutral next
    → (o : Option Event) (pattern : ℕ) (s : System) → IsConsistent s
    → IsConsistent
        (on_event may_call (not (pattern == 0)) (λ e s. set_event next e pattern s) o s).2
set-IsConsistent may_call next neutral none pattern s good = good
set-IsConsistent may_call next neutral (some e) pattern s good =
    let r = set_event next e pattern s in
    if-kept (not (not (pattern == 0))) (wrong_param, some e, s) _ (λ h. good)
      (λ h.
        if-kept (e.id_event == tn_id_event) _ (noexs, some e, s)
          (λ h.
            if-kept (may_call s) (no_err, some r.0, r.1) (wcontext, some e, s)
              (λ h. set_event-IsConsistent next neutral e pattern s good) (λ h. good))
          (λ h. good))
