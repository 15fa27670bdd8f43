-- ===== src/Kernel/Task/Created.antt =====
-- tn_task_create keeps the lists of the tasks in step with their TCBs.
use usb_bulk.Prelude.{
  update_self, ℕ, ◌+◌, ◌<◌, ◌≡◌, refl, ap, ◌∙◌, inl, inr, true, ◌&&◌, Option, none, some, [], ◌∷◌,
  ◌++◌, arith, ◌==◌, has_bits, Bool-cases,
}
use usb_bulk.Kernel.Ready.{num_priority}
use usb_bulk.Kernel.Task.{
  Tcb, System, is_runnable, has_wait, is_dormant, tn_id_task, set_tcb, in_task, dormant_tcb,
  task_to_runnable, task_set_dormant_state,
}
use usb_bulk.Kernel.Task.Consistent.{IsConsistent, waits_at, timed}
use usb_bulk.Kernel.Task.Waits.{task_to_runnable-IsConsistent}
use usb_bulk.Kernel.Task.Services.{CreateArgs, is_creatable, create_task, tn_task_create}
use usb_bulk.Kernel.Task.Kept.{same-IsConsistent, if-IsConsistent}
use usb_bulk.Kernel.Task.Ended.{idle-IsGone, dormant-IsConsistent}
use usb_bulk.Kernel.Task.Woken.{dormant-idle}

create_task-IsConsistent :
    (t : ℕ) (a : CreateArgs) (s : System)
    → IsConsistent s
    → a.priority < num_priority
    → is_dormant (s.tcb t).task_state ≡ true
    → IsConsistent (create_task t a s)
unfolding create_task task_set_dormant_state
create_task-IsConsistent t a s good low fresh =
    let (off, idle) = dormant-idle (s.tcb t).task_state fresh in
    let c : Tcb = record (s.tcb t) {
      base_priority = a.priority;
      activate_count = 0;
      id_task = tn_id_task;
    } in
    let s0 : System = set_tcb s t c in
    let e0 : s0.tcb t ≡ c = update_self s.tcb t c in
    let named : IsConsistent s0 =
      same-IsConsistent t c s good refl refl refl refl (λ h. refl)
        record {
          low = (good.scheduled.is_tcb t).low;
          base_low = low;
          no_task = λ h. ground arith;
          no_queue = (good.scheduled.is_tcb t).no_queue;
          asleep = (good.scheduled.is_tcb t).asleep;
        } in
    let s1 : System = task_set_dormant_state t s0 in
    let e1 : s1.tcb t ≡ dormant_tcb (s0.tcb t) = update_self s0.tcb t (dormant_tcb (s0.tcb t)) in
    let ended : IsConsistent s1 = dormant-IsConsistent t s0 (
      idle-IsGone t s0 named (ap (λ c. is_runnable c.task_state) e0 ∙ off)
        (ap (λ c. has_wait c.task_state) e0 ∙ idle)) in
    let c2 : Tcb = record (s1.tcb t) { create_linked = true } in
    let s2 : System = set_tcb s1 t c2 in
    let e2 : s2.tcb t ≡ c2 = update_self s1.tcb t c2 in
    let linked : IsConsistent s2 =
      same-IsConsistent t c2 s1 ended refl refl refl refl (λ h. refl)
        record {
          low = (ended.scheduled.is_tcb t).low;
          base_low = (ended.scheduled.is_tcb t).base_low;
          no_task = (ended.scheduled.is_tcb t).no_task;
          no_queue = (ended.scheduled.is_tcb t).no_queue;
          asleep = (ended.scheduled.is_tcb t).asleep;
        } in
    let s3 : System = record s2 {
      create_queue = s.create_queue ++ (t ∷ []);
      created_tasks_qty = s.created_tasks_qty + 1;
    } in
    let counted : IsConsistent s3 = record {
      scheduled = linked.scheduled;
      is_queued = linked.is_queued;
      is_timed = linked.is_timed;
    } in
    if-IsConsistent (has_bits a.option 1) (task_to_runnable t s3) s3
      (λ start.
        task_to_runnable-IsConsistent t s3 counted
          (ap (λ c. is_runnable c.task_state) e2 ∙ ap (λ c. is_runnable c.task_state) e1)
          (λ w. ap (λ c. waits_at c w) e2 ∙ ap (λ c. waits_at c w) e1) (ap timed e2 ∙ ap timed e1)
          (ap (λ c. c.id_task == 0) e2 ∙ ap (λ c. c.id_task == 0) e1 ∙ ap (λ c. c.id_task == 0) e0))
      (λ later. counted)

pub tn_task_create-IsConsistent :
    (o : Option ℕ) (a : CreateArgs) (s : System)
    → IsConsistent s
    → IsConsistent (tn_task_create o a s).1
unfolding tn_task_create is_creatable
tn_task_create-IsConsistent none a s good = good
tn_task_create-IsConsistent (some t) a s good =
    elim (Bool-cases (is_creatable a && (s.tcb t).id_task == 0)) [
      | inl fit ↦ elim (Bool-cases (in_task s)) [
        | inl may ↦
            let done =
              create_task-IsConsistent t a s good (ground (arith, fit))
                ((good.scheduled.is_tcb t).no_task (ground (arith, fit))) in
            simp (fit, may) done
        | inr not_here ↦ simp (fit, not_here) good
      ]
      | inr unfit ↦ simp (unfit) good
    ]
