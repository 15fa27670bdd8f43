-- ===== src/Kernel/Task/Running.antt =====
-- After a service the next task to run is the running one; and whose count a wakeup without a sleeper
-- raises.
use usb_bulk.Prelude.{
  ℕ, ◌+◌, ◌-◌, ltb, ◌≡◌, refl, subst, ◌∙◌, inl, inr, Bool, true, false, not, ◌&&◌, Option, none,
  some, arith, ◌==◌, if◌then◌else◌, Bool-cases,
}
use usb_bulk.Kernel.Code.{Code, no_err, wcontext, overflow, noexs, wrong_param, wstate}
use usb_bulk.Kernel.Ready.{is_next}
use usb_bulk.Kernel.Task.{
  Tcb, System, in_task, has_wait, is_dormant, is_sleep, is_runnable, has_suspend, tn_id_task,
  set_tcb, switch_context, switch_if_other, task_to_runnable, task_to_non_runnable,
  task_curr_to_wait_action, suspend, waitsusp, wait,
}
use usb_bulk.Kernel.Scheduler.{sleep}
use usb_bulk.Kernel.Task.Services.{
  on_task, suspend_task, resume_task, activate_task, wakeup_task, tn_task_suspend, tn_task_resume,
  tn_task_activate, tn_task_sleep, tn_task_wakeup,
}

-- The next task, if there is one, is the running one.
abbrev pub IsRunning : System → Type 0
IsRunning s = (u : ℕ) → s.ready.next_task_to_run ≡ some u → s.curr_run_task ≡ u

switch_context-IsRunning : (s : System) → IsRunning (switch_context s)
unfolding switch_context
switch_context-IsRunning s u e = rw (e) refl

next-curr :
    (next : Option ℕ) (curr : ℕ) → is_next next curr ≡ true → (u : ℕ) → next ≡ some u → curr ≡ u
next-curr none curr same u e = ground arith
next-curr (some n) curr same u e = ground (arith, e)

switch_if_other-if :
    (s : System)
    → switch_if_other s ≡ (
        if not (is_next s.ready.next_task_to_run s.curr_run_task) && s.enable_switch_context
        then switch_context s
        else s)
unfolding switch_if_other
switch_if_other-if s = refl

task_to_runnable-enable :
    (t : ℕ) (s : System) → (task_to_runnable t s).enable_switch_context ≡ s.enable_switch_context
unfolding task_to_runnable
task_to_runnable-enable t s = refl

task_to_non_runnable-enable :
    (t : ℕ) (s : System)
    → (task_to_non_runnable t s).enable_switch_context ≡ s.enable_switch_context
unfolding task_to_non_runnable
task_to_non_runnable-enable t s = refl

switch_if_other-IsRunning :
    (s : System) → s.enable_switch_context ≡ true → IsRunning (switch_if_other s)
unfolding switch_if_other
switch_if_other-IsRunning s enabled =
    elim (Bool-cases (is_next s.ready.next_task_to_run s.curr_run_task)) [
      | inl same ↦
          let here : IsRunning s =
            λ u e. next-curr s.ready.next_task_to_run s.curr_run_task same u e in
          simp (same) here
      | inr other ↦ let done = switch_context-IsRunning s in simp (other, enabled) done
    ]

if-IsRunning :
    (b : Bool) (x y : Code × System)
    → (b ≡ true → IsRunning x.1)
    → (b ≡ false → IsRunning y.1)
    → IsRunning (if b then x else y).1
if-IsRunning true x y h k = h refl
if-IsRunning false x y h k = k refl

on_task-IsRunning :
    (body : ℕ → System → Code × System) (o : Option ℕ) (s : System)
    → IsRunning s
    → ((t : ℕ) → IsRunning (body t s).1)
    → IsRunning (on_task in_task body o s).1
unfolding on_task
on_task-IsRunning body none s runs kept = runs
on_task-IsRunning body (some t) s runs kept =
    if-IsRunning ((s.tcb t).id_task == tn_id_task) _ (noexs, s)
      (λ h. if-IsRunning (in_task s) (body t s) (wcontext, s) (λ h. kept t) (λ h. runs)) (λ h. runs)

suspend-IsRunning :
    (t : ℕ) (s : System)
    → IsRunning s
    → s.enable_switch_context ≡ true
    → IsRunning (suspend_task t s).1
unfolding suspend_task
suspend-IsRunning t s runs enabled =
    let c : Tcb = s.tcb t in
    let s' : System = task_to_non_runnable t (set_tcb s t (record c { task_state = suspend })) in
    if-IsRunning (has_suspend c.task_state) (overflow, s) _ (λ h. runs)
      (λ h.
        if-IsRunning (is_dormant c.task_state) (wstate, s) _ (λ h. runs)
          (λ h.
            if-IsRunning (t == s.curr_run_task && not s.enable_switch_context) (wcontext, s) _
              (λ h. runs)
              (λ h.
                if-IsRunning (is_runnable c.task_state) (no_err, switch_if_other s')
                  (no_err, set_tcb s t (record c { task_state = waitsusp }))
                  (λ h. switch_if_other-IsRunning s' (
                    task_to_non_runnable-enable t (set_tcb s t (record c { task_state = suspend }))
                    ∙ enabled))
                  (λ h. runs))))

resume-IsRunning :
    (t : ℕ) (s : System)
    → IsRunning s
    → s.enable_switch_context ≡ true
    → IsRunning (resume_task t s).1
unfolding resume_task
resume-IsRunning t s runs enabled =
    let c : Tcb = s.tcb t in
    let s' : System = task_to_runnable t s in
    if-IsRunning (has_suspend c.task_state) _ (wstate, s)
      (λ h.
        if-IsRunning (has_wait c.task_state) (no_err, set_tcb s t (record c { task_state = wait }))
          (no_err, switch_if_other s') (λ h. runs)
          (λ h. switch_if_other-IsRunning s' (task_to_runnable-enable t s ∙ enabled)))
      (λ h. runs)

activate-IsRunning :
    (t : ℕ) (s : System)
    → IsRunning s
    → s.enable_switch_context ≡ true
    → IsRunning (activate_task switch_context t s).1
unfolding activate_task
activate-IsRunning t s runs enabled =
    let c : Tcb = s.tcb t in
    let s' : System = task_to_runnable t s in
    let done : IsRunning (switch_if_other s') =
      switch_if_other-IsRunning s' (task_to_runnable-enable t s ∙ enabled) in
    let same : switch_if_other s' ≡ (
        if not (is_next s'.ready.next_task_to_run s'.curr_run_task) && s'.enable_switch_context
        then switch_context s'
        else s') =
      switch_if_other-if s' in
    if-IsRunning (is_dormant c.task_state) _ _ (λ h. subst IsRunning same done)
      (λ h.
        if-IsRunning (c.activate_count == 0)
          (no_err, set_tcb s t (record c { activate_count = c.activate_count + 1 })) (overflow, s)
          (λ h. runs) (λ h. runs))

sleep-IsRunning : (time : ℕ) (s : System) → IsRunning s → IsRunning (tn_task_sleep time s).1
unfolding tn_task_sleep
sleep-IsRunning time s runs =
    let c : Tcb = s.tcb s.curr_run_task in
    let s' : System = task_curr_to_wait_action none sleep time s in
    if-IsRunning (time == 0) (wrong_param, s) _ (λ h. runs)
      (λ h.
        if-IsRunning (in_task s) _ (wcontext, s)
          (λ h.
            if-IsRunning (ltb 0 c.wakeup_count)
              (no_err, set_tcb s s.curr_run_task (record c { wakeup_count = c.wakeup_count - 1 }))
              (no_err, switch_context s') (λ h. runs) (λ h. switch_context-IsRunning s'))
          (λ h. runs))

-- A wakeup of a task that is neither dormant nor asleep, and that is not the running one, leaves that
-- task as it is: the count of requests that is tested and raised is the running task's.
pub tn_task_wakeup-running :
    (t : ℕ) (s : System)
    → ((s.tcb t).id_task == tn_id_task) ≡ true
    → in_task s ≡ true
    → is_dormant (s.tcb t).task_state ≡ false
    → has_wait (s.tcb t).task_state && is_sleep (s.tcb t).task_wait_reason ≡ false
    → (s.curr_run_task == t) ≡ false
    → let curr = s.tcb s.curr_run_task in
      (s' : System) × (tn_task_wakeup (some t) s
        ≡ (if curr.wakeup_count == 0 then no_err else overflow, s'))
      × (s'.tcb t ≡ s.tcb t)
      × ((s'.tcb s.curr_run_task).wakeup_count
          ≡ (if curr.wakeup_count == 0 then 1 else curr.wakeup_count))
unfolding tn_task_wakeup on_task wakeup_task
tn_task_wakeup-running t s is_task may alive awake other =
    elim (Bool-cases ((s.tcb s.curr_run_task).wakeup_count == 0)) [
      | inl first ↦ (
        set_tcb s s.curr_run_task (record (s.tcb s.curr_run_task) {
          wakeup_count = (s.tcb s.curr_run_task).wakeup_count + 1;
        }),
        simp (is_task, may, alive, awake, first) refl,
        rw (other) refl,
        ground arith,
      )
      | inr again ↦ (s, simp (is_task, may, alive, awake, again) refl, refl, ground arith)
    ]

-- Where the running task is the next to run and switches are enabled, it is so again, as the task that
-- runs then, after a suspension, a resumption and an activation of any task by a task, whatever they
-- return; and after a sleep.
pub services-IsRunning :
    (o : Option ℕ) (time : ℕ) (s : System)
    → IsRunning s
    → s.enable_switch_context ≡ true
    → IsRunning (tn_task_suspend o s).1
      × IsRunning (tn_task_resume o s).1
      × IsRunning (tn_task_activate o s).1
      × IsRunning (tn_task_sleep time s).1
unfolding tn_task_suspend tn_task_resume tn_task_activate
services-IsRunning o time s runs enabled = (
  on_task-IsRunning suspend_task o s runs (λ t. suspend-IsRunning t s runs enabled),
  on_task-IsRunning resume_task o s runs (λ t. resume-IsRunning t s runs enabled),
  on_task-IsRunning (activate_task switch_context) o s runs
      (λ t. activate-IsRunning t s runs enabled),
  sleep-IsRunning time s runs,
)
