-- ===== src/Kernel/Sem/Laws.antt =====
-- The services of a semaphore: its count, the tasks that they release, and what they keep.
use usb_bulk.Prelude.{
  ℕ, ◌≤◌, ◌≡◌, refl, ap, ◌∙◌, inl, inr, Bool, true, false, not, Option, none, some, List, [], ◌∷◌,
  arith, ◌==◌, ltb, Bool-cases, update,
}
use usb_bulk.Kernel.Code.{Code, no_err, wrong_param}
use usb_bulk.Kernel.Queue.{returned}
use usb_bulk.Kernel.Task.{
  System, is_runnable, has_suspend, in_task, in_interrupt, switch_context, task_wait_complete,
}
use usb_bulk.Kernel.Task.Services.{request_switch}
use usb_bulk.Kernel.Task.Consistent.{IsConsistent}
use usb_bulk.Kernel.Task.Kept.{IsNeutral, if-IsConsistent}
use usb_bulk.Kernel.Task.Released.{
  task_wait_complete-wait_list, task_wait_complete-rc, task_wait_complete-runnable,
  task_wait_complete-others,
}
use usb_bulk.Kernel.Task.Popped.{popped-IsConsistent}
use usb_bulk.Kernel.Sem.{
  Sem, tn_id_semaphore, signal, on_sem, poll, tn_sem_create, tn_sem_signal, tn_sem_isignal,
  tn_sem_polling, tn_sem_ipolling, tn_sem_acquire,
}

pub signal-IsConsistent :
    (next : System → System)
    → IsNeutral next
    → (q : Sem) (ts : List ℕ) (s : System) → IsConsistent s
    → s.wait_list q.wait_queue ≡ ts
    → IsConsistent (signal next q ts s).2
unfolding signal
signal-IsConsistent next neutral q [] s good e = elim (Bool-cases (ltb q.count q.max_count)) [
  | inl room ↦ simp (room) good
  | inr full ↦ simp (full) good
]
signal-IsConsistent next neutral q (t ∷ ts) s good e =
    let (switch, s') =
      task_wait_complete t (record s { wait_list = update s.wait_list q.wait_queue ts }) in
    let kept = popped-IsConsistent s q.wait_queue t good ts e in
    if-IsConsistent switch (next s') s' (λ now. neutral s' kept) (λ later. kept)

-- A signal from an interrupt, of a semaphore in use, while tasks wait: the count stays, the first of
-- them leaves the queue with the code TERR_NO_ERR, and is runnable unless it is suspended; the other
-- tasks stay as they are.
pub tn_sem_isignal-first :
    (q : Sem) (t : ℕ) (ts : List ℕ) (s : System)
    → (q.max_count == 0) ≡ false
    → q.id_sem ≡ tn_id_semaphore
    → in_interrupt s ≡ true
    → s.wait_list q.wait_queue ≡ t ∷ ts
    → (s' : System) × (tn_sem_isignal (some q) s ≡ (no_err, some q, s'))
      × (s'.wait_list q.wait_queue ≡ ts)
      × ((s'.tcb t).task_wait_rc ≡ no_err)
      × (is_runnable (s'.tcb t).task_state ≡ not (has_suspend (s.tcb t).task_state))
      × ((u : ℕ) → (t == u) ≡ false → s'.tcb u ≡ s.tcb u)
unfolding tn_sem_isignal on_sem signal
tn_sem_isignal-first q t ts s pos made may e =
    let s1 : System = record s { wait_list = update s.wait_list q.wait_queue ts } in
    let (switch, s2) = task_wait_complete t s1 in
    let id : (q.id_sem == tn_id_semaphore) ≡ true = ground (arith, made) in
    let queue : s2.wait_list q.wait_queue ≡ ts =
      ap (λ f. f q.wait_queue) (task_wait_complete-wait_list t s1) ∙ ground arith in
    let rc = task_wait_complete-rc t s1 in
    let runs = task_wait_complete-runnable t s1 in
    let others = task_wait_complete-others t s1 in
    elim (Bool-cases switch) [
      | inl now ↦ (request_switch s2, simp (pos, id, may, e, now) refl, queue, rc, runs, others)
      | inr later ↦ (s2, simp (pos, id, may, e, later) refl, queue, rc, runs, others)
    ]

-- The count of a semaphore is in range.
abbrev pub IsBounded : Sem → Type 0
IsBounded q = q.count ≤ q.max_count

-- What the option holds is in range.
abbrev pub AllBounded : Option Sem → Type 0
AllBounded none = Unit
AllBounded (some q) = IsBounded q

signal-IsBounded :
    (next : System → System) (q : Sem) (ts : List ℕ) (s : System)
    → IsBounded q
    → IsBounded (signal next q ts s).1
unfolding signal
signal-IsBounded next q [] s low = ground arith
signal-IsBounded next q (t ∷ ts) s low = low

poll-IsBounded : (q : Sem) (s : System) → IsBounded q → IsBounded (poll q s).1
unfolding poll
poll-IsBounded q s low = ground arith

on_sem-AllBounded :
    (may_call : System → Bool) (body : Sem → System → Code × Sem × System) (o : Option Sem)
    (s : System)
    → ((q : Sem) → IsBounded q → IsBounded (body q s).1)
    → AllBounded o
    → AllBounded (on_sem may_call body o s).1
unfolding on_sem
on_sem-AllBounded may_call body none s kept low = tt
on_sem-AllBounded may_call body (some q) s kept low = ground (arith, kept q low)

acquire-AllBounded :
    (o : Option Sem) (time : ℕ) (s : System) → AllBounded o → AllBounded (tn_sem_acquire o time s).1
unfolding tn_sem_acquire
acquire-AllBounded none time s low = tt
acquire-AllBounded (some q) time s low = ground arith

-- A semaphore whose count is at most max_count keeps that, whatever a signal, a polling call or an
-- acquire meets, from a task or from an interrupt.
pub sem-AllBounded :
    (o : Option Sem) (time : ℕ) (s : System)
    → AllBounded o
    → AllBounded (tn_sem_signal o s).1
      × AllBounded (tn_sem_isignal o s).1
      × AllBounded (tn_sem_polling o s).1
      × AllBounded (tn_sem_ipolling o s).1
      × AllBounded (tn_sem_acquire o time s).1
unfolding tn_sem_signal tn_sem_isignal tn_sem_polling tn_sem_ipolling
sem-AllBounded o time s low =
    let signals : (may_call : System → Bool) (next : System → System)
        → AllBounded (on_sem may_call (λ q s. signal next q (s.wait_list q.wait_queue) s) o s).1 =
      λ may_call next.
        on_sem-AllBounded may_call (λ q s. signal next q (s.wait_list q.wait_queue) s) o s
          (λ q low. signal-IsBounded next q (s.wait_list q.wait_queue) s low) low in
    let polls : (may_call : System → Bool) → AllBounded (on_sem may_call poll o s).1 =
      λ may_call. on_sem-AllBounded may_call poll o s (λ q low. poll-IsBounded q s low) low in
    (
      signals in_task switch_context,
      signals in_interrupt request_switch,
      polls in_task,
      polls in_interrupt,
      acquire-AllBounded o time s low,
    )

-- tn_sem_create of an object whose id is not 0 fails, and leaves it with a max_count of 0: whatever
-- it was before, every later signal, polling call and acquire of it, in any state, fails with
-- TERR_WRONG_PARAM and changes nothing.
pub tn_sem_create-again :
    (q : Sem) (start_value max_val : ℕ) (s : System)
    → (q.id_sem == 0) ≡ false
    → (r : Sem) × (tn_sem_create (some q) start_value max_val s ≡ (wrong_param, some r, s))
      × ((s' : System) → tn_sem_signal (some r) s' ≡ (wrong_param, some r, s'))
      × ((s' : System) → tn_sem_ipolling (some r) s' ≡ (wrong_param, some r, s'))
      × ((s' : System) (time : ℕ)
          → tn_sem_acquire (some r) time s' ≡ (returned wrong_param tt, some r, s'))
unfolding tn_sem_create tn_sem_signal tn_sem_ipolling tn_sem_acquire on_sem
tn_sem_create-again q start_value max_val s made = (
  record q { max_count = 0 },
  ground (arith, made),
  (λ s'. refl),
  (λ s'. refl),
  (λ s' time. ground arith),
)
