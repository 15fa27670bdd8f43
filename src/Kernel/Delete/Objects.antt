-- ===== src/Kernel/Delete/Objects.antt =====
-- The deletion of a semaphore and of a data queue, whatever the other tasks do in between but wait
-- there.
use usb_bulk.Prelude.{
  ℕ, ◌≤◌, ◌<◌, ◌≡◌, refl, ap, ◌∙◌, inl, inr, Bool, true, false, some, List, [], arith, ◌==◌,
  Bool-cases, update, update_self, length,
}
use usb_bulk.Kernel.Code.{no_err, dlt}
use usb_bulk.Kernel.Scheduler.{Scheduler}
use usb_bulk.Kernel.Task.{System, in_task, task_wait_complete}
use usb_bulk.Kernel.Task.Released.{task_wait_complete-wait_list}
use usb_bulk.Kernel.Sem.{Sem, tn_id_semaphore}
use usb_bulk.Kernel.Fifo.{Dque}
use usb_bulk.Kernel.Mutex.Endings.{behind_head}
use usb_bulk.Kernel.Delete.{
  system_waiters, sem_waiters, set_dlt, tn_sem_delete, send_waiters, receive_waiters,
  tn_queue_delete,
}
use usb_bulk.Kernel.Delete.Ends.{IsDrainable, drain-ends}

-- The others add no task to the queue.
abbrev pub AddsNone {ℓ} : {X : Type ℓ} → (X → List ℕ) → (X → X) → Type ℓ
AddsNone {X} list others = (x : X) → length (list (others x)) ≤ length (list x)

system_waiters-IsDrainable :
    {A : Type 0} (queue : A → ℕ) (others : A × System → A × System)
    → AddsNone (λ x. x.1.wait_list (queue x.0)) others
    → IsDrainable (λ x. Unit {0}) (system_waiters queue others)
system_waiters-IsDrainable {A} queue others adds_none t ts x p waiting =
    let w = queue x.0 in
    let s : System = record x.1 {
      wait_list = update x.1.wait_list w (behind_head (x.1.wait_list w));
    } in
    let r : Bool × System = task_wait_complete t s in
    let left : r.1.wait_list w ≡ ts =
      ap (λ lists. lists w) (task_wait_complete-wait_list t s)
      ∙ update_self x.1.wait_list w (behind_head (x.1.wait_list w))
      ∙ ap behind_head waiting in
    let n = ap length left in
    (
      (r.0, (x.0, r.1)),
      refl,
      tt,
      elim (Bool-cases r.0) [
        | inl now ↦ rw (now) (omega (arith, n, adds_none (x.0, set_dlt t r.1)))
        | inr later ↦ rw (later) (omega (arith, n))
      ],
    )

-- tn_sem_delete, called in a task, of a semaphore in use, while what the other tasks do between its
-- switches adds no task to the semaphore's queue, and with fuel for more rounds than there are tasks
-- in the queue: the call ends with TERR_NO_ERR, the semaphore exists no more, and no task waits there.
pub tn_sem_delete-ends :
    (others : Sem × System → Sem × System) (fuel : ℕ) (q : Sem) (s : System)
    → (q.id_sem == tn_id_semaphore) ≡ true
    → in_task s ≡ true
    → AddsNone (λ x. x.1.wait_list x.0.wait_queue) others
    → length (s.wait_list q.wait_queue) < fuel
    → (q' : Sem) × (s' : System) × (tn_sem_delete others fuel (some q) s
        ≡ some (no_err, some q', s'))
      × (q'.id_sem ≡ 0)
      × (s'.wait_list q'.wait_queue ≡ [])
unfolding tn_sem_delete
tn_sem_delete-ends others fuel q s made may adds_none enough =
    let (y, e, p, done) =
      drain-ends (λ x. Unit {0}) (sem_waiters others)
        (system_waiters-IsDrainable (λ q. q.wait_queue) others adds_none) fuel (q, s) tt enough in
    (record y.0 { id_sem = 0 }, y.1, simp (made, may, e) refl, refl, done)

module _ {S : Type 0} (sched : Scheduler S) (others : Dque × S → Dque × S) where
  send_waiters-IsDrainable :
      (n : ℕ)
      → AddsNone (λ x. x.0.wait_send_list) others
      → AddsNone (λ x. x.0.wait_receive_list) others
      → IsDrainable (λ x. length x.0.wait_receive_list ≤ n) (send_waiters sched others)
  send_waiters-IsDrainable n sends receives t ts x p waiting =
      let q : Dque = record x.0 { wait_send_list = behind_head x.0.wait_send_list } in
      let r : Bool × S = sched.task_wait_complete t x.1 in
      let y : Dque × S = (q, sched.set_task_wait_rc t dlt r.1) in
      let m = ap length (ap behind_head waiting) in
      (
        (r.0, (q, r.1)),
        refl,
        elim (Bool-cases r.0) [
          | inl now ↦ rw (now) (omega (arith, p, receives y))
          | inr later ↦ rw (later) p
        ],
        elim (Bool-cases r.0) [
          | inl now ↦ rw (now) (omega (arith, m, sends y))
          | inr later ↦ rw (later) (omega (arith, m))
        ],
      )

  receive_waiters-IsDrainable :
      AddsNone (λ x. x.0.wait_send_list) others
      → AddsNone (λ x. x.0.wait_receive_list) others
      → IsDrainable (λ x. length x.0.wait_send_list ≤ 0) (receive_waiters sched others)
  receive_waiters-IsDrainable sends receives t ts x p waiting =
      let q : Dque = record x.0 { wait_receive_list = behind_head x.0.wait_receive_list } in
      let r : Bool × S = sched.task_wait_complete t x.1 in
      let y : Dque × S = (q, sched.set_task_wait_rc t dlt r.1) in
      let m = ap length (ap behind_head waiting) in
      (
        (r.0, (q, r.1)),
        refl,
        elim (Bool-cases r.0) [
          | inl now ↦ rw (now) (omega (arith, p, sends y))
          | inr later ↦ rw (later) p
        ],
        elim (Bool-cases r.0) [
          | inl now ↦ rw (now) (omega (arith, m, receives y))
          | inr later ↦ rw (later) (omega (arith, m))
        ],
      )

  -- tn_queue_delete, called in a task, of a data queue in use, while what the other tasks do between
  -- its switches adds no task to either of the queue's lists, and with fuel for more rounds than there
  -- are tasks in each: the call ends with TERR_NO_ERR, the queue exists no more, and no task waits to
  -- send or to receive.
  pub tn_queue_delete-ends :
      (fuel : ℕ) (q : Dque) (s : S)
      → q.is_created ≡ true
      → sched.in_task s ≡ true
      → AddsNone (λ x. x.0.wait_send_list) others
      → AddsNone (λ x. x.0.wait_receive_list) others
      → length q.wait_send_list < fuel
      → length q.wait_receive_list < fuel
      → (q' : Dque) × (s' : S) × (tn_queue_delete sched others fuel (some q) s
          ≡ some (no_err, some q', s'))
        × (q'.is_created ≡ false)
        × (length q'.wait_send_list ≡ 0)
        × (length q'.wait_receive_list ≡ 0)
  unfolding tn_queue_delete
  tn_queue_delete-ends fuel q s made may sends receives enough enough' =
      let n = length q.wait_receive_list in
      let (x, sent, p, no_sender) =
        drain-ends (λ x. length x.0.wait_receive_list ≤ n) (send_waiters sched others)
          (send_waiters-IsDrainable n sends receives) fuel (q, s) (omega arith) enough in
      let none_left = ap length no_sender in
      let (y, received, p', no_receiver) =
        drain-ends (λ x. length x.0.wait_send_list ≤ 0) (receive_waiters sched others)
          (receive_waiters-IsDrainable sends receives) fuel x (omega (arith, none_left))
          (omega (arith, p, enough')) in
      (
        record y.0 { is_created = false },
        y.1,
        simp (made, may, sent, received) refl,
        refl,
        omega (arith, p'),
        ap length no_receiver,
      )
