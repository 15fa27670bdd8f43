-- ===== src/Tests/Objects.antt =====
-- Tests of Kernel.Sem, Kernel.Event and Kernel.Links.
use usb_bulk.Prelude.{
  ℕ, ◌≡◌, refl, true, false, not, some, [], ◌∷◌, arith, ◌==◌, if◌then◌else◌, update, count,
  count-cons, count-is_empty,
}
use usb_bulk.Kernel.Code.{no_err}
use usb_bulk.Kernel.Task.{
  System, waitsusp, in_task, in_interrupt, task_curr_to_wait_action, switch_context,
  task_to_runnable,
}
use usb_bulk.Kernel.Task.Services.{tn_task_create, create_task}
use usb_bulk.Kernel.Ticks.{tn_start_system}
use usb_bulk.Kernel.Task.Consistent.{IsConsistent}
use usb_bulk.Kernel.Sem.{
  Sem, tn_id_semaphore, tn_sem_signal, tn_sem_isignal, tn_sem_polling, tn_sem_ipolling,
  tn_sem_acquire,
}
use usb_bulk.Kernel.Sem.Laws.{AllBounded, sem-AllBounded}
use usb_bulk.Kernel.Event.{Event, tn_id_event, tn_event_wait, tn_event_iset}
use usb_bulk.Kernel.Event.Scan.{unmet, task_met}
use usb_bulk.Kernel.Event.Release.{IsReleased, tn_event_iset-IsReleased}
use usb_bulk.Kernel.Links.{Links, queue_add_tail, queue_remove_entry, queue_contains_entry}
use usb_bulk.Kernel.Links.Ring.{IsSeg, IsRing, queue_add_tail-IsRing}
use usb_bulk.Kernel.Links.Walk.{queue_remove_entry-IsRing, queue_contains_entry-IsRing}
use usb_bulk.Kernel.Steps.{Step, Reach}
use usb_bulk.Kernel.Steps.Reached.{Reach-IsConsistent}
use usb_bulk.Tests.Scheduling.{two_tasks, task_tcb, running, running-Reach, running_live}

-- A semaphore of two, of which one is left; its tasks are those of queue 9.
abbrev pub two : Sem
two = record { wait_queue = 9; count = 1; max_count = 2; id_sem = tn_id_semaphore }

-- Task 3 waits there, and is suspended too.
abbrev pub waiting : System
waiting = record (two_tasks (task_tcb waitsusp)) { wait_list = update (λ w. []) 9 (3 ∷ []) }

in_interrupt_waiting : in_interrupt waiting ≡ true
unfolding in_interrupt
in_interrupt_waiting = refl

sem-AllBounded_example :
    AllBounded (tn_sem_signal (some two) waiting).1
    × AllBounded (tn_sem_isignal (some two) waiting).1
    × AllBounded (tn_sem_polling (some two) waiting).1
    × AllBounded (tn_sem_ipolling (some two) waiting).1
    × AllBounded (tn_sem_acquire (some two) 5 waiting).1
sem-AllBounded_example = sem-AllBounded (some two) 5 waiting (omega arith)

-- An event flag, for whose bit 2 task 2 waits.
abbrev pub flag : Event
flag = record { wait_queue = 9; attr = 2; pattern = 1; id_event = tn_id_event }

abbrev pub expecting : System
expecting = (tn_event_wait (some flag) 4 8 true 10 running).2

expecting-Reach : Reach expecting
expecting-Reach = Reach.step running-Reach (Step.waits_event (some flag) 4 8 true 10 running_live)

in_interrupt_expecting : in_interrupt expecting ≡ true
unfolding in_interrupt in_task tn_event_wait task_curr_to_wait_action switch_context tn_start_system
    tn_task_create create_task task_to_runnable
in_interrupt_expecting = refl

tn_event_iset-IsReleased_example :
    let queue = expecting.wait_list 9 in
    (e' : Event) × (s' : System) × (tn_event_iset (some flag) 4 expecting ≡ (no_err, some e', s'))
    × (s'.wait_list 9 ≡ unmet 5 expecting.tcb queue)
    × ((t : ℕ)
        → (count t queue == 0) ≡ false
        → task_met 5 (expecting.tcb t) ≡ true
        → IsReleased 5 (s'.tcb t))
    × ((t : ℕ) → count t queue ≡ 0 → s'.tcb t ≡ expecting.tcb t)
    × IsConsistent s'
tn_event_iset-IsReleased_example =
    tn_event_iset-IsReleased flag 4 expecting refl refl in_interrupt_expecting
      (Reach-IsConsistent expecting expecting-Reach)

-- A queue, node 1, with the entry 2; and another one, node 5, that is empty.
abbrev pub one_entry : Links
one_entry = record {
  prev = λ x. if x == 1 then 2 else if x == 2 then 1 else x;
  next = λ x. if x == 1 then 2 else if x == 2 then 1 else x;
}

one_entry-IsRing : IsRing one_entry 1 (2 ∷ [])
unfolding IsSeg
one_entry-IsRing = record {
  seg = (refl, refl, (refl, refl));
  once = λ u. ground (arith, count-cons u 1 (2 ∷ []), count-cons u 2 [], count-is_empty u [] refl);
}

not_an_entry : count 3 (1 ∷ 2 ∷ []) ≡ 0
not_an_entry = ground (arith, count-cons 3 1 (2 ∷ []), count-cons 3 2 [], count-is_empty 3 [] refl)

queue_add_tail-IsRing_example : IsRing (queue_add_tail 1 3 one_entry) 1 (2 ∷ 3 ∷ [])
queue_add_tail-IsRing_example =
    queue_add_tail-IsRing one_entry 1 3 (2 ∷ []) one_entry-IsRing not_an_entry

queue_remove_entry-IsRing_example : IsRing (queue_remove_entry 2 one_entry) 1 []
queue_remove_entry-IsRing_example = queue_remove_entry-IsRing one_entry 1 2 [] [] one_entry-IsRing

queue_contains_entry-IsRing_example :
    queue_contains_entry 3 1 2 one_entry ≡ some (not (count 2 (2 ∷ []) == 0))
queue_contains_entry-IsRing_example =
    queue_contains_entry-IsRing one_entry 1 2 (2 ∷ []) one_entry-IsRing refl 3 (omega arith)
