-- ===== src/Kernel/Queue/Handed.antt =====
-- A new data queue, and an element that is handed to a task that waits for one.
use usb_bulk.Prelude.{ℕ, ◌<◌, ◌≡◌, refl, ◌∙◌, true, false, some, List, [], ◌∷◌, length}
use usb_bulk.Kernel.Code.{no_err}
use usb_bulk.Kernel.Scheduler.{Scheduler}
use usb_bulk.Kernel.Fifo.{Dque}
use usb_bulk.Kernel.Fifo.Contents.{contents}
use usb_bulk.Kernel.Fifo.Laws.{IsValid}
use usb_bulk.Kernel.Queue.{tn_queue_create, complete, send_now, tn_queue_isend_polling}
use usb_bulk.Kernel.Queue.Order.{Keeps}

-- tn_queue_create with an array of as many entries as it says, one at least, makes of an object that
-- is no data queue yet a valid one in use, which holds nothing and on which no task waits.
pub tn_queue_create-IsValid :
    (q : Dque) (xs : List ℕ) (n : ℕ)
    → q.is_created ≡ false
    → length xs ≡ n
    → 0 < n
    → (r : Dque) × (tn_queue_create (some q) (some xs) (some n) ≡ (no_err, some r))
      × IsValid r
      × (contents r ≡ [])
      × (r.is_created ≡ true)
      × (r.wait_send_list ≡ [])
      × (r.wait_receive_list ≡ [])
unfolding tn_queue_create
tn_queue_create-IsValid q xs n fresh e pos = (
  record {
    wait_send_list = [];
    wait_receive_list = [];
    data_fifo = xs;
    num_entries = n;
    tail_cnt = 0;
    header_cnt = 0;
    is_created = true;
  },
  simp (fresh) refl,
  record { storage = e; tail_in = pos; header_in = pos },
  refl,
  refl,
  refl,
  refl,
)

module _ {S : Type 0} (sched : Scheduler S) where
  -- The assignment of a task's element is seen by that task.
  abbrev pub Stores : Type 0
  Stores = (t x : ℕ) (s : S) → sched.data_elem t (sched.set_data_elem t x s) ≡ x

  -- While a task waits to receive, an element sent from an interrupt is that task's element, its wait
  -- ends and the others' go on; the send succeeds however full the storage is, and the contents stay as
  -- they are. The conditions on the scheduler: the assignment of a task's element is seen by it, and
  -- the end of a wait changes no element.
  pub tn_queue_isend_polling-handed :
      Stores
      → Keeps sched
      → (q : Dque) (x task : ℕ) (tasks : List ℕ) (s : S) → q.is_created ≡ true
      → q.wait_receive_list ≡ task ∷ tasks
      → sched.in_interrupt s ≡ true
      → (r : Dque) × (s' : S) × (tn_queue_isend_polling sched (some q) x s ≡ (no_err, some r, s'))
        × (contents r ≡ contents q)
        × (r.wait_receive_list ≡ tasks)
        × (sched.data_elem task s' ≡ x)
  unfolding tn_queue_isend_polling send_now
  tn_queue_isend_polling-handed stores keeps q x task tasks s made waiting may = (
    record q { wait_receive_list = tasks },
    complete sched task (sched.set_data_elem task x s),
    simp (made, may, waiting) refl,
    refl,
    refl,
    keeps task task (sched.set_data_elem task x s) ∙ stores task x s,
  )
