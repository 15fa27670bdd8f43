-- ===== src/Tests/Storage.antt =====
-- Tests of the storage of Kernel.
use usb_bulk.Prelude.{
  ℕ, ◌≡◌, refl, true, false, Option, some, List, [], ◌∷◌, arith, ◌==◌, if◌then◌else◌,
}
use usb_bulk.Kernel.Code.{Code, timeout, no_err, overflow}
use usb_bulk.Kernel.Fifo.{Dque, dque_fifo_write, dque_fifo_read}
use usb_bulk.Kernel.Fifo.Contents.{contents}
use usb_bulk.Kernel.Fifo.Laws.{IsValid, dque_fifo_write-push, dque_fifo_read-pop}
use usb_bulk.Kernel.Queue.{tn_queue_isend_polling, tn_queue_ireceive}
use usb_bulk.Kernel.Queue.Order.{tn_queue_isend_polling-sent, pending, tn_queue_ireceive-first}
use usb_bulk.Kernel.Pool.{Fmp, Cells, tn_fmem_create, tn_fmem_irelease}
use usb_bulk.Kernel.Pool.Free.{FreeList, IsApart, IsPool, tn_fmem_irelease-free}
use usb_bulk.Kernel.Pool.Create.{IsOutcome, tn_fmem_create-IsOutcome}
use usb_bulk.Tests.Inputs.{tasks, tasks-Keeps, own_number}

-- Three entries of which two can be used, the second element in the first entry; task 9 waits to send.
abbrev pub full_queue : List ℕ → Dque
full_queue ts = record {
  wait_send_list = ts;
  wait_receive_list = [];
  data_fifo = 8 ∷ 0 ∷ 7 ∷ [];
  num_entries = 3;
  tail_cnt = 2;
  header_cnt = 1;
  is_created = true;
}

pub full_queue-IsValid : (ts : List ℕ) → IsValid (full_queue ts)
full_queue-IsValid ts = record { storage = refl; tail_in = omega arith; header_in = omega arith }

dque_fifo_write-push_example :
    let (rc, r) = dque_fifo_write (full_queue []) 9 in
    (◌≡◌ {A = Code × List ℕ} (rc, contents r) (overflow, 7 ∷ 8 ∷ []))
    × IsValid r
    × (r.num_entries ≡ 3)
dque_fifo_write-push_example = dque_fifo_write-push (full_queue []) 9 (full_queue-IsValid [])

dque_fifo_read-pop_example :
    let (rc, out, r) = dque_fifo_read (full_queue []) in
    (◌≡◌ {A = Code × Option ℕ × List ℕ} (rc, out, contents r) (no_err, some 7, 8 ∷ []))
    × IsValid r
    × (r.num_entries ≡ 3)
dque_fifo_read-pop_example = dque_fifo_read-pop (full_queue []) (full_queue-IsValid [])

tn_queue_ireceive-first_example :
    (out : Code × Option ℕ) × (r : Dque) × (s' : ℕ → ℕ) × (tn_queue_ireceive tasks
        (some (full_queue (9 ∷ [])))
        true
        own_number
      ≡ (out.0, out.1, some r, s'))
    × (◌≡◌ {A = Code × Option ℕ × List ℕ}
        (out.0, out.1, pending tasks r s')
        (no_err, some 7, 8 ∷ 9 ∷ []))
    × IsValid r
tn_queue_ireceive-first_example =
    tn_queue_ireceive-first tasks tasks-Keeps (full_queue (9 ∷ [])) own_number
      (full_queue-IsValid (9 ∷ [])) refl refl

-- Task 6 waits to receive, and behind it task 5.
abbrev awaited_queue : Dque
awaited_queue = record (full_queue []) { wait_receive_list = 6 ∷ 5 ∷ [] }

-- Blocks of 16 bytes at 32, 48 and 64, of which the one at 32 is not free.
abbrev pub chained : Cells
chained p = if p == 48 then 64 else 0

abbrev pub pool : Fmp
pool = record {
  wait_queue = [];
  start_addr = 32;
  block_size = 16;
  num_blocks = 3;
  free_list = 48;
  fblkcnt = 2;
  is_created = true;
}

pub pool-IsPool : IsPool pool chained (48 ∷ 64 ∷ [])
unfolding FreeList
pool-IsPool = record {
  chain = (refl, omega arith, (refl, omega arith, refl));
  counted = refl;
  bounded = omega arith;
}

pub IsApart-32 : IsApart 32 (48 ∷ 64 ∷ [])
unfolding IsApart
IsApart-32 = (omega arith, (omega arith, tt))

abbrev unused : Fmp
unused = record pool { is_created = false }

tn_fmem_create-IsOutcome_example :
    (r : Code × Option Fmp × Cells) × (tn_fmem_create 5 (some unused) chained 33 10 4 ≡ some r)
    × IsOutcome unused chained 33 10 4 r
tn_fmem_create-IsOutcome_example =
    tn_fmem_create-IsOutcome unused chained 33 10 4 5 (omega arith) (omega arith) (omega arith)

tn_queue_isend_polling-sent_example :
    (r : Dque) × (tn_queue_isend_polling tasks (some (full_queue [])) 9 own_number
      ≡ (timeout, some r, own_number))
    × (contents r ≡ 7 ∷ 8 ∷ [])
    × IsValid r
tn_queue_isend_polling-sent_example =
    tn_queue_isend_polling-sent tasks (full_queue []) 9 own_number (full_queue-IsValid []) refl refl
      refl

tn_fmem_irelease-free_example :
    (g : Fmp) × (m' : Cells) × (tn_fmem_irelease tasks (some pool) 32 chained own_number
      ≡ (no_err, some g, m', own_number))
    × IsPool g m' (32 ∷ 48 ∷ 64 ∷ [])
tn_fmem_irelease-free_example =
    tn_fmem_irelease-free tasks pool chained 32 own_number (48 ∷ 64 ∷ []) pool-IsPool refl refl refl
      (omega arith) IsApart-32 (omega arith)
