-- ===== src/Kernel/Fifo.antt =====
-- The storage of a data queue: dque_fifo_write and dque_fifo_read of TNKernel/tn_utils.c.
pub mod Contents
pub mod Laws
use usb_bulk.Prelude.{
  ℕ, ◌+◌, ◌-◌, Bool, true, false, ◌&&◌, ◌||◌, Option, none, some, List, ◌==◌, leb, if◌then◌else◌,
  get_elem?, set,
}
use usb_bulk.Kernel.Code.{Code, no_err, overflow, underflow, out_of_mem}

-- TN_DQUE. A wait list holds its tasks from its head on; `is_created` is `id_dque == TN_ID_DATAQUEUE`.
-- The counters and `num_entries` are never negative.
pub record Dque : Type 0 where
  pub wait_send_list : List ℕ
  pub wait_receive_list : List ℕ
  pub data_fifo : List ℕ
  pub num_entries : ℕ
  pub tail_cnt : ℕ
  pub header_cnt : ℕ
  pub is_created : Bool

-- The test of dque_fifo_write and of ep_rx_DD_request. `header_cnt == tail_cnt - 1` is written so
-- that it fails at 0, as it does there.
unfoldable pub is_full : Dque → Bool
is_full q = (q.tail_cnt == 0 && q.header_cnt == q.num_entries - 1) || q.header_cnt + 1 == q.tail_cnt

-- A counter moves to the next entry, and from the last to the first.
abbrev pub advance : ℕ → ℕ → ℕ
advance n i = if leb n (i + 1) then 0 else i + 1

-- The callers pass no null pointer, so that the tests for one are left out, here and in the read.
-- A write outside the array changes nothing here; `Laws` shows that there is none.
unfoldable pub dque_fifo_write : Dque → ℕ → Code × Dque
unfolding is_full
dque_fifo_write q x =
    if q.num_entries == 0 then (out_of_mem, q) else if is_full q then (overflow, q) else (
      no_err,
      record q {
        data_fifo = set q.data_fifo q.header_cnt x;
        header_cnt = advance q.num_entries q.header_cnt;
      },
    )

-- The option is what goes to `*data_ptr`.
unfoldable pub dque_fifo_read : Dque → Code × Option ℕ × Dque
dque_fifo_read q =
    if q.num_entries == 0
    then (out_of_mem, none, q)
    else if q.tail_cnt == q.header_cnt
    then (underflow, none, q)
    else (
      no_err,
      get_elem? q.data_fifo q.tail_cnt,
      record q { tail_cnt = advance q.num_entries q.tail_cnt },
    )
