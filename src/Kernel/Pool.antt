-- ===== src/Kernel/Pool.antt =====
-- Pools of fixed-size blocks: TNKernel/tn_mem.c, but for tn_fmem_delete, which is in Delete. A
-- free block's first cell holds the next one's address, and 0 is the null pointer. Memory is seen as cells of a pointer each, by address.
pub mod Free
pub mod Linked
pub mod Create
use usb_bulk.Prelude.{
  ℕ, zero, suc, ◌+◌, ◌-◌, ◌*◌, ◌/◌, ◌%◌, int_mod, gt_int, not, Bool, true, false, ◌||◌, ◌&&◌,
  Option, none, some, List, [], ◌∷◌, ◌++◌, ◌==◌, ltb, if◌then◌else◌,
}
use usb_bulk.Kernel.Code.{Code, no_err, overflow, wcontext, timeout, wrong_param, noexs}
use usb_bulk.Kernel.Scheduler.{Scheduler, wfixmem}
use usb_bulk.Kernel.Queue.{Reply, returned, waits, complete}

-- TN_FMP
pub record Fmp : Type 0 where
  pub wait_queue : List ℕ
  pub start_addr : ℕ
  pub block_size : ℕ
  pub num_blocks : ℕ
  pub free_list : ℕ
  pub fblkcnt : ℕ
  pub is_created : Bool

abbrev pub Cells : Type 0
Cells = ℕ → ℕ

abbrev pub put_cell : Cells → ℕ → ℕ → Cells
put_cell m p v a = if a == p then v else m a

-- The next multiple of TN_ALIG, 4, of an unsigned int
abbrev pub aligned : ℕ → ℕ
aligned x = (x + 3) % int_mod / 4 * 4

-- The loop that counts the blocks down from `n` while their end `last` is behind `limit`, on unsigned
-- ints, and an int for `n`; none where `fuel` rounds do not end it.
unfoldable pub fitting : ℕ → ℕ → ℕ → ℕ → ℕ → Option ℕ
fitting zero limit last size n = none
fitting (suc fuel) limit last size n =
    let fewer = (n + int_mod - 1) % int_mod in
    let rest = fitting fuel limit ((last + int_mod - size) % int_mod) size fewer in
    if ltb limit last then rest else some n

-- The cells of `n` blocks from `p` on, each holding the next one's address and the last 0.
unfoldable pub link_blocks : Cells → ℕ → ℕ → ℕ → Cells
link_blocks m p size zero = put_cell m p 0
link_blocks m p size (suc n) =
    let next = (p + size) % int_mod in link_blocks (put_cell m p next) next size n

-- A pool of `num_blocks`, an int, from `start` on.
unfoldable pub tn_fmem_create :
    ℕ → Option Fmp → Cells → ℕ → ℕ → ℕ → Option (Code × Option Fmp × Cells)
unfolding fitting link_blocks
tn_fmem_create fuel none m start block_size num_blocks = some (wrong_param, none, m)
tn_fmem_create fuel (some f) m start block_size num_blocks =
    if f.is_created
    then some (wrong_param, some f, m)
    else if start == 0 || not (gt_int num_blocks 1) || ltb block_size 4
    then some (
      wrong_param,
      some (record f { fblkcnt = 0; num_blocks = 0; is_created = false; free_list = 0 }),
      m,
    )
    else let first = aligned start in
      let size = aligned block_size in
      let limit = (start + block_size * num_blocks) % int_mod in
      let last = (first + size * num_blocks) % int_mod in
      let g = record f { wait_queue = []; start_addr = first; block_size = size } in
      elim (fitting fuel limit last size num_blocks) [
        | none ↦ none
        | some n ↦
            if gt_int n 1
            then some (
              no_err,
              some (record g { num_blocks = n; free_list = first; fblkcnt = n; is_created = true }),
              link_blocks m first size (n - 1),
            )
            else some
                (wrong_param, some (record g { fblkcnt = 0; num_blocks = 0; free_list = 0 }), m)
      ]

-- 0 is NULL.
unfoldable pub fm_get : Fmp → Cells → ℕ × Fmp
fm_get f m =
    if ltb 0 f.fblkcnt
    then (f.free_list, record f { free_list = m f.free_list; fblkcnt = f.fblkcnt - 1 })
    else (0, f)

unfoldable pub fm_put : Fmp → Cells → ℕ → Code × Fmp × Cells
fm_put f m p =
    if ltb f.fblkcnt f.num_blocks
    then (no_err, record f { free_list = p; fblkcnt = f.fblkcnt + 1 }, put_cell m p f.free_list)
    else (overflow, f, m)

module _ {S : Type 0} (sched : Scheduler S) where
  -- A polling get, where `may_call` is the test of the context and `has_place` is `p_data != NULL`.
  unfoldable pub get_polling :
      (S → Bool) → Option Fmp → Bool → Cells → S → Code × Option ℕ × Option Fmp
  get_polling may_call none has_place m s = (wrong_param, none, none)
  get_polling may_call (some f) false m s = (wrong_param, none, some f)
  get_polling may_call (some f) true m s =
      if f.is_created
      then if may_call s
        then (let (p, g) = fm_get f m in
            if p == 0 then (timeout, none, some g) else (no_err, some p, some g))
        else (wcontext, none, some f)
      else (noexs, none, some f)

  unfoldable pub tn_fmem_get_polling : Option Fmp → Bool → Cells → S → Code × Option ℕ × Option Fmp
  unfolding get_polling
  tn_fmem_get_polling = get_polling sched.in_task

  unfoldable pub tn_fmem_get_ipolling : Option Fmp → Bool → Cells → S → Code × Option ℕ × Option Fmp
  unfolding get_polling
  tn_fmem_get_ipolling = get_polling sched.in_interrupt

  unfoldable pub tn_fmem_get : Option Fmp → Bool → ℕ → Cells → S → Reply (Option ℕ) × Option Fmp × S
  tn_fmem_get none has_place time m s = (returned wrong_param none, none, s)
  tn_fmem_get (some f) false time m s = (returned wrong_param none, some f, s)
  tn_fmem_get (some f) true time m s =
      if time == 0
      then (returned wrong_param none, some f, s)
      else if f.is_created
      then if sched.in_task s
        then (let (p, g) = fm_get f m in
            if p == 0
            then (
              waits,
              some (record g { wait_queue = g.wait_queue ++ (sched.curr_run_task s ∷ []) }),
              sched.request_switch (sched.curr_to_wait wfixmem time s),
            )
            else (returned no_err (some p), some g, s))
        else (returned wcontext none, some f, s)
      else (returned noexs none, some f, s)

  -- The block goes to the first task that waits, or to the free list.
  unfoldable pub put_or_hand : List ℕ → Fmp → ℕ → Cells → S → Fmp × Cells × S
  put_or_hand [] f p m s = let (rc, g, m') = fm_put f m p in (g, m', s)
  put_or_hand (task ∷ tasks) f p m s =
      (record f { wait_queue = tasks }, m, complete sched task (sched.set_data_elem task p s))

  unfoldable pub release : (S → Bool) → Option Fmp → ℕ → Cells → S → Code × Option Fmp × Cells × S
  unfolding put_or_hand
  release may_call none p m s = (wrong_param, none, m, s)
  release may_call (some f) p m s =
      if p == 0
      then (wrong_param, some f, m, s)
      else if f.is_created
      then if may_call s
        then (let (g, m', s') = put_or_hand f.wait_queue f p m s in (no_err, some g, m', s'))
        else (wcontext, some f, m, s)
      else (noexs, some f, m, s)

  unfoldable pub tn_fmem_release : Option Fmp → ℕ → Cells → S → Code × Option Fmp × Cells × S
  unfolding release
  tn_fmem_release = release sched.in_task

  unfoldable pub tn_fmem_irelease : Option Fmp → ℕ → Cells → S → Code × Option Fmp × Cells × S
  unfolding release
  tn_fmem_irelease = release sched.in_interrupt
