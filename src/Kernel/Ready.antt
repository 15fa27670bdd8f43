-- ===== src/Kernel/Ready.antt =====
-- The tasks that are ready to run, tn_ready_list, tn_ready_to_run_bmp and tn_next_task_to_run, and
-- what TNKernel/tn_tasks.c does to them: find_next_task_to_run, task_to_non_runnable,
-- task_to_runnable and change_running_task_priority.
-- A task is named by a number; a list holds its tasks from its head on, and the removal of an entry
-- takes the task out of its list. Priority 0 is the highest.
pub mod First
pub mod Removed
pub mod Added
pub mod Changed
use usb_bulk.Prelude.{
  ℕ, zero, suc, ◌-◌, ◌^◌, Bool, true, false, Option, none, some, List, [], ◌∷◌, ◌++◌, bit_and,
  bit_or, ◌==◌, ltb, leb, if◌then◌else◌, update, is_empty, head?, remove,
}
use usb_bulk.Prelude.Words.{bit}

pub record Ready : Type 0 where
  pub ready_list : ℕ → List ℕ
  pub ready_to_run_bmp : ℕ
  pub next_task_to_run : Option ℕ

abbrev pub num_priority : ℕ
num_priority = 32

-- `tn_ready_to_run_bmp & mask` for the mask of bit i, from bit i on and for n bits more: the loop of
-- find_next_task_to_run. In its place the build calls ffs_asm, which is assembler.
unfoldable pub first_bit : ℕ → ℕ → ℕ → ℕ
first_bit zero i bmp = 0
first_bit (suc n) i bmp = let later = first_bit n (suc i) bmp in if bit bmp i then i else later

unfoldable pub find_next_task_to_run : Ready → Ready
find_next_task_to_run r = record r {
  next_task_to_run = head? (r.ready_list (first_bit num_priority 0 r.ready_to_run_bmp));
}

-- `bmp &= ~(1 << priority)`
abbrev pub clear_bit : ℕ → ℕ → ℕ
clear_bit bmp p = bit_and bmp (2 ^ num_priority - 1 - 2 ^ p)

abbrev pub set_bit : ℕ → ℕ → ℕ
set_bit bmp p = bit_or bmp (2 ^ p)

abbrev pub is_next : Option ℕ → ℕ → Bool
is_next none t = false
is_next (some u) t = t == u

-- task_to_non_runnable, of task `t` with priority `p`
unfoldable pub to_non_runnable : ℕ → ℕ → Ready → Ready
unfolding find_next_task_to_run
to_non_runnable t p r =
    let que = remove t (r.ready_list p) in
    let r' = record r { ready_list = update r.ready_list p que } in
    if is_empty que
    then (let bmp = clear_bit r.ready_to_run_bmp p in
        if bmp == 0
        then record r' { ready_to_run_bmp = bmp; next_task_to_run = none }
        else find_next_task_to_run (record r' { ready_to_run_bmp = bmp }))
    else if is_next r.next_task_to_run t
    then record r' { next_task_to_run = head? que }
    else r'

-- Whether priority `p` is higher than that of the next task, or there is none. `prio` is
-- `task->priority`.
abbrev pub is_higher : (ℕ → ℕ) → ℕ → Option ℕ → Bool
is_higher prio p none = true
is_higher prio p (some n) = ltb p (prio n)

-- task_to_runnable, but for the fields of the task itself
unfoldable pub to_runnable : (ℕ → ℕ) → ℕ → ℕ → Ready → Ready
to_runnable prio t p r = record r {
  ready_list = update r.ready_list p (r.ready_list p ++ (t ∷ []));
  ready_to_run_bmp = set_bit r.ready_to_run_bmp p;
  next_task_to_run = if is_higher prio p r.next_task_to_run then some t else r.next_task_to_run;
}

-- change_running_task_priority, of `t` from `old` to `new`. The Boolean is whether the code returns
-- tn_enable_switch_context, and not 0. `prio` is the priority of the other tasks.
unfoldable pub change_priority : (ℕ → ℕ) → ℕ → ℕ → ℕ → Ready → Bool × Ready
unfolding find_next_task_to_run
change_priority prio t old new r =
    let que = remove t (r.ready_list old) in
    let lists = update r.ready_list old que in
    let bmp = if is_empty que then clear_bit r.ready_to_run_bmp old else r.ready_to_run_bmp in
    let r' = record r {
      ready_list = update lists new (lists new ++ (t ∷ []));
      ready_to_run_bmp = set_bit bmp new;
    } in
    if is_next r.next_task_to_run t
    then if leb old new
      then (let found = find_next_task_to_run r' in
          (if is_next found.next_task_to_run t then false else true, found))
      else (false, r')
    else if is_higher prio new r.next_task_to_run
    then (true, record r' { next_task_to_run = some t })
    else (false, r')
