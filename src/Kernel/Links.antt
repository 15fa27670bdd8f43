-- ===== src/Kernel/Links.antt =====
-- The circular doubly linked lists of TNKernel/tn_utils.c, as a store of links: a node, a queue or an
-- entry, is named by a number. What Ready and Task say of lists is what these functions do on whole
-- rings; Ring is about those, and about an entry that is linked twice.
pub mod Ring
pub mod Walk
use usb_bulk.Prelude.{
  ℕ, zero, suc, Bool, true, false, ◌&&◌, Option, none, some, ◌==◌, if◌then◌else◌, update,
}

pub record Links : Type 0 where
  pub prev : ℕ → ℕ
  pub next : ℕ → ℕ

abbrev pub set_next : ℕ → ℕ → Links → Links
set_next a b h = record h { next = update h.next a b }

abbrev pub set_prev : ℕ → ℕ → Links → Links
set_prev a b h = record h { prev = update h.prev a b }

unfoldable pub queue_reset : ℕ → Links → Links
queue_reset que h = set_prev que que (set_next que que h)

unfoldable pub is_queue_empty : ℕ → Links → Bool
is_queue_empty que h = h.next que == que && h.prev que == que

unfoldable pub queue_add_head : ℕ → ℕ → Links → Links
queue_add_head que entry h =
    let h1 = set_next entry (h.next que) h in
    let h2 = set_prev entry que h1 in
    let h3 = set_prev (h2.next entry) entry h2 in set_next que entry h3

unfoldable pub queue_add_tail : ℕ → ℕ → Links → Links
queue_add_tail que entry h =
    let h1 = set_next entry que h in
    let h2 = set_prev entry (h1.prev que) h1 in
    let h3 = set_next (h2.prev entry) entry h2 in set_prev que entry h3

-- The callers pass no null pointer.
unfoldable pub queue_remove_head : ℕ → Links → Option ℕ × Links
queue_remove_head que h =
    let entry = h.next que in
    let h1 = set_prev (h.next entry) que h in
    if h.next que == que then (none, h) else (some entry, set_next que (h1.next entry) h1)

unfoldable pub queue_remove_tail : ℕ → Links → Option ℕ × Links
queue_remove_tail que h =
    let entry = h.prev que in
    let h1 = set_next (h.prev entry) que h in
    if h.prev que == que then (none, h) else (some entry, set_prev que (h1.prev entry) h1)

unfoldable pub queue_remove_entry : ℕ → Links → Links
queue_remove_entry entry h =
    let h1 = set_next (h.prev entry) (h.next entry) h in set_prev (h1.next entry) (h1.prev entry) h1

-- The search, on fuel; `none` is where it runs out.
unfoldable pub search_entry : ℕ → ℕ → ℕ → ℕ → Links → Option Bool
search_entry zero curr_que que entry h = none
search_entry (suc n) curr_que que entry h =
    let later = search_entry n (h.next curr_que) que entry h in
    if curr_que == entry then some true else if h.next curr_que == que then some false else later

unfoldable pub queue_contains_entry : ℕ → ℕ → ℕ → Links → Option Bool
unfolding search_entry
queue_contains_entry fuel que entry h = search_entry fuel (h.next que) que entry h
