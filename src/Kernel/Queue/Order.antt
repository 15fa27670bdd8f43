-- ===== src/Kernel/Queue/Order.antt =====
-- The order of a data queue's elements, those of the tasks that wait to send included.
use usb_bulk.Prelude.{
  ℕ, ◌+◌, ◌<◌, ◌≡◌, refl, sym, ap, ap₂, ◌∙◌, true, Option, none, some, List, [], ◌∷◌, ◌++◌,
  append_assoc, arith, ◌==◌, if◌then◌else◌, length, get_or, inl, inr, map,
}
use usb_bulk.Kernel.Code.{Code, no_err, timeout}
use usb_bulk.Kernel.Scheduler.{Scheduler}
use usb_bulk.Kernel.Fifo.{Dque, dque_fifo_write, dque_fifo_read}
use usb_bulk.Kernel.Fifo.Contents.{length-entries, contents, used}
use usb_bulk.Kernel.Fifo.Laws.{
  zero-cases, dque_fifo_read-none, dque_fifo_read-some, taken, taken-IsValid, used-taken, used_lt,
  contents-taken, wait_send_list-dque_fifo_write, IsValid, push, dque_fifo_write-push,
}
use usb_bulk.Kernel.Queue.{
  complete, tn_queue_isend_polling, or_timeout, refill, from_sender, received, tn_queue_ireceive,
}

-- What the sender is told and what the queue holds then.
abbrev pub sent : ℕ → List ℕ → ℕ → Code × List ℕ
sent n xs x = if length xs + 1 == n then (timeout, xs) else (no_err, xs ++ (x ∷ []))

or_timeout-push :
    (n : ℕ) (xs : List ℕ) (x : ℕ) → (or_timeout (push n xs x).0, (push n xs x).1) ≡ sent n xs x
or_timeout-push n xs x = ground arith

pub length-contents : (q : Dque) → length (contents q) ≡ used q
length-contents q = length-entries q.data_fifo q.num_entries q.tail_cnt (used q)

module _ {S : Type 0} (sched : Scheduler S) where
  isend-write :
      (q : Dque) (x : ℕ) (s : S)
      → q.is_created ≡ true
      → q.wait_receive_list ≡ []
      → sched.in_interrupt s ≡ true
      → tn_queue_isend_polling sched (some q) x s
        ≡ (or_timeout (dque_fifo_write q x).0, some (dque_fifo_write q x).1, s)
  unfolding tn_queue_isend_polling
  isend-write q x s made idle may = simp (made, may, idle)

  -- An element sent from an interrupt to a valid queue, when no task waits for it, is appended to
  -- the contents; once they are one entry short of the storage's size the sender is answered
  -- TERR_TIMEOUT and the contents stay. The queue stays valid and no task's state changes.
  pub tn_queue_isend_polling-sent :
      (q : Dque) (x : ℕ) (s : S)
      → IsValid q
      → q.is_created ≡ true
      → q.wait_receive_list ≡ []
      → sched.in_interrupt s ≡ true
      → (r : Dque) × (tn_queue_isend_polling sched (some q) x s
          ≡ ((sent q.num_entries (contents q) x).0, some r, s))
        × (contents r ≡ (sent q.num_entries (contents q) x).1)
        × IsValid r
  tn_queue_isend_polling-sent q x s v made idle may =
      let (e, vr, n) = dque_fifo_write-push q x v in
      let told = ap (λ w. (or_timeout w.0, w.1)) e ∙ or_timeout-push q.num_entries (contents q) x in
      (
        (dque_fifo_write q x).1,
        isend-write q x s made idle may ∙ ap (λ w. (w.0, some (dque_fifo_write q x).1, s)) told,
        ap (λ w. w.1) told,
        vr,
      )

  -- What a queue has to give, oldest first: its storage and behind it what waiting tasks send.
  abbrev pub pending : Dque → S → List ℕ
  pending q s = contents q ++ map (λ t. sched.data_elem t s) q.wait_send_list

  -- What the end of a task's wait leaves of the tasks' elements.
  abbrev pub Keeps : Type 0
  Keeps = (t u : ℕ) (s : S) → sched.data_elem u (complete sched t s) ≡ sched.data_elem u s

  -- What a receive is to do.
  abbrev pub first : List ℕ → Code × Option ℕ × List ℕ
  first [] = (timeout, none, [])
  first (x ∷ xs) = (no_err, some x, xs)

  map-Keeps :
      Keeps
      → (t : ℕ) (ts : List ℕ) (s : S)
      → map (λ u. sched.data_elem u (complete sched t s)) ts ≡ map (λ u. sched.data_elem u s) ts
  map-Keeps keeps t [] s = refl
  map-Keeps keeps t (u ∷ us) s = ap₂ ◌∷◌ (keeps t u s) (map-Keeps keeps t us s)

  -- Nothing stored: the first sender's element, if a task waits to send.
  from_sender-first :
      Keeps
      → (q : Dque) (s : S) (ts : List ℕ) → IsValid q
      → contents q ≡ []
      → q.wait_send_list ≡ ts
      → let (rc, out, r, s') = from_sender sched ts q s in
        ((rc, out, pending r s') ≡ first (pending q s)) × IsValid r
  unfolding from_sender
  from_sender-first keeps q s [] v e w =
      let p = ap₂ (λ l ts. l ++ map (λ t. sched.data_elem t s) ts) e w in
      (ap (λ l. (timeout, none, l)) p ∙ sym (ap first p), v)
  from_sender-first keeps q s (t ∷ ts) v e w =
      let p = ap₂ (λ l us. l ++ map (λ u. sched.data_elem u s) us) e w in
      (
        ap (λ l. (no_err, some (sched.data_elem t s), l)) (ap₂ ◌++◌ e (map-Keeps keeps t ts s))
            ∙ sym (ap first p),
        record { storage = v.storage; tail_in = v.tail_in; header_in = v.header_in },
      )

  push_room :
      (n : ℕ) (xs : List ℕ) (x : ℕ) → length xs + 1 < n → push n xs x ≡ (no_err, xs ++ (x ∷ []))
  push_room n xs x h = ground arith

  -- With room for an entry, the storing of the first sender's element leaves what is pending.
  refill-pending :
      Keeps
      → (q : Dque) (s : S) (ts : List ℕ) → IsValid q
      → length (contents q) + 1 < q.num_entries
      → q.wait_send_list ≡ ts
      → let (r, s') = refill sched ts q s in (pending r s' ≡ pending q s) × IsValid r
  unfolding refill
  refill-pending keeps q s [] v room w = (refl, v)
  refill-pending keeps q s (t ∷ ts) v room w =
      let q' = record q { wait_send_list = ts } in
      let (e, vr, n) =
        dque_fifo_write-push q' (sched.data_elem t s)
          record { storage = v.storage; tail_in = v.tail_in; header_in = v.header_in } in
      (
        ap₂ (λ l us. l ++ map (λ u. sched.data_elem u (complete sched t s)) us)
              (ap (λ w. w.1) (e ∙ push_room q.num_entries (contents q) (sched.data_elem t s) room))
              (wait_send_list-dque_fifo_write q' (sched.data_elem t s))
            ∙ append_assoc (contents q) (sched.data_elem t s ∷ [])
                (map (λ u. sched.data_elem u (complete sched t s)) ts)
            ∙ ap (λ l. contents q ++ sched.data_elem t s ∷ l) (map-Keeps keeps t ts s)
            ∙ ap (λ us. contents q ++ map (λ u. sched.data_elem u s) us) (sym w),
        vr,
      )

  received-first :
      Keeps
      → (q : Dque) (s : S) → IsValid q
      → let (rc, out, r, s') = received sched (dque_fifo_read q) s in
        ((rc, out, pending r s') ≡ first (pending q s)) × IsValid r
  unfolding received
  received-first keeps q s v = elim (zero-cases (used q)) [
    | inl e ↦
        rw (dque_fifo_read-none q v e)
          (from_sender-first keeps q s q.wait_send_list v (rw e refl) refl)
    | inr h ↦ rw (dque_fifo_read-some q v h) (
        let (p, vr) =
          refill-pending keeps (taken q) s q.wait_send_list (taken-IsValid q v)
            (omega (arith, length-contents (taken q), used-taken q v h, used_lt q v)) refl in
        (
          ap (λ l. (no_err, some (get_or q.data_fifo q.tail_cnt 0), l)) p
              ∙ sym (
                  ap (λ l. first (l ++ map (λ t. sched.data_elem t s) q.wait_send_list))
                    (contents-taken q v h)),
          vr,
        ))
  ]

  pub ireceive-received :
      (q : Dque) (s : S)
      → q.is_created ≡ true
      → sched.in_interrupt s ≡ true
      → tn_queue_ireceive sched (some q) true s
        ≡ (let (rc, out, r, s') = received sched (dque_fifo_read q) s in (rc, out, some r, s'))
  unfolding tn_queue_ireceive
  ireceive-received q s made may = simp (made, may)

  -- A receive from a valid queue in an interrupt gives the oldest of the pending elements, those in
  -- the storage before those of the tasks that wait to send, and what stays pending is the rest in
  -- the same order; with nothing pending it answers TERR_TIMEOUT. The condition on the scheduler is
  -- that the end of one task's wait changes no task's element.
  pub tn_queue_ireceive-first :
      Keeps
      → (q : Dque) (s : S) → IsValid q
      → q.is_created ≡ true
      → sched.in_interrupt s ≡ true
      → (out : Code × Option ℕ) × (r : Dque) × (s' : S) × (tn_queue_ireceive sched (some q) true s
          ≡ (out.0, out.1, some r, s'))
        × ((out.0, out.1, pending r s') ≡ first (pending q s))
        × IsValid r
  tn_queue_ireceive-first keeps q s v made may =
      let w = received sched (dque_fifo_read q) s in
      (
        (w.0, w.1),
        w.2,
        w.3,
        ireceive-received q s made may,
        (received-first keeps q s v).0,
        (received-first keeps q s v).1,
      )
