-- ===== src/Kernel/Task/Popped.antt =====
-- A task that is taken from the queue that it waits at, and the end of its wait.
use usb_bulk.Prelude.{
  ℕ, ◌≡◌, ap, ◌∙◌, subst, inl, inr, true, false, List, ◌∷◌, arith, ◌==◌, ==_iff, Bool-cases, update,
  remove, count, count-remove, count-cons, remove-head,
}
use usb_bulk.Kernel.Task.{System, has_wait, task_wait_complete}
use usb_bulk.Kernel.Task.Consistent.{IsConsistent, IsQueuedBut, waits_at}
use usb_bulk.Kernel.Task.Waits.{task_wait_complete-IsConsistent}

module _ (s : System) (w t : ℕ) (good : IsConsistent s) where
  -- A task in a queue waits there.
  pub queued-has_wait :
      (count t (s.wait_list w) == 0) ≡ false → has_wait (s.tcb t).task_state ≡ true
  queued-has_wait there = ground (arith, good.is_queued t w)

  pub removed-IsQueuedBut :
      (count t (s.wait_list w) == 0) ≡ false
      → IsQueuedBut t s.tcb (update s.wait_list w (remove t (s.wait_list w)))
  removed-IsQueuedBut there u v = elim (Bool-cases (t == u)) [
    | inl here ↦
        let e =
          subst (λ u. count u (s.wait_list v) ≡ waits_at (s.tcb t) v) ((==_iff t u).0 here)
            (good.is_queued t v) in
        elim (Bool-cases (w == v)) [
          | inl same ↦ ground (arith, here, count-remove t u (s.wait_list w))
          | inr other ↦ ground (arith, e, here, good.is_queued t w)
        ]
    | inr other ↦ elim (Bool-cases (w == v)) [
      | inl same ↦
          let e = ap (λ w. count u (s.wait_list w)) ((==_iff w v).0 same) in
          ground (arith, good.is_queued u v, e, count-remove t u (s.wait_list w))
      | inr apart ↦ ground (arith, good.is_queued u v)
    ]
  ]

  -- The first task of a queue.
  pub popped-IsConsistent :
      (ts : List ℕ)
      → s.wait_list w ≡ t ∷ ts
      → IsConsistent (task_wait_complete t (record s { wait_list = update s.wait_list w ts })).1
  popped-IsConsistent ts first =
      let there : (count t (s.wait_list w) == 0) ≡ false =
        ground (arith, ap (count t) first, count-cons t t ts) in
      let once : count t ts ≡ 0 =
        ground (arith, good.is_queued t w, ap (count t) first, count-cons t t ts) in
      let rest : remove t (s.wait_list w) ≡ ts = ap (remove t) first ∙ remove-head t ts once in
      let out =
        subst (λ ts. IsQueuedBut t s.tcb (update s.wait_list w ts)) rest
          (removed-IsQueuedBut there) in
      task_wait_complete-IsConsistent t (record s { wait_list = update s.wait_list w ts })
        good.scheduled good.is_timed out (queued-has_wait there)
