-- ===== src/Dma/Sent.antt =====
-- Which descriptor sends next: ep_tx_int_DD_request.
use usb_bulk.Prelude.{
  ℕ, ◌+◌, ◌-◌, ◌*◌, ◌≡◌, refl, ◌<◌, Option, true, none, some, Option-cases, inl, inr, arith,
}
use usb_bulk.Bus.Monad.{>>=-some}
use usb_bulk.Bus.Access.{write}
use usb_bulk.Kernel.Code.{Code}
use usb_bulk.Kernel.Scheduler.{Scheduler}
use usb_bulk.Kernel.Fifo.{Dque}
use usb_bulk.Kernel.Queue.{tn_queue_ireceive}
use usb_bulk.Kernel.Pool.{Fmp, Cells, put_cell, tn_fmem_irelease}
use usb_bulk.Dma.{
  DmaEndpoint, dd_bytes, retired_dd, fill_dd, no_packet, load, enable_next, ep_tx_int_dd_request,
}
use usb_bulk.Kernel.Pool.Free.{tn_fmem_irelease-others}
use usb_bulk.Dma.Loaded.{HasNoPacket, HasPacket, no_packet-HasNoPacket, fill_dd-HasPacket}
use usb_bulk.Dma.Ring.{IsFree, AllBusy, retired_dd-IsFree, retired_dd-AllBusy, enabled}

-- The descriptor that sends next, in the memory `m` then, where `out` is what the queue gave: with a
-- packet, a retired one of those in front of the last; the last, without one, where the queue gave
-- none or none in front of the last is retired.
pub data IsNextDd {S : Type 0} (e : DmaEndpoint S) (m : Cells) : Option ℕ → ℕ → Type 0 where
  loads :
      (p found : ℕ)
      → IsFree e.cells none e.ep_dma_addr.p_dd (e.ep_dma_addr.nbuffers - 1) found
      → HasPacket m found
      → IsNextDd e m (some p) found
  drops :
      (p : ℕ)
      → AllBusy e.cells none e.ep_dma_addr.p_dd (e.ep_dma_addr.nbuffers - 1)
      → HasNoPacket m (e.ep_dma_addr.p_dd + (e.ep_dma_addr.nbuffers - 1) * dd_bytes)
      → IsNextDd e m (some p) (e.ep_dma_addr.p_dd + (e.ep_dma_addr.nbuffers - 1) * dd_bytes)
  idles :
      HasNoPacket m (e.ep_dma_addr.p_dd + (e.ep_dma_addr.nbuffers - 1) * dd_bytes)
      → IsNextDd e m none (e.ep_dma_addr.p_dd + (e.ep_dma_addr.nbuffers - 1) * dd_bytes)

-- The endpoint with `dd` as the current descriptor, DMA enabled, and the queue `queue`.
pub record IsEnabled {S : Type 0} (e : DmaEndpoint S) (queue : Option Dque) (dd : ℕ)
    (e' : DmaEndpoint S) : Type 0 where
  pub current : e'.cells e.p_udca_pos ≡ dd
  pub enables : e'.bus ≡ enabled e
  pub taken : e'.queue ≡ queue

abbrev taken_from : {S : Type 0} → Option Dque → S → DmaEndpoint S → DmaEndpoint S
taken_from queue s e = record e { queue = queue; tasks = s }

-- The endpoint's state after a request: its parts that a service changed, and `dd` as the current
-- descriptor.
abbrev going :
    {S : Type 0} → Option Dque → Option Fmp → Cells → S → ℕ → DmaEndpoint S → DmaEndpoint S
going queue pool cells s dd e = record e {
  queue = queue;
  mem_pool = pool;
  cells = put_cell cells e.p_udca_pos dd;
  tasks = s;
  bus = enabled e;
}

going-IsEnabled :
    {S : Type 0} (queue : Option Dque) (pool : Option Fmp) (cells : Cells) (s : S) (dd : ℕ)
    (e : DmaEndpoint S)
    → IsEnabled e queue dd (going queue pool cells s dd e)
going-IsEnabled queue pool cells s dd e = record {
  current = ground arith;
  enables = refl;
  taken = refl;
}

module _ {S : Type 0} (sched : Scheduler S) where
  -- The state with the packet's block given back, from memory `m`.
  abbrev released :
      Option Dque → Cells → ℕ → S → (Cells → Cells) → ℕ → DmaEndpoint S → DmaEndpoint S
  released queue m p s after dd e =
      let (rc, pool, m', s') = tn_fmem_irelease sched e.mem_pool p m s in
      going queue pool (after m') s' dd e

  abbrev last_dd : DmaEndpoint S → ℕ
  last_dd e = e.ep_dma_addr.p_dd + (e.ep_dma_addr.nbuffers - 1) * dd_bytes

  load_run :
      (e : DmaEndpoint S) (p : ℕ) (found : Option ℕ)
      → retired_dd e.cells none e.ep_dma_addr.p_dd (e.ep_dma_addr.nbuffers - 1) ≡ found
      → load sched (some p) e ≡ (
          let m : Cells = elim found [ none ↦ e.cells | some dd ↦ fill_dd e.cells dd p ] in
          let (rc, pool, m', s') = tn_fmem_irelease sched e.mem_pool p m e.tasks in
          some (found, record e { mem_pool = pool; cells = m'; tasks = s' }))
  unfolding load
  load_run e p none busy = rw (busy) refl
  load_run e p (some dd) found = rw (found) refl

  next_dd :
      (e : DmaEndpoint S) (rc : Code) (out : Option ℕ) (queue : Option Dque) (s : S)
      → tn_queue_ireceive sched e.queue true e.tasks ≡ (rc, out, queue, s)
      → e.p_udca_pos < e.ep_dma_addr.p_dd
      → ((p : ℕ) → out ≡ some p → p < e.p_udca_pos)
      → (dd : ℕ) × (e' : DmaEndpoint S) × (ep_tx_int_dd_request sched e ≡ some (tt, e'))
        × IsNextDd e e'.cells out dd
        × IsEnabled e queue dd e'
  unfolding ep_tx_int_dd_request write
  next_dd e rc none queue s got apart below =
      let last = last_dd e in
      let m = no_packet e.cells last in
      (
        last,
        going queue e.mem_pool m s last e,
        simp (got) refl,
        IsNextDd.idles (no_packet-HasNoPacket e.cells e.p_udca_pos last (omega (arith, apart))),
        going-IsEnabled queue e.mem_pool m s last e,
      )
  next_dd e rc (some p) queue s got apart below =
      let a = e.ep_dma_addr in
      let last = last_dd e in
      elim (Option-cases (retired_dd e.cells none a.p_dd (a.nbuffers - 1))) [
        | inl busy ↦ (
          last,
          released queue e.cells p s (λ m. no_packet m last) last e,
          simp (got) (
              >>=-some (load sched (some p)) (enable_next sched) (taken_from queue s e) none _
                (load_run (taken_from queue s e) p none busy)),
          IsNextDd.drops p (retired_dd-AllBusy e.cells none a.p_dd (a.nbuffers - 1) busy) (
              no_packet-HasNoPacket (tn_fmem_irelease sched e.mem_pool p e.cells s).2 e.p_udca_pos
                last (omega (arith, apart))),
          going-IsEnabled queue _ _ _ last e,
        )
        | inr (found, e1) ↦
            let free = retired_dd-IsFree e.cells none a.p_dd (a.nbuffers - 1) found e1 in
            let before : e.p_udca_pos < found = omega (arith, apart, free.is_there) in
            (
              found,
              released queue (fill_dd e.cells found p) p s (λ m. m) found e,
              simp (got) (
                  >>=-some (load sched (some p)) (enable_next sched) (taken_from queue s e)
                    (some found) _ (load_run (taken_from queue s e) p (some found) e1)),
              IsNextDd.loads p found free (
                  fill_dd-HasPacket e.cells
                    (tn_fmem_irelease sched e.mem_pool p (fill_dd e.cells found p) s).2 found p
                    e.p_udca_pos before
                    (λ q from.
                      tn_fmem_irelease-others sched e.mem_pool p q (fill_dd e.cells found p) s
                        (ground (arith, from, before, below p refl)))),
              going-IsEnabled queue _ _ _ found e,
            )
      ]

  -- ep_tx_int_DD_request of an endpoint whose place in the UDCA is in front of its descriptors, and
  -- behind the packet that the queue gives: it ends, takes from the queue what tn_queue_ireceive does,
  -- and enables DMA with one current descriptor, which is not retired. Given a packet, that is a
  -- retired one of those in front of the last; it is the last one, which has no packet then, where
  -- the queue gave none, and also where it gave one while none in front of the last was retired.
  pub ep_tx_int_dd_request-IsNextDd :
      (e : DmaEndpoint S)
      → e.p_udca_pos < e.ep_dma_addr.p_dd
      → ((p : ℕ) → (tn_queue_ireceive sched e.queue true e.tasks).1 ≡ some p → p < e.p_udca_pos)
      → let (rc, out, queue, s) = tn_queue_ireceive sched e.queue true e.tasks in
        (dd : ℕ) × (e' : DmaEndpoint S) × (ep_tx_int_dd_request sched e ≡ some (tt, e'))
        × IsNextDd e e'.cells out dd
        × IsEnabled e queue dd e'
  ep_tx_int_dd_request-IsNextDd e apart below =
      let (rc, out, queue, s) = tn_queue_ireceive sched e.queue true e.tasks in
      next_dd e rc out queue s refl apart below
