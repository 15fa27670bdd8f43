-- ===== src/Kernel/Event/Release.antt =====
-- tn_event_iset: the tasks that it releases, and the lists of the tasks after it.
use usb_bulk.Prelude.{
  ℕ, ◌≡◌, refl, ap, ◌∙◌, subst, inl, inr, true, false, some, List, [], ◌∷◌, arith, bit_or, ◌==◌,
  ==_iff, if◌then◌else◌, Bool-cases, remove, count, count-cons, count-is_empty, count-remove,
}
use usb_bulk.Kernel.Code.{no_err}
use usb_bulk.Kernel.Task.{Tcb, System, in_interrupt, set_tcb, task_wait_complete}
use usb_bulk.Kernel.Task.Services.{request_switch}
use usb_bulk.Kernel.Task.Consistent.{IsConsistent}
use usb_bulk.Kernel.Task.Kept.{IsNeutral, request_switch-IsNeutral, same-IsConsistent}
use usb_bulk.Kernel.Task.Popped.{queued-has_wait, removed-IsQueuedBut}
use usb_bulk.Kernel.Task.Released.{
  task_wait_complete-others, task_wait_complete-wait_list, task_wait_complete-rc,
  task_wait_complete-ewait_pattern,
}
use usb_bulk.Kernel.Task.Waits.{task_wait_complete-IsConsistent}
use usb_bulk.Kernel.Event.{
  Event, tn_id_event, cleared, scan_event_waitqueue, set_event, tn_event_iset,
}
use usb_bulk.Kernel.Event.Scan.{
  IsApart, task_met, unmet, left, scan-others, scan-wait_list, sweep-unmet, count-IsApart,
}

pub scan-IsConsistent :
    (w pattern : ℕ) (ts : List ℕ) (s : System)
    → IsConsistent s
    → IsApart ts
    → ((u : ℕ) → (count u ts == 0) ≡ false → (count u (s.wait_list w) == 0) ≡ false)
    → IsConsistent (scan_event_waitqueue w pattern ts s).1
unfolding scan_event_waitqueue IsApart
scan-IsConsistent w pattern [] s good apart there = good
scan-IsConsistent w pattern (t ∷ ts) s good (absent, apart) there =
    let c : Tcb = record (s.tcb t) { ewait_pattern = pattern } in
    let s0 : System = set_tcb s t c in
    let shown : IsConsistent s0 =
      same-IsConsistent t c s good refl refl refl refl (λ h. refl)
        record {
          low = (good.scheduled.is_tcb t).low;
          base_low = (good.scheduled.is_tcb t).base_low;
          no_task = (good.scheduled.is_tcb t).no_task;
          no_queue = (good.scheduled.is_tcb t).no_queue;
          asleep = (good.scheduled.is_tcb t).asleep;
        } in
    let here : (count t (s.wait_list w) == 0) ≡ false =
      there t (ground (arith, count-cons t t ts)) in
    let s1 : System = left w pattern t s in
    let s' = (task_wait_complete t s1).1 in
    let kept : IsConsistent s' =
      task_wait_complete-IsConsistent t s1 shown.scheduled shown.is_timed
        (removed-IsQueuedBut s0 w t shown here) (queued-has_wait s0 w t shown here) in
    let queue : s'.wait_list w ≡ remove t (s.wait_list w) =
      ap (λ f. f w) (task_wait_complete-wait_list t s1) ∙ ground arith in
    let there' : (u : ℕ) → (count u ts == 0) ≡ false → (count u (s'.wait_list w) == 0) ≡ false =
      λ u h.
        let other : (t == u) ≡ false = elim (Bool-cases (t == u)) [
          | inl equal ↦ ground (arith, absent, ap (λ t. count t ts) ((==_iff t u).0 equal))
          | inr other ↦ other
        ] in
        ground (
          arith,
          ap (count u) queue,
          count-remove t u (s.wait_list w),
          there u,
          count-cons u t ts,
        ) in
    elim (Bool-cases (task_met pattern (s.tcb t))) [
      | inl met ↦ let e = scan-IsConsistent w pattern ts s' kept apart there' in rw (met) e
      | inr not_met ↦
          let e =
            scan-IsConsistent w pattern ts s good apart
              (λ u h. there u (ground (arith, count-cons u t ts))) in
          rw (not_met) e
    ]

-- A task whose condition is met has the pattern, and its wait ended well.
abbrev pub IsReleased : ℕ → Tcb → Type 0
IsReleased pattern c = (c.task_wait_rc ≡ no_err) × (c.ewait_pattern ≡ pattern)

scan-IsReleased :
    (w pattern : ℕ) (tcb : ℕ → Tcb) (ts : List ℕ) (s : System)
    → IsApart ts
    → ((u : ℕ) → (count u ts == 0) ≡ false → s.tcb u ≡ tcb u)
    → (t : ℕ) → (count t ts == 0) ≡ false
    → task_met pattern (tcb t) ≡ true
    → IsReleased pattern ((scan_event_waitqueue w pattern ts s).1.tcb t)
unfolding scan_event_waitqueue IsApart
scan-IsReleased w pattern tcb [] s apart same t there met = ground (arith, count-is_empty t [] refl)
scan-IsReleased w pattern tcb (u ∷ us) s (absent, apart) same t there met =
    let s1 : System = left w pattern u s in
    let s' = (task_wait_complete u s1).1 in
    let s'' : System = if task_met pattern (s.tcb u) then s' else s in
    let others : (v : ℕ) → (count v us == 0) ≡ false → s''.tcb v ≡ tcb v = λ v h.
      let other : (u == v) ≡ false = elim (Bool-cases (u == v)) [
        | inl equal ↦ ground (arith, absent, ap (λ t. count t us) ((==_iff u v).0 equal))
        | inr other ↦ other
      ] in
      let same_v = same v (ground (arith, h, count-cons v u us)) in
      let e : s'.tcb v ≡ tcb v = task_wait_complete-others u s1 v other ∙ rw (other) same_v in
      elim (Bool-cases (task_met pattern (s.tcb u))) [
        | inl yes_met ↦ rw (yes_met) e
        | inr not_met ↦ rw (not_met) same_v
      ] in
    elim (Bool-cases (u == t)) [
      | inl equal ↦
          let e = (==_iff u t).0 equal in
          let met_u : task_met pattern (s.tcb u) ≡ true =
            ap (task_met pattern) (same u (ground (arith, count-cons u u us)) ∙ ap tcb e) ∙ met in
          let rest : (scan_event_waitqueue w pattern us s'').1.tcb u ≡ s'.tcb u =
            scan-others w pattern us s'' u absent ∙ rw (met_u) refl in
          let told : (s'.tcb u).ewait_pattern ≡ pattern =
            task_wait_complete-ewait_pattern u s1 ∙ ground arith in
          let (rc, shown) : IsReleased pattern ((scan_event_waitqueue w pattern us s'').1.tcb u) = (
            ap (λ c. c.task_wait_rc) rest ∙ task_wait_complete-rc u s1,
            ap (λ c. c.ewait_pattern) rest ∙ told,
          ) in
          subst (λ t. IsReleased pattern ((scan_event_waitqueue w pattern us s'').1.tcb t)) e
            (rc, shown)
      | inr other ↦
          scan-IsReleased w pattern tcb us s'' apart others t
            (ground (arith, there, other, count-cons t u us)) met
    ]

pub set_event-IsConsistent :
    (next : System → System)
    → IsNeutral next
    → (e : Event) (pattern : ℕ) (s : System) → IsConsistent s
    → IsConsistent (set_event next e pattern s).1
unfolding set_event
set_event-IsConsistent next neutral e pattern s good =
    let w = e.wait_queue in
    let queue = s.wait_list w in
    let joined = bit_or e.pattern pattern in
    let apart = count-IsApart queue (λ u. ground (arith, good.is_queued u w)) in
    let (switch, s1) = scan_event_waitqueue w joined queue s in
    let kept : IsConsistent s1 = scan-IsConsistent w joined queue s good apart (λ u h. h) in
    elim (Bool-cases switch) [
      | inl now ↦ let done = neutral s1 kept in simp (now) done
      | inr later ↦ simp (later) kept
    ]

-- A set from an interrupt, of an event in use, with a pattern that is not 0, where the lists of the
-- tasks are in step with their TCBs: it succeeds, of the queue the tasks remain whose condition the
-- joined pattern does not meet, in their order; each other task of the queue gets the joined pattern
-- and ends its wait with TERR_NO_ERR; a task that is not in the queue stays as it is; and the lists
-- are in step again.
pub tn_event_iset-IsReleased :
    (e : Event) (pattern : ℕ) (s : System)
    → (pattern == 0) ≡ false
    → e.id_event ≡ tn_id_event
    → in_interrupt s ≡ true
    → IsConsistent s
    → let joined = bit_or e.pattern pattern in
      let queue = s.wait_list e.wait_queue in
      (e' : Event) × (s' : System) × (tn_event_iset (some e) pattern s ≡ (no_err, some e', s'))
      × (s'.wait_list e.wait_queue ≡ unmet joined s.tcb queue)
      × ((t : ℕ)
          → (count t queue == 0) ≡ false
          → task_met joined (s.tcb t) ≡ true
          → IsReleased joined (s'.tcb t))
      × ((t : ℕ) → count t queue ≡ 0 → s'.tcb t ≡ s.tcb t)
      × IsConsistent s'
unfolding tn_event_iset set_event
tn_event_iset-IsReleased e pattern s some_bit made may good =
    let w = e.wait_queue in
    let joined = bit_or e.pattern pattern in
    let queue = s.wait_list w in
    let id : (e.id_event == tn_id_event) ≡ true = ground (arith, made) in
    let apart = count-IsApart queue (λ u. ground (arith, good.is_queued u w)) in
    let (switch, s1) = scan_event_waitqueue w joined queue s in
    let rest : s1.wait_list w ≡ unmet joined s.tcb queue =
      scan-wait_list w joined s.tcb queue s apart (λ u h. refl)
      ∙ sweep-unmet joined s.tcb queue apart in
    let freed = scan-IsReleased w joined s.tcb queue s apart (λ u h. refl) in
    let alone : (t : ℕ) → count t queue ≡ 0 → s1.tcb t ≡ s.tcb t = scan-others w joined queue s in
    let kept : IsConsistent s1 = scan-IsConsistent w joined queue s good apart (λ u h. h) in
    elim (Bool-cases switch) [
      | inl now ↦ (
        cleared (record e { pattern = joined }),
        request_switch s1,
        simp (some_bit, id, may, now) refl,
        rest,
        freed,
        alone,
        request_switch-IsNeutral s1 kept,
      )
      | inr later ↦ (
        record e { pattern = joined },
        s1,
        simp (some_bit, id, may, later) refl,
        rest,
        freed,
        alone,
        kept,
      )
    ]
