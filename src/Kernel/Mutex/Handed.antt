-- ===== src/Kernel/Mutex/Handed.antt =====
-- What the unlocking of an inherited mutex leads to.
use usb_bulk.Prelude.{
  ℕ, ◌<◌, ◌≡◌, refl, ap, sym, subst, ◌∙◌, inl, inr, Bool, true, false, not, ◌&&◌, ◌||◌, Option,
  none, some, List, ◌∷◌, arith, ◌==◌, ==_iff, if◌then◌else◌, Bool-cases, is_empty, update,
  update_self,
}
use usb_bulk.Prelude.Options.{◌>>=◌}
use usb_bulk.Kernel.Code.{no_err}
use usb_bulk.Kernel.Ready.{Ready, is_next}
use usb_bulk.Kernel.Task.{
  System, in_task, is_runnable, has_suspend, priority_of, task_to_runnable, task_wait_complete,
  switch_context,
}
use usb_bulk.Kernel.Task.Released.{
  task_wait_complete-others, task_wait_complete-runnable, task_wait_complete-wait_list,
}
use usb_bulk.Kernel.Mutex.{
  Mutex, Locks, tn_id_mutex, attr_inherit, holder_of, is_ceiling, has_protocol, is_mutex_wait,
  is_blocked, find_max_blocked_priority, set_current_priority, hand_back, wait_complete,
}
use usb_bulk.Kernel.Mutex.Unlock.{
  hold_mutex, leave_lists, highest_waiting, lower_priority, next_holder, give_inherit, give_away,
  lock_others, do_unlock_mutex,
}
use usb_bulk.Kernel.Mutex.Services.{tn_mutex_unlock}
use usb_bulk.Kernel.Mutex.Owned.{IsOwned, IsOwnedBut, left-IsOwnedBut, held-IsOwned}
use usb_bulk.Kernel.Mutex.Locked.{hold_mutex-holder}
use usb_bulk.Kernel.Mutex.Passed.{waits_mutex, IsRanked, repriced, set_current_priority-IsRepriced}

-- A result that is the same but for the priorities and the ready lists.
abbrev pub GivesRepriced : Locks → Option (Bool × Locks) → Type 0
GivesRepriced k o =
    (need : Bool) × (prio : ℕ → ℕ) × (ready : Ready) × (o ≡ some (need, repriced k prio ready))

module _ (rank : ℕ → ℕ) (fuel : ℕ) (k : Locks) (ranked : IsRanked rank k) where
  set_current_priority-GivesRepriced :
      (t p : ℕ) → rank t < fuel → GivesRepriced k (set_current_priority fuel t p k)
  set_current_priority-GivesRepriced t p enough =
      let (r, e, (prio, ready, same)) =
        set_current_priority-IsRepriced rank fuel t p k ranked enough in
      (r.0, prio, ready, e ∙ ap (λ k. some (r.0, k)) same)

  same-GivesRepriced : (need : Bool) → GivesRepriced k (some (need, k))
  same-GivesRepriced need = (need, priority_of k.system, k.system.ready, refl)

  pub lower_priority-GivesRepriced :
      (m : ℕ) → ((t : ℕ) → rank t < fuel) → GivesRepriced k (lower_priority fuel m k)
  unfolding lower_priority
  lower_priority-GivesRepriced m enough =
      let me = k.system.curr_run_task in
      let c = k.system.tcb me in
      let pr = highest_waiting k (k.mutex_queue me) c.base_priority in
      elim (Bool-cases (is_empty (k.mutex_queue me))) [
        | inl last ↦ simp (last) (set_current_priority-GivesRepriced me c.base_priority (enough me))
        | inr more ↦ elim (Bool-cases (has_protocol (k.mutex m) && not (pr == c.priority))) [
          | inl differs ↦
              simp (more, differs) (set_current_priority-GivesRepriced me pr (enough me))
          | inr same ↦ simp (more, same) (same-GivesRepriced false)
        ]
      ]

  hand_back-GivesRepriced :
      (t m : ℕ) (rc : Bool) (o : Option ℕ)
      → ((t : ℕ) → rank t < fuel)
      → GivesRepriced k (hand_back fuel t m o rc k)
  unfolding hand_back
  hand_back-GivesRepriced t m rc none enough = same-GivesRepriced rc
  hand_back-GivesRepriced t m rc (some h) enough =
      let c = k.system.tcb h in
      let (need, prio, ready, e) =
        set_current_priority-GivesRepriced h (find_max_blocked_priority k m c.base_priority)
          (enough h) in
      elim (Bool-cases
        (not (c.priority == c.base_priority) && c.priority == priority_of k.system t)) [
          | inl raised ↦ simp (raised, e) (need || rc, prio, ready, refl)
          | inr own ↦ simp (own) (same-GivesRepriced rc)
        ]

-- The state after the part of task_wait_complete outside USE_MUTEXES.
abbrev completed : ℕ → Locks → Locks
completed t k = record k { system = (task_wait_complete t k.system).1 }

completed-reason :
    (t : ℕ) (s : System) → is_mutex_wait ((task_wait_complete t s).1.tcb t).task_wait_reason ≡ false
unfolding task_wait_complete task_to_runnable
completed-reason t s = elim (Bool-cases (has_suspend (s.tcb t).task_state)) [
  | inl held ↦ simp (held) (ground arith)
  | inr free ↦ simp (free) (ground arith)
]

completed-IsRanked :
    (rank : ℕ → ℕ) (t : ℕ) (k : Locks) → IsRanked rank k → IsRanked rank (completed t k)
completed-IsRanked rank t k ranked u waits = elim (Bool-cases (t == u)) [
  | inl same ↦
      let e =
        subst (λ u. is_mutex_wait ((completed t k).system.tcb u).task_wait_reason ≡ false)
          ((==_iff t u).0 same) (completed-reason t k.system) in
      ground (arith, waits, e)
  | inr other ↦
      subst
        (λ c.
          waits_mutex c ≡ true
          → (m : ℕ) × (v : ℕ) × (c.pwait_queue ≡ some m)
            × ((if is_blocked c.task_wait_reason then c.blk_task else holder_of k m) ≡ some v)
            × (rank v < rank u))
        (sym (task_wait_complete-others t k.system u other)) (ranked u) waits
]

wait_complete-GivesRepriced :
    (rank : ℕ → ℕ) (fuel t m : ℕ) (k : Locks)
    → IsRanked rank k
    → ((t : ℕ) → rank t < fuel)
    → (k.system.tcb t).pwait_queue ≡ some m
    → GivesRepriced (completed t k) (wait_complete fuel t k)
unfolding wait_complete
wait_complete-GivesRepriced rank fuel t m k ranked enough at =
    let rc = (task_wait_complete t k.system).0 in
    let done : IsRanked rank (completed t k) = completed-IsRanked rank t k ranked in
    elim (Bool-cases (is_mutex_wait (k.system.tcb t).task_wait_reason)) [
      | inl mutex ↦
          simp (mutex, at)
            (hand_back-GivesRepriced rank fuel (completed t k) done t m rc (holder_of k m) enough)
      | inr other ↦ simp (other) (same-GivesRepriced rank fuel (completed t k) done rc)
    ]

-- Mutex `m` is handed to task `t`, the first of those that waited for it; `ts` are the others.
pub record IsHanded (m t : ℕ) (ts : List ℕ) (k k' : Locks) : Type 0 where
  pub holder : holder_of k' m ≡ some t
  pub queue : k'.system.wait_list m ≡ ts
  pub runnable :
      is_runnable (k'.system.tcb t).task_state ≡ not (has_suspend (k.system.tcb t).task_state)
  pub owned : IsOwned k'

-- The mutex goes to task `t`: `k1` is the state after it left its holder, with new priorities.
abbrev handed : ℕ → ℕ → (ℕ → ℕ) → Ready → Locks → Locks
handed t m prio ready k = hold_mutex t m (repriced (completed t k) prio ready)

-- The others wait on.
abbrev dequeued : ℕ → List ℕ → Locks → Locks
dequeued m ts k = record k {
  system = record k.system { wait_list = update k.system.wait_list m ts };
}

give_inherit-GivesHanded :
    (rank : ℕ → ℕ) (fuel t m : ℕ) (ts : List ℕ) (need : Bool) (k : Locks)
    → IsRanked rank k
    → ((t : ℕ) → rank t < fuel)
    → (k.system.tcb t).pwait_queue ≡ some m
    → (need' : Bool) × (prio : ℕ → ℕ) × (ready : Ready) × (give_inherit fuel m t ts need k
        ≡ some (need', handed t m prio ready (dequeued m ts k)))
unfolding give_inherit
give_inherit-GivesHanded rank fuel t m ts need k ranked enough at =
    let (need', prio, ready, e) =
      wait_complete-GivesRepriced rank fuel t m (dequeued m ts k) ranked enough at in
    (need' || need, prio, ready, simp (e) refl)

handed-IsHanded :
    (t m : ℕ) (ts : List ℕ) (prio : ℕ → ℕ) (ready : Ready) (k : Locks)
    → IsOwnedBut m k
    → IsHanded m t ts k (handed t m prio ready (dequeued m ts k))
unfolding hold_mutex
handed-IsHanded t m ts prio ready k but = record {
  holder = hold_mutex-holder t m (repriced (completed t (dequeued m ts k)) prio ready);
  queue =
      ap (λ lists. lists m) (task_wait_complete-wait_list t (dequeued m ts k).system)
      ∙ update_self k.system.wait_list m ts;
  runnable = task_wait_complete-runnable t (dequeued m ts k).system;
  owned = held-IsOwned t m (repriced (completed t (dequeued m ts k)) prio ready) but;
}

give_away-inherit :
    (fuel t m : ℕ) (ts : List ℕ) (need : Bool) (k : Locks)
    → ((k.mutex m).attr == attr_inherit) ≡ true
    → give_away fuel m (t ∷ ts) need k ≡ give_inherit fuel m t ts need k
unfolding give_away
give_away-inherit fuel t m ts need k inherits =
    let plain : is_ceiling (k.mutex m) ≡ false = ground (arith, inherits) in
    simp (plain, inherits) refl

lock_others-plain :
    (fuel : ℕ) (x : Mutex) (hi : Option ℕ) (need : Bool) (k : Locks)
    → is_ceiling x ≡ false
    → lock_others fuel x hi need k ≡ some (need, k)
unfolding lock_others
lock_others-plain fuel x hi need k plain = simp (plain) refl

-- The hold of a mutex changes its holder only.
hold_mutex-attr : (t m : ℕ) (k : Locks) → ((hold_mutex t m k).mutex m).attr ≡ (k.mutex m).attr
unfolding hold_mutex
hold_mutex-attr t m k =
    ap (λ x. x.attr) (update_self k.mutex m (record (k.mutex m) { holder = some t }))

do_unlock_mutex-GivesHanded :
    (rank : ℕ → ℕ) (fuel t m : ℕ) (ts : List ℕ) (k : Locks)
    → ((k.mutex m).attr == attr_inherit) ≡ true
    → IsOwned k
    → IsRanked rank k
    → ((t : ℕ) → rank t < fuel)
    → k.system.wait_list m ≡ t ∷ ts
    → (k.system.tcb t).pwait_queue ≡ some m
    → (need : Bool) × (k' : Locks) × (do_unlock_mutex fuel m k ≡ some (need, k'))
      × IsHanded m t ts k k'
unfolding do_unlock_mutex leave_lists
do_unlock_mutex-GivesHanded rank fuel t m ts k inherits owned ranked enough waiting at =
    let (need, prio, ready, lowered) =
      lower_priority-GivesRepriced rank fuel (leave_lists m k) ranked m enough in
    let k2 : Locks = repriced (leave_lists m k) prio ready in
    let (need', prio', ready', given) =
      give_inherit-GivesHanded rank fuel t m ts need k2 ranked enough at in
    let k4 : Locks = handed t m prio' ready' (dequeued m ts k2) in
    let given' : give_away fuel m (k.system.wait_list m) need k2 ≡ some (need', k4) =
      ap (λ us. give_away fuel m us need k2) waiting
      ∙ give_away-inherit fuel t m ts need k2 inherits
      ∙ given in
    let plain : is_ceiling (k4.mutex m) ≡ false = ground (
      arith,
      inherits,
      hold_mutex-attr t m (repriced (completed t (dequeued m ts k2)) prio' ready'),
    ) in
    let done = handed-IsHanded t m ts prio' ready' k2 (left-IsOwnedBut m k owned) in
    (
      need',
      k4,
      ap
            (λ (o : Option (Bool × Locks)). o >>= λ r.
              give_away fuel m (r.1.system.wait_list m) r.0 r.1 >>= λ r'.
              lock_others fuel (r'.1.mutex m) (next_holder m r.1 (r.1.system.wait_list m)) r'.0
                r'.1)
            lowered
          ∙ ap
              (λ (o : Option (Bool × Locks)). o >>= λ r'.
                lock_others fuel (r'.1.mutex m) (next_holder m k2 (k2.system.wait_list m)) r'.0
                  r'.1)
              given'
          ∙ lock_others-plain fuel (k4.mutex m) (next_holder m k2 (k2.system.wait_list m)) need' k4
              plain,
      record {
        holder = done.holder;
        queue = done.queue;
        runnable = done.runnable;
        owned = done.owned;
      },
    )

-- tn_mutex_unlock of an inherited mutex by its holder, called in a task, while tasks wait for the
-- mutex, where each mutex is in the mutex_queue of its holder once and in no other, each task that
-- waits for a mutex is blocked by one of a lower rank, and the fuel is above all ranks: the call ends
-- with TERR_NO_ERR; the first of the tasks that waited holds the mutex, and is runnable unless it is
-- suspended; the others wait on in their order; and each mutex again is in the mutex_queue of its
-- holder once and in no other.
pub tn_mutex_unlock-IsHanded :
    (rank : ℕ → ℕ) (fuel t m : ℕ) (ts : List ℕ) (k : Locks)
    → ((k.mutex m).id_mutex == tn_id_mutex) ≡ true
    → ((k.mutex m).attr == attr_inherit) ≡ true
    → in_task k.system ≡ true
    → holder_of k m ≡ some k.system.curr_run_task
    → IsOwned k
    → IsRanked rank k
    → ((t : ℕ) → rank t < fuel)
    → k.system.wait_list m ≡ t ∷ ts
    → (k.system.tcb t).pwait_queue ≡ some m
    → (k' : Locks) × (tn_mutex_unlock fuel (some m) k ≡ some (no_err, k')) × IsHanded m t ts k k'
unfolding tn_mutex_unlock switch_context
tn_mutex_unlock-IsHanded rank fuel t m ts k made inherits may held owned ranked enough waiting at =
    let (need, k', e, done) =
      do_unlock_mutex-GivesHanded rank fuel t m ts k inherits owned ranked enough waiting at in
    let mine : is_next (holder_of k m) k.system.curr_run_task ≡ true = rw (held) (ground arith) in
    elim (Bool-cases need) [
      | inl now ↦ (
        record k' { system = switch_context k'.system },
        simp (made, may, mine, e, now) refl,
        record {
          holder = done.holder;
          queue = done.queue;
          runnable = done.runnable;
          owned = done.owned;
        },
      )
      | inr later ↦ (k', simp (made, may, mine, e, later) refl, done)
    ]
