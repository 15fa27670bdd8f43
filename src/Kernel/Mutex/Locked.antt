-- ===== src/Kernel/Mutex/Locked.antt =====
-- What a lock leads to.
use usb_bulk.Prelude.{
  update_self, ℕ, ◌<◌, ◌≡◌, ◌≢◌, refl, ap, sym, subst, ◌∙◌, inl, inr, true, Option, none, some, [],
  ◌∷◌, ◌++◌, arith, ◌==◌, ltb, Bool-cases,
}
use usb_bulk.Prelude.Options.{◌>>=◌}
use usb_bulk.Kernel.Code.{Code, no_err, wrong_param, wcontext, noexs, iluse}
use usb_bulk.Kernel.Scheduler.{WaitReason}
use usb_bulk.Kernel.Queue.{Reply, returned, waits}
use usb_bulk.Kernel.Task.{in_task, priority_of, task_curr_to_wait_action, switch_context}
use usb_bulk.Kernel.Mutex.{
  Locks, tn_id_mutex, attr_inherit, holder_of, is_ceiling, has_protocol, enable_lock_mutex,
}
use usb_bulk.Kernel.Mutex.Unlock.{hold_mutex, lock_ceiling}
use usb_bulk.Kernel.Mutex.Services.{
  wait_mutex, inherit, join_blocked, block, is_illegal, lock, tn_mutex_lock,
}
use usb_bulk.Kernel.Mutex.Owned.{IsOwned, hold_mutex-IsOwned}
use usb_bulk.Kernel.Mutex.Passed.{IsRanked, IsRepriced, repriced, set_current_priority-IsRepriced}

abbrev pub me : Locks → ℕ
me k = k.system.curr_run_task

-- A call refuses and changes nothing, locks the mutex for the running task, or has it wait, last in
-- the queue.
pub data IsLockOutcome (m : ℕ) (k : Locks) : Reply Unit × Locks → Type 0 where
  refuses : (rc : Code) → rc ≢ no_err → IsLockOutcome m k (returned rc tt, k)
  locks :
      (k' : Locks)
      → holder_of k m ≡ none
      → holder_of k' m ≡ some (me k)
      → IsOwned k'
      → IsLockOutcome m k (returned no_err tt, k')
  queues :
      (k' : Locks)
      → holder_of k' m ≡ holder_of k m
      → k'.system.wait_list m ≡ k.system.wait_list m ++ (me k ∷ [])
      → IsOwned k'
      → IsLockOutcome m k (waits, k')

wait_mutex-IsLockOutcome :
    (m : ℕ) (reason : WaitReason) (timeout : ℕ) (k k1 : Locks)
    → IsOwned k1
    → holder_of k1 m ≡ holder_of k m
    → me k1 ≡ me k
    → k1.system.wait_list m ≡ k.system.wait_list m
    → IsLockOutcome m k (wait_mutex m reason timeout k1)
unfolding wait_mutex task_curr_to_wait_action switch_context
wait_mutex-IsLockOutcome m why timeout k k1 owned same_holder same_task same_queue =
    IsLockOutcome.queues _ same_holder
      (update_self k1.system.wait_list m (k1.system.wait_list m ++ (me k1 ∷ []))
        ∙ rw (same_task, same_queue) refl)
      owned

pub hold_mutex-holder : (t m : ℕ) (k : Locks) → holder_of (hold_mutex t m k) m ≡ some t
unfolding hold_mutex
hold_mutex-holder t m k =
    ap (λ x. x.holder) (update_self k.mutex m (record (k.mutex m) { holder = some t }))

lock_ceiling-IsLockOutcome :
    (m : ℕ) (k : Locks)
    → IsOwned k
    → holder_of k m ≡ none
    → IsLockOutcome m k (returned no_err tt, lock_ceiling (me k) m k)
unfolding lock_ceiling
lock_ceiling-IsLockOutcome m k owned free =
    IsLockOutcome.locks _ free (hold_mutex-holder (me k) m k)
      (hold_mutex-IsOwned (me k) m k owned free)

module _ (rank : ℕ → ℕ) (fuel m timeout : ℕ) (k : Locks) where
  inherit-IsRepriced :
      (t : ℕ)
      → IsRanked rank k
      → rank t < fuel
      → (k' : Locks) × (inherit fuel t k ≡ some k') × IsRepriced k k'
  unfolding inherit
  inherit-IsRepriced t ranked enough =
      let pr = priority_of k.system (me k) in
      elim (Bool-cases (ltb pr (priority_of k.system t))) [
        | inl higher ↦
            let (r, e, done) = set_current_priority-IsRepriced rank fuel t pr k ranked enough in
            (r.1, simp (higher, e) refl, done)
        | inr lower ↦ (k, rw (lower) refl, (priority_of k.system, k.system.ready, refl))
      ]

  -- The wait of the running task, after a change of priorities.
  repriced-IsLockOutcome :
      (why : WaitReason) (k' : Locks)
      → IsOwned k
      → IsRepriced k k'
      → IsLockOutcome m k (wait_mutex m why timeout k')
  repriced-IsLockOutcome why k' owned (prio, ready, e) =
      subst (λ k'. IsLockOutcome m k (wait_mutex m why timeout k')) (sym e)
        (wait_mutex-IsLockOutcome m why timeout k (repriced k prio ready) owned refl refl refl)

  joined-IsLockOutcome :
      (blk : Option ℕ) (k' : Locks)
      → IsOwned k
      → IsRepriced k k'
      → IsLockOutcome m k (wait_mutex m WaitReason.mutex_c_blk timeout (join_blocked blk k'))
  unfolding join_blocked
  joined-IsLockOutcome blk k' owned (prio, ready, e) =
      subst
        (λ k'.
          IsLockOutcome m k (wait_mutex m WaitReason.mutex_c_blk timeout (join_blocked blk k')))
        (sym e)
        (wait_mutex-IsLockOutcome m WaitReason.mutex_c_blk timeout k
          (join_blocked blk (repriced k prio ready)) owned refl refl refl)

  block-IsLockOutcome :
      (blk : Option ℕ)
      → IsOwned k
      → IsRanked rank k
      → ((t : ℕ) → rank t < fuel)
      → (r : Reply Unit × Locks) × (block fuel m blk timeout k ≡ some r) × IsLockOutcome m k r
  unfolding block
  block-IsLockOutcome none owned ranked enough = (
    wait_mutex m WaitReason.mutex_c_blk timeout (join_blocked none k),
    refl,
    joined-IsLockOutcome none k owned (priority_of k.system, k.system.ready, refl),
  )
  block-IsLockOutcome (some b) owned ranked enough =
      let (k', e, done) = inherit-IsRepriced b ranked (enough b) in
      (
        wait_mutex m WaitReason.mutex_c_blk timeout (join_blocked (some b) k'),
        rw (e) refl,
        joined-IsLockOutcome (some b) k' owned done,
      )

  held-IsLockOutcome :
      (why : WaitReason) (h : ℕ)
      → IsOwned k
      → IsRanked rank k
      → rank h < fuel
      → (r : Reply Unit × Locks) × ((inherit fuel h k >>= λ k'. some (wait_mutex m why timeout k'))
          ≡ some r)
        × IsLockOutcome m k r
  held-IsLockOutcome why h owned ranked enough =
      let (k', e, done) = inherit-IsRepriced h ranked enough in
      (wait_mutex m why timeout k', rw (e) refl, repriced-IsLockOutcome why k' owned done)

  lock-IsLockOutcome :
      (o : Option ℕ)
      → holder_of k m ≡ o
      → has_protocol (k.mutex m) ≡ true
      → IsOwned k
      → IsRanked rank k
      → ((t : ℕ) → rank t < fuel)
      → (r : Reply Unit × Locks) × (lock fuel m o timeout k ≡ some r) × IsLockOutcome m k r
  unfolding lock
  lock-IsLockOutcome none free has owned ranked enough =
      elim (Bool-cases (is_ceiling (k.mutex m))) [
        | inl ceiling ↦ elim (Bool-cases (enable_lock_mutex (me k) k).0) [
          | inl enabled ↦
              (_, simp (ceiling, enabled) refl, lock_ceiling-IsLockOutcome m k owned free)
          | inr refused ↦
              let (r, e, done) =
                block-IsLockOutcome (enable_lock_mutex (me k) k).1 owned ranked enough in
              (r, simp (ceiling, refused) e, done)
        ]
        | inr plain ↦
            let inherits : ((k.mutex m).attr == attr_inherit) ≡ true = ground (arith, has, plain) in
            (
              (returned no_err tt, hold_mutex (me k) m k),
              simp (plain, inherits) refl,
              IsLockOutcome.locks _ free (hold_mutex-holder (me k) m k)
                  (hold_mutex-IsOwned (me k) m k owned free),
            )
      ]
  lock-IsLockOutcome (some h) held has owned ranked enough =
      elim (Bool-cases (is_ceiling (k.mutex m))) [
        | inl ceiling ↦
            let (r, e, done) = held-IsLockOutcome WaitReason.mutex_c h owned ranked (enough h) in
            (r, simp (ceiling) e, done)
        | inr plain ↦
            let inherits : ((k.mutex m).attr == attr_inherit) ≡ true = ground (arith, has, plain) in
            let (r, e, done) = held-IsLockOutcome WaitReason.mutex_i h owned ranked (enough h) in
            (r, simp (plain, inherits) e, done)
      ]

  -- tn_mutex_lock of a mutex with one of the two protocols, where each mutex is in the mutex_queue of
  -- its holder once and in no other, each task that waits for a mutex is blocked by one of a lower
  -- rank, and the fuel is above all ranks: the call ends, and it refuses and changes nothing, or the
  -- mutex was free and the running task holds it, or the running task is the last that waits for it
  -- and its holder is the one before; in the last two cases each mutex again is in the mutex_queue of
  -- its holder once and in no other.
  pub tn_mutex_lock-IsLockOutcome :
      has_protocol (k.mutex m) ≡ true
      → IsOwned k
      → IsRanked rank k
      → ((t : ℕ) → rank t < fuel)
      → (r : Reply Unit × Locks) × (tn_mutex_lock fuel (some m) timeout k ≡ some r)
        × IsLockOutcome m k r
  unfolding tn_mutex_lock
  tn_mutex_lock-IsLockOutcome has owned ranked enough = elim (Bool-cases (timeout == 0)) [
    | inl at_once ↦ (_, simp (at_once) refl, IsLockOutcome.refuses wrong_param (λ e. cc))
    | inr later ↦ elim (Bool-cases ((k.mutex m).id_mutex == tn_id_mutex)) [
      | inr other ↦ (_, simp (later, other) refl, IsLockOutcome.refuses noexs (λ e. cc))
      | inl made ↦ elim (Bool-cases (in_task k.system)) [
        | inr out ↦ (_, simp (later, made, out) refl, IsLockOutcome.refuses wcontext (λ e. cc))
        | inl may ↦ elim (Bool-cases (is_illegal m k)) [
          | inl illegal ↦
              (_, simp (later, made, may, illegal) refl, IsLockOutcome.refuses iluse (λ e. cc))
          | inr legal ↦
              let (r, e, done) = lock-IsLockOutcome (holder_of k m) refl has owned ranked enough in
              (r, simp (later, made, may, legal) e, done)
        ]
      ]
    ]
  ]
