-- ===== src/Kernel/Task/Released.antt =====
-- What task_wait_complete does to the task, and what it leaves as it is.
use usb_bulk.Prelude.{ℕ, ◌≡◌, refl, ap, inl, inr, false, not, arith, ◌==◌, ==_iff, Bool-cases}
use usb_bulk.Kernel.Code.{no_err}
use usb_bulk.Kernel.Task.{System, is_runnable, has_suspend, task_to_runnable, task_wait_complete}

module _ (t : ℕ) (s : System) where
  pub task_wait_complete-rc : ((task_wait_complete t s).1.tcb t).task_wait_rc ≡ no_err
  unfolding task_wait_complete task_to_runnable
  task_wait_complete-rc = elim (Bool-cases (has_suspend (s.tcb t).task_state)) [
    | inl held ↦ simp (held) (ground arith)
    | inr free ↦ simp (free) (ground arith)
  ]

  pub task_wait_complete-runnable :
      is_runnable ((task_wait_complete t s).1.tcb t).task_state
      ≡ not (has_suspend (s.tcb t).task_state)
  unfolding task_wait_complete task_to_runnable
  task_wait_complete-runnable = elim (Bool-cases (has_suspend (s.tcb t).task_state)) [
    | inl held ↦ simp (held) (ground arith)
    | inr free ↦ simp (free) (ground arith)
  ]

  pub task_wait_complete-switch :
      (task_wait_complete t s).0 ≡ not (has_suspend (s.tcb t).task_state)
  unfolding task_wait_complete
  task_wait_complete-switch = elim (Bool-cases (has_suspend (s.tcb t).task_state)) [
    | inl held ↦ simp (held) refl
    | inr free ↦ simp (free) refl
  ]

  pub task_wait_complete-others :
      (u : ℕ) → (t == u) ≡ false → (task_wait_complete t s).1.tcb u ≡ s.tcb u
  unfolding task_wait_complete task_to_runnable
  task_wait_complete-others u other = elim (Bool-cases (has_suspend (s.tcb t).task_state)) [
    | inl held ↦ simp (held) (rw (other) refl)
    | inr free ↦ simp (free) (rw (other) refl)
  ]

  pub task_wait_complete-wait_list : (task_wait_complete t s).1.wait_list ≡ s.wait_list
  unfolding task_wait_complete task_to_runnable
  task_wait_complete-wait_list = elim (Bool-cases (has_suspend (s.tcb t).task_state)) [
    | inl held ↦ simp (held) refl
    | inr free ↦ simp (free) refl
  ]

  pub task_wait_complete-ewait_pattern :
      ((task_wait_complete t s).1.tcb t).ewait_pattern ≡ (s.tcb t).ewait_pattern
  unfolding task_wait_complete task_to_runnable
  task_wait_complete-ewait_pattern = elim (Bool-cases (has_suspend (s.tcb t).task_state)) [
    | inl held ↦ simp (held) (ground arith)
    | inr free ↦ simp (free) (ground arith)
  ]

  pub task_wait_complete-request :
      (task_wait_complete t s).1.context_switch_request ≡ s.context_switch_request
  unfolding task_wait_complete task_to_runnable
  task_wait_complete-request = elim (Bool-cases (has_suspend (s.tcb t).task_state)) [
    | inl held ↦ simp (held) refl
    | inr free ↦ simp (free) refl
  ]

  pub task_wait_complete-data_elem :
      (u : ℕ) → ((task_wait_complete t s).1.tcb u).data_elem ≡ (s.tcb u).data_elem
  unfolding task_wait_complete task_to_runnable
  task_wait_complete-data_elem u = elim (Bool-cases (t == u)) [
    | inl same ↦
        let e = ap (λ t. (s.tcb t).data_elem) ((==_iff t u).0 same) in
        elim (Bool-cases (has_suspend (s.tcb t).task_state)) [
          | inl held ↦ simp (held) (ground (arith, e, same))
          | inr free ↦ simp (free) (ground (arith, e, same))
        ]
    | inr other ↦ elim (Bool-cases (has_suspend (s.tcb t).task_state)) [
      | inl held ↦ simp (held) (rw (other) refl)
      | inr free ↦ simp (free) (rw (other) refl)
    ]
  ]
