-- ===== src/Kernel/Mutex/Blockers.antt =====
-- What find_max_blocked_priority and enable_lock_mutex choose.
use usb_bulk.Prelude.{
  ℕ, suc, ◌≤◌, ◌<◌, ◌≡◌, refl, ap, sym, subst, ◌↔◌, ◌⊎◌, inl, inr, Bool, true, false, ◌&&◌, Option,
  none, List, [], ◌∷◌, arith, ◌==◌, ltb, ==_iff, if◌then◌else◌, Bool-cases, count, count-cons,
  count-is_empty,
}
use usb_bulk.Kernel.Task.{priority_of}
use usb_bulk.Kernel.Mutex.{
  Mutex, Locks, has_protocol, highest, find_max_blocked_priority, is_in_way, blocker_in,
  enable_lock_mutex,
}

-- A number that is the least of `p` and those of the tasks in the list.
abbrev pub IsHighest : (ℕ → ℕ) → List ℕ → ℕ → ℕ → Type 0
IsHighest prio ts p best =
    (best ≤ p)
    × ((t : ℕ) → (count t ts == 0) ≡ false → best ≤ prio t)
    × ((best ≡ p) ⊎ ((t : ℕ) × ((count t ts == 0) ≡ false) × (best ≡ prio t)))

highest-IsHighest : (prio : ℕ → ℕ) (ts : List ℕ) (p : ℕ) → IsHighest prio ts p (highest prio ts p)
unfolding highest
highest-IsHighest prio [] p =
    (ground arith, λ t there. ground (arith, count-is_empty t [] refl), inl refl)
highest-IsHighest prio (t ∷ ts) p =
    let q = if ltb (prio t) p then prio t else p in
    let (below, all, one) = highest-IsHighest prio ts q in
    let first : count t (t ∷ ts) ≡ suc (count t ts) = ground (arith, count-cons t t ts) in
    (
      ground (arith, below),
      λ u there. elim (Bool-cases (u == t)) [
        | inl same ↦ let e = ap prio ((==_iff u t).0 same) in ground (arith, below, e)
        | inr other ↦ all u (ground (arith, there, other, count-cons u t ts))
      ],
      elim one [
        | inl is_q ↦ elim (Bool-cases (ltb (prio t) p)) [
          | inl higher ↦ inr (t, ground (arith, first), ground (arith, is_q, higher))
          | inr lower ↦ inl (ground (arith, is_q, lower))
        ]
        | inr (u, there, e) ↦ inr (u, ground (arith, there, count-cons u t ts), e)
      ],
    )

-- find_max_blocked_priority of a mutex with one of the two protocols: a priority as high as the one
-- given and as that of each task that waits for the mutex, and one of them.
pub find_max_blocked_priority-IsHighest :
    (k : Locks) (m ref_priority : ℕ)
    → has_protocol (k.mutex m) ≡ true
    → IsHighest
        (priority_of k.system)
        (k.system.wait_list m)
        ref_priority
        (find_max_blocked_priority k m ref_priority)
unfolding find_max_blocked_priority
find_max_blocked_priority-IsHighest k m ref_priority has =
    simp (has) (highest-IsHighest (priority_of k.system) (k.system.wait_list m) ref_priority)

module _ (mutex : ℕ → Mutex) (t p : ℕ) where
  -- No mutex of the list is in the way.
  abbrev pub IsClear : List ℕ → Type 0
  IsClear ms = (m : ℕ) → (count m ms == 0) ≡ false → is_in_way t p (mutex m) ≡ false

  IsClear-cons :
      (m : ℕ) (ms : List ℕ) → IsClear (m ∷ ms) ↔ ((is_in_way t p (mutex m) ≡ false) × IsClear ms)
  IsClear-cons m ms = (
    λ clear. (
      clear m (ground (arith, count-cons m m ms)),
      λ u there. clear u (ground (arith, there, count-cons u m ms)),
    ),
    λ both. λ u there. elim (Bool-cases (u == m)) [
      | inl same ↦ subst (λ m. is_in_way t p (mutex m) ≡ false) (sym ((==_iff u m).0 same)) both.0
      | inr other ↦ both.1 u (ground (arith, there, other, count-cons u m ms))
    ],
  )

  blocker_in-result :
      (ms : List ℕ) (result : Bool) (priority : ℕ) (res : Option ℕ)
      → ((blocker_in mutex t p ms result priority res).0 ≡ true) ↔ ((result ≡ true) × IsClear ms)
  unfolding blocker_in
  blocker_in-result [] result priority res =
      (λ e. (e, λ m there. ground (arith, there, count-is_empty m [] refl)), λ both. both.0)
  blocker_in-result (m ∷ ms) result priority res =
      let x : Mutex = mutex m in
      let way = is_in_way t p x in
      let above = way && ltb priority x.ceil_priority in
      let (all, back) =
        blocker_in-result ms (if way then false else result)
          (if above then x.ceil_priority else priority) (if above then x.holder else res) in
      (
        λ e.
            let (kept, clear) = all e in
            (ground (arith, kept), (IsClear-cons m ms).1 (ground (arith, kept), clear)),
        λ both.
            let (first, clear) = (IsClear-cons m ms).0 both.1 in
            back (ground (arith, both.0, first), clear),
      )

  -- Of the mutexes of the list that are in the way, none has a ceiling above `top`.
  abbrev pub AllBelow : List ℕ → ℕ → Type 0
  AllBelow ms top =
      (m : ℕ)
      → (count m ms == 0) ≡ false
      → is_in_way t p (mutex m) ≡ true
      → (mutex m).ceil_priority ≤ top

  -- What the loop stores, from `priority` and `res` on.
  abbrev IsBlocker : List ℕ → ℕ → Option ℕ → Option ℕ → Type 0
  IsBlocker ms priority res o =
      ((o ≡ res) × AllBelow ms priority)
      ⊎ ((m : ℕ) × ((count m ms == 0) ≡ false)
          × (is_in_way t p (mutex m) ≡ true)
          × (o ≡ (mutex m).holder)
          × (priority < (mutex m).ceil_priority)
          × AllBelow ms (mutex m).ceil_priority)

  below-cons :
      (m : ℕ) (ms : List ℕ) (top : ℕ)
      → AllBelow ms top
      → (is_in_way t p (mutex m) ≡ true → (mutex m).ceil_priority ≤ top)
      → AllBelow (m ∷ ms) top
  below-cons m ms top all first u there way = elim (Bool-cases (u == m)) [
    | inl same ↦
        let e = (==_iff u m).0 same in
        subst (λ m. (mutex m).ceil_priority ≤ top) (sym e)
          (first (subst (λ m. is_in_way t p (mutex m) ≡ true) e way))
    | inr other ↦ all u (ground (arith, there, other, count-cons u m ms)) way
  ]

  blocker_in-IsBlocker :
      (ms : List ℕ) (result : Bool) (priority : ℕ) (res : Option ℕ)
      → IsBlocker ms priority res (blocker_in mutex t p ms result priority res).1
  unfolding blocker_in
  blocker_in-IsBlocker [] result priority res =
      inl (refl, λ m there way. ground (arith, there, count-is_empty m [] refl))
  blocker_in-IsBlocker (m ∷ ms) result priority res =
      let x : Mutex = mutex m in
      let way = is_in_way t p x in
      let above = way && ltb priority x.ceil_priority in
      let ih =
        blocker_in-IsBlocker ms (if way then false else result)
          (if above then x.ceil_priority else priority) (if above then x.holder else res) in
      elim ih [
        | inl (e, all) ↦ elim (Bool-cases above) [
          | inl new ↦ inr (
            m,
            ground (arith, count-cons m m ms),
            ground (arith, new),
            ground (arith, e, new),
            ground (arith, new),
            below-cons m ms x.ceil_priority (λ u there w. ground (arith, all u there w, new))
                (λ w. ground arith),
          )
          | inr old ↦ inl (
            ground (arith, e, old),
            below-cons m ms priority (λ u there w. ground (arith, all u there w, old))
                (λ w. ground (arith, w, old)),
          )
        ]
        | inr (u, there, in_way, e, higher, all) ↦ inr (
          u,
          ground (arith, there, count-cons u m ms),
          in_way,
          e,
          ground (arith, higher),
          below-cons m ms (mutex u).ceil_priority all (λ w. ground (arith, w, higher)),
        )
      ]

-- Where the ceilings of the locked mutexes are 1 or more, enable_lock_mutex lets a task lock, and then
-- none of them that has a ceiling, and that the task does not hold itself, has one above the task's
-- priority; or it does not, and stores the holder of such a mutex, one with the lowest ceiling of
-- those.
pub enable_lock_mutex-IsBlocker :
    (t : ℕ) (k : Locks)
    → ((m : ℕ) → (count m k.locked_mutexes_list == 0) ≡ false → 0 < (k.mutex m).ceil_priority)
    → (((enable_lock_mutex t k).0 ≡ true)
        × IsClear k.mutex t (priority_of k.system t) k.locked_mutexes_list)
      ⊎ (((enable_lock_mutex t k).0 ≡ false)
          × (m : ℕ) × ((count m k.locked_mutexes_list == 0) ≡ false)
          × (is_in_way t (priority_of k.system t) (k.mutex m) ≡ true)
          × ((enable_lock_mutex t k).1 ≡ (k.mutex m).holder)
          × AllBelow k.mutex t
              (priority_of k.system t)
              k.locked_mutexes_list
              (k.mutex m).ceil_priority)
unfolding enable_lock_mutex
enable_lock_mutex-IsBlocker t k positive =
    let ms = k.locked_mutexes_list in
    let p = priority_of k.system t in
    let (all, back) = blocker_in-result k.mutex t p ms true 0 none in
    elim (Bool-cases (blocker_in k.mutex t p ms true 0 none).0) [
      | inl enabled ↦ inl (enabled, (all enabled).1)
      | inr refused ↦ elim (blocker_in-IsBlocker k.mutex t p ms true 0 none) [
        | inl (e, below) ↦
            let clear : IsClear k.mutex t p ms = λ m there.
              elim (Bool-cases (is_in_way t p (k.mutex m))) [
                | inl way ↦ ground (arith, below m there way, positive m there)
                | inr free ↦ free
              ] in
            ground (arith, refused, back (refl, clear))
        | inr (m, there, way, e, higher, below) ↦ inr (refused, m, there, way, e, below)
      ]
    ]
