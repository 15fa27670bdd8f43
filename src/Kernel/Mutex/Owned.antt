-- ===== src/Kernel/Mutex/Owned.antt =====
-- The mutex_queue of a task holds the mutexes that the task holds.
use usb_bulk.Prelude.{
  ℕ, ◌≡◌, refl, ap, sym, ◌∙◌, inl, inr, false, Option, none, some, List, arith, ◌==◌, ==_iff,
  if◌then◌else◌, Bool-cases, update, remove, count, count-snoc, count-remove,
}
use usb_bulk.Kernel.Ready.{is_next}
use usb_bulk.Kernel.Mutex.{Locks, holder_of}
use usb_bulk.Kernel.Mutex.Unlock.{hold_mutex, left_queues, leave_lists}

-- Each mutex is in the mutex_queue of its holder once, and in no other.
abbrev pub IsOwned : Locks → Type 0
IsOwned k = (t m : ℕ) → count m (k.mutex_queue t) ≡ (if is_next (holder_of k m) t then 1 else 0)

-- The same, but that mutex `m` is in none.
abbrev pub IsOwnedBut : ℕ → Locks → Type 0
IsOwnedBut m k =
    (t n : ℕ)
    → count n (k.mutex_queue t) ≡ (if m == n then 0 else if is_next (holder_of k n) t then 1 else 0)

free-IsOwnedBut : (m : ℕ) (k : Locks) → IsOwned k → holder_of k m ≡ none → IsOwnedBut m k
free-IsOwnedBut m k owned free t n = elim (Bool-cases (m == n)) [
  | inl here ↦
      let e = ap (λ n. is_next (holder_of k n) t) (sym ((==_iff m n).0 here)) in
      let nobody : is_next (holder_of k n) t ≡ false = e ∙ rw (free) refl in
      ground (arith, owned t n, nobody)
  | inr elsewhere ↦ ground (arith, owned t n)
]

left_queues-count :
    (o : Option ℕ) (m t n : ℕ) (queues : ℕ → List ℕ)
    → count m (queues t) ≡ (if is_next o t then 1 else 0)
    → count n (left_queues m o queues t) ≡ (if m == n then 0 else count n (queues t))
unfolding left_queues
left_queues-count none m t n queues owned =
    ground (arith, owned, ==_iff m n, ap (λ n. count n (queues t)) {x = m} {y = n})
left_queues-count (some h) m t n queues owned = elim (Bool-cases (h == t)) [
  | inl same ↦
      let e = ap (λ h. count n (remove m (queues h))) ((==_iff h t).0 same) in
      ground (arith, same, e, count-remove m n (queues t))
  | inr other ↦ elim (Bool-cases (m == n)) [
    | inl here ↦
        let e = ap (λ n. count n (queues t)) ((==_iff m n).0 here) in
        ground (arith, owned, other, e)
    | inr elsewhere ↦ ground (arith, other, elsewhere)
  ]
]

pub left-IsOwnedBut : (m : ℕ) (k : Locks) → IsOwned k → IsOwnedBut m (leave_lists m k)
unfolding leave_lists
left-IsOwnedBut m k owned t n =
    ground (arith, left_queues-count (holder_of k m) m t n k.mutex_queue (owned t m), owned t n)

pub held-IsOwned : (t m : ℕ) (k : Locks) → IsOwnedBut m k → IsOwned (hold_mutex t m k)
unfolding hold_mutex
held-IsOwned t m k owned u n = elim (Bool-cases (t == u)) [
  | inl same ↦
      let same' = ap (λ t. count n (k.mutex_queue t)) ((==_iff t u).0 same) in
      ground (arith, owned u n, same', count-snoc n m (k.mutex_queue t), ==_iff m n, ==_iff n m)
  | inr other ↦ ground (arith, owned u n)
]

pub hold_mutex-IsOwned :
    (t m : ℕ) (k : Locks) → IsOwned k → holder_of k m ≡ none → IsOwned (hold_mutex t m k)
hold_mutex-IsOwned t m k owned free = held-IsOwned t m k (free-IsOwnedBut m k owned free)

-- `mutex->holder = NULL`
pub freed-IsOwned :
    (m : ℕ) (k : Locks)
    → IsOwnedBut m k
    → IsOwned (record k { mutex = update k.mutex m (record (k.mutex m) { holder = none }) })
freed-IsOwned m k owned t n = ground (arith, owned t n)
