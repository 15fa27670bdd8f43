-- ===== src/Kernel/Pool/Free.antt =====
-- The free list of a pool, as the list of its blocks.
use usb_bulk.Prelude.{
  ℕ, suc, ◌≤◌, ◌<◌, ◌≡◌, ◌≢◌, refl, ap, ◌∙◌, subst, true, false, Option, none, some, List, [], ◌∷◌,
  arith, ◌==◌, if◌then◌else◌, length,
}
use usb_bulk.Kernel.Code.{Code, no_err, timeout}
use usb_bulk.Kernel.Scheduler.{Scheduler}
use usb_bulk.Kernel.Pool.{
  Fmp, Cells, put_cell, fm_get, fm_put, put_or_hand, release, tn_fmem_get_ipolling,
  tn_fmem_irelease,
}

-- From `p` on the cells lead through these blocks to the null pointer.
unfoldable pub FreeList : Cells → ℕ → List ℕ → Type 0
FreeList m p [] = p ≡ 0
FreeList m p (b ∷ bs) = (p ≡ b) × (0 < b) × FreeList m (m b) bs

unfoldable pub IsApart : ℕ → List ℕ → Type 0
IsApart p [] = Unit
IsApart p (b ∷ bs) = (p ≢ b) × IsApart p bs

pub record IsPool (f : Fmp) (m : Cells) (bs : List ℕ) : Type 0 where
  pub chain : FreeList m f.free_list bs
  pub counted : f.fblkcnt ≡ length bs
  pub bounded : length bs ≤ f.num_blocks

-- A write to another cell leaves the list.
pub FreeList-put_cell :
    (m : Cells) (q v p : ℕ) (bs : List ℕ)
    → IsApart q bs
    → FreeList m p bs
    → FreeList (put_cell m q v) p bs
unfolding FreeList IsApart
FreeList-put_cell m q v p [] a h = h
FreeList-put_cell m q v p (b ∷ bs) a h = (
  h.0,
  h.1,
  subst (λ c. FreeList (put_cell m q v) c bs) (ground (arith, a.0))
      (FreeList-put_cell m q v (m b) bs a.1 h.2),
)

fm_get_some :
    (f : Fmp) (m : Cells) (b : ℕ) (bs : List ℕ)
    → IsPool f m (b ∷ bs)
    → fm_get f m ≡ (b, record f { free_list = m b; fblkcnt = length bs })
unfolding fm_get FreeList
fm_get_some f m b bs h = ground (arith, h.chain.0, h.counted, ap m h.chain.0)

fm_get_none : (f : Fmp) (m : Cells) → IsPool f m [] → fm_get f m ≡ (0, f)
unfolding fm_get
fm_get_none f m h = ground (arith, h.counted)

fm_put_some :
    (f : Fmp) (m : Cells) (p : ℕ) (bs : List ℕ)
    → IsPool f m bs
    → length bs < f.num_blocks
    → fm_put f m p
      ≡ (no_err, record f { free_list = p; fblkcnt = suc (length bs) }, put_cell m p f.free_list)
unfolding fm_put
fm_put_some f m p bs h room = ground (arith, h.counted)

FreeList-put :
    (m : Cells) (p q : ℕ) (bs : List ℕ)
    → 0 < p
    → IsApart p bs
    → FreeList m q bs
    → FreeList (put_cell m p q) p (p ∷ bs)
unfolding FreeList
FreeList-put m p q bs pos apart h = (
  refl,
  pos,
  subst (λ c. FreeList (put_cell m p q) c bs) (ground arith) (FreeList-put_cell m p q q bs apart h),
)

-- What a get is to do with the free blocks.
abbrev pub got : List ℕ → Code × Option ℕ × List ℕ
got [] = (timeout, none, [])
got (b ∷ bs) = (no_err, some b, bs)

pos_not_zero : (b : ℕ) → 0 < b → (b == 0) ≡ false
pos_not_zero b h = ground arith

module _ {S : Type 0} (sched : Scheduler S) where
  get_run :
      (f : Fmp) (m : Cells) (s : S)
      → f.is_created ≡ true
      → sched.in_interrupt s ≡ true
      → tn_fmem_get_ipolling sched (some f) true m s ≡ (
          if (fm_get f m).0 == 0
          then (timeout, none, some (fm_get f m).1)
          else (no_err, some (fm_get f m).0, some (fm_get f m).1))
  unfolding tn_fmem_get_ipolling
  get_run f m s made may = simp (made, may)

  -- A pool that is asked for a block in an interrupt gives the first free one, which is free no
  -- longer, and the others stay free; with none free it answers TERR_TIMEOUT.
  pub tn_fmem_get_ipolling-got :
      (f : Fmp) (m : Cells) (s : S) (bs : List ℕ)
      → IsPool f m bs
      → f.is_created ≡ true
      → sched.in_interrupt s ≡ true
      → (g : Fmp) × (tn_fmem_get_ipolling sched (some f) true m s
          ≡ ((got bs).0, (got bs).1, some g))
        × IsPool g m (got bs).2
  unfolding FreeList
  tn_fmem_get_ipolling-got f m s [] h made may =
      (f, get_run f m s made may ∙ rw (fm_get_none f m h) refl, h)
  tn_fmem_get_ipolling-got f m s (b ∷ bs) h made may = (
    record f { free_list = m b; fblkcnt = length bs },
    get_run f m s made may ∙ rw (fm_get_some f m b bs h, pos_not_zero b h.chain.1) refl,
    record { chain = h.chain.2; counted = refl; bounded = omega (arith, h.bounded) },
  )

  put_or_hand-others :
      (ts : List ℕ) (f : Fmp) (p a : ℕ) (m : Cells) (s : S)
      → (a == p) ≡ false
      → (put_or_hand sched ts f p m s).1 a ≡ m a
  unfolding put_or_hand fm_put
  put_or_hand-others [] f p a m s other = ground (arith, other)
  put_or_hand-others (t ∷ ts) f p a m s other = refl

  -- Giving a block back changes no cell but its first.
  pub tn_fmem_irelease-others :
      (pool : Option Fmp) (p a : ℕ) (m : Cells) (s : S)
      → (a == p) ≡ false
      → (tn_fmem_irelease sched pool p m s).2 a ≡ m a
  unfolding tn_fmem_irelease release
  tn_fmem_irelease-others none p a m s other = refl
  tn_fmem_irelease-others (some f) p a m s other =
      ground (arith, put_or_hand-others f.wait_queue f p a m s other)

  irelease_run :
      (f : Fmp) (m : Cells) (p : ℕ) (s : S)
      → f.is_created ≡ true
      → sched.in_interrupt s ≡ true
      → f.wait_queue ≡ []
      → 0 < p
      → tn_fmem_irelease sched (some f) p m s ≡ (no_err, some (fm_put f m p).1, (fm_put f m p).2, s)
  unfolding tn_fmem_irelease
  irelease_run f m p s made may idle h = simp (made, may, idle, pos_not_zero p h)

  -- A block that is given back in an interrupt, when no task waits for one, when it is not free
  -- already and when not all are free, becomes the first free one before those that were.
  pub tn_fmem_irelease-free :
      (f : Fmp) (m : Cells) (p : ℕ) (s : S) (bs : List ℕ)
      → IsPool f m bs
      → f.is_created ≡ true
      → sched.in_interrupt s ≡ true
      → f.wait_queue ≡ []
      → 0 < p
      → IsApart p bs
      → length bs < f.num_blocks
      → (g : Fmp) × (m' : Cells) × (tn_fmem_irelease sched (some f) p m s ≡ (no_err, some g, m', s))
        × IsPool g m' (p ∷ bs)
  tn_fmem_irelease-free f m p s bs h made may idle pos apart room = (
    record f { free_list = p; fblkcnt = suc (length bs) },
    put_cell m p f.free_list,
    irelease_run f m p s made may idle pos ∙ rw (fm_put_some f m p bs h room) refl,
    record {
      chain = FreeList-put m p f.free_list bs pos apart h.chain;
      counted = refl;
      bounded = omega (arith, room);
    },
  )
