-- ===== src/Kernel/Pool/Create.antt =====
-- The pool that tn_fmem_create makes.
use usb_bulk.Prelude.{
  ℕ, zero, suc, ◌+◌, ◌-◌, ◌*◌, ◌%◌, ◌^◌, int_mod, ◌≤◌, ◌<◌, ◌≡◌, refl, sym, Bool, ap₂, ◌∙◌, subst,
  Bool-cases, true, false, not, gt_int, ◌||◌, Option, some, [], arith, ◌==◌, ltb, ◌⊎◌, inl, inr,
}
use usb_bulk.Kernel.Code.{Code, no_err, wrong_param}
use usb_bulk.Kernel.Pool.{Fmp, Cells, aligned, fitting, link_blocks, tn_fmem_create}
use usb_bulk.Kernel.Pool.Free.{IsPool}
use usb_bulk.Kernel.Pool.Linked.{blocks, made_IsPool}

-- How many blocks are left: no more than asked for, they end at the limit or before, and one more
-- would not, unless they are all that were asked for.
record Fits (limit first size n k : ℕ) : Type 0 where
  at_most : k ≤ n
  inside : first + size * k ≤ limit
  most : (k ≡ n) ⊎ (limit < first + size * suc k)

fitting_next :
    (fuel limit first size n : ℕ)
    → suc n < 2 ^ 31
    → first + size * suc n < 2 ^ 32
    → limit < first + size * suc n
    → fitting (suc fuel) limit (first + size * suc n) size (suc n)
      ≡ fitting fuel limit (first + size * n) size n
unfolding fitting
fitting_next fuel limit first size n low whole over =
    let fewer : (suc n + int_mod - 1) % int_mod ≡ n = omega (arith, low) in
    let last : (first + size * suc n + int_mod - size) % int_mod ≡ first + size * n =
      omega (arith, whole) in
    let behind : ltb limit (first + size * suc n) ≡ true = ground (arith, over) in
    rw (behind, fewer, last) refl

fitting-Fits :
    (fuel limit first size n : ℕ)
    → n < fuel
    → n < 2 ^ 31
    → first ≤ limit
    → first + size * n < 2 ^ 32
    → (k : ℕ) × (fitting fuel limit (first + size * n) size n ≡ some k) × Fits limit first size n k
unfolding fitting
fitting-Fits zero limit first size n enough low room whole = absurd (omega (arith, enough))
fitting-Fits (suc fuel) limit first size zero enough low room whole = (
  0,
  ground (arith, room),
  record { at_most = omega arith; inside = omega (arith, room); most = inl refl },
)
fitting-Fits (suc fuel) limit first size (suc n) enough low room whole =
    elim (Bool-cases (ltb limit (first + size * suc n))) [
      | inr fit ↦ (
        suc n,
        rw (fit) refl,
        record { at_most = omega arith; inside = ground (arith, fit); most = inl refl },
      )
      | inl over ↦
          let behind : limit < first + size * suc n = ground (arith, over) in
          let (k, run, w) =
            fitting-Fits fuel limit first size n (omega (arith, enough)) (omega (arith, low)) room
              (omega (arith, whole)) in
          (
            k,
            fitting_next fuel limit first size n low whole behind ∙ run,
            record {
              at_most = omega (arith, w.at_most);
              inside = w.inside;
              most = elim w.most [
                | inl all ↦ inr (subst (λ c. limit < first + size * suc c) (sym all) behind)
                | inr more ↦ inr more
              ];
            },
          )
    ]

-- The first address and the blocks' size: multiples of 4, the least that are not below those asked for.
pub record IsPlaced (start block_size first size : ℕ) : Type 0 where
  pub from_start : start ≤ first
  pub near : first ≤ start + 3
  pub on_four : first % 4 ≡ 0
  pub wide : block_size ≤ size
  pub tight : size ≤ block_size + 3
  pub of_four : size % 4 ≡ 0

-- A new pool, by what was asked for: its blocks are those from its first address on, in that order, and
-- either all that were asked for, or as many as the memory that was given has room for.
pub record IsMade (start block_size num_blocks : ℕ) (g : Fmp) (m : Cells) : Type 0 where
  pub created : g.is_created ≡ true
  pub free : IsPool g m (blocks g.start_addr g.block_size g.num_blocks)
  pub placed : IsPlaced start block_size g.start_addr g.block_size
  pub two : 2 ≤ g.num_blocks
  pub at_most : g.num_blocks ≤ num_blocks
  pub inside : g.start_addr + g.block_size * g.num_blocks ≤ start + block_size * num_blocks
  pub most :
      (g.num_blocks ≡ num_blocks)
      ⊎ (start + block_size * num_blocks < g.start_addr + g.block_size * suc g.num_blocks)

-- Why no pool is made: that two blocks do not fit is the last reason.
pub data IsRefusal (f : Fmp) (start block_size num_blocks : ℕ) : Type 0 where
  in_use : f.is_created ≡ true → IsRefusal f start block_size num_blocks
  null : start ≡ 0 → IsRefusal f start block_size num_blocks
  few : num_blocks < 2 → IsRefusal f start block_size num_blocks
  narrow : block_size < 4 → IsRefusal f start block_size num_blocks
  small :
      (first size : ℕ)
      → IsPlaced start block_size first size
      → start + block_size * num_blocks < first + size * 2
      → IsRefusal f start block_size num_blocks

pub data IsOutcome (f : Fmp) (m : Cells) (start block_size num_blocks : ℕ)
    : Code × Option Fmp × Cells → Type 0 where
  refused :
      {g : Fmp}
      → IsRefusal f start block_size num_blocks
      → IsOutcome f m start block_size num_blocks (wrong_param, some g, m)
  made :
      {g : Fmp} {m' : Cells}
      → f.is_created ≡ false
      → 0 < start
      → 4 ≤ block_size
      → IsMade start block_size num_blocks g m'
      → IsOutcome f m start block_size num_blocks (no_err, some g, m')

times_mono : (a b n : ℕ) → a ≤ b → a * n ≤ b * n
times_mono a b zero h = omega arith
times_mono a b (suc n) h = omega (arith, h, times_mono a b n h)

-- `block_size * num_blocks` is 8 or more, which is why the first aligned address is inside.
eight : (b n : ℕ) → 4 ≤ b → 2 ≤ n → 8 ≤ b * n
eight b zero h k = elim k [ ]
eight b (suc zero) h k = omega (arith, k)
eight b (suc (suc n)) h k = omega arith

aligned-IsPlaced :
    (start block_size : ℕ)
    → start + 3 < 2 ^ 32
    → block_size + 3 < 2 ^ 32
    → IsPlaced start block_size (aligned start) (aligned block_size)
aligned-IsPlaced start block_size low thin = record {
  from_start = omega (arith, low);
  near = omega (arith, low);
  on_four = omega arith;
  wide = omega (arith, thin);
  tight = omega (arith, thin);
  of_four = omega arith;
}

below-mod : (x : ℕ) → x < 2 ^ 32 → x % int_mod ≡ x
below-mod x h = omega (arith, h)

-- The rest of the code behind its first tests, where no sum wraps.
fitted :
    (start block_size num_blocks fuel : ℕ)
    → num_blocks < fuel
    → num_blocks < 2 ^ 31
    → start + 3 + (block_size + 3) * num_blocks < 2 ^ 32
    → 2 ≤ num_blocks
    → 4 ≤ block_size
    → let first = aligned start in
      let size = aligned block_size in
      let limit = start + block_size * num_blocks in
      (n : ℕ) × (fitting fuel
          (limit % int_mod)
          ((first + size * num_blocks) % int_mod)
          size
          num_blocks
        ≡ some n)
      × Fits limit first size num_blocks n
      × IsPlaced start block_size first size
      × (first + size * num_blocks < 2 ^ 32)
fitted start block_size num_blocks fuel enough low whole hn hb =
    let first = aligned start in
    let size = aligned block_size in
    let limit = start + block_size * num_blocks in
    let narrow : block_size + 3 < 2 ^ 32 =
      omega (arith, whole, times_mono 1 num_blocks (block_size + 3) (omega (arith, hn))) in
    let p = aligned-IsPlaced start block_size (omega (arith, whole)) narrow in
    let under : first + size * num_blocks < 2 ^ 32 =
      omega (arith, whole, p.near, times_mono size (block_size + 3) num_blocks p.tight) in
    let under_limit : limit < 2 ^ 32 =
      omega (arith, whole, times_mono block_size (block_size + 3) num_blocks (omega arith)) in
    let room : first ≤ limit = omega (arith, p.near, eight block_size num_blocks hb hn) in
    let (n, run, w) = fitting-Fits fuel limit first size num_blocks enough low room under in
    (
      n,
      ap₂ (λ l e. fitting fuel l e size num_blocks) (below-mod limit under_limit)
            (below-mod (first + size * num_blocks) under)
          ∙ run,
      w,
      p,
      under,
    )

abbrev is_bad : ℕ → ℕ → ℕ → Bool
is_bad start block_size num_blocks = start == 0 || not (gt_int num_blocks 1) || ltb block_size 4

bad-IsRefusal :
    (f : Fmp) (start block_size num_blocks : ℕ)
    → num_blocks < 2 ^ 31
    → is_bad start block_size num_blocks ≡ true
    → IsRefusal f start block_size num_blocks
bad-IsRefusal f start block_size num_blocks low d = elim (Bool-cases (start == 0)) [
  | inl e ↦ null (ground (arith, e))
  | inr e ↦ elim (Bool-cases (ltb block_size 4)) [
    | inl b ↦ narrow (ground (arith, b))
    | inr b ↦ few (ground (arith, d, e, b, low))
  ]
]

small_memory :
    (limit first size n k : ℕ)
    → Fits limit first size n k
    → n < 2 ^ 31
    → 2 ≤ n
    → gt_int k 1 ≡ false
    → limit < first + size * 2
small_memory limit first size n k w low hn a =
    let one : k < 2 = ground (arith, a, w.at_most, low) in
    elim w.most [
      | inl all ↦ absurd (omega (arith, all, one, hn))
      | inr more ↦ omega (arith, more, times_mono (suc k) 2 size one)
    ]

abbrev cleared : Fmp → Fmp
cleared f = record f { fblkcnt = 0; num_blocks = 0; is_created = false; free_list = 0 }

abbrev ready : Fmp → ℕ → ℕ → ℕ → Fmp
ready f first size n = record f {
  wait_queue = [];
  start_addr = first;
  block_size = size;
  num_blocks = n;
  free_list = first;
  fblkcnt = n;
  is_created = true;
}

ready-IsMade :
    (f : Fmp) (m : Cells) (start block_size num_blocks n : ℕ)
    → let first = aligned start in
      let size = aligned block_size in
      Fits (start + block_size * num_blocks) first size num_blocks n
      → IsPlaced start block_size first size
      → 2 ≤ n
      → 0 < start
      → 4 ≤ block_size
      → first + size * num_blocks < 2 ^ 32
      → IsMade start block_size num_blocks (ready f first size n) (link_blocks m first size (n - 1))
ready-IsMade f m start block_size num_blocks n w p hn pos hb under = record {
  created = refl;
  free =
      made_IsPool [] m (aligned start) (aligned block_size) n (omega (arith, pos, p.from_start))
        (omega (arith, hb, p.wide)) hn
        (omega (arith, under, times_mono n num_blocks (aligned block_size) w.at_most));
  placed = p;
  two = hn;
  at_most = w.at_most;
  inside = w.inside;
  most = w.most;
}

-- tn_fmem_create with fuel for more rounds than there are blocks, where neither the memory given nor
-- that of the blocks asked for, each with 3 bytes more for its alignment, reaches 2 ^ 32: the call
-- ends. It answers TERR_WRONG_PARAM and leaves memory as it was, and then the pool is in use, the
-- memory is null, fewer than 2 blocks or less than 4 bytes for a block are asked for, or 2 aligned
-- blocks do not fit; or it answers TERR_NO_ERR, the pool was not in use and the memory not null, and
-- the free list holds all the pool's blocks in the order of their addresses: at least 2, aligned, none
-- smaller than asked for, all inside the memory given, and as many as asked for or as fit there.
pub tn_fmem_create-IsOutcome :
    (f : Fmp) (m : Cells) (start block_size num_blocks fuel : ℕ)
    → num_blocks < fuel
    → num_blocks < 2 ^ 31
    → start + 3 + (block_size + 3) * num_blocks < 2 ^ 32
    → (r : Code × Option Fmp × Cells) × (tn_fmem_create fuel (some f) m start block_size num_blocks
        ≡ some r)
      × IsOutcome f m start block_size num_blocks r
unfolding tn_fmem_create
tn_fmem_create-IsOutcome f m start block_size num_blocks fuel enough low whole =
    elim (Bool-cases f.is_created) [
      | inl e ↦ ((wrong_param, some f, m), simp (e) refl, refused (in_use e))
      | inr e ↦ elim (Bool-cases (is_bad start block_size num_blocks)) [
        | inl d ↦ (
          (wrong_param, some (cleared f), m),
          simp (e, d) refl,
          refused (bad-IsRefusal f start block_size num_blocks low d),
        )
        | inr d ↦
            let (n, run, w, p, under) =
              fitted start block_size num_blocks fuel enough low whole (ground (arith, d))
                (ground (arith, d)) in
            let first = aligned start in
            let size = aligned block_size in
            elim (Bool-cases (gt_int n 1)) [
              | inl a ↦ (
                (no_err, some (ready f first size n), link_blocks m first size (n - 1)),
                simp (e, d, run, a) refl,
                made e (ground (arith, d)) (ground (arith, d)) (
                    ready-IsMade f m start block_size num_blocks n w p (ground (arith, a))
                      (ground (arith, d)) (ground (arith, d)) under),
              )
              | inr a ↦ (
                (
                  wrong_param,
                  some (record f {
                    wait_queue = [];
                    start_addr = first;
                    block_size = size;
                    fblkcnt = 0;
                    num_blocks = 0;
                    free_list = 0;
                  }),
                  m,
                ),
                simp (e, d, run, a) refl,
                refused (
                    small first size p (
                      small_memory (start + block_size * num_blocks) first size num_blocks n w low
                        (ground (arith, d)) a)),
              )
            ]
      ]
    ]
