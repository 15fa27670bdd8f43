-- ===== src/Kernel/Pool/Linked.antt =====
-- The linking of a new pool's blocks.
use usb_bulk.Prelude.{
  ℕ, zero, suc, ◌+◌, ◌-◌, ◌*◌, ◌%◌, ◌^◌, int_mod, ◌≤◌, ◌<◌, ◌≡◌, refl, sym, ap, ◌∙◌, subst, true,
  List, [], ◌∷◌, arith, length,
}
use usb_bulk.Kernel.Pool.{Cells, put_cell, link_blocks}
use usb_bulk.Kernel.Pool.Free.{FreeList, IsApart, IsPool}

-- `n` blocks of `size` bytes from `p` on.
pub blocks : ℕ → ℕ → ℕ → List ℕ
blocks p size zero = []
blocks p size (suc n) = p ∷ blocks (p + size) size n

length-blocks : (p size n : ℕ) → length (blocks p size n) ≡ n
unfolding blocks
length-blocks p size zero = refl
length-blocks p size (suc n) = ap suc (length-blocks (p + size) size n)

blocks-IsApart : (p q size n : ℕ) → p < q → IsApart p (blocks q size n)
unfolding blocks IsApart
blocks-IsApart p q size zero h = tt
blocks-IsApart p q size (suc n) h =
    (omega (arith, h), blocks-IsApart p (q + size) size n (omega (arith, h)))

-- A write below the blocks is not read by the linking.
link_blocks_below :
    (m : Cells) (p q size n : ℕ) → p < q → q + size * n < 2 ^ 32 → link_blocks m q size n p ≡ m p
unfolding link_blocks
link_blocks_below m p q size zero h low = ground arith
link_blocks_below m p q size (suc n) h low =
    let plain : (q + size) % int_mod ≡ q + size = omega (arith, low) in
    rw (plain) (
      link_blocks_below (put_cell m q (q + size)) p (q + size) size n (omega (arith, h))
        (omega (arith, low))
      ∙ ground arith)

link_blocks_step :
    (m : Cells) (p size n : ℕ)
    → p + size < 2 ^ 32
    → link_blocks m p size (suc n) ≡ link_blocks (put_cell m p (p + size)) (p + size) size n
unfolding link_blocks
link_blocks_step m p size n low =
    let plain : (p + size) % int_mod ≡ p + size = omega (arith, low) in rw (plain) refl

link_blocks_last : (m : Cells) (p size : ℕ) → link_blocks m p size 0 p ≡ 0
unfolding link_blocks
link_blocks_last m p size = ground arith

FreeList-link_blocks :
    (m : Cells) (p size n : ℕ)
    → 0 < p
    → 0 < size
    → p + size * n < 2 ^ 32
    → FreeList (link_blocks m p size n) p (blocks p size (suc n))
unfolding blocks FreeList
FreeList-link_blocks m p size zero hp hs low = (refl, hp, link_blocks_last m p size)
FreeList-link_blocks m p size (suc n) hp hs low =
    let m' : Cells = put_cell m p (p + size) in
    let next : link_blocks m' (p + size) size n p ≡ p + size =
      link_blocks_below m' p (p + size) size n (omega (arith, hs)) (omega (arith, low))
      ∙ ground arith in
    subst (λ w. FreeList w p (blocks p size (suc (suc n))))
      (sym (link_blocks_step m p size n (omega (arith, low))))
      (
        refl,
        hp,
        subst (λ c. FreeList (link_blocks m' (p + size) size n) c (blocks (p + size) size (suc n)))
            (sym next)
            (FreeList-link_blocks m' (p + size) size n (omega arith) hs (omega (arith, low))),
      )

pub made_IsPool :
    (w : List ℕ) (m : Cells) (p size n : ℕ)
    → 0 < p
    → 0 < size
    → 2 ≤ n
    → p + size * n < 2 ^ 32
    → IsPool
        record {
          wait_queue = w;
          start_addr = p;
          block_size = size;
          num_blocks = n;
          free_list = p;
          fblkcnt = n;
          is_created = true;
        }
        (link_blocks m p size (n - 1))
        (blocks p size n)
made_IsPool w m p size zero hp hs h low = elim h [ ]
made_IsPool w m p size (suc n) hp hs h low = record {
  chain =
      subst (λ k. FreeList (link_blocks m p size k) p (blocks p size (suc n))) (omega arith)
        (FreeList-link_blocks m p size n hp hs (omega (arith, low)));
  counted = sym (length-blocks p size (suc n));
  bounded = omega (arith, length-blocks p size (suc n));
}
