-- ===== src/Utils/Copy.antt =====
-- s_memcpy: what its loops copy, by bytes, half words or words.
use usb_bulk.Prelude.{
  ℕ, zero, suc, some, ◌+◌, ◌-◌, ◌*◌, ◌/◌, ◌%◌, ◌^◌, ◌≤◌, ◌<◌, ◌≡◌, refl, ◌∙◌, ◌⊎◌, inl, inr, arith,
  ◌==◌, Bool-cases, true, false, has_bits, int_mod, bit_or,
}
use usb_bulk.Prelude.Words.{and_one, and_two, or_low, or_second}
use usb_bulk.Hw.Memory.{Mem}
use usb_bulk.Utils.{move, copy_loop, on_width, s_memcpy}

-- A copy from the front on does not meet a byte that it is still to read.
abbrev pub IsForward : ℕ → ℕ → ℕ → Type 0
IsForward dst src n = (dst ≤ src) ⊎ (src + n ≤ dst)

move-move :
    (w n all dst src : ℕ) (m : Mem) (a : ℕ)
    → w + n ≡ all
    → IsForward dst src all
    → move n (move w m dst src) (dst + w) (src + w) a ≡ move all m dst src a
move-move w n all dst src m a whole (inl before) = ground (arith, whole, before)
move-move w n all dst src m a whole (inr behind) = ground (arith, whole, behind)

IsForward-next :
    (dst src w n : ℕ) → w ≤ n → IsForward dst src n → IsForward (dst + w) (src + w) (n - w)
IsForward-next dst src w n more (inl before) = inl (omega (arith, before))
IsForward-next dst src w n more (inr behind) = inr (omega (arith, more, behind))

-- The next address is a multiple of the width as well.
abbrev Steps : ℕ → Type 0
Steps w = (p : ℕ) → on_width w p ≡ true → on_width w (p + w) ≡ true

-- The loop on `suc k` elements, from addresses that are multiples of their width.
copy_loop-move :
    (k fuel w dst src n : ℕ) (m : Mem)
    → Steps w
    → on_width w dst ≡ true
    → on_width w src ≡ true
    → 0 < w
    → n ≡ w + k * w
    → n < 2 ^ 31
    → k < fuel
    → IsForward dst src n
    → copy_loop fuel w m dst src n ≡ some (move n m dst src)
unfolding copy_loop
copy_loop-move k zero w dst src n m step on_d on_s pos e low enough forward =
    absurd (omega (arith, enough))
copy_loop-move zero (suc fuel) w dst src n m step on_d on_s pos e low enough forward =
    let all : n ≡ w = omega (arith, e) in
    let done : (n + int_mod - w) % int_mod ≡ 0 = omega (arith, all) in
    rw (on_d, on_s, done, all) refl
copy_loop-move (suc k) (suc fuel) w dst src n m step on_d on_s pos e low enough forward =
    let next : n - w ≡ w + k * w = grind (arith, e) in
    let more : w ≤ n = grind (arith, e) in
    let left : (n + int_mod - w) % int_mod ≡ n - w = omega (arith, more, low) in
    let some_left : (n - w == 0) ≡ false = grind (arith, next, pos) in
    let whole : w + (n - w) ≡ n = omega (arith, more) in
    rw (on_d, on_s, left, some_left)
      (copy_loop-move k fuel w (dst + w) (src + w) (n - w) (move w m dst src) step (step dst on_d)
          (step src on_s) pos next (omega (arith, low)) (omega (arith, enough))
          (IsForward-next dst src w n more forward)
        ∙ (λ i. some (λ a. move-move w (n - w) n dst src m a whole forward i)))

-- The mask of an s_memcpy that is even, or a multiple of 4.
mask_even :
    (s1 s2 n : ℕ)
    → has_bits (bit_or (bit_or s1 s2) n) 1 ≡ false
    → (s1 % 2 ≡ 0) × (s2 % 2 ≡ 0) × (n % 2 ≡ 0)
mask_even s1 s2 n even =
    let both = bit_or s1 s2 in
    let low : bit_or both n % 2 ≡ 0 = ground (arith, even, and_one (bit_or both n)) in
    (
      omega (arith, low, or_low both n, or_low s1 s2),
      omega (arith, low, or_low both n, or_low s1 s2),
      omega (arith, low, or_low both n),
    )

mask_whole :
    (s1 s2 n : ℕ)
    → has_bits (bit_or (bit_or s1 s2) n) 2 ≡ false
    → (s1 / 2 % 2 ≡ 0) × (s2 / 2 % 2 ≡ 0) × (n / 2 % 2 ≡ 0)
mask_whole s1 s2 n whole =
    let both = bit_or s1 s2 in
    let low : bit_or both n / 2 % 2 ≡ 0 = ground (arith, whole, and_two (bit_or both n)) in
    (
      omega (arith, low, or_second both n, or_second s1 s2),
      omega (arith, low, or_second both n, or_second s1 s2),
      omega (arith, low, or_second both n),
    )

-- s_memcpy of less than 2 ^ 31 bytes to a place that is not behind the first byte that it reads, or is
-- behind the last one: it ends, each address that it uses is a multiple of the width of what it copies
-- there, and memory is as if all of the n bytes had been read before one was written; no other byte
-- changes.
pub s_memcpy-move :
    (m : Mem) (s1 s2 n : ℕ)
    → n < 2 ^ 31
    → IsForward s1 s2 n
    → s_memcpy m s1 s2 n ≡ some (move n m s1 s2)
unfolding s_memcpy
s_memcpy-move m s1 s2 zero low forward =
    let none_moved : (a : ℕ) → m a ≡ move 0 m s1 s2 a = λ a. ground arith in
    λ i. some (λ a. none_moved a i)
s_memcpy-move m s1 s2 (suc n) low forward =
    let mask = bit_or (bit_or s1 s2) (suc n) in
    let some_bytes : (suc n == 0) ≡ false = ground arith in
    elim (Bool-cases (has_bits mask 1)) [
      | inl odd ↦
          rw (some_bytes, odd)
            (copy_loop-move n (suc n) 1 s1 s2 (suc n) m (λ p on. ground arith) (ground arith)
              (ground arith) (omega arith) (omega arith) low (omega arith) forward)
      | inr even ↦
          let (d2, s2', n2) = mask_even s1 s2 (suc n) even in
          elim (Bool-cases (has_bits mask 2)) [
            | inl half ↦
                rw (some_bytes, even, half)
                  (copy_loop-move (n / 2) (suc n) 2 s1 s2 (suc n) m (λ p on. ground (arith, on))
                    (ground (arith, d2)) (ground (arith, s2')) (omega arith) (omega (arith, n2)) low
                    (omega arith) forward)
            | inr not_half ↦
                let (d4, s4, n4) = mask_whole s1 s2 (suc n) not_half in
                rw (some_bytes, even, not_half)
                  (copy_loop-move (n / 4) (suc n) 4 s1 s2 (suc n) m (λ p on. ground (arith, on))
                    (ground (arith, d2, d4)) (ground (arith, s2', s4)) (omega arith)
                    (omega (arith, n2, n4)) low (omega arith) forward)
          ]
    ]
