-- ===== src/Prelude/Words.antt =====
-- The bits of a word: `bit w i` is bit i of `w`, and how the operations that set one and clear one
-- change it.
use Prim.Native.Nat.{
  ℕ, zero, suc, ◌+◌, ◌-◌, ◌*◌, ◌/◌, ◌%◌, ◌^◌, ◌≤◌, ◌<◌, min, max, bit_and, bit_or, digits,
  bit_and-bitwise, bit_or-bitwise,
}
use mathlib.Core.Path.{◌≡◌, refl, ap, ◌∙◌}
use mathlib.Core.Bool.{Bool, false, not, ◌&&◌, ◌||◌}
use native.Mathlib.Omega.{arith}
use usb_bulk.Prelude.Tests.{◌==◌, ltb}

unfoldable pub bit : ℕ → ℕ → Bool
bit w zero = w % 2 == 1
bit w (suc i) = bit (w / 2) i

-- The digits of a result do not depend on how many of them are asked for, once there are enough.
module _ (f : ℕ → ℕ → ℕ) (z : ℕ → ℕ) where
  digits-enough : (m n a b : ℕ) → a ≤ m → a ≤ n → digits z f m a b ≡ digits z f n a b
  digits-enough zero zero zero b h k = refl
  digits-enough zero (suc n) zero b h k = refl
  digits-enough (suc m) zero zero b h k = refl
  digits-enough (suc m) (suc n) zero b h k = refl
  digits-enough zero n (suc a) b h k = absurd (omega arith)
  digits-enough (suc m) zero (suc a) b h k = absurd (omega arith)
  digits-enough (suc m) (suc n) (suc a) b h k =
      let higher = digits-enough m n (suc a / 2) (b / 2) (omega arith) (omega arith) in
      ap (λ h. h * 2 + f (suc a % 2) (b % 2)) higher

or-zero : (b : ℕ) → bit_or 0 b ≡ b
or-zero b = bit_or-bitwise 0 b

and-zero : (b : ℕ) → bit_and 0 b ≡ 0
and-zero b = bit_and-bitwise 0 b

or-halves : (a b : ℕ) → bit_or a b ≡ bit_or (a / 2) (b / 2) * 2 + max (a % 2) (b % 2)
or-halves zero b = omega (arith, or-zero b, or-zero (b / 2))
or-halves (suc a) b = omega (
  arith,
  bit_or-bitwise (suc a) b,
  bit_or-bitwise (suc a / 2) (b / 2),
  digits-enough max (λ b. b) a (suc a / 2) (suc a / 2) (b / 2) (omega arith) (omega arith),
)

and-halves : (a b : ℕ) → bit_and a b ≡ bit_and (a / 2) (b / 2) * 2 + min (a % 2) (b % 2)
and-halves zero b = omega (arith, and-zero b, and-zero (b / 2))
and-halves (suc a) b = omega (
  arith,
  bit_and-bitwise (suc a) b,
  bit_and-bitwise (suc a / 2) (b / 2),
  digits-enough min (λ b. 0) a (suc a / 2) (suc a / 2) (b / 2) (omega arith) (omega arith),
)

-- The masks of the lowest two bits.
below-and_zero : (n a : ℕ) → a ≤ n → bit_and a 0 ≡ 0
below-and_zero zero a h =
    let none_a : a ≡ 0 = omega arith in omega (arith, and-zero 0, ap (λ a. bit_and a 0) none_a)
below-and_zero (suc n) a h = omega (arith, and-halves a 0, below-and_zero n (a / 2) (omega arith))

pub and_one : (a : ℕ) → bit_and a 1 ≡ a % 2
and_one a = omega (arith, and-halves a 1, below-and_zero a (a / 2) (omega arith))

pub and_two : (a : ℕ) → bit_and a 2 ≡ a / 2 % 2 * 2
and_two a = omega (arith, and-halves a 2, and_one (a / 2))

pub or_low : (a b : ℕ) → bit_or a b % 2 ≡ max (a % 2) (b % 2)
or_low a b = omega (arith, or-halves a b)

pub or_second : (a b : ℕ) → bit_or a b / 2 % 2 ≡ max (a / 2 % 2) (b / 2 % 2)
or_second a b = omega (arith, or-halves a b, or-halves (a / 2) (b / 2))

pub bit-or : (i a b : ℕ) → bit (bit_or a b) i ≡ (bit a i || bit b i)
unfolding bit
bit-or zero a b = ground (arith, or-halves a b)
bit-or (suc i) a b =
    let half : bit_or a b / 2 ≡ bit_or (a / 2) (b / 2) = omega (arith, or-halves a b) in
    ap (λ w. bit w i) half ∙ bit-or i (a / 2) (b / 2)

pub bit-and : (i a b : ℕ) → bit (bit_and a b) i ≡ (bit a i && bit b i)
unfolding bit
bit-and zero a b = ground (arith, and-halves a b)
bit-and (suc i) a b =
    let half : bit_and a b / 2 ≡ bit_and (a / 2) (b / 2) = omega (arith, and-halves a b) in
    ap (λ w. bit w i) half ∙ bit-and i (a / 2) (b / 2)

pub bit-zero : (i : ℕ) → bit 0 i ≡ false
unfolding bit
bit-zero zero = refl
bit-zero (suc i) = bit-zero i

pub bit-pow : (p i : ℕ) → bit (2 ^ p) i ≡ (p == i)
unfolding bit
bit-pow zero zero = refl
bit-pow zero (suc i) = ground (arith, bit-zero i)
bit-pow (suc p) zero = ground arith
bit-pow (suc p) (suc i) =
    let half : 2 ^ suc p / 2 ≡ 2 ^ p = omega arith in
    ap (λ w. bit w i) half ∙ bit-pow p i ∙ ground arith

-- A word below 2 ^ n none of whose bits is set is 0.
pub bit-none : (n w : ℕ) → w < 2 ^ n → ((i : ℕ) → i < n → bit w i ≡ false) → w ≡ 0
unfolding bit
bit-none zero w low none_set = omega arith
bit-none (suc n) w low none_set =
    let even : (w % 2 == 1) ≡ false = none_set 0 (omega arith) in
    let half : w / 2 ≡ 0 =
      bit-none n (w / 2) (omega arith) (λ i small. none_set (suc i) (omega arith)) in
    ground arith

pub pow-lt : (p n : ℕ) → p < n → 2 ^ p < 2 ^ n
pow-lt p zero h = absurd (omega arith)
pow-lt zero (suc zero) h = omega arith
pow-lt zero (suc (suc n)) h = omega (arith, pow-lt zero (suc n) (omega arith))
pow-lt (suc p) (suc n) h = omega (arith, pow-lt p n (omega arith))

bit-ones : (n i : ℕ) → bit (2 ^ n - 1) i ≡ ltb i n
unfolding bit
bit-ones zero i = bit-zero i ∙ ground arith
bit-ones (suc n) zero = ground (arith, pow-lt 0 (suc n) (omega arith))
bit-ones (suc n) (suc i) =
    let half : (2 ^ suc n - 1) / 2 ≡ 2 ^ n - 1 = omega arith in
    ap (λ w. bit w i) half ∙ bit-ones n i ∙ ground arith

-- The complement of one bit, in a word of n bits.
pub bit-others : (p n i : ℕ) → p < n → bit (2 ^ n - 1 - 2 ^ p) i ≡ (ltb i n && not (p == i))
unfolding bit
bit-others p zero i h = absurd (omega arith)
bit-others zero (suc n) zero h = ground arith
bit-others zero (suc n) (suc i) h =
    let half : (2 ^ suc n - 1 - 1) / 2 ≡ 2 ^ n - 1 = omega arith in
    ap (λ w. bit w i) half ∙ bit-ones n i ∙ ground arith
bit-others (suc p) (suc n) zero h = ground (arith, pow-lt p n (omega arith))
bit-others (suc p) (suc n) (suc i) h =
    let half : (2 ^ suc n - 1 - 2 ^ suc p) / 2 ≡ 2 ^ n - 1 - 2 ^ p =
      omega (arith, pow-lt p n (omega arith)) in
    ap (λ w. bit w i) half ∙ bit-others p n i (omega arith) ∙ ground arith

pub bit_or-lt : (n a b : ℕ) → a < 2 ^ n → b < 2 ^ n → bit_or a b < 2 ^ n
bit_or-lt zero a b h k =
    let none_a : a ≡ 0 = omega arith in omega (arith, or-zero b, ap (λ a. bit_or a b) none_a)
bit_or-lt (suc n) a b h k =
    omega (arith, or-halves a b, bit_or-lt n (a / 2) (b / 2) (omega arith) (omega arith))

pub bit_and-lt : (n a b : ℕ) → a < 2 ^ n → bit_and a b < 2 ^ n
bit_and-lt zero a b h =
    let none_a : a ≡ 0 = omega arith in omega (arith, and-zero b, ap (λ a. bit_and a b) none_a)
bit_and-lt (suc n) a b h = omega (arith, and-halves a b, bit_and-lt n (a / 2) (b / 2) (omega arith))
