-- ===== src/Prelude/Bits.antt =====
-- Facts about the native bit operations on small numbers, by computing both sides at each.
use Prim.Native.Nat.{ℕ, zero, suc, ◌+◌, ◌*◌, ◌%◌, ◌^◌, ◌<◌, bit_and, bit_or}
use mathlib.Core.Path.{◌≡◌, refl, ap}
use mathlib.Core.Bool.{Bool, true, false}
use native.Mathlib.Omega.{arith}
use usb_bulk.Prelude.Tests.{◌==◌, ==_iff, if◌then◌else◌}

-- Whether `f` and `g` have the same values at the `k` numbers from `i` on.
same : (f g : ℕ → ℕ) → ℕ → ℕ → Bool
same f g i zero = true
same f g i (suc k) = let rest = same f g (suc i) k in if f i == g i then rest else false

same-at :
    (f g : ℕ → ℕ) (i k x y : ℕ) → same f g i k ≡ true → y ≡ i + x → x < k → (f y == g y) ≡ true
unfolding same
same-at f g i zero x y h e low = absurd (omega arith)
same-at f g i (suc k) zero y h e low =
    let here : y ≡ i = omega (arith, e) in ground (arith, ap f here, ap g here)
same-at f g i (suc k) (suc x) y h e low = ground (arith, same-at f g (suc i) k x y)

agree : (f g : ℕ → ℕ) (k x : ℕ) → same f g 0 k ≡ true → x < k → f x ≡ g x
agree f g k x h low = (==_iff (f x) (g x)).0 (same-at f g 0 k x x h (omega arith) low)

-- A byte above the low 16 bits: what is or'ed in below it does not meet it.
pub bit_or_500 : (x : ℕ) → x < 256 → bit_or 0x500 (x * 2 ^ 16 % 2 ^ 32) ≡ 0x500 + x * 65536
unfolding same
bit_or_500 x low =
    agree (λ x. bit_or 0x500 (x * 2 ^ 16 % 2 ^ 32)) (λ x. 0x500 + x * 65536) 256 x refl low

pub bit_or_100 : (x : ℕ) → x < 256 → bit_or 0x100 (x * 2 ^ 16 % 2 ^ 32) ≡ 0x100 + x * 65536
unfolding same
bit_or_100 x low =
    agree (λ x. bit_or 0x100 (x * 2 ^ 16 % 2 ^ 32)) (λ x. 0x100 + x * 65536) 256 x refl low

pub bit_or_200 : (x : ℕ) → x < 256 → bit_or 0x200 (x * 2 ^ 16 % 2 ^ 32) ≡ 0x200 + x * 65536
unfolding same
bit_or_200 x low =
    agree (λ x. bit_or 0x200 (x * 2 ^ 16 % 2 ^ 32)) (λ x. 0x200 + x * 65536) 256 x refl low

-- A device address with DEV_EN.
pub bit_or_80 : (x : ℕ) → x < 128 → bit_or 0x80 (bit_and x 0xFF) ≡ 128 + x
unfolding same
bit_or_80 x low = agree (λ x. bit_or 0x80 (bit_and x 0xFF)) (λ x. 128 + x) 128 x refl low

-- A physical endpoint number below a command.
pub bit_or_40 : (x : ℕ) → x < 32 → bit_or 0x40 x ≡ 0x40 + x
unfolding same
bit_or_40 x low = agree (λ x. bit_or 0x40 x) (λ x. 0x40 + x) 32 x refl low

pub bit_or_0 : (x : ℕ) → x < 32 → bit_or 0 x ≡ x
unfolding same
bit_or_0 x low = agree (λ x. bit_or 0 x) (λ x. x) 32 x refl low
