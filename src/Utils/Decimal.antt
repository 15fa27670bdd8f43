-- ===== src/Utils/Decimal.antt =====
-- What s_itoa writes reads back as its number.
use usb_bulk.Prelude.{
  ℕ, zero, suc, ◌+◌, ◌-◌, ◌*◌, ◌/◌, ◌%◌, ◌^◌, ◌≤◌, ◌<◌, ◌≡◌, refl, ap, ◌∙◌, inl, inr, Bool-cases,
  Bool, false, Option, none, some, arith, ◌==◌, leb, ltb, ◌&&◌, if◌then◌else◌,
}
use usb_bulk.Hw.Memory.{Mem}
use usb_bulk.Utils.{put_byte, itoa_loop, s_itoa, s_memset}

-- '0' to '9'
abbrev pub is_digit : ℕ → Bool
is_digit c = leb 48 c && leb c 57

-- The number that `n` decimal digits from `p` on stand for, behind `acc`; none where one is no digit.
abbrev pub decimal : Mem → ℕ → ℕ → ℕ → Option ℕ
decimal m p zero acc = some acc
decimal m p (suc n) acc =
    let rest = decimal m (p + 1) n (acc * 10 + (m p - 48)) in if is_digit (m p) then rest else none

decimal-suc :
    (m : Mem) (p n acc v d : ℕ)
    → decimal m p n acc ≡ some v
    → m (p + n) ≡ d + 48
    → d < 10
    → decimal m p (suc n) acc ≡ some (v * 10 + d)
decimal-suc m p zero acc v d e at low =
    let here : m p ≡ d + 48 = ap m {x = p} {y = p + 0} (omega arith) ∙ at in
    ground (arith, e, here, low)
decimal-suc m p (suc n) acc v d e at low = elim (Bool-cases (is_digit (m p))) [
  | inl digit ↦
      let rest : decimal m (p + 1) n (acc * 10 + (m p - 48)) ≡ some v = ground (arith, e, digit) in
      let behind : m (p + 1 + n) ≡ d + 48 =
        ap m {x = p + 1 + n} {y = p + suc n} (omega arith) ∙ at in
      rw (digit) (decimal-suc m (p + 1) n (acc * 10 + (m p - 48)) v d rest behind low)
  | inr no_digit ↦ ground (arith, e, no_digit)
]

-- The least number of more than `k` digits.
abbrev pub bound : ℕ → ℕ
bound zero = 1
bound (suc k) = 10 * bound k

some_room : (i k : ℕ) → (i / 10 == 0) ≡ false → i < bound (suc k) → 0 < k
some_room i zero z h = ground (arith, z, h)
some_room i (suc k) z h = omega arith

-- What a run of the loop leaves: its digits in front of `e`, and all from there on as it was.
record Written (m m' : Mem) (p e i k : ℕ) : Type 0 where
  digits : ℕ
  some_digit : 0 < digits
  few : digits ≤ k
  ends : p + digits ≡ e
  reads : decimal m' p digits 0 ≡ some i
  kept : (a : ℕ) → e ≤ a → m' a ≡ m a

-- The last round's digit, and the digits before it.
last_digit :
    (m : Mem) (e i k : ℕ)
    → 0 < e
    → 0 < k
    → i / 10 ≡ 0
    → Written m (put_byte m (e - 1) (i % 10 + 48)) (e - 1) e i k
last_digit m e i k room pos h = record {
  digits = 1;
  some_digit = omega arith;
  few = pos;
  ends = omega (arith, room);
  reads = ground (arith, h);
  kept = λ a le. ground (arith, room);
}

more_digits :
    (m m' : Mem) (p e i k : ℕ)
    → 0 < e
    → Written (put_byte m (e - 1) (i % 10 + 48)) m' p (e - 1) (i / 10) k
    → Written m m' p e i (suc k)
more_digits m m' p e i k room w = record {
  digits = suc w.digits;
  some_digit = omega arith;
  few = omega (arith, w.few);
  ends = omega (arith, w.ends, room);
  reads =
      decimal-suc m' p w.digits 0 (i / 10) (i % 10) w.reads
        (ground (arith, ap m' w.ends, w.kept (e - 1))) (omega arith)
      ∙ ap some {x = i / 10 * 10 + i % 10} {y = i} (omega arith);
  kept = λ a le. w.kept a (omega (arith, le)) ∙ ground (arith, room);
}

itoa_loop-Written :
    (fuel k : ℕ) (m : Mem) (e i : ℕ)
    → 0 < k
    → k ≤ fuel
    → k ≤ e
    → i < bound k
    → (p : ℕ) × (m' : Mem) × (itoa_loop fuel m e i ≡ some (p, m')) × Written m m' p e i k
unfolding itoa_loop
itoa_loop-Written zero k m e i pos enough room h = absurd (omega arith)
itoa_loop-Written (suc fuel) zero m e i pos enough room h = absurd (omega arith)
itoa_loop-Written (suc fuel) (suc k) m e i pos enough room h = elim (Bool-cases (i / 10 == 0)) [
  | inl z ↦ (
    e - 1,
    put_byte m (e - 1) (i % 10 + 48),
    rw z refl,
    last_digit m e i (suc k) (omega arith) pos (ground (arith, z)),
  )
  | inr z ↦
      let (p, m', run, w) =
        itoa_loop-Written fuel k (put_byte m (e - 1) (i % 10 + 48)) (e - 1) (i / 10)
          (some_room i k z h) (omega arith) (omega arith) (omega (arith, h)) in
      (p, m', rw z run, more_digits m m' p e i k (omega arith) w)
]

-- For a number below 2 ^ 31, which an `int` that is not negative holds, s_itoa ends, and the string at the address that it returns is
-- the number's: from 1 to 10 characters, all of them digits, that read as it in decimal, and a zero byte behind them, which
-- is the last byte of a buffer of 13.
pub s_itoa-decimal :
    (m : Mem) (buffer i : ℕ)
    → i < 2 ^ 31
    → (p : ℕ) × (n : ℕ) × (m' : Mem) × (s_itoa m buffer i ≡ some (p, m'))
      × (0 < n)
      × (n ≤ 10)
      × (p + n ≡ buffer + 12)
      × (decimal m' p n 0 ≡ some i)
      × (m' (p + n) ≡ 0)
unfolding s_itoa
s_itoa-decimal m buffer i small =
    let (p, m', run, w) =
      itoa_loop-Written 12 10 (put_byte m (buffer + 12) 0) (buffer + 12) i (omega arith)
        (omega arith) (omega arith) (omega (arith, small)) in
    (
      p,
      w.digits,
      m',
      run,
      w.some_digit,
      w.few,
      w.ends,
      w.reads,
      ap m' w.ends ∙ w.kept (buffer + 12) (omega arith) ∙ ground arith,
    )

-- s_memset sets the bytes of its range to the low byte of the value, and no other byte.
pub s_memset-range :
    (m : Mem) (dst ch length a : ℕ)
    → s_memset m dst ch length a ≡ (if leb dst a && ltb a (dst + length) then ch % 256 else m a)
unfolding s_memset
s_memset-range m dst ch zero a = ground arith
s_memset-range m dst ch (suc length) a =
    s_memset-range (put_byte m dst (ch % 256)) (dst + 1) ch length a ∙ ground arith
