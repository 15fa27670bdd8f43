-- ===== src/Utils.antt =====
-- Helpers of LPC2146_USB/usb_tests/utils.c: s_itoa for an `int` that is not negative, and s_memset and
-- s_memcpy for a length that is not negative.
pub mod Decimal
pub mod Copy
use usb_bulk.Prelude.{
  ℕ, Bool, zero, suc, Option, none, some, ◌+◌, ◌-◌, ◌/◌, ◌%◌, ◌&&◌, ◌==◌, if◌then◌else◌, leb, ltb,
  bit_or, has_bits, int_mod,
}
use usb_bulk.Hw.Memory.{Mem}

abbrev pub put_byte : Mem → ℕ → ℕ → Mem
put_byte m p v a = if a == p then v else m a

-- The loop of s_itoa, from `ptr`, with its digit written first.
unfoldable pub itoa_loop : ℕ → Mem → ℕ → ℕ → Option (ℕ × Mem)
itoa_loop zero m ptr i = none
itoa_loop (suc k) m ptr i =
    let m' = put_byte m (ptr - 1) (i % 10 + 48) in
    let rest = itoa_loop k m' (ptr - 1) (i / 10) in if i / 10 == 0 then some (ptr - 1, m') else rest

-- The result's address, and memory. Twelve rounds fill the buffer.
unfoldable pub s_itoa : Mem → ℕ → ℕ → Option (ℕ × Mem)
s_itoa m buffer i = itoa_loop 12 (put_byte m (buffer + 12) 0) (buffer + 12) i

unfoldable pub s_memset : Mem → ℕ → ℕ → ℕ → Mem
s_memset m dst ch zero = m
s_memset m dst ch (suc length) = s_memset (put_byte m dst (ch % 256)) (dst + 1) ch length

-- `n` bytes, all of them read before one is written.
abbrev pub move : ℕ → Mem → ℕ → ℕ → Mem
move n m dst src a = if leb dst a && ltb a (dst + n) then m (src + (a - dst)) else m a

abbrev pub on_width : ℕ → ℕ → Bool
on_width width p = p % width == 0

-- `do { *dst++ = *src++; } while (n -= width);` with elements of `width` bytes, where n is an int; none
-- where `k` rounds do not end it, or an address is not a multiple of the width.
unfoldable pub copy_loop : ℕ → ℕ → Mem → ℕ → ℕ → ℕ → Option Mem
copy_loop zero width m dst src n = none
copy_loop (suc k) width m dst src n =
    let m' = move width m dst src in
    let left = (n + int_mod - width) % int_mod in
    let rest = copy_loop k width m' (dst + width) (src + width) left in
    if on_width width dst && on_width width src then (if left == 0 then some m' else rest) else none

-- Memory after s_memcpy, which returns `s1`. A length has at least as many rounds as it takes.
unfoldable pub s_memcpy : Mem → ℕ → ℕ → ℕ → Option Mem
unfolding copy_loop
s_memcpy m s1 s2 n =
    let mask = bit_or (bit_or s1 s2) n in
    if n == 0
    then some m
    else if has_bits mask 1
    then copy_loop n 1 m s1 s2 n
    else if has_bits mask 2
    then copy_loop n 2 m s1 s2 n
    else copy_loop n 4 m s1 s2 n
