-- ===== src/Hw/Memory.antt =====
-- Memory as bytes by address, and the 4-byte little-endian words that the driver moves.
use usb_bulk.Prelude.{ℕ, ◌+◌, ◌*◌, ◌/◌, ◌%◌, ◌^◌, List, [], ◌∷◌, ◌==◌, if◌then◌else◌}

abbrev pub Mem : Type 0
Mem = ℕ → ℕ

-- `*((WORD*)p)`
abbrev pub half_at : Mem → ℕ → ℕ
half_at m p = m p + 256 * m (p + 1)

abbrev pub word_at : Mem → ℕ → ℕ
word_at m p = m p + 256 * m (p + 1) + 65536 * m (p + 2) + 16777216 * m (p + 3)

-- `*(unsigned int *)p = w`
unfoldable pub store_word : Mem → ℕ → ℕ → Mem
store_word m p w a =
    if a == p
    then w % 256
    else if a == p + 1
    then w / 256 % 256
    else if a == p + 2
    then w / 65536 % 256
    else if a == p + 3
    then w / 16777216 % 256
    else m a

unfoldable pub store_words : Mem → ℕ → List ℕ → Mem
store_words m p [] = m
store_words m p (w ∷ ws) = store_words (store_word m p w) (p + 4) ws

-- `x << n` of an `int`
abbrev pub shl : ℕ → ℕ → ℕ
shl x n = x * 2 ^ n % 2 ^ 32
