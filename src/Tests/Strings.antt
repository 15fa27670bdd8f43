-- ===== src/Tests/Strings.antt =====
-- Tests of Utils.
use usb_bulk.Prelude.{ℕ, ◌+◌, ◌<◌, ◌≤◌, ◌≡◌, some, arith, inr}
use usb_bulk.Hw.Memory.{Mem}
use usb_bulk.Utils.{s_itoa, s_memcpy, move}
use usb_bulk.Utils.Copy.{s_memcpy-move}
use usb_bulk.Utils.Decimal.{decimal, s_itoa-decimal}
use usb_bulk.Tests.Inputs.{loaded}

s_itoa-decimal_example :
    (p : ℕ) × (n : ℕ) × (m' : Mem) × (s_itoa loaded 512 2048 ≡ some (p, m'))
    × (0 < n)
    × (n ≤ 10)
    × (p + n ≡ 524)
    × (decimal m' p n 0 ≡ some 2048)
    × (m' (p + n) ≡ 0)
s_itoa-decimal_example = s_itoa-decimal loaded 512 2048 (omega arith)

s_memcpy-move_example : s_memcpy loaded 512 256 6 ≡ some (move 6 loaded 512 256)
s_memcpy-move_example = s_memcpy-move loaded 512 256 6 (omega arith) (inr (omega arith))
