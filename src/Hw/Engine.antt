-- ===== src/Hw/Engine.antt =====
-- What the protocol engine of the controller receives: each write of rUSBCmdCode is a phase (5 for a
-- command, 1 for a byte written to it, 2 for a byte to be read) with a code or a byte.
use usb_bulk.Prelude.{
  ℕ, ◌*◌, ◌/◌, ◌%◌, ◌^◌, ◌<◌, ◌≡◌, List, [], ◌∷◌, arith, ◌==◌, if◌then◌else◌, bit_or,
}
use usb_bulk.Prelude.Bits.{bit_or_500, bit_or_100, bit_or_200}
use usb_bulk.Bus.Regs.{cmd_code}
use usb_bulk.Bus.Access.{Trace}

-- The newest first, as in the trace.
abbrev pub engine : Trace → List (ℕ × ℕ)
engine [] = []
engine ((r, x) ∷ t) =
    let rest = engine t in if r == cmd_code then (x / 256 % 256, x / 65536 % 256) ∷ rest else rest

pub decode_command :
    (c : ℕ)
    → c < 256
    → let x = bit_or 0x500 (c * 2 ^ 16 % 2 ^ 32) in (x / 256 % 256 ≡ 5) × (x / 65536 % 256 ≡ c)
decode_command c h = omega (arith, bit_or_500 c h)

pub decode_written :
    (c : ℕ)
    → c < 256
    → let x = bit_or 0x100 (c * 2 ^ 16 % 2 ^ 32) in (x / 256 % 256 ≡ 1) × (x / 65536 % 256 ≡ c)
decode_written c h = omega (arith, bit_or_100 c h)

pub decode_asked :
    (c : ℕ)
    → c < 256
    → let x = bit_or 0x200 (c * 2 ^ 16 % 2 ^ 32) in (x / 256 % 256 ≡ 2) × (x / 65536 % 256 ≡ c)
decode_asked c h = omega (arith, bit_or_200 c h)
