-- ===== src/Hw/Settings.antt =====
-- What the settings of tn_usb_hw.c send to the protocol engine.
use usb_bulk.Prelude.{ℕ, ◌+◌, ◌<◌, ◌∷◌, arith, bit_or, bit_and}
use usb_bulk.Prelude.Bits.{bit_or_80}
use usb_bulk.Bus.Access.{Answers, Trace}
use usb_bulk.Hw.Device.{set_addr}
use usb_bulk.Hw.Answered.{Acked, Sends, Sends-then, lpc_cmd_write-Sends}

-- SET_ADDRESS: for an address below 128 the engine receives command 0xD0 with the address and
-- DEV_EN, and then command 0xF3 with 0x60, which turns on the interrupts for NAK.
pub set_addr-Sends :
    (addr : ℕ) {i j k l n : Answers} (t : Trace)
    → addr < 128
    → Acked i j
    → Acked j k
    → Acked k l
    → Acked l n
    → Sends (set_addr addr) tt i n t (λ e. (1, 0x60) ∷ (5, 0xF3) ∷ (1, 128 + addr) ∷ (5, 0xD0) ∷ e)
unfolding set_addr
set_addr-Sends addr t small a b c d = rw (← bit_or_80 addr small) (
    Sends-then
      (lpc_cmd_write-Sends 0xD0 (omega arith) t a (bit_or 0x80 (bit_and addr 0xFF))
        (omega (arith, bit_or_80 addr small)) b)
      (λ u. lpc_cmd_write-Sends 0xF3 (omega arith) u c 0x60 (omega arith) d))
