-- ===== src/Control/Packet.antt =====
-- tn_usb_st_DATAIN: the packet that it sends, and where the next one starts.
use usb_bulk.Prelude.{ℕ, ◌+◌, ◌-◌, ◌*◌, ◌%◌, ◌^◌, ◌<◌, ◌≡◌, some, ◌∷◌, ◌++◌, arith, min}
use usb_bulk.Bus.Regs.{tx_data, tx_plen}
use usb_bulk.Bus.Access.{Answers, Trace, bus}
use usb_bulk.Hw.Engine.{engine}
use usb_bulk.Hw.Answered.{Acked}
use usb_bulk.Hw.Transfer.{Fills, writes_to, words_back, ep0_write_lem}
use usb_bulk.Control.State.{Device, with_ep0, packet_bytes, st_datain}

packet_bytes-min : (n : ℕ) → n < 2 ^ 31 → packet_bytes n ≡ min n 64
packet_bytes-min n h = ground arith

-- tn_usb_st_DATAIN with n bytes left to send (not negative as an `int`), if the controller takes the
-- packet and acknowledges the two commands: it sends one packet of min n 64 bytes, whose words are
-- read from `pdata` on, and validates the buffer of endpoint 1. After it, n - min n 64 bytes are left,
-- and `pdata` has moved by four times the bytes that were sent. Nothing else of the device changes.
pub st_datain-packet :
    (d : Device) (k : ℕ) {j l o : Answers}
    → d.ep0.nbytes < 2 ^ 31
    → let n = min d.ep0.nbytes 64 in
      Fills n k j d.bus.input
      → Acked j l
      → Acked l o
      → (t : Trace) × (st_datain d
          ≡ some (
            tt,
            with_ep0
                (d.ep0.nbytes - n)
                ((d.ep0.pdata + 4 * n) % 2 ^ 32)
                (record d { bus = bus o t }),
          ))
        × (engine t ≡ (5, 0xFA) ∷ (5, 1) ∷ engine d.bus.trace)
        × (writes_to tx_data t ≡ words_back d.mem d.ep0.pdata k ++ writes_to tx_data d.bus.trace)
        × (writes_to tx_plen t ≡ n ∷ writes_to tx_plen d.bus.trace)
unfolding st_datain
st_datain-packet d k small f a b =
    let n = min d.ep0.nbytes 64 in
    let left : (d.ep0.nbytes + 2 ^ 32 - n) % 2 ^ 32 ≡ d.ep0.nbytes - n = omega arith in
    let w = ep0_write_lem d.mem d.ep0.pdata n k d.bus.trace f a b in
    (w.0, rw (packet_bytes-min d.ep0.nbytes small) (ground (arith, w.1, left)), w.2, w.3, w.4)
