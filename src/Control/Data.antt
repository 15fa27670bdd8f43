-- ===== src/Control/Data.antt =====
-- The data stage of a control transfer to the device, in tn_usb_EP0_rx_int_func.
use usb_bulk.Prelude.{
  ℕ, ◌+◌, ◌-◌, ◌*◌, ◌%◌, ◌^◌, ◌<◌, ◌≡◌, ap, ◌∙◌, true, false, some, List, ◌∷◌, arith, ◌==◌, bit_and,
  gt_int,
}
use usb_bulk.Bus.Regs.{rx_plen, pkt_rdy}
use usb_bulk.Bus.Access.{Answers, Trace, bus}
use usb_bulk.Bus.Ready.{Ready, Holds}
use usb_bulk.Hw.Memory.{store_words}
use usb_bulk.Hw.Engine.{engine}
use usb_bulk.Hw.Answered.{Acked}
use usb_bulk.Hw.Transfer.{ep_read-Sends}
use usb_bulk.Control.State.{Device, with_ep0}
use usb_bulk.Control.Interrupt.{data_done, data_stage}

-- The device when a packet of `b` bytes, as the words `ws`, has been stored.
abbrev pub stored : ℕ → List ℕ → Device → Device
stored b ws d =
    with_ep0 (d.ep0.nbytes - b) ((d.ep0.pdata + 4 * b) % 2 ^ 32)
      (record d { mem = store_words d.mem d.ep0.pdata ws })

-- A data packet with fewer bytes than are awaited (their number is positive as an `int`): the handler
-- stores the packet's words at `pdata`, moves `pdata` by four times its bytes, and then does not
-- return before it has read a second packet, of which it keeps nothing: buffer 0 is cleared twice.
pub data_stage-drops :
    (fuel : ℕ) (d : Device) (len len' : ℕ) (ws ws' : List ℕ) {i j k l m n o p : Answers}
    → d.ep0.nbytes < 2 ^ 31
    → bit_and len 0x3FF < d.ep0.nbytes
    → Ready rx_plen pkt_rdy len i d.bus.input
    → Holds j ws i
    → Acked j k
    → Acked k l
    → Ready rx_plen pkt_rdy len' m l
    → Holds n ws' m
    → Acked n o
    → Acked o p
    → (t : Trace) × (data_stage fuel d
        ≡ some (tt, record (stored (bit_and len 0x3FF) ws d) { bus = bus p t }))
      × (engine t ≡ (5, 0xF2) ∷ (5, 0) ∷ (5, 0xF2) ∷ (5, 0) ∷ engine d.bus.trace)
unfolding data_stage data_done
data_stage-drops fuel d len len' ws ws' {p} small less r h a b r' h' a' b' =
    let n = d.ep0.nbytes in
    let first = ep_read-Sends true d.bus.trace r h a b in
    let second = ep_read-Sends false first.after r' h' a' b' in
    let left : (n + 2 ^ 32 - bit_and len 0x3FF) % 2 ^ 32 ≡ n - bit_and len 0x3FF = omega arith in
    let awaits : gt_int n 0 ≡ true = ground arith in
    let more : (n - bit_and len 0x3FF == 0) ≡ false = ground arith in
    (
      second.after,
      rw awaits (ground (arith, first.runs, second.runs, left, more)),
      second.sent ∙ ap (λ e. (5, 0xF2) ∷ (5, 0) ∷ e) first.sent,
    )
