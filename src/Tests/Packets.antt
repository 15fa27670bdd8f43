-- ===== src/Tests/Packets.antt =====
-- Tests of the handlers that wait for the controller.
use usb_bulk.Prelude.{ℕ, ◌+◌, ◌≡◌, refl, some, [], ◌∷◌, arith}
use usb_bulk.Bus.Regs.{
  rx_plen, ctrl, rx_data, tx_plen, tx_data, ep_int_clr, dev_int_st, cdfull, cmd_data,
}
use usb_bulk.Bus.Access.{Answers, Trace, bus}
use usb_bulk.Bus.Ready.{Ready, Holds, Takes}
use usb_bulk.Hw.Transfer.{Fills, writes_to}
use usb_bulk.Hw.Engine.{engine}
use usb_bulk.Control.State.{Device, with_ep0, st_datain}
use usb_bulk.Control.Interrupt.{data_stage, ep0_rx_int}
use usb_bulk.Control.Packet.{st_datain-packet}
use usb_bulk.Control.Data.{stored, data_stage-drops}
use usb_bulk.Control.Refused.{packet_of, with_packet, ep0_rx_int-stalls}
use usb_bulk.Kernel.Fifo.{Dque}
use usb_bulk.Kernel.Fifo.Contents.{contents}
use usb_bulk.Kernel.Fifo.Laws.{IsValid}
use usb_bulk.Kernel.Pool.{Fmp, Cells}
use usb_bulk.Kernel.Pool.Free.{IsPool, IsApart}
use usb_bulk.Bulk.{store_cells, ep_rx_int, ep_tx_int}
use usb_bulk.Bulk.Received.{at_rest, Clears, ep_rx_int-sent}
use usb_bulk.Bulk.Sent.{ep_tx_int-released}
use usb_bulk.Tests.Inputs.{acked, acked-Acked, packet, device, tasks, own_number}
use usb_bulk.Tests.Storage.{full_queue, full_queue-IsValid, chained, pool, pool-IsPool, IsApart-32}

-- The controller takes two words.
abbrev two_taken : Answers
two_taken = (ctrl, 2) ∷ (ctrl, 2) ∷ (ctrl, 0) ∷ acked (acked [])

two-Takes : Takes (acked (acked [])) 2 two_taken
two-Takes = Takes.space refl (Takes.space refl (Takes.full refl))

-- Of 70 bytes, 64 are sent; here the controller ends the transfer after two of their words.
abbrev answering : Device
answering = device (packet 0x80 6 0x200 70) 70 two_taken

st_datain-packet_example :
    (t : Trace) × (st_datain answering
      ≡ some (tt, with_ep0 6 768 (record answering { bus = bus [] t })))
    × (engine t ≡ (5, 0xFA) ∷ (5, 1) ∷ [])
    × (writes_to tx_data t ≡ 0 ∷ 0 ∷ [])
    × (writes_to tx_plen t ≡ 64 ∷ [])
st_datain-packet_example =
    st_datain-packet answering 2 (omega arith) (Fills.packet (omega arith) (omega arith) two-Takes)
      (acked-Acked (acked [])) (acked-Acked [])

-- A packet of `n` bytes with the words `w` and `v`, and what follows it.
abbrev two_words : ℕ → ℕ → ℕ → Answers → Answers
two_words n w v j =
    (rx_plen, 0x800 + n)
    ∷ (ctrl, 1)
    ∷ (rx_data, w)
    ∷ (ctrl, 1)
    ∷ (rx_data, v)
    ∷ (ctrl, 0)
    ∷ acked (acked j)

two-Holds :
    (w v : ℕ) (j : Answers)
    → Holds j (w ∷ v ∷ []) ((ctrl, 1) ∷ (rx_data, w) ∷ (ctrl, 1) ∷ (rx_data, v) ∷ (ctrl, 0) ∷ j)
two-Holds w v j = Holds.more refl (Holds.more refl (Holds.done refl))

-- 20 bytes are awaited, and packets of 8 come.
abbrev receiving : Device
receiving = device (packet 0x20 0xFE 0 20) 20 (two_words 8 1 2 (two_words 8 3 4 []))

data_stage-drops_example :
    (t : Trace) × (data_stage 1 receiving
      ≡ some (tt, record (stored 8 (1 ∷ 2 ∷ []) receiving) { bus = bus [] t }))
    × (engine t ≡ (5, 0xF2) ∷ (5, 0) ∷ (5, 0xF2) ∷ (5, 0) ∷ [])
data_stage-drops_example =
    data_stage-drops 1 receiving 0x808 0x808 (1 ∷ 2 ∷ []) (3 ∷ 4 ∷ []) (omega arith) (omega arith)
      (Ready.now refl) (two-Holds 1 2 (acked (acked (two_words 8 3 4 []))))
      (acked-Acked (acked (two_words 8 3 4 []))) (acked-Acked (two_words 8 3 4 [])) (Ready.now refl)
      (two-Holds 3 4 (acked (acked []))) (acked-Acked (acked [])) (acked-Acked [])

-- The answer `x` to a command that asks for one.
abbrev answered : ℕ → Answers → Answers
answered x j = acked ((dev_int_st, cdfull) ∷ (cmd_data, x) ∷ j)

-- GET_INTERFACE, as two words
abbrev interface_asked : Device
interface_asked =
    device (packet 0 0 0 0) 0 (answered 5 (two_words 8 0x00000A81 0x00010000 (acked (acked []))))

ep0_rx_int-stalls_example :
    (t : Trace) × (ep0_rx_int 1 interface_asked
      ≡ some (
        tt,
        with_packet
            (packet_of 0x00000A81 0x00010000)
            (bus [] ((ep_int_clr, 1) ∷ t))
            interface_asked,
      ))
    × (engine t ≡ (1, 1) ∷ (5, 0x40) ∷ (5, 0xF2) ∷ (5, 0) ∷ (2, 0x40) ∷ (5, 0x40) ∷ [])
ep0_rx_int-stalls_example =
    ep0_rx_int-stalls 1 interface_asked 0x00000A81 0x00010000 0x808 5 refl refl refl refl
      (acked-Acked (
        (dev_int_st, cdfull)
        ∷ (cmd_data, 5)
        ∷ two_words 8 0x00000A81 0x00010000 (acked (acked []))))
      (Ready.now refl) (Ready.now refl)
      (two-Holds 0x00000A81 0x00010000 (acked (acked (acked (acked [])))))
      (acked-Acked (acked (acked (acked [])))) (acked-Acked (acked (acked [])))
      (acked-Acked (acked [])) (acked-Acked [])

Clears-48 : Clears 48 2 (64 ∷ [])
unfolding Clears IsApart
Clears-48 = ((omega arith, tt), ((omega arith, tt), tt))

-- The queue is full: block 48 is neither free nor in it afterwards.
ep_rx_int-sent_example :
    (g : Fmp) × (r : Dque) × (t' : Trace) × (ep_rx_int tasks (
        at_rest
          (bus (answered 0x20 (two_words 8 1 2 [])) [])
          chained
          (some (full_queue []))
          (some pool)
          4
          own_number)
      ≡ some (
        tt,
        at_rest (bus [] t') (store_cells chained 48 (1 ∷ 2 ∷ [])) (some r) (some g) 4 own_number,
      ))
    × IsPool g (store_cells chained 48 (1 ∷ 2 ∷ [])) (64 ∷ [])
    × IsValid r
    × (contents r ≡ 7 ∷ 8 ∷ [])
    × (engine t' ≡ (5, 0xF2) ∷ (5, 4) ∷ (2, 0x44) ∷ (5, 0x44) ∷ [])
ep_rx_int-sent_example =
    ep_rx_int-sent tasks pool (full_queue []) chained own_number 4 48 (64 ∷ []) (1 ∷ 2 ∷ []) 0x20
      cdfull 0x808 [] (omega arith) pool-IsPool refl refl (full_queue-IsValid []) refl refl
      Clears-48 (acked-Acked ((dev_int_st, cdfull) ∷ (cmd_data, 0x20) ∷ two_words 8 1 2 []))
      (Ready.now refl) refl (Ready.now refl) (two-Holds 1 2 (acked (acked [])))
      (acked-Acked (acked [])) (acked-Acked [])

-- A queue whose first element is block 32
abbrev block_queue : Dque
block_queue = record (full_queue []) { data_fifo = 8 ∷ 0 ∷ 32 ∷ [] }

block_queue-IsValid : IsValid block_queue
block_queue-IsValid = record { storage = refl; tail_in = omega arith; header_in = omega arith }

ep_tx_int-released_example :
    (g : Fmp) × (r : Dque) × (m' : Cells) × (t' : Trace) × (ep_tx_int tasks
        (at_rest (bus two_taken []) chained (some block_queue) (some pool) 5 own_number)
      ≡ some (tt, at_rest (bus [] t') m' (some r) (some g) 5 own_number))
    × IsPool g m' (32 ∷ 48 ∷ 64 ∷ [])
    × IsValid r
    × (contents r ≡ 8 ∷ [])
    × (engine t' ≡ (5, 0xFA) ∷ (5, 5) ∷ [])
    × (writes_to tx_data t' ≡ 0 ∷ 0 ∷ [])
ep_tx_int-released_example =
    ep_tx_int-released tasks pool block_queue chained own_number 5 32 2 (48 ∷ 64 ∷ []) (8 ∷ []) []
      (omega arith) pool-IsPool refl refl refl block_queue-IsValid refl refl refl (omega arith)
      IsApart-32 (omega arith) two-Takes (acked-Acked (acked [])) (acked-Acked [])
