-- ===== src/Control/Refused.antt =====
-- The requests that the dispatch of tn_usb_EP0_SETUP refuses, and the stall that follows.
use usb_bulk.Prelude.{
  ℕ, ◌/◌, ◌≡◌, ap, ◌∙◌, ◌%◌, Bool, true, false, ◌&&◌, ◌||◌, some, [], ◌∷◌, arith, ◌==◌, bit_and,
  ltb, has_bits,
}
use usb_bulk.Bus.Access.{Answers, Trace, Bus, bus}
use usb_bulk.Bus.Regs.{dev_int_st, rx_plen, cmd_data, ep_int_clr, cdfull, pkt_rdy}
use usb_bulk.Bus.Access.{write}
use usb_bulk.Bus.Ready.{Ready, Holds}
use usb_bulk.Hw.Endpoint.{stall_ep}
use usb_bulk.Hw.Engine.{engine}
use usb_bulk.Hw.Answered.{Acked, lpc_cmd_write-Sends, lpc_cmd_read-Sends}
use usb_bulk.Hw.Transfer.{ep_read-Sends}
use usb_bulk.Control.State.{Device, SetupPacket, with_ep0, fill_setup}
use usb_bulk.Control.Interrupt.{setup_stage, ep0_rx_int, stp}
use usb_bulk.Control.Request.{
  recipient, usb_set_address, usb_set_feature, usb_clear_feature, usb_set_interface, usb_get_status,
  usb_get_descriptor, usb_get_configuration, usb_get_interface, class_request, ep0_setup,
}

-- The requests that the driver carries out: SET_ADDRESS to the device, CLEAR_FEATURE of feature 0 to
-- an endpoint, SET_CONFIGURATION, GET_STATUS to one of the three recipients, GET_DESCRIPTOR and
-- GET_CONFIGURATION to the device, and the class requests 0xFE and 0xFF in either direction.
abbrev pub carried_out : SetupPacket → Bool
carried_out s =
    let common = bit_and s.bm_request_type 0xE0 in
    let to = recipient s in
    let r = s.b_request in
    (common == 0x00 && ((r == 5 && to == 0) || (r == 1 && to == 2 && s.w_value == 0) || r == 9))
    || (common == 0x80 && ((r == 0 && ltb to 3) || (r == 6 && to == 0) || (r == 8 && to == 0)))
    || ((common == 0xA0 || common == 0x20) && (r == 0xFE || r == 0xFF))

-- SET_DESCRIPTOR, which stalls the endpoint by itself.
abbrev pub is_set_descriptor : SetupPacket → Bool
is_set_descriptor s = bit_and s.bm_request_type 0xE0 == 0x00 && s.b_request == 7

-- A request is refused, and leaves the whole device as it was, if it is not SET_DESCRIPTOR and none of
-- those that the driver carries out: SET_ADDRESS, GET_DESCRIPTOR and GET_CONFIGURATION to the device,
-- CLEAR_FEATURE of feature 0 to an endpoint, SET_CONFIGURATION, GET_STATUS to one of the three
-- recipients, and the class requests 0xFE and 0xFF. So are SET_FEATURE, SET_INTERFACE, GET_INTERFACE
-- and SYNCH_FRAME.
pub ep0_setup-refused :
    (fuel : ℕ) (d : Device)
    → carried_out d.setup ≡ false
    → is_set_descriptor d.setup ≡ false
    → ep0_setup fuel d ≡ some (false, d)
unfolding ep0_setup usb_set_address usb_set_feature usb_clear_feature usb_set_interface
    usb_get_status usb_get_descriptor usb_get_configuration usb_get_interface class_request
ep0_setup-refused fuel d c n = ground arith

-- The setup packet of two words.
abbrev pub packet_of : ℕ → ℕ → SetupPacket
packet_of w v = record {
  bm_request_type = w % 256;
  b_request = w / 256 % 256;
  w_value = w / 65536 % 65536;
  w_index = v % 65536;
  w_length = v / 65536 % 65536;
}

-- The device with a setup packet read, and the answer's place set up for it.
abbrev pub with_packet : SetupPacket → Bus → Device → Device
with_packet s b d = with_ep0 s.w_length d.ep0.pbuf (record d { bus = b; setup = s })

-- There is no data stage, or it goes to the host.
abbrev pub is_answered : SetupPacket → Bool
is_answered s = s.w_length == 0 || has_bits s.bm_request_type 0x80

-- A refused SETUP packet stalls the endpoint.
setup_stage-stalls :
    (fuel : ℕ) (d : Device) (w v len : ℕ) {i j k l m n : Answers}
    → let s = packet_of w v in
      carried_out s ≡ false
      → is_set_descriptor s ≡ false
      → is_answered s ≡ true
      → Ready rx_plen pkt_rdy len i d.bus.input
      → Holds j (w ∷ v ∷ []) i
      → Acked j k
      → Acked k l
      → Acked l m
      → Acked m n
      → (t : Trace) × (setup_stage fuel d ≡ some (tt, with_packet s (bus n t) d))
        × (engine t ≡ (1, 1) ∷ (5, 0x40) ∷ (5, 0xF2) ∷ (5, 0) ∷ engine d.bus.trace)
unfolding setup_stage fill_setup stall_ep
setup_stage-stalls fuel d w v len {l} {n} c nd ans r h a b e f =
    let s = packet_of w v in
    let p = ep_read-Sends true d.bus.trace r h a b in
    let q = lpc_cmd_write-Sends 0x40 (omega arith) p.after e 1 (omega arith) f in
    (
      q.after,
      ground (arith, p.runs, q.runs, ep0_setup-refused fuel (with_packet s (bus l p.after) d)),
      q.sent ∙ ap (λ x. (1, 1) ∷ (5, 0x40) ∷ x) p.sent,
    )

-- A SETUP packet of two words, with no data for the device, that asks for what the driver does not
-- carry out: if the controller answers, the handler reads the packet, stalls endpoint 0, and clears
-- its interrupt last. Of the device it changes the setup packet and the answer's place and length.
pub ep0_rx_int-stalls :
    (fuel : ℕ) (d : Device) (w v len status : ℕ) {c : ℕ} {g h i j k l m n : Answers}
    → let s = packet_of w v in
      carried_out s ≡ false
      → is_set_descriptor s ≡ false
      → is_answered s ≡ true
      → has_bits status stp ≡ true
      → Acked d.bus.input g
      → Ready dev_int_st cdfull c ((cmd_data, status) ∷ h) g
      → Ready rx_plen pkt_rdy len i h
      → Holds j (w ∷ v ∷ []) i
      → Acked j k
      → Acked k l
      → Acked l m
      → Acked m n
      → (t : Trace) × (ep0_rx_int fuel d ≡ some (tt, with_packet s (bus n ((ep_int_clr, 1) ∷ t)) d))
        × (engine t
            ≡ (1, 1) ∷ (5, 0x40) ∷ (5, 0xF2) ∷ (5, 0) ∷ (2, 0x40) ∷ (5, 0x40) ∷ engine d.bus.trace)
unfolding ep0_rx_int write
ep0_rx_int-stalls fuel d w v len status {h} c nd ans st x y r hs a b e f =
    let p = lpc_cmd_read-Sends 0x40 (omega arith) d.bus.trace x y in
    let q =
      setup_stage-stalls fuel (record d { bus = bus h p.after }) w v len c nd ans r hs a b e f in
    (
      q.0,
      ground (arith, p.runs, q.1),
      q.2 ∙ ap (λ z. (1, 1) ∷ (5, 0x40) ∷ (5, 0xF2) ∷ (5, 0) ∷ z) p.sent,
    )
