-- ===== src/Control/Descriptor.antt =====
-- What usb_GET_DESCRIPTOR answers, and the memory of the other answers of tn_usb_req.c.
use usb_bulk.Prelude.{
  ℕ, ◌+◌, ◌/◌, ◌<◌, ◌≡◌, refl, Bool, true, false, Option, none, some, List, arith, if◌then◌else◌,
  length, get_elem?, bit_and, leb, ltb, ◌&&◌,
}
use usb_bulk.Hw.Memory.{store_word}
use usb_bulk.Control.State.{Device, with_ep0}
use usb_bulk.Control.Scan.Find.{Chain, of_type, find_descriptor-of_type}
use usb_bulk.Control.Request.{
  recipient, descriptor_bytes, usb_get_descriptor, usb_get_status, usb_get_configuration,
}

-- The answer to a request for a descriptor of type `ty`, where `found` is its address.
abbrev pub descriptor_answer : Device → ℕ → Option ℕ → Bool × Device
descriptor_answer d ty none = (false, d)
descriptor_answer d ty (some p) = (true, with_ep0 (descriptor_bytes d ty p) p d)

-- GET_DESCRIPTOR to the device, over a chain of descriptors and with fuel for one round more than
-- there are: the high byte of wValue is the type and the low byte the index. If the chain has such a
-- descriptor, the request is accepted and what is to be sent starts there: as many bytes as its
-- wTotalLength for a configuration, and its bLength for any other. If not, the request is refused and
-- the device stays as it was.
pub get_descriptor-of_type :
    (fuel : ℕ) (d : Device) {ps : List ℕ}
    → recipient d.setup ≡ 0
    → Chain d.mem d.descriptors ps
    → length ps < fuel
    → let ty = d.setup.w_value / 256 in
      usb_get_descriptor fuel d
      ≡ some
          (descriptor_answer d ty (get_elem? (of_type d.mem ty ps) (bit_and d.setup.w_value 0xFF)))
unfolding usb_get_descriptor
get_descriptor-of_type fuel d {ps} r c enough =
    let ty = d.setup.w_value / 256 in
    let index = bit_and d.setup.w_value 0xFF in
    ground (arith, find_descriptor-of_type ty index fuel 0 c)

-- GET_STATUS to the device, an interface or an endpoint is accepted, with two bytes to send from where
-- the answer was to be put; a byte of memory is zero after it if it is one of these two or of the
-- six behind them, and as it was if not.
pub get_status-zeros :
    (d : Device) (a : ℕ)
    → recipient d.setup < 3
    → (e : Device) × (usb_get_status d ≡ some (true, e))
      × (e.ep0.nbytes ≡ 2)
      × (e.ep0.pdata ≡ d.ep0.pdata)
      × (e.mem a ≡ (if leb d.ep0.pdata a && ltb a (d.ep0.pdata + 8) then 0 else d.mem a))
unfolding usb_get_status store_word
get_status-zeros d a r = (
  with_ep0 2 d.ep0.pdata
      (record d { mem = store_word (store_word d.mem d.ep0.pdata 0) (d.ep0.pdata + 4) 0 }),
  ground arith,
  refl,
  refl,
  ground arith,
)

-- GET_CONFIGURATION to the device is accepted, with one byte to send, which is the configuration in
-- force if that is a byte.
pub get_configuration-byte :
    (d : Device)
    → recipient d.setup ≡ 0
    → d.configuration < 256
    → (e : Device) × (usb_get_configuration d ≡ some (true, e))
      × (e.ep0.nbytes ≡ 1)
      × (e.ep0.pdata ≡ d.ep0.pdata)
      × (e.mem e.ep0.pdata ≡ d.configuration)
      × (e.configuration ≡ d.configuration)
unfolding usb_get_configuration store_word
get_configuration-byte d r small = (
  with_ep0 1 d.ep0.pdata (record d { mem = store_word d.mem d.ep0.pdata d.configuration }),
  ground arith,
  refl,
  refl,
  ground arith,
  refl,
)
