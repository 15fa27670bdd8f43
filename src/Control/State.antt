-- ===== src/Control/State.antt =====
-- USB_DEVICE_INFO with what it points into: USB_EP_STATUS and USB_SETUP_PACKET of tn_usb.h.
use usb_bulk.Prelude.{
  ℕ, ◌+◌, ◌-◌, ◌*◌, ◌/◌, ◌%◌, ◌^◌, Option, none, some, List, [], ◌∷◌, if◌then◌else◌, gt_int,
}
use usb_bulk.Bus.Monad.{M, ◌>>=◌, zoom}
use usb_bulk.Bus.Access.{Bus}
use usb_bulk.Hw.Memory.{Mem}
use usb_bulk.Hw.Endpoint.{ep0_write}
use usb_bulk.Hw.Device.{usb_max_packet0}

-- `nbytes` is an `int`, kept as its 32-bit pattern; the others are addresses.
pub record EpStatus : Type 0 where
  pub nbytes : ℕ
  pub pdata : ℕ
  pub pbuf : ℕ

pub record SetupPacket : Type 0 where
  pub bm_request_type : ℕ
  pub b_request : ℕ
  pub w_value : ℕ
  pub w_index : ℕ
  pub w_length : ℕ

-- USB_DEVICE_INFO, the memory that its pointers lead to, and the registers.
pub record Device : Type 0 where
  pub bus : Bus
  pub mem : Mem
  pub ep0 : EpStatus
  pub setup : SetupPacket
  pub descriptors : ℕ
  pub configuration : ℕ

abbrev pub get : M Device Device
get d = some (d, d)

abbrev pub modify : (Device → Device) → M Device (Unit {0})
modify f d = some (tt, f d)

abbrev pub on_bus : {A : Type 0} → M Bus A → M Device A
on_bus m = zoom (λ d. d.bus) (λ b d. record d { bus = b }) m

abbrev pub with_ep0 : ℕ → ℕ → Device → Device
with_ep0 n p d = record d { ep0 = record { nbytes = n; pdata = p; pbuf = d.ep0.pbuf } }

-- tn_usb_reset_data
unfoldable pub reset_data : M Device (Unit {0})
reset_data = modify λ d. with_ep0 0 d.ep0.pdata (record d { configuration = 0 })

-- The bytes of the next packet: at most USB_MAX_PACKET0.
abbrev pub packet_bytes : ℕ → ℕ
packet_bytes n = if gt_int n usb_max_packet0 then usb_max_packet0 else n

-- tn_usb_st_DATAIN. `pdata` is an `unsigned int *`, so adding `bytes` moves it by 4 bytes for each.
unfoldable pub st_datain : M Device (Unit {0})
st_datain = do
  d ← get
  bytes ← on_bus (ep0_write d.mem 0x80 d.ep0.pdata (packet_bytes d.ep0.nbytes))
  modify (with_ep0 ((d.ep0.nbytes + 2 ^ 32 - bytes) % 2 ^ 32) ((d.ep0.pdata + 4 * bytes) % 2 ^ 32))

-- The words that tn_usb_ep_read stores at a USB_SETUP_PACKET, which has room for two.
unfoldable pub fill_setup : SetupPacket → List ℕ → Option SetupPacket
fill_setup s [] = some s
fill_setup s (w ∷ []) =
    some (record s {
      bm_request_type = w % 256;
      b_request = w / 256 % 256;
      w_value = w / 65536 % 65536;
    })
fill_setup s (w ∷ v ∷ []) = some (record {
  bm_request_type = w % 256;
  b_request = w / 256 % 256;
  w_value = w / 65536 % 65536;
  w_index = v % 65536;
  w_length = v / 65536 % 65536;
})
fill_setup s (w ∷ v ∷ u ∷ ws) = none
