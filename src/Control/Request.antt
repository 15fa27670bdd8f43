-- ===== src/Control/Request.antt =====
-- The standard requests of tn_usb_req.c and their dispatch. The result is the source's `rc`.
use usb_bulk.Prelude.{ℕ, ◌+◌, ◌/◌, bit_and, Bool, true, false, none, some, ◌==◌, if◌then◌else◌}
use usb_bulk.Bus.Monad.{M, pure, ◌>>=◌, ◌>>◌}
use usb_bulk.Hw.Memory.{half_at, store_word}
use usb_bulk.Hw.Endpoint.{stall_ep}
use usb_bulk.Hw.Device.{set_addr, configure_device}
use usb_bulk.Control.State.{Device, SetupPacket, get, modify, on_bus, with_ep0}
use usb_bulk.Control.Scan.{find_descriptor, scan_configuration, type_configuration}

-- CMD_MASK_RECIP picks CMD_RECIP_DEVICE, CMD_RECIP_INTERFACE or CMD_RECIP_ENDPOINT.
abbrev pub recipient : SetupPacket → ℕ
recipient s = bit_and s.bm_request_type 0x1F

abbrev pub recip_device : ℕ
recip_device = 0

abbrev pub recip_interface : ℕ
recip_interface = 1

abbrev pub recip_endpoint : ℕ
recip_endpoint = 2

unfoldable pub usb_set_address : M Device Bool
usb_set_address = do
  d ← get
  if recipient d.setup == recip_device
      then (do on_bus (set_addr d.setup.w_value); pure true)
      else pure false

unfoldable pub usb_set_feature : M Device Bool
usb_set_feature = pure false

unfoldable pub usb_clear_feature : M Device Bool
usb_clear_feature = do
  d ← get
  if recipient d.setup == recip_endpoint
      then (if d.setup.w_value == 0
          then (do on_bus (stall_ep d.setup.w_index false); pure true)
          else pure false)
      else pure false

-- `if (usp->wValue & 0xFF)` and its two branches: the `rc` that they leave.
unfoldable pub select_configuration : ℕ → M Device Bool
select_configuration fuel = do
  d ← get
  let value = bit_and d.setup.w_value 0xFF
  if value == 0
      then (do
        modify (λ e. record e { configuration = 0 })
        on_bus (configure_device false)
        pure false)
      else scan_configuration d.mem value fuel d.descriptors 0 false

unfoldable pub usb_set_configuration : ℕ → M Device Bool
usb_set_configuration fuel = do
  rc ← select_configuration fuel
  d ← get
  pure (if d.configuration == bit_and d.setup.w_value 0xFF then true else rc)

unfoldable pub usb_set_interface : M Device Bool
usb_set_interface = pure false

unfoldable pub usb_exch_stage_stallout : M Device (Unit {0})
usb_exch_stage_stallout = do on_bus (stall_ep 0 true); modify λ d. with_ep0 0 d.ep0.pdata d

-- Two zero words at the answer's place, of which two bytes are sent.
unfoldable pub zero_status : M Device Bool
zero_status = do
  modify (λ e.
      with_ep0 2 e.ep0.pdata
        (record e { mem = store_word (store_word e.mem e.ep0.pdata 0) (e.ep0.pdata + 4) 0 }))
  pure true

unfoldable pub usb_get_status : M Device Bool
unfolding zero_status
usb_get_status = do
  d ← get
  let to = recipient d.setup
  if to == recip_device
      then zero_status
      else if to == recip_interface
      then zero_status
      else if to == recip_endpoint
      then zero_status
      else pure false

-- The bytes to send of the descriptor at `p`: for a configuration, all that belongs to it.
abbrev pub descriptor_bytes : Device → ℕ → ℕ → ℕ
descriptor_bytes d ty p = if ty == type_configuration then half_at d.mem (p + 2) else d.mem p

unfoldable pub usb_get_descriptor : ℕ → M Device Bool
usb_get_descriptor fuel d =
    if recipient d.setup == recip_device
    then (let ty = d.setup.w_value / 256 in
        elim (find_descriptor d.mem ty (bit_and d.setup.w_value 0xFF) fuel d.descriptors 0) [
          | none ↦ none
          | some none ↦ some (false, d)
          | some (some p) ↦ some (true, with_ep0 (descriptor_bytes d ty p) p d)
        ])
    else some (false, d)

unfoldable pub usb_get_configuration : M Device Bool
usb_get_configuration = do
  d ← get
  if recipient d.setup == recip_device
      then (do
        modify (λ e.
            with_ep0 1 e.ep0.pdata
              (record e { mem = store_word e.mem e.ep0.pdata e.configuration }))
        pure true)
      else pure false

unfoldable pub usb_get_interface : M Device Bool
usb_get_interface = pure false

unfoldable pub class_request : M Device Bool
class_request = do
  d ← get
  if d.setup.b_request == 0xFE
      then (do
        modify (λ e. with_ep0 1 e.ep0.pdata (record e { mem = store_word e.mem e.ep0.pdata 0 }))
        pure true)
      else pure (d.setup.b_request == 0xFF)

-- The standard requests without data to the host, by `bRequest`.
unfoldable pub out_request : ℕ → ℕ → M Device Bool
out_request fuel r =
    if r == 5
    then usb_set_address
    else if r == 3
    then usb_set_feature
    else if r == 1
    then usb_clear_feature
    else if r == 9
    then usb_set_configuration fuel
    else if r == 11
    then usb_set_interface
    else if r == 7
    then (do usb_exch_stage_stallout; pure false)
    else pure false

-- The standard requests with data to the host, by `bRequest`.
unfoldable pub in_request : ℕ → ℕ → M Device Bool
in_request fuel r =
    if r == 0
    then usb_get_status
    else if r == 6
    then usb_get_descriptor fuel
    else if r == 8
    then usb_get_configuration
    else if r == 10
    then usb_get_interface
    else pure false

-- tn_usb_EP0_SETUP
unfoldable pub ep0_setup : ℕ → M Device Bool
unfolding out_request in_request
ep0_setup fuel = do
  d ← get
  let common = bit_and d.setup.bm_request_type 0xE0
  if common == 0x00
      then out_request fuel d.setup.b_request
      else if common == 0x80
      then in_request fuel d.setup.b_request
      else if common == 0xA0
      then class_request
      else if common == 0x20
      then class_request
      else pure false
