-- ===== src/Control/Scan.antt =====
-- The walks over the descriptors, from `Descriptors` to the zero byte behind the last one: the loops
-- of usb_GET_DESCRIPTOR and usb_SET_CONFIGURATION. Each takes the descriptors' memory, which is
-- constant, and fuel.
pub mod Find
pub mod Configure
use usb_bulk.Prelude.{
  ℕ, zero, suc, ◌+◌, Bool, true, not, ◌&&◌, Option, none, some, ◌==◌, if◌then◌else◌,
}
use usb_bulk.Bus.Monad.{M, pure, ◌>>◌}
use usb_bulk.Hw.Memory.{Mem, half_at}
use usb_bulk.Hw.Endpoint.{config_ep}
use usb_bulk.Hw.Device.{configure_device}
use usb_bulk.Control.State.{Device, modify, on_bus}

-- USB_DESCR_TYPE_CONFIGURATION, USB_DESCR_TYPE_INTERFACE and USB_DESCR_TYPE_ENDPOINT
abbrev pub type_configuration : ℕ
type_configuration = 2

abbrev pub type_interface : ℕ
type_interface = 4

abbrev pub type_endpoint : ℕ
type_endpoint = 5

-- The address of the descriptor of type `ty` that has `index - ind` others of it before it, from the
-- address `p` on; `some none` if the walk ends without it, and `none` if the fuel does not suffice.
unfoldable pub find_descriptor : Mem → (ty index : ℕ) → (fuel p ind : ℕ) → Option (Option ℕ)
find_descriptor m ty index zero p ind = none
find_descriptor m ty index (suc k) p ind =
    let rest = find_descriptor m ty index k (p + m p) (if m (p + 1) == ty then ind + 1 else ind) in
    if m p == 0 then some none else if m (p + 1) == ty && ind == index then some (some p) else rest

-- The alternate setting in force behind the descriptor at `p`.
abbrev pub next_aset : Mem → ℕ → ℕ → ℕ
next_aset m p aset = if m (p + 1) == type_interface then m (p + 3) else aset

module _ (m : Mem) (value : ℕ) where
  -- The case of a configuration descriptor with the value asked for.
  abbrev pub is_match : ℕ → Bool
  is_match p = m (p + 1) == type_configuration && m (p + 5) == value

  abbrev pub is_other : ℕ → Bool
  is_other p = m (p + 1) == type_configuration && not (m (p + 5) == value)

  -- What a round does to the device: the body of the switch.
  abbrev pub visit : ℕ → ℕ → M Device (Unit {0})
  visit p aset =
      if is_match p
      then (do modify (λ d. record d { configuration = value }); on_bus (configure_device true))
      else if m (p + 1) == type_endpoint && aset == 0
      then on_bus (config_ep m p)
      else pure tt

  -- Where it goes on: over the whole of another configuration, or to the next descriptor.
  abbrev pub next : ℕ → ℕ
  next p = if is_other p then p + half_at m (p + 2) else p + m p

  -- The loop, from `ptr` with `aset` and `rc`.
  unfoldable pub scan_configuration : (fuel p aset : ℕ) → Bool → M Device Bool
  scan_configuration zero p aset rc = λ d. none
  scan_configuration (suc k) p aset rc =
      let rest =
        scan_configuration k (next p) (next_aset m p aset) (if is_match p then true else rc) in
      if m p == 0 then pure rc else do visit p aset; rest
