-- ===== src/Tests/Requests.antt =====
-- Tests of Control and Descriptors.
use usb_bulk.Prelude.{ℕ, ◌≡◌, refl, true, false, some, [], ◌∷◌, arith, get_or}
use usb_bulk.Bus.Monad.{pure, ◌>>◌}
use usb_bulk.Bus.Regs.{dev_int_clr, cmd_code}
use usb_bulk.Bus.Access.{bus, write, wait_bits, wait_answers}
use usb_bulk.Hw.Command.{lpc_cmd_write}
use usb_bulk.Hw.Device.{configure_device}
use usb_bulk.Hw.Memory.{Mem, half_at}
use usb_bulk.Hw.Endpoint.{ep_num_lg2ph}
use usb_bulk.Descriptors.Layout.{blocks, ab_descriptors-Table}
use usb_bulk.Control.State.{Device, with_ep0}
use usb_bulk.Control.Scan.{scan_configuration}
use usb_bulk.Control.Scan.Find.{Chain}
use usb_bulk.Control.Scan.Configure.{config, Section, Table, choose, configure_all, plan}
use usb_bulk.Control.Request.{
  select_configuration, usb_set_configuration, usb_get_descriptor, ep0_setup,
}
use usb_bulk.Control.Configuration.{
  scan_configuration-plan, set_configuration-plan, Keeps, set_configuration-Keeps,
}
use usb_bulk.Control.Enumerate.{set_configuration_one}
use usb_bulk.Control.Descriptor.{get_descriptor-of_type}
use usb_bulk.Control.Refused.{ep0_setup-refused}
use usb_bulk.Tests.Inputs.{acked, packet, device, loaded, loaded-Loaded}

scan_configuration-plan_example :
    scan_configuration loaded 1 12 256 0 false ≡ (plan loaded 1 0 (blocks 256) >> pure true)
scan_configuration-plan_example =
    scan_configuration-plan loaded 1 12 (ab_descriptors-Table loaded 256 loaded-Loaded)
      (omega arith)

abbrev configuring : ℕ → Device
configuring value = device (packet 0 9 value 0) 0 []

set_configuration-plan_example :
    usb_set_configuration 12 (configuring 1)
    ≡ (plan loaded 1 0 (blocks 256) >> pure true) (configuring 1)
set_configuration-plan_example =
    set_configuration-plan 12 1 (configuring 1) refl (omega arith)
      (ab_descriptors-Table loaded 256 loaded-Loaded) (omega arith)

-- A table of one configuration, of the value 3 and with nothing in it, at 0.
abbrev one_configuration : Mem
one_configuration p = get_or (9 ∷ 2 ∷ 9 ∷ 0 ∷ 0 ∷ 3 ∷ []) p 0

one_configuration-Table : Table one_configuration 0 (config 0 [] ∷ [])
one_configuration-Table = Table.group (omega arith) refl Section.stop (Table.end refl)

abbrev before : Device
before = record (device (packet 0 9 3 0) 0 (acked (acked []))) {
  mem = one_configuration;
  descriptors = 0;
}

-- Commands 0xD8 and its value 1
abbrev after : Device
after = record before {
  bus = bus [] (
      (dev_int_clr, 0x10)
      ∷ (cmd_code, 0x10100)
      ∷ (dev_int_clr, 0x10)
      ∷ (cmd_code, 0xD80500)
      ∷ (dev_int_clr, 0x30)
      ∷ []);
  configuration = 3;
}

configured : usb_set_configuration 2 before ≡ some (true, after)
unfolding usb_set_configuration select_configuration scan_configuration configure_device
    lpc_cmd_write write wait_bits wait_answers
configured = refl

set_configuration-Keeps_example : Keeps before after × (after.configuration ≡ 3)
set_configuration-Keeps_example =
    set_configuration-Keeps 2 3 true before after refl (omega arith) one_configuration-Table
      (omega arith) configured

set_configuration_one_example :
    (usb_set_configuration 12 (configuring 1)
      ≡ (choose 1 >> (configure_all loaded (292 ∷ 299 ∷ 306 ∷ 313 ∷ []) >> pure true))
          (configuring 1))
    × (ep_num_lg2ph 2 ≡ 4)
    × (ep_num_lg2ph 0x82 ≡ 5)
    × (ep_num_lg2ph 5 ≡ 10)
    × (ep_num_lg2ph 0x85 ≡ 11)
    × (half_at loaded 296 ≡ 64)
    × (half_at loaded 303 ≡ 64)
    × (half_at loaded 310 ≡ 64)
    × (half_at loaded 317 ≡ 64)
set_configuration_one_example =
    set_configuration_one (configuring 1) loaded-Loaded 12 refl (omega arith)

abbrev asking : ℕ → ℕ → ℕ → Device
asking r value len = device (packet 0x80 r value len) 0 []

chain : Chain loaded 256 (256 ∷ 274 ∷ 283 ∷ 292 ∷ 299 ∷ 306 ∷ 313 ∷ 320 ∷ 324 ∷ 348 ∷ 374 ∷ [])
chain = Chain.descriptor (omega arith) (
    Chain.descriptor (omega arith) (
      Chain.descriptor (omega arith) (
        Chain.descriptor (omega arith) (
          Chain.descriptor (omega arith) (
            Chain.descriptor (omega arith) (
              Chain.descriptor (omega arith) (
                Chain.descriptor (omega arith) (
                  Chain.descriptor (omega arith) (
                    Chain.descriptor (omega arith)
                      (Chain.descriptor (omega arith) (Chain.end refl)))))))))))

-- The configuration: 46 bytes from 274 on
get_descriptor-of_type_example :
    usb_get_descriptor 12 (asking 6 0x200 64) ≡ some (true, with_ep0 46 274 (asking 6 0x200 64))
get_descriptor-of_type_example =
    get_descriptor-of_type 12 (asking 6 0x200 64) refl chain (omega arith)

-- GET_INTERFACE
ep0_setup-refused_example :
    ep0_setup 12 (device (packet 0x81 10 0 1) 0 []) ≡ some (false, device (packet 0x81 10 0 1) 0 [])
ep0_setup-refused_example = ep0_setup-refused 12 (device (packet 0x81 10 0 1) 0 []) refl refl
