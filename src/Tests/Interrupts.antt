-- ===== src/Tests/Interrupts.antt =====
-- Tests of Dispatch.
use usb_bulk.Prelude.{ℕ, ◌≡◌, refl, some, [], ◌∷◌}
use usb_bulk.Bus.Regs.{dev_int_st, dev_int_en, ep_int_en, re_ep, cdfull, cmd_data}
use usb_bulk.Bus.Access.{Answers, Trace, bus}
use usb_bulk.Bus.Ready.{Ready}
use usb_bulk.Hw.Engine.{engine}
use usb_bulk.Control.State.{with_ep0}
use usb_bulk.Dispatch.{Driver, EpInfo, int_func}
use usb_bulk.Dispatch.Reset.{Resets, int_func-reset}
use usb_bulk.Tests.Inputs.{acked, acked-Acked, packet, device, tasks, own_number}
use usb_bulk.Tests.Storage.{full_queue, pool, chained}

-- Endpoints 0 and 1 are realised at once.
abbrev realised : Answers
realised =
    (re_ep, 0)
    ∷ (dev_int_st, 0x100)
    ∷ (re_ep, 1)
    ∷ (dev_int_st, 0x100)
    ∷ (ep_int_en, 0)
    ∷ (dev_int_en, 0)
    ∷ (dev_int_st, 0)
    ∷ []

realised-Resets : Resets ((dev_int_st, 0) ∷ []) realised
realised-Resets = record {
  old = 0;
  first =
      (dev_int_st, 0x100)
      ∷ (re_ep, 1)
      ∷ (dev_int_st, 0x100)
      ∷ (ep_int_en, 0)
      ∷ (dev_int_en, 0)
      ∷ (dev_int_st, 0)
      ∷ [];
  between = (dev_int_st, 0x100) ∷ (ep_int_en, 0) ∷ (dev_int_en, 0) ∷ (dev_int_st, 0) ∷ [];
  v = 0x100;
  w = 0x100;
  kept = 1;
  enabled = 0;
  enabled_device = 0;
  starts = refl;
  one = Ready.now refl;
  two = Ready.now refl;
}

abbrev endpoint : ℕ → EpInfo
endpoint n = record { queue = some (full_queue []); mem_pool = some pool; ep_num_phys = n }

-- Configured, with 6 bytes to send
abbrev running : Driver (ℕ → ℕ)
running = record {
  device =
      record (device (packet 0x80 6 0x200 70) 6
        ((dev_int_st, 8) ∷ acked ((dev_int_st, cdfull) ∷ (cmd_data, 16) ∷ realised))) {
          configuration = 1;
        };
  ep2_rx = endpoint 4;
  ep2_tx = endpoint 5;
  ep5_rx = endpoint 10;
  ep5_tx = endpoint 11;
  cells = chained;
  tasks = own_number;
}

int_func-reset_example :
    (t : Trace) × (int_func tasks 12 running
      ≡ some (
        tt,
        record running {
          device = with_ep0 0 512 (record running.device { bus = bus [] t; configuration = 0 });
        },
      ))
    × (engine t ≡ (2, 0xFE) ∷ (5, 0xFE) ∷ [])
int_func-reset_example =
    int_func-reset tasks 12 running 8 0 16 refl refl
      (acked-Acked ((dev_int_st, cdfull) ∷ (cmd_data, 16) ∷ realised)) (Ready.now refl) refl refl
      refl realised-Resets refl
