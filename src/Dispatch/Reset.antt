-- ===== src/Dispatch/Reset.antt =====
-- A bus reset, through the interrupt.
use usb_bulk.Prelude.{ℕ, ◌≡◌, refl, ◌∙◌, true, false, some, ◌∷◌, arith, has_bits}
use usb_bulk.Bus.Regs.{
  dev_int_st, dev_int_clr, dev_int_en, ep_int_en, ep_int_clr, re_ep, ep_ind, max_psize, ep_rlzed,
  dev_stat, ep_slow, cdfull, cmd_data,
}
use usb_bulk.Bus.Access.{Answers, Trace, bus, read, write}
use usb_bulk.Bus.Ready.{Ready}
use usb_bulk.Hw.Command.{lpc_cmd_read}
use usb_bulk.Hw.Endpoint.{ep_bulk_release}
use usb_bulk.Hw.Device.{config_ep0, reset_registers, dev_status}
use usb_bulk.Hw.Engine.{engine}
use usb_bulk.Hw.Answered.{
  Acked, Sends, Sends-then, Sends-bind, write-Sends, read-Sends, wait_bits-Sends,
  lpc_cmd_read-Sends,
}
use usb_bulk.Control.State.{Device, with_ep0, reset_data}
use usb_bulk.Control.Interrupt.{int_reset}
use usb_bulk.Kernel.Scheduler.{Scheduler}
use usb_bulk.Dispatch.{Driver, device_status, int_func, rst, sus_ch, con_ch, vic_vect_addr}

ep_bulk_release-Sends :
    (ep size : ℕ) {v w : ℕ} {i j : Answers} (t : Trace)
    → Ready dev_int_st ep_rlzed v j i
    → Sends (ep_bulk_release ep size) tt ((re_ep, w) ∷ i) j t (λ e. e)
unfolding ep_bulk_release
ep_bulk_release-Sends ep size {j} t h = Sends-bind _ (read-Sends re_ep t) λ u1.
    Sends-then (write-Sends re_ep _ u1 refl) λ u2. Sends-then (write-Sends ep_ind ep u2 refl) λ u3.
      Sends-then (write-Sends max_psize size u3 refl)
        λ u4. Sends-bind _ (wait_bits-Sends u4 h) λ u5. write-Sends dev_int_clr ep_rlzed u5 refl

-- What the controller answers to a reset: endpoints 0 and 1 are realised, and `j` is left.
pub record Resets (j i : Answers) : Type 0 where
  pub old : ℕ
  pub first : Answers
  pub between : Answers
  pub v : ℕ
  pub w : ℕ
  pub kept : ℕ
  pub enabled : ℕ
  pub enabled_device : ℕ
  pub starts : i ≡ (re_ep, old) ∷ first
  pub one : Ready dev_int_st ep_rlzed v ((re_ep, kept) ∷ between) first
  pub two :
      Ready dev_int_st ep_rlzed w ((ep_int_en, enabled) ∷ (dev_int_en, enabled_device) ∷ j) between

reset_registers-Sends :
    {i j : Answers} (t : Trace) → Resets j i → Sends reset_registers tt i j t (λ e. e)
unfolding reset_registers config_ep0
reset_registers-Sends {j} t r = rw r.starts (
    Sends-then (write-Sends ep_int_clr _ t refl) λ u1.
      Sends-then
        (Sends-then (ep_bulk_release-Sends 0 64 u1 r.one) λ u2.
          Sends-then (ep_bulk_release-Sends 1 64 u2 r.two)
            λ u3. Sends-bind _ (read-Sends ep_int_en u3) λ u4. write-Sends ep_int_en _ u4 refl)
        λ u5.
          Sends-then (write-Sends dev_int_clr _ u5 refl)
            λ u6. Sends-bind _ (read-Sends dev_int_en u6) λ u7. write-Sends dev_int_en _ u7 refl)

int_reset-runs :
    (d : Device) (i j : Answers) (t t' : Trace)
    → reset_registers (bus i t) ≡ some (tt, bus j t')
    → int_reset (record d { bus = bus i t })
      ≡ some (tt, with_ep0 0 d.ep0.pdata (record d { bus = bus j t'; configuration = 0 }))
unfolding int_reset reset_data
int_reset-runs d i j t t' e = ground (arith, e)

-- The branch for a device status of RST and nothing else that the driver looks at.
device_status-reset :
    (d : Device) (status : ℕ) (i j k : Answers) (t t1 t2 : Trace)
    → lpc_cmd_read dev_status (bus i t) ≡ some (status, bus j t1)
    → has_bits status rst ≡ true
    → has_bits status sus_ch ≡ false
    → has_bits status con_ch ≡ false
    → int_reset (record d { bus = bus j t1 })
      ≡ some (tt, with_ep0 0 d.ep0.pdata (record d { bus = bus k t2; configuration = 0 }))
    → device_status (record d { bus = bus i t })
      ≡ some (
        tt,
        with_ep0 0 d.ep0.pdata
            (record d { bus = bus k ((dev_int_clr, dev_stat) ∷ t2); configuration = 0 }),
      )
unfolding device_status write
device_status-reset d status i j k t t1 t2 e1 e2 e3 e4 e5 = ground (arith, e1, e2, e3, e4, e5)

module _ {S : Type 0} (sched : Scheduler S) where
  -- When the interrupt says that the device's status has changed, that it is RST without SUS_CH and
  -- CON_CH, and then that no endpoint is waiting, and the controller realises endpoints 0 and 1: the
  -- handler takes the configuration and the bytes left to send back to 0, and changes nothing else
  -- but registers, neither the bulk endpoints' queues and pools nor the setup packet. The engine
  -- receives no command but the question for the status.
  pub int_func-reset :
      (fuel : ℕ) (d : Driver S) (first second status : ℕ) {c : ℕ} {i j k m : Answers}
      → d.device.bus.input ≡ (dev_int_st, first) ∷ i
      → has_bits first dev_stat ≡ true
      → Acked i j
      → Ready dev_int_st cdfull c ((cmd_data, status) ∷ k) j
      → has_bits status rst ≡ true
      → has_bits status sus_ch ≡ false
      → has_bits status con_ch ≡ false
      → Resets ((dev_int_st, second) ∷ m) k
      → has_bits second ep_slow ≡ false
      → (t : Trace) × (int_func sched fuel d
          ≡ some (
            tt,
            record d {
              device =
                  with_ep0 0 d.device.ep0.pdata
                    (record d.device { bus = bus m t; configuration = 0 });
            },
          ))
        × (engine t ≡ (2, 0xFE) ∷ (5, 0xFE) ∷ engine d.device.bus.trace)
  unfolding int_func read write
  int_func-reset fuel d first second status {i} {k} {m} starts f0 a0 a1 s1 s2 s3 r f1 =
      let asked = lpc_cmd_read-Sends 0xFE (omega arith) d.device.bus.trace a0 a1 in
      let registers = reset_registers-Sends asked.after r in
      let done =
        device_status-reset d.device status i k ((dev_int_st, second) ∷ m) d.device.bus.trace
          asked.after registers.after asked.runs s1 s2 s3
          (int_reset-runs d.device k ((dev_int_st, second) ∷ m) asked.after registers.after
            registers.runs) in
      (
        (vic_vect_addr, 0) ∷ (dev_int_clr, dev_stat) ∷ registers.after,
        ground (arith, starts, f0, done, f1),
        registers.sent ∙ asked.sent,
      )
