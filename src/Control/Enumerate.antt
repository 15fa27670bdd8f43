-- ===== src/Control/Enumerate.antt =====
-- SET_CONFIGURATION on the descriptors of tn_usb_descr.c.
use usb_bulk.Prelude.{
  ℕ, ◌+◌, ◌<◌, ◌≡◌, refl, ap, ◌∙◌, Bool, true, false, some, List, [], ◌∷◌, arith, ◌==◌, ◌||◌,
  bit_and,
}
use usb_bulk.Bus.Monad.{M, pure, ◌>>◌, >>-assoc}
use usb_bulk.Hw.Memory.{Mem, half_at}
use usb_bulk.Hw.Endpoint.{ep_num_lg2ph}
use usb_bulk.Descriptors.Layout.{Loaded, at, ab_descriptors-Table, ab_descriptors-endpoints}
use usb_bulk.Control.State.{Device}
use usb_bulk.Control.Scan.Configure.{plain, config, configure_all, endpoints, choose, plan, offers}
use usb_bulk.Control.Request.{usb_set_configuration}
use usb_bulk.Control.Configuration.{set_configuration-plan}

-- The endpoint descriptors, the physical number that each stands for, and its packet size.
abbrev endpoint_addresses : ℕ → List ℕ
endpoint_addresses b = (b + 36) ∷ (b + 43) ∷ (b + 50) ∷ (b + 57) ∷ []

-- The plan of one configuration among other descriptors.
plan_one :
    (m : Mem) (value a p c e f g : ℕ) (ps es : List ℕ) (rc : Bool)
    → (m (p + 5) == value) ≡ true
    → endpoints m 0 ps ≡ es
    → let bs = plain a ∷ config p ps ∷ plain c ∷ plain e ∷ plain f ∷ plain g ∷ [] in
      (plan m value 0 bs >> pure (offers m value bs || rc))
      ≡ (choose value >> (configure_all m es >> pure true))
plan_one m value a p c e f g ps es rc h k =
    rw (h, k)
      (>>-assoc (choose value) (configure_all m es >> pure tt) (pure true)
        ∙ ap (λ (n : M Device Bool). choose value >> n)
            (>>-assoc (configure_all m es) (pure tt) (pure true)))

module _ (d : Device) (h : Loaded d.mem d.descriptors) where
  value_at : d.mem (d.descriptors + 18 + 5) ≡ 1
  value_at = at d.mem d.descriptors h 23 (omega arith) (d.descriptors + 18 + 5) (omega arith)

  -- With the descriptors of tn_usb_descr.c, SET_CONFIGURATION 1 records configuration 1, sends the
  -- controller the configured mode, configures the descriptors at 36, 43, 50 and 57 in this order, and
  -- is accepted. They are the physical endpoints 4, 5, 10 and 11, with packets of 64 bytes.
  pub set_configuration_one :
      (fuel : ℕ)
      → bit_and d.setup.w_value 0xFF ≡ 1
      → 11 < fuel
      → let b = d.descriptors in
        (usb_set_configuration fuel d
          ≡ (choose 1 >> (configure_all d.mem (endpoint_addresses b) >> pure true)) d)
        × (ep_num_lg2ph (bit_and (d.mem (b + 36 + 2)) 0x8F) ≡ 4)
        × (ep_num_lg2ph (bit_and (d.mem (b + 43 + 2)) 0x8F) ≡ 5)
        × (ep_num_lg2ph (bit_and (d.mem (b + 50 + 2)) 0x8F) ≡ 10)
        × (ep_num_lg2ph (bit_and (d.mem (b + 57 + 2)) 0x8F) ≡ 11)
        × (half_at d.mem (b + 36 + 4) ≡ 64)
        × (half_at d.mem (b + 43 + 4) ≡ 64)
        × (half_at d.mem (b + 50 + 4) ≡ 64)
        × (half_at d.mem (b + 57 + 4) ≡ 64)
  set_configuration_one fuel v enough =
      let b = d.descriptors in
      (
        (set_configuration-plan fuel 1 d v (omega arith) (ab_descriptors-Table d.mem b h)
              (omega arith))
            ∙ ap (λ (n : M Device Bool). n d)
                (plan_one d.mem 1 b (b + 18) (b + 64) (b + 68) (b + 92) (b + 118)
                  ((b + 27) ∷ (b + 36) ∷ (b + 43) ∷ (b + 50) ∷ (b + 57) ∷ []) (endpoint_addresses b)
                  (d.configuration == 1) (rw value_at) (ab_descriptors-endpoints d.mem b h)),
        rw (at d.mem b h 38 (omega arith) (b + 36 + 2) (omega arith)),
        rw (at d.mem b h 45 (omega arith) (b + 43 + 2) (omega arith)),
        rw (at d.mem b h 52 (omega arith) (b + 50 + 2) (omega arith)),
        rw (at d.mem b h 59 (omega arith) (b + 57 + 2) (omega arith)),
        omega (
          arith,
          at d.mem b h 40 (omega arith) (b + 36 + 4) (omega arith),
          at d.mem b h 41 (omega arith) (b + 36 + 4 + 1) (omega arith),
        ),
        omega (
          arith,
          at d.mem b h 47 (omega arith) (b + 43 + 4) (omega arith),
          at d.mem b h 48 (omega arith) (b + 43 + 4 + 1) (omega arith),
        ),
        omega (
          arith,
          at d.mem b h 54 (omega arith) (b + 50 + 4) (omega arith),
          at d.mem b h 55 (omega arith) (b + 50 + 4 + 1) (omega arith),
        ),
        omega (
          arith,
          at d.mem b h 61 (omega arith) (b + 57 + 4) (omega arith),
          at d.mem b h 62 (omega arith) (b + 57 + 4 + 1) (omega arith),
        ),
      )

  -- With the descriptors of tn_usb_descr.c, SET_CONFIGURATION with any value but 0 and 1 changes nothing and sends
  -- nothing: it is accepted if the device is in that configuration, and else refused.
  pub set_configuration_other :
      (fuel value : ℕ)
      → bit_and d.setup.w_value 0xFF ≡ value
      → 1 < value
      → 11 < fuel
      → usb_set_configuration fuel d ≡ some (d.configuration == value, d)
  set_configuration_other fuel value v high enough =
      let b = d.descriptors in
      let differs : (d.mem (b + 18 + 5) == value) ≡ false = ground (arith, value_at) in
      (set_configuration-plan fuel value d v (omega arith) (ab_descriptors-Table d.mem b h)
        (omega arith))
      ∙ rw differs refl
