-- ===== src/Control/Scan/Configure.antt =====
-- usb_SET_CONFIGURATION's walk against a table of configurations, each with the descriptors that
-- belong to it.
use usb_bulk.Prelude.{
  ℕ, suc, ◌+◌, ◌≡◌, ◌≢◌, refl, ap, ◌∙◌, Bool, true, false, ◌&&◌, ◌||◌, List, [], ◌∷◌, arith, ◌==◌,
  if◌then◌else◌, length, sym, Bool-cases, inl, inr,
}
use usb_bulk.Bus.Monad.{M, pure, ◌>>◌, >>-assoc}
use usb_bulk.Hw.Memory.{Mem, half_at}
use usb_bulk.Hw.Endpoint.{config_ep}
use usb_bulk.Hw.Device.{configure_device}
use usb_bulk.Control.State.{Device, modify, on_bus}
use usb_bulk.Control.Scan.{
  scan_configuration, type_configuration, type_interface, type_endpoint, is_match, visit, next,
  next_aset,
}

-- A descriptor outside the configurations, or a configuration with what belongs to it.
pub data Block : Type 0 where
  plain : ℕ → Block
  config : ℕ → List ℕ → Block

-- The descriptors at `ps` stand one behind the other from `p` to `q`, none a configuration.
pub data Section (m : Mem) (q : ℕ) : ℕ → List ℕ → Type 0 where
  stop : Section m q q []
  item :
      {p : ℕ} {ps : List ℕ}
      → m p ≢ 0
      → m (p + 1) ≢ type_configuration
      → Section m q (p + m p) ps
      → Section m q p (p ∷ ps)

-- The blocks stand one behind the other from `p` on, and a zero byte follows the last. A
-- configuration's wTotalLength leads behind all that belongs to it.
pub data Table (m : Mem) : ℕ → List Block → Type 0 where
  end : {p : ℕ} → m p ≡ 0 → Table m p []
  single :
      {p : ℕ} {bs : List Block}
      → m p ≢ 0
      → m (p + 1) ≢ type_configuration
      → m (p + 1) ≢ type_interface
      → m (p + 1) ≢ type_endpoint
      → Table m (p + m p) bs
      → Table m p (plain p ∷ bs)
  group :
      {p : ℕ} {ps : List ℕ} {bs : List Block}
      → m p ≢ 0
      → m (p + 1) ≡ type_configuration
      → Section m (p + half_at m (p + 2)) (p + m p) ps
      → Table m (p + half_at m (p + 2)) bs
      → Table m p (config p ps ∷ bs)

-- How many descriptors there are.
abbrev pub count : List Block → ℕ
count [] = 0
count (plain p ∷ bs) = suc (count bs)
count (config p ps ∷ bs) = suc (length ps + count bs)

module _ (m : Mem) where
  -- The endpoints of alternate setting 0, where `aset` is that of the interface before `ps`.
  abbrev pub endpoints : ℕ → List ℕ → List ℕ
  endpoints aset [] = []
  endpoints aset (p ∷ ps) =
      let rest = endpoints (next_aset m p aset) ps in
      if m (p + 1) == type_endpoint && aset == 0 then p ∷ rest else rest

  -- The setting of the last interface of `ps`.
  abbrev pub last_aset : ℕ → List ℕ → ℕ
  last_aset aset [] = aset
  last_aset aset (p ∷ ps) = last_aset (next_aset m p aset) ps

  -- Configures the endpoints at `ps`, in order.
  abbrev pub configure_all : List ℕ → M Device (Unit {0})
  configure_all [] = pure tt
  configure_all (p ∷ ps) = on_bus (config_ep m p) >> configure_all ps

-- `k` rounds more than one for each of the list.
abbrev pub rounds : List ℕ → ℕ → ℕ
rounds [] k = k
rounds (p ∷ ps) k = suc (rounds ps k)

pub rounds_lem : (ps : List ℕ) (k : ℕ) → rounds ps k ≡ length ps + k
rounds_lem [] k = omega arith
rounds_lem (p ∷ ps) k = omega (arith, rounds_lem ps k)

-- The configuration is chosen: in the driver's record, and in the controller.
abbrev pub choose : ℕ → M Device (Unit {0})
choose value = do modify (λ d. record d { configuration = value }); on_bus (configure_device true)

module _ (m : Mem) (value : ℕ) where
  scan_end :
      (k p aset : ℕ) (rc : Bool) → m p ≡ 0 → scan_configuration m value (suc k) p aset rc ≡ pure rc
  unfolding scan_configuration
  scan_end k p aset rc h = rw h

  scan_step :
      (k p aset : ℕ) (rc : Bool)
      → (m p == 0) ≡ false
      → scan_configuration m value (suc k) p aset rc ≡ (
          visit m value p aset
          >> scan_configuration m value k
              (next m value p)
              (next_aset m p aset)
              (if is_match m value p then true else rc))
  unfolding scan_configuration
  scan_step k p aset rc h = rw h

  configure_all-visit :
      {B : Type 0} (p aset : ℕ) (ps : List ℕ) (n : M Device B)
      → (m (p + 1) == type_configuration) ≡ false
      → (visit m value p aset >> (configure_all m (endpoints m (next_aset m p aset) ps) >> n))
        ≡ (configure_all m (endpoints m aset (p ∷ ps)) >> n)
  configure_all-visit p aset ps n h = elim (Bool-cases (m (p + 1) == type_endpoint && aset == 0)) [
    | inl e ↦
        rw (h, e)
          (sym (
            >>-assoc (on_bus (config_ep m p))
              (configure_all m (endpoints m (next_aset m p aset) ps)) n))
    | inr e ↦ rw (h, e)
  ]

  -- The walk over a section does no more than to configure its endpoints.
  scan-Section :
      {q : ℕ} (k aset : ℕ) (rc : Bool) {p : ℕ} {ps : List ℕ}
      → Section m q p ps
      → scan_configuration m value (rounds ps k) p aset rc ≡ (
          configure_all m (endpoints m aset ps)
          >> scan_configuration m value k q (last_aset m aset ps) rc)
  scan-Section k aset rc stop = refl
  scan-Section {q} k aset rc (item {p} {ps} nz nc s) =
      let other : (m (p + 1) == type_configuration) ≡ false = ground arith in
      rw (scan_step (rounds ps k) p aset rc (ground arith), other)
        (rw (scan-Section k (next_aset m p aset) rc s) (
          rw other at (
            configure_all-visit p aset ps
              (scan_configuration m value k q (last_aset m (next_aset m p aset) ps) rc) other)))

  or-true : (b : Bool) → (b || true) ≡ true
  or-true true = refl
  or-true false = refl

  -- What the walk does to the device, block by block, from the setting `aset`.
  abbrev pub plan : ℕ → List Block → M Device (Unit {0})
  plan aset [] = pure tt
  plan aset (plain p ∷ bs) = plan aset bs
  plan aset (config p ps ∷ bs) =
      let chosen = configure_all m (endpoints m aset ps) >> plan (last_aset m aset ps) bs in
      let passed = plan aset bs in if m (p + 5) == value then choose value >> chosen else passed

  -- Whether a configuration has the value.
  abbrev pub offers : List Block → Bool
  offers [] = false
  offers (plain p ∷ bs) = offers bs
  offers (config p ps ∷ bs) = (m (p + 5) == value) || offers bs

  -- The rounds of the walk over the blocks.
  abbrev pub visits : List Block → ℕ → ℕ
  visits [] k = suc k
  visits (plain p ∷ bs) k = suc (visits bs k)
  visits (config p ps ∷ bs) k =
      let over = rounds ps (visits bs k) in suc (if m (p + 5) == value then over else visits bs k)

  pub scan-Table :
      (k aset : ℕ) (rc : Bool) {p : ℕ} {bs : List Block}
      → Table m p bs
      → scan_configuration m value (visits bs k) p aset rc
        ≡ (plan aset bs >> pure (offers bs || rc))
  scan-Table k aset rc (end z) = scan_end k _ aset rc z
  scan-Table k aset rc (single {p} {bs} nz nc ni ne t) =
      let other : (m (p + 1) == type_configuration) ≡ false = ground arith in
      let endpoint : (m (p + 1) == type_endpoint) ≡ false = ground arith in
      let interface : (m (p + 1) == type_interface) ≡ false = ground arith in
      rw (scan_step (visits bs k) p aset rc (ground arith), other, endpoint, interface)
        (scan-Table k aset rc t)
  scan-Table k aset rc (group {p} {ps} {bs} nz c s t) =
      let is : (m (p + 1) == type_configuration) ≡ true = ground arith in
      let interface : (m (p + 1) == type_interface) ≡ false = ground arith in
      let endpoint : (m (p + 1) == type_endpoint) ≡ false = ground arith in
      let first = configure_all m (endpoints m aset ps) in
      let then_on = plan (last_aset m aset ps) bs in
      elim (Bool-cases (m (p + 5) == value)) [
        | inl e ↦ rw e (
            rw (scan_step (rounds ps (visits bs k)) p aset rc (ground arith), is, e, interface)
              (rw
                (
                  scan-Section (visits bs k) aset true s,
                  scan-Table k (last_aset m aset ps) true t,
                  or-true (offers bs),
                )
                (sym (
                  >>-assoc (choose value) (first >> then_on) (pure true)
                  ∙ ap (λ (n : M Device Bool). choose value >> n)
                      (>>-assoc first then_on (pure true))))))
        | inr e ↦ rw e (
            rw (scan_step (visits bs k) p aset rc (ground arith), is, e, interface, endpoint)
              (scan-Table k aset rc t))
      ]
