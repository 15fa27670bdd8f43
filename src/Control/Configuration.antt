-- ===== src/Control/Configuration.antt =====
-- usb_SET_CONFIGURATION as a whole: the fuel that its walk needs, what it answers, and what it leaves.
use usb_bulk.Prelude.{
  ℕ, suc, ◌+◌, ◌-◌, ◌≤◌, ◌<◌, ◌≡◌, ◌≢◌, refl, ap, ◌∙◌, subst, Bool, true, false, ◌||◌, some, List,
  [], ◌∷◌, arith, ◌==◌, if◌then◌else◌, bit_and, Bool-cases, inl, inr, Option-cases,
}
use usb_bulk.Bus.Monad.{M, pure, ◌>>◌}
use usb_bulk.Bus.Access.{Bus}
use usb_bulk.Hw.Memory.{Mem}
use usb_bulk.Hw.Endpoint.{config_ep}
use usb_bulk.Control.State.{Device, on_bus}
use usb_bulk.Control.Scan.{scan_configuration}
use usb_bulk.Control.Scan.Configure.{
  Block, plain, config, Table, count, configure_all, endpoints, last_aset, rounds_lem, visits,
  choose, plan, offers, scan-Table,
}
use usb_bulk.Control.Request.{select_configuration, usb_set_configuration}

module _ (m : Mem) (value : ℕ) where
  visits_lem : (bs : List Block) (k : ℕ) → visits m value bs k ≡ visits m value bs 0 + k
  visits_lem [] k = omega arith
  visits_lem (plain p ∷ bs) k = omega (arith, visits_lem bs k)
  visits_lem (config p ps ∷ bs) k = ground (
    arith,
    visits_lem bs k,
    rounds_lem ps (visits m value bs k),
    rounds_lem ps (visits m value bs 0),
  )

  visits-le-count : (bs : List Block) → visits m value bs 0 ≤ suc (count bs)
  visits-le-count [] = omega arith
  visits-le-count (plain p ∷ bs) = omega (arith, visits-le-count bs)
  visits-le-count (config p ps ∷ bs) =
      ground (arith, visits-le-count bs, rounds_lem ps (visits m value bs 0))

  -- With fuel for more rounds than there are descriptors, the walk of usb_SET_CONFIGURATION carries
  -- out the plan of the table, and its result is whether a configuration has the value.
  pub scan_configuration-plan :
      (fuel : ℕ) {p : ℕ} {bs : List Block}
      → Table m p bs
      → count bs < fuel
      → scan_configuration m value fuel p 0 false
        ≡ (plan m value 0 bs >> pure (offers m value bs || false))
  scan_configuration-plan fuel {p} {bs} t enough =
      let k = fuel - visits m value bs 0 in
      let e : visits m value bs k ≡ fuel = omega (arith, visits_lem bs k, visits-le-count bs) in
      subst
        (λ n.
          scan_configuration m value n p 0 false
          ≡ (plan m value 0 bs >> pure (offers m value bs || false)))
        e (scan-Table m value k 0 false t)

-- Everything but the registers and the configuration stays as it was.
pub record Keeps (d e : Device) : Type 0 where
  pub mem : e.mem ≡ d.mem
  pub setup : e.setup ≡ d.setup
  pub ep0 : e.ep0 ≡ d.ep0
  pub descriptors : e.descriptors ≡ d.descriptors

-- A program that ends with the configuration that `f` makes of the one before, and keeps the rest.
abbrev Sets : (ℕ → ℕ) → M Device (Unit {0}) → Type 0
Sets f n = (d e : Device) → n d ≡ some (tt, e) → Keeps d e × (e.configuration ≡ f d.configuration)

on_bus-Sets : (n : M Bus (Unit {0})) → Sets (λ c. c) (on_bus n)
on_bus-Sets n d e h = ground arith

Sets-then :
    (f g : ℕ → ℕ) (m n : M Device (Unit {0})) → Sets f m → Sets g n → Sets (λ c. g (f c)) (m >> n)
Sets-then f g m n p q d e h = elim (Option-cases (m d)) [
  | inl gone ↦ absurd (ground arith)
  | inr (a, got) ↦
      let rest : n a.1 ≡ some (tt, e) = ground arith in
      let k = p d a.1 (ground arith) in
      let l = q a.1 e rest in
      (
        record {
          mem = l.0.mem ∙ k.0.mem;
          setup = l.0.setup ∙ k.0.setup;
          ep0 = l.0.ep0 ∙ k.0.ep0;
          descriptors = l.0.descriptors ∙ k.0.descriptors;
        },
        l.1 ∙ ap g k.1,
      )
]

module _ (m : Mem) (value : ℕ) where
  configure_all-Sets : (ps : List ℕ) → Sets (λ c. c) (configure_all m ps)
  configure_all-Sets [] = λ d e h. ground arith
  configure_all-Sets (p ∷ ps) =
      Sets-then (λ c. c) (λ c. c) (on_bus (config_ep m p)) (configure_all m ps)
        (on_bus-Sets (config_ep m p)) (configure_all-Sets ps)

  choose-Sets : Sets (λ c. value) (choose value)
  choose-Sets d e h = ground arith

  -- A later configuration of the same value sets it again.
  again : (b : Bool) → (if b then value else value) ≡ value
  again true = refl
  again false = refl

  plan-Sets :
      (aset : ℕ) (bs : List Block)
      → Sets (λ c. if offers m value bs then value else c) (plan m value aset bs)
  plan-Sets aset [] = λ d e h. ground arith
  plan-Sets aset (plain p ∷ bs) = plan-Sets aset bs
  plan-Sets aset (config p ps ∷ bs) = elim (Bool-cases (m (p + 5) == value)) [
    | inl e ↦ rw e λ d f h.
        let first = configure_all m (endpoints m aset ps) in
        let then_on = plan m value (last_aset m aset ps) bs in
        let (k, c) =
          Sets-then (λ c. value) (λ c. if offers m value bs then value else c) (choose value)
            (first >> then_on) choose-Sets
            (Sets-then (λ c. c) (λ c. if offers m value bs then value else c) first then_on
              (configure_all-Sets (endpoints m aset ps)) (plan-Sets (last_aset m aset ps) bs))
            d f h in
        (k, c ∙ again (offers m value bs))
    | inr e ↦ rw e (plan-Sets aset bs)
  ]

-- `rc`, where the device is as `d` before the walk: a configuration has the value, or it is the one
-- in force.
abbrev pub accepted : Device → ℕ → List Block → Bool
accepted d value bs = offers d.mem value bs || d.configuration == value

select_configuration-plan :
    (fuel value : ℕ) (d : Device) {bs : List Block}
    → bit_and d.setup.w_value 0xFF ≡ value
    → value ≢ 0
    → Table d.mem d.descriptors bs
    → count bs < fuel
    → select_configuration fuel d
      ≡ (plan d.mem value 0 bs >> pure (offers d.mem value bs || false)) d
unfolding select_configuration
select_configuration-plan fuel value d v nz t enough =
    let ne : (value == 0) ≡ false = ground arith in
    rw (v, ne) (ap (λ (n : M Device Bool). n d) (scan_configuration-plan d.mem value fuel t enough))

-- SET_CONFIGURATION with a value other than 0, over a table of descriptors and with fuel for one
-- round more than there are descriptors: the request carries out the plan of the table, and nothing
-- else; it is accepted exactly when a configuration has the value or the device is in it already.
pub set_configuration-plan :
    (fuel value : ℕ) (d : Device) {bs : List Block}
    → bit_and d.setup.w_value 0xFF ≡ value
    → value ≢ 0
    → Table d.mem d.descriptors bs
    → count bs < fuel
    → usb_set_configuration fuel d ≡ (plan d.mem value 0 bs >> pure (accepted d value bs)) d
unfolding usb_set_configuration
set_configuration-plan fuel value d {bs} v nz t enough =
    let selected = select_configuration-plan fuel value d v nz t enough in
    elim (Option-cases (plan d.mem value 0 bs d)) [
      | inl e ↦ ground (arith, selected)
      | inr (a, e) ↦ ground (arith, selected, plan-Sets d.mem value 0 bs d a.1)
    ]

-- Where SET_CONFIGURATION with a value other than 0 ends, over a table of descriptors and with fuel for
-- one round more than there are, the configuration is the value if a configuration of the table has it
-- and the old one if none has, and memory, setup packet, endpoint status and the descriptors' address
-- are as before.
pub set_configuration-Keeps :
    (fuel value : ℕ) (rc : Bool) (d e : Device) {bs : List Block}
    → bit_and d.setup.w_value 0xFF ≡ value
    → value ≢ 0
    → Table d.mem d.descriptors bs
    → count bs < fuel
    → usb_set_configuration fuel d ≡ some (rc, e)
    → Keeps d e × (e.configuration ≡ (if offers d.mem value bs then value else d.configuration))
set_configuration-Keeps fuel value rc d e {bs} v nz t enough run =
    let planned = set_configuration-plan fuel value d v nz t enough in
    plan-Sets d.mem value 0 bs d e (ground (arith, planned, run))
