-- ===== src/Descriptors/Layout.antt =====
-- The descriptors are a table of blocks, wherever the linker puts them.
use usb_bulk.Prelude.{ℕ, ◌+◌, ◌<◌, ◌≡◌, ◌≢◌, sym, refl, subst, List, [], ◌∷◌, arith, get_or}
use usb_bulk.Hw.Memory.{Mem, half_at}
use usb_bulk.Control.Scan.Configure.{
  Block, plain, config, Section, stop, item, Table, end, single, group, endpoints,
}
use usb_bulk.Descriptors.{ab_descriptors}

-- The descriptors stand in memory from `base` on.
abbrev pub Loaded : Mem → ℕ → Type 0
Loaded m base = (i : ℕ) → i < 133 → m (base + i) ≡ get_or ab_descriptors i 0

module _ (m : Mem) where
  single_at :
      {p : ℕ} (q : ℕ) {bs : List Block}
      → (m p ≢ 0) × (m (p + 1) ≢ 2) × (m (p + 1) ≢ 4) × (m (p + 1) ≢ 5) × (p + m p ≡ q)
      → Table m q bs
      → Table m p (plain p ∷ bs)
  single_at q {bs} (a, b, c, d, e) t = single a b c d (subst (λ r. Table m r bs) (sym e) t)

  item_at :
      {q p : ℕ} (r : ℕ) {ps : List ℕ}
      → (m p ≢ 0) × (m (p + 1) ≢ 2) × (p + m p ≡ r)
      → Section m q r ps
      → Section m q p (p ∷ ps)
  item_at {q} r {ps} (a, b, e) s = item a b (subst (λ x. Section m q x ps) (sym e) s)

  group_at :
      {p : ℕ} (q r : ℕ) {ps : List ℕ} {bs : List Block}
      → (m p ≢ 0) × (m (p + 1) ≡ 2) × (p + m p ≡ q) × (p + half_at m (p + 2) ≡ r)
      → Section m r q ps
      → Table m r bs
      → Table m p (config p ps ∷ bs)
  group_at {p} q r {ps} {bs} (a, b, e, f) s t =
      group a b
        (subst (λ x. Section m x (p + m p) ps) (sym f) (subst (λ x. Section m r x ps) (sym e) s))
        (subst (λ x. Table m x bs) (sym f) t)

-- The device; the configuration with its interface and four endpoints; four strings.
abbrev pub blocks : ℕ → List Block
blocks b =
    plain b
    ∷ config (b + 18) ((b + 27) ∷ (b + 36) ∷ (b + 43) ∷ (b + 50) ∷ (b + 57) ∷ [])
    ∷ plain (b + 64)
    ∷ plain (b + 68)
    ∷ plain (b + 92)
    ∷ plain (b + 118)
    ∷ []

module _ (m : Mem) (b : ℕ) (h : Loaded m b) where
  pub at : (i : ℕ) → i < 133 → (j : ℕ) → j ≡ b + i → m j ≡ get_or ab_descriptors i 0
  at i small j e = subst (λ k. m k ≡ get_or ab_descriptors i 0) (sym e) (h i small)

  strings :
      Table m (b + 64) (plain (b + 64) ∷ plain (b + 68) ∷ plain (b + 92) ∷ plain (b + 118) ∷ [])
  strings =
      single_at m (b + 68)
        (omega (
          arith,
          at 64 (omega arith) (b + 64) refl,
          at 65 (omega arith) (b + 64 + 1) (omega arith),
        ))
        (single_at m (b + 92)
          (omega (
            arith,
            at 68 (omega arith) (b + 68) refl,
            at 69 (omega arith) (b + 68 + 1) (omega arith),
          ))
          (single_at m (b + 118)
            (omega (
              arith,
              at 92 (omega arith) (b + 92) refl,
              at 93 (omega arith) (b + 92 + 1) (omega arith),
            ))
            (single_at m (b + 132)
              (omega (
                arith,
                at 118 (omega arith) (b + 118) refl,
                at 119 (omega arith) (b + 118 + 1) (omega arith),
              ))
              (end (at 132 (omega arith) (b + 132) refl)))))

  section : Section m (b + 64) (b + 27) ((b + 27) ∷ (b + 36) ∷ (b + 43) ∷ (b + 50) ∷ (b + 57) ∷ [])
  section =
      item_at m (b + 36)
        (omega (
          arith,
          at 27 (omega arith) (b + 27) refl,
          at 28 (omega arith) (b + 27 + 1) (omega arith),
        ))
        (item_at m (b + 43)
          (omega (
            arith,
            at 36 (omega arith) (b + 36) refl,
            at 37 (omega arith) (b + 36 + 1) (omega arith),
          ))
          (item_at m (b + 50)
            (omega (
              arith,
              at 43 (omega arith) (b + 43) refl,
              at 44 (omega arith) (b + 43 + 1) (omega arith),
            ))
            (item_at m (b + 57)
              (omega (
                arith,
                at 50 (omega arith) (b + 50) refl,
                at 51 (omega arith) (b + 50 + 1) (omega arith),
              ))
              (item_at m (b + 64)
                (omega (
                  arith,
                  at 57 (omega arith) (b + 57) refl,
                  at 58 (omega arith) (b + 57 + 1) (omega arith),
                ))
                stop))))

  -- Wherever `ab_descriptors` stands in memory, the addresses of its parts are a table: each part's
  -- bLength leads to the next one, the configuration's wTotalLength leads behind its interface and four
  -- endpoints, no other part is a configuration, and a zero byte follows the last string.
  pub ab_descriptors-Table : Table m b (blocks b)
  ab_descriptors-Table =
      single_at m (b + 18)
        (omega (arith, at 0 (omega arith) b (omega arith), at 1 (omega arith) (b + 1) refl))
        (group_at m (b + 27) (b + 64)
          (omega (
            arith,
            at 18 (omega arith) (b + 18) refl,
            at 19 (omega arith) (b + 18 + 1) (omega arith),
            at 20 (omega arith) (b + 18 + 2) (omega arith),
            at 21 (omega arith) (b + 18 + 2 + 1) (omega arith),
          ))
          section strings)

  pub ab_descriptors-endpoints :
      endpoints m 0 ((b + 27) ∷ (b + 36) ∷ (b + 43) ∷ (b + 50) ∷ (b + 57) ∷ [])
      ≡ (b + 36) ∷ (b + 43) ∷ (b + 50) ∷ (b + 57) ∷ []
  ab_descriptors-endpoints = ground (
    arith,
    at 28 (omega arith) (b + 27 + 1) (omega arith),
    at 30 (omega arith) (b + 27 + 3) (omega arith),
    at 37 (omega arith) (b + 36 + 1) (omega arith),
    at 44 (omega arith) (b + 43 + 1) (omega arith),
    at 51 (omega arith) (b + 50 + 1) (omega arith),
    at 58 (omega arith) (b + 57 + 1) (omega arith),
  )
