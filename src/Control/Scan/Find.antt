-- ===== src/Control/Scan/Find.antt =====
-- usb_GET_DESCRIPTOR's walk finds the descriptor that a list of the descriptors names.
use usb_bulk.Prelude.{
  ℕ, zero, suc, ◌+◌, ◌-◌, ◌≤◌, ◌<◌, ◌≡◌, ◌≢◌, some, List, [], ◌∷◌, arith, ◌==◌, if◌then◌else◌,
  length, get_elem?,
}
use usb_bulk.Hw.Memory.{Mem}
use usb_bulk.Control.Scan.{find_descriptor}

-- The descriptors at the addresses `ps` stand one behind the other from `p` on, and a zero byte
-- follows the last.
pub data Chain (m : Mem) : ℕ → List ℕ → Type 0 where
  end : {p : ℕ} → m p ≡ 0 → Chain m p []
  descriptor : {p : ℕ} {ps : List ℕ} → m p ≢ 0 → Chain m (p + m p) ps → Chain m p (p ∷ ps)

-- The descriptors of the type `ty`, in order.
abbrev pub of_type : Mem → ℕ → List ℕ → List ℕ
of_type m ty [] = []
of_type m ty (p ∷ ps) = let rest = of_type m ty ps in if m (p + 1) == ty then p ∷ rest else rest

get_elem?-cons_pos :
    (x : ℕ) (xs : List ℕ) (n : ℕ) → 0 < n → get_elem? (x ∷ xs) n ≡ get_elem? xs (n - 1)
get_elem?-cons_pos x xs zero h = absurd (omega arith)
get_elem?-cons_pos x xs (suc n) h = ground arith

-- The walk from the head of a chain of descriptors, with fuel for one round more than there are and
-- with `ind` descriptors of the type counted before, ends, and its result is the descriptor of the type
-- that has `index - ind` others of it before it in the chain, or none if there are too few.
pub find_descriptor-of_type :
    {m : Mem} (ty index fuel ind : ℕ) {p : ℕ} {ps : List ℕ}
    → Chain m p ps
    → length ps < fuel
    → ind ≤ index
    → find_descriptor m ty index fuel p ind ≡ some (get_elem? (of_type m ty ps) (index - ind))
unfolding find_descriptor
find_descriptor-of_type ty index zero ind c enough le = absurd (omega arith)
find_descriptor-of_type ty index (suc k) ind (end z) enough le = ground arith
find_descriptor-of_type {m} ty index (suc k) ind (descriptor {p} {ps} nz c) enough le = ground (
  arith,
  get_elem?-cons_pos p (of_type m ty ps) (index - ind),
  find_descriptor-of_type ty index k ind c,
  find_descriptor-of_type ty index k (ind + 1) c,
)
