-- ===== src/Kernel/Fifo/Contents.antt =====
-- What a data queue's storage holds, oldest first.
use usb_bulk.Prelude.{
  ℕ, zero, suc, ◌+◌, ◌-◌, ◌≤◌, ◌<◌, ◌≡◌, ◌≢◌, refl, ap, ap₂, List, [], ◌∷◌, ◌++◌, arith, leb,
  if◌then◌else◌, length, get_or, set, get_elem?, some,
}
use usb_bulk.Kernel.Fifo.{Dque, advance}

module _ {ℓ} {A : Type ℓ} where
  pub get_or-set_self :
      (xs : List A) (i : ℕ) (v d : A) → i < length xs → get_or (set xs i v) i d ≡ v
  get_or-set_self [] i v d h = elim h [ ]
  get_or-set_self (x ∷ xs) zero v d h = refl
  get_or-set_self (x ∷ xs) (suc i) v d h = get_or-set_self xs i v d (omega arith)

  pub get_or-set_ne :
      (xs : List A) (i j : ℕ) (v d : A) → i ≢ j → get_or (set xs i v) j d ≡ get_or xs j d
  get_or-set_ne [] i j v d h = refl
  get_or-set_ne (x ∷ xs) zero zero v d h = absurd (h refl)
  get_or-set_ne (x ∷ xs) zero (suc j) v d h = refl
  get_or-set_ne (x ∷ xs) (suc i) zero v d h = refl
  get_or-set_ne (x ∷ xs) (suc i) (suc j) v d h = get_or-set_ne xs i j v d (λ e. h (ap suc e))

  pub get_elem?-get_or :
      (xs : List A) (i : ℕ) (d : A) → i < length xs → get_elem? xs i ≡ some (get_or xs i d)
  get_elem?-get_or [] i d h = elim h [ ]
  get_elem?-get_or (x ∷ xs) zero d h = refl
  get_elem?-get_or (x ∷ xs) (suc i) d h = get_elem?-get_or xs i d (omega arith)

-- The `k` entries from index `i` on, going on with index 0 behind index `n - 1`.
abbrev pub entries : List ℕ → ℕ → ℕ → ℕ → List ℕ
entries buf n i zero = []
entries buf n i (suc k) = get_or buf i 0 ∷ entries buf n (advance n i) k

-- How many entries there are.
abbrev pub used : Dque → ℕ
used q =
    if leb q.tail_cnt q.header_cnt
    then q.header_cnt - q.tail_cnt
    else q.header_cnt + q.num_entries - q.tail_cnt

abbrev pub contents : Dque → List ℕ
contents q = entries q.data_fifo q.num_entries q.tail_cnt (used q)

pub length-entries : (buf : List ℕ) (n i k : ℕ) → length (entries buf n i k) ≡ k
length-entries buf n i zero = refl
length-entries buf n i (suc k) = ap suc (length-entries buf n (advance n i) k)

-- The index `k` entries behind `i`.
abbrev pub behind : ℕ → ℕ → ℕ → ℕ
behind n i k = if leb n (i + k) then i + k - n else i + k

-- A write at the index behind fewer than `n` entries adds to them at the end.
pub entries-set :
    (buf : List ℕ) (n i k j x : ℕ)
    → n ≤ length buf
    → i < n
    → k < n
    → j ≡ behind n i k
    → entries (set buf j x) n i (suc k) ≡ entries buf n i k ++ (x ∷ [])
entries-set buf n i zero j x room hi hk e =
    ap (λ v. v ∷ []) (ground (arith, get_or-set_self buf i x 0))
entries-set buf n i (suc k) j x room hi hk e =
    ap₂ ◌∷◌ (get_or-set_ne buf j i x 0 (ground arith))
      (entries-set buf n (advance n i) k j x room (ground arith) (omega arith) (ground arith))

-- The first of some entries.
pub entries_pos :
    (buf : List ℕ) (n i k : ℕ)
    → 0 < k
    → entries buf n i k ≡ get_or buf i 0 ∷ entries buf n (advance n i) (k - 1)
entries_pos buf n i zero h = elim h [ ]
entries_pos buf n i (suc k) h =
    ap (λ l. get_or buf i 0 ∷ entries buf n (advance n i) l) (omega arith)
