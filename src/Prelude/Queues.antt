-- ===== src/Prelude/Queues.antt =====
-- Lists as circular queues, of numbers: the first entry, the removal of one, and how often one is
-- there. And the assignment of one entry of an array.
use Prim.Native.Nat.{ℕ, suc, ◌+◌}
use mathlib.Core.Path.{◌≡◌, refl}
use mathlib.Core.Bool.{Bool, true, false}
use mathlib.Core.List.{List, [], ◌∷◌, ◌++◌}
use mathlib.Core.Option.{Option, none, some}
use native.Mathlib.Omega.{arith}
use usb_bulk.Prelude.Tests.{◌==◌, if◌then◌else◌}

abbrev pub update {ℓ} : {A : Type ℓ} → (ℕ → A) → ℕ → A → ℕ → A
update f i v j = if i == j then v else f j

pub update_self {ℓ} : {A : Type ℓ} (f : ℕ → A) (t : ℕ) (c : A) → update f t c t ≡ c
update_self f t c = let same : (t == t) ≡ true = ground arith in rw (same) refl

abbrev pub is_empty {ℓ} : {A : Type ℓ} → List A → Bool
is_empty [] = true
is_empty (x ∷ xs) = false

abbrev pub head? {ℓ} : {A : Type ℓ} → List A → Option A
head? [] = none
head? (x ∷ xs) = some x

unfoldable pub remove : ℕ → List ℕ → List ℕ
remove t [] = []
remove t (x ∷ xs) = let rest = remove t xs in if t == x then rest else x ∷ rest

unfoldable pub count : ℕ → List ℕ → ℕ
count t [] = 0
count t (x ∷ xs) = let rest = count t xs in if t == x then suc rest else rest

pub is_empty-snoc : (xs : List ℕ) (t : ℕ) → is_empty (xs ++ (t ∷ [])) ≡ false
is_empty-snoc [] t = refl
is_empty-snoc (x ∷ xs) t = refl

pub head?-snoc :
    (xs : List ℕ) (t : ℕ) → head? (xs ++ (t ∷ [])) ≡ (if is_empty xs then some t else head? xs)
head?-snoc [] t = refl
head?-snoc (x ∷ xs) t = refl

pub is_empty-remove : (t : ℕ) (xs : List ℕ) → is_empty xs ≡ true → is_empty (remove t xs) ≡ true
unfolding remove
is_empty-remove t [] e = refl
is_empty-remove t (x ∷ xs) e = ground arith

pub head?-remove :
    (t n : ℕ) (xs : List ℕ) → head? xs ≡ some n → (t == n) ≡ false → head? (remove t xs) ≡ some n
unfolding remove
head?-remove t n [] e ne = ground arith
head?-remove t n (x ∷ xs) e ne = ground arith

pub is_empty-head : (n : ℕ) (xs : List ℕ) → head? xs ≡ some n → is_empty xs ≡ false
is_empty-head n [] e = ground arith
is_empty-head n (x ∷ xs) e = refl

pub head-is_empty : (xs : List ℕ) → is_empty xs ≡ false → (n : ℕ) × (head? xs ≡ some n)
head-is_empty [] e = ground arith
head-is_empty (x ∷ xs) e = (x, refl)

pub count-head : (n : ℕ) (xs : List ℕ) → head? xs ≡ some n → (count n xs == 0) ≡ false
unfolding count
count-head n [] e = ground arith
count-head n (x ∷ xs) e = ground arith

pub count-is_empty : (n : ℕ) (xs : List ℕ) → is_empty xs ≡ true → count n xs ≡ 0
unfolding count
count-is_empty n [] e = refl
count-is_empty n (x ∷ xs) e = ground arith

pub count-remove :
    (t u : ℕ) (xs : List ℕ) → count u (remove t xs) ≡ (if t == u then 0 else count u xs)
unfolding remove count
count-remove t u [] = ground arith
count-remove t u (x ∷ xs) = ground (arith, count-remove t u xs)

pub count-snoc :
    (u t : ℕ) (xs : List ℕ) → count u (xs ++ (t ∷ [])) ≡ count u xs + (if t == u then 1 else 0)
unfolding count
count-snoc u t [] = ground arith
count-snoc u t (x ∷ xs) = ground (arith, count-snoc u t xs)

pub remove-absent : (t : ℕ) (xs : List ℕ) → count t xs ≡ 0 → remove t xs ≡ xs
unfolding remove count
remove-absent t [] e = refl
remove-absent t (x ∷ xs) e = ground (arith, remove-absent t xs)

pub count-cons :
    (u t : ℕ) (ts : List ℕ) → count u (t ∷ ts) ≡ (if u == t then suc (count u ts) else count u ts)
unfolding count
count-cons u t ts = refl

pub remove-head : (t : ℕ) (ts : List ℕ) → count t ts ≡ 0 → remove t (t ∷ ts) ≡ ts
unfolding remove
remove-head t ts absent = ground (arith, remove-absent t ts absent)

pub remove-other : (t x : ℕ) (xs : List ℕ) → (t == x) ≡ false → remove t (x ∷ xs) ≡ x ∷ remove t xs
unfolding remove
remove-other t x xs other = rw (other) refl
