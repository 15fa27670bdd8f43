-- ===== src/Kernel/Links/Ring.antt =====
-- Rings: the links from a queue through some entries and back, both ways.
use usb_bulk.Prelude.{
  ℕ, ◌≤◌, ◌≡◌, ap, ◌∙◌, inl, inr, false, List, [], ◌∷◌, ◌++◌, arith, ◌==◌, ==_iff, Bool-cases,
  update, count, count-cons, count-snoc,
}
use usb_bulk.Kernel.Links.{Links, queue_add_tail}

-- The links from `a` through the entries to `b`, and back.
unfoldable pub IsSeg : Links → ℕ → List ℕ → ℕ → Type 0
IsSeg h a [] b = (h.next a ≡ b) × (h.prev b ≡ a)
IsSeg h a (x ∷ xs) b = (h.next a ≡ x) × (h.prev x ≡ a) × IsSeg h x xs b

-- `x` is none of the entries.
abbrev pub IsNot : ℕ → List ℕ → Type 0
IsNot x xs = count x xs ≡ 0

-- Each entry is there once.
abbrev pub IsOnce : List ℕ → Type 0
IsOnce xs = (u : ℕ) → count u xs ≤ 1

pub record IsRing (h : Links) (que : ℕ) (xs : List ℕ) : Type 0 where
  pub seg : IsSeg h que xs que
  pub once : IsOnce (que ∷ xs)

-- A segment depends on the links out of `a` and its entries, and on those back from them and `b`.
pub IsSeg-frame :
    (h k : Links) (a b : ℕ) (xs : List ℕ)
    → ((x : ℕ) → (count x (a ∷ xs) == 0) ≡ false → k.next x ≡ h.next x)
    → ((x : ℕ) → (count x xs == 0) ≡ false → k.prev x ≡ h.prev x)
    → k.prev b ≡ h.prev b
    → IsSeg h a xs b
    → IsSeg k a xs b
unfolding IsSeg
IsSeg-frame h k a b [] nexts prevs back (f, g) =
    (nexts a (ground (arith, count-cons a a [])) ∙ f, back ∙ g)
IsSeg-frame h k a b (x ∷ xs) nexts prevs back (f, g, rest) = (
  nexts a (ground (arith, count-cons a a (x ∷ xs))) ∙ f,
  prevs x (ground (arith, count-cons x x xs)) ∙ g,
  IsSeg-frame h k x b xs (λ y there. nexts y (ground (arith, there, count-cons y a (x ∷ xs))))
      (λ y there. prevs y (ground (arith, there, count-cons y x xs))) back rest,
)

-- A segment can be cut after its first part.
pub IsSeg-append :
    (h : Links) (a b : ℕ) (xs ys : List ℕ) (y : ℕ)
    → IsSeg h a xs y
    → IsSeg h y ys b
    → IsSeg h a (xs ++ (y ∷ ys)) b
unfolding IsSeg
IsSeg-append h a b [] ys y (f, g) later = (f, g, later)
IsSeg-append h a b (x ∷ xs) ys y (f, g, rest) later = (f, g, IsSeg-append h x b xs ys y rest later)

-- The last entry before `b`, or `a` where there is none.
unfoldable pub last_of : ℕ → List ℕ → ℕ
last_of a [] = a
last_of a (x ∷ xs) = last_of x xs

pub last_of-there : (a : ℕ) (xs : List ℕ) → (count (last_of a xs) (a ∷ xs) == 0) ≡ false
unfolding last_of
last_of-there a [] = ground (arith, count-cons a a [])
last_of-there a (x ∷ xs) = ground (arith, last_of-there x xs, count-cons (last_of x xs) a (x ∷ xs))

-- What is in a list is not an entry that is not.
pub apart-from : (x y : ℕ) (xs : List ℕ) → (count x xs == 0) ≡ false → IsNot y xs → (x == y) ≡ false
apart-from x y xs there absent = elim (Bool-cases (x == y)) [
  | inl same ↦ ground (arith, absent, ap (λ x. count x xs) ((==_iff x y).0 same))
  | inr other ↦ other
]

pub IsSeg-last : (h : Links) (a b : ℕ) (xs : List ℕ) → IsSeg h a xs b → h.prev b ≡ last_of a xs
unfolding IsSeg last_of
IsSeg-last h a b [] (f, g) = g
IsSeg-last h a b (x ∷ xs) (f, g, rest) = IsSeg-last h x b xs rest

-- An entry `y` is hung in before `b`: the last node of the segment leads to it, and it back.
pub IsSeg-extend :
    (h k : Links) (a b y : ℕ) (xs : List ℕ)
    → IsSeg h a xs b
    → IsOnce (a ∷ xs)
    → ((x : ℕ)
        → (count x (a ∷ xs) == 0) ≡ false
        → (x == last_of a xs) ≡ false
        → k.next x ≡ h.next x)
    → ((x : ℕ) → (count x xs == 0) ≡ false → k.prev x ≡ h.prev x)
    → k.next (last_of a xs) ≡ y
    → k.prev y ≡ last_of a xs
    → IsSeg k a xs y
unfolding IsSeg last_of
IsSeg-extend h k a b y [] seg once nexts prevs on back = (on, back)
IsSeg-extend h k a b y (x ∷ xs) (f, g, rest) once nexts prevs on back =
    let alone : IsNot a (x ∷ xs) = ground (arith, once a, count-cons a a (x ∷ xs)) in
    (
      nexts a (ground (arith, count-cons a a (x ∷ xs)))
            (ground (arith, apart-from (last_of x xs) a (x ∷ xs) (last_of-there x xs) alone))
          ∙ f,
      prevs x (ground (arith, count-cons x x xs)) ∙ g,
      IsSeg-extend h k x b y xs rest (λ u. ground (arith, once u, count-cons u a (x ∷ xs)))
          (λ z there. nexts z (ground (arith, there, count-cons z a (x ∷ xs))))
          (λ z there. prevs z (ground (arith, there, count-cons z x xs))) on back,
    )

IsOnce-snoc : (y : ℕ) (xs : List ℕ) → IsOnce xs → IsNot y xs → IsOnce (xs ++ (y ∷ []))
IsOnce-snoc y xs once new u = elim (Bool-cases (y == u)) [
  | inl same ↦ ground (arith, count-snoc u y xs, new, ap (λ y. count y xs) ((==_iff y u).0 same))
  | inr other ↦ ground (arith, count-snoc u y xs, once u)
]

-- queue_add_tail makes of a ring through some entries the ring through these and the new one, which is
-- last, where the entry is in the ring neither as an entry nor as the queue.
pub queue_add_tail-IsRing :
    (h : Links) (que entry : ℕ) (xs : List ℕ)
    → IsRing h que xs
    → IsNot entry (que ∷ xs)
    → IsRing (queue_add_tail que entry h) que (xs ++ (entry ∷ []))
unfolding queue_add_tail IsSeg
queue_add_tail-IsRing h que entry xs ring new =
    let alone : IsNot que xs = ground (arith, ring.once que, count-cons que que xs) in
    let last = IsSeg-last h que que xs ring.seg in
    let k : Links = queue_add_tail que entry h in
    let other : (entry == que) ≡ false = ground (arith, new, count-cons entry que xs) in
    let e = last_of que xs in
    let apart : (e == entry) ≡ false = apart-from e entry (que ∷ xs) (last_of-there que xs) new in
    let mid : update h.prev entry (h.prev que) entry ≡ e = ground (arith, last) in
    record {
      seg =
          IsSeg-append k que que xs [] entry
            (IsSeg-extend h k que que entry xs ring.seg ring.once
              (λ x there a. ground (arith, mid, a, apart-from x entry (que ∷ xs) there new))
              (λ x there. ground (
                arith,
                apart-from x que xs there alone,
                apart-from x entry (que ∷ xs) (ground (arith, there, count-cons x que xs)) new,
              ))
              (ground (arith, mid)) (ground (arith, last, other)))
            (ground (arith, mid, apart), ground arith);
      once = IsOnce-snoc entry (que ∷ xs) ring.once new;
    }
