-- ===== src/Kernel/Links/Walk.antt =====
-- The removal of an entry from a ring, the search for one, and an entry that is linked twice.
use usb_bulk.Prelude.{
  ℕ, zero, suc, ◌+◌, ◌<◌, ◌≤◌, ◌≡◌, refl, ap, sym, ◌∙◌, subst, true, false, not, some, List, [],
  ◌∷◌, append-nil, ◌++◌, arith, ◌==◌, if◌then◌else◌, length, count, count-cons, count-is_empty,
}
use usb_bulk.Kernel.Links.{
  Links, queue_add_tail, queue_remove_head, queue_remove_entry, search_entry, queue_contains_entry,
}
use usb_bulk.Kernel.Links.Ring.{
  IsSeg, IsNot, IsRing, IsSeg-frame, IsSeg-append, IsSeg-last, IsSeg-extend, last_of, last_of-there,
  apart-from,
}

IsSeg-cut :
    (h : Links) (a b : ℕ) (xs ys : List ℕ) (y : ℕ)
    → IsSeg h a (xs ++ (y ∷ ys)) b
    → IsSeg h a xs y × IsSeg h y ys b
unfolding IsSeg
IsSeg-cut h a b [] ys y (f, g, rest) = ((f, g), rest)
IsSeg-cut h a b (x ∷ xs) ys y (f, g, rest) =
    let (here, later) = IsSeg-cut h x b xs ys y rest in ((f, g, here), later)

count-append : (u : ℕ) (xs ys : List ℕ) → count u (xs ++ ys) ≡ count u xs + count u ys
count-append u [] ys = ground (arith, count-is_empty u [] refl)
count-append u (x ∷ xs) ys =
    ground (arith, count-cons u x xs, count-cons u x (xs ++ ys), count-append u xs ys)

-- What follows an entry: the next one, or the queue.
abbrev after : ℕ → List ℕ → ℕ
after que [] = que
after que (y ∷ ys) = y

-- queue_remove_entry takes an entry out of its ring, wherever in it it is, and the others stay in their
-- order.
pub queue_remove_entry-IsRing :
    (h : Links) (que entry : ℕ) (xs ys : List ℕ)
    → IsRing h que (xs ++ (entry ∷ ys))
    → IsRing (queue_remove_entry entry h) que (xs ++ ys)
unfolding queue_remove_entry IsSeg
queue_remove_entry-IsRing h que entry xs [] ring =
    let (front, tail) = IsSeg-cut h que que xs [] entry ring.seg in
    let last = IsSeg-last h que entry xs front in
    let k : Links = queue_remove_entry entry h in
    let once : (u : ℕ) → count u (que ∷ xs) + count u (entry ∷ []) ≤ 1 =
      λ u. ground (arith, ring.once u, count-append u (que ∷ xs) (entry ∷ [])) in
    let new : IsNot entry (que ∷ xs) = ground (arith, once entry, count-cons entry entry []) in
    let apart : (last_of que xs == entry) ≡ false =
      apart-from (last_of que xs) entry (que ∷ xs) (last_of-there que xs) new in
    let alone : IsNot que xs = ground (arith, once que, count-cons que que xs) in
    record {
      seg =
          subst (λ xs. IsSeg k que xs que) (sym (append-nil xs))
            (IsSeg-extend h k que entry que xs front (λ u. ground (arith, once u))
              (λ x there a. ground (arith, last, a))
              (λ x there. ground (arith, last, tail.0, apart, apart-from x que xs there alone))
              (ground (arith, last, tail.0)) (ground (arith, last, tail.0, apart)));
      once = λ u. ground (arith, once u, count-append u (que ∷ xs) [], count-is_empty u [] refl);
    }
queue_remove_entry-IsRing h que entry xs (y ∷ ys) ring =
    let (front, tail) = IsSeg-cut h que que xs (y ∷ ys) entry ring.seg in
    let (f, g, rest) = tail in
    let last = IsSeg-last h que entry xs front in
    let k : Links = queue_remove_entry entry h in
    let once : (u : ℕ) → count u (que ∷ xs) + count u (entry ∷ y ∷ ys) ≤ 1 =
      λ u. ground (arith, ring.once u, count-append u (que ∷ xs) (entry ∷ y ∷ ys)) in
    let new : IsNot entry (que ∷ xs) =
      ground (arith, once entry, count-cons entry entry (y ∷ ys)) in
    let apart : (last_of que xs == entry) ≡ false =
      apart-from (last_of que xs) entry (que ∷ xs) (last_of-there que xs) new in
    let alone : IsNot que xs = ground (arith, once que, count-cons que que xs) in
    let new_y : IsNot y (que ∷ xs) =
      ground (arith, once y, count-cons y entry (y ∷ ys), count-cons y y ys) in
    let out : (x : ℕ) → (count x (y ∷ ys) == 0) ≡ false → (last_of que xs == x) ≡ false = λ x there.
      apart-from (last_of que xs) x (que ∷ xs) (last_of-there que xs)
        (ground (arith, once x, count-cons x entry (y ∷ ys), there)) in
    let other : (x : ℕ) → (count x (que ∷ xs) == 0) ≡ false → (x == y) ≡ false =
      λ x there. apart-from x y (que ∷ xs) there new_y in
    let rest_apart : IsNot y ys =
      ground (arith, once y, count-cons y entry (y ∷ ys), count-cons y y ys) in
    record {
      seg =
          IsSeg-append k que que xs ys y
            (IsSeg-extend h k que entry y xs front (λ u. ground (arith, once u))
              (λ x there a. ground (arith, last, a))
              (λ x there.
                ground (arith, last, f, other x (ground (arith, there, count-cons x que xs))))
              (ground (arith, last, f)) (ground (arith, last, f)))
            (IsSeg-frame h k y que ys (λ x there. ground (arith, last, out x there))
              (λ x there. ground (arith, last, f, apart-from x y ys there rest_apart))
              (ground (arith, last, f, other que (ground (arith, count-cons que que xs)))) rest);
      once = λ u.
          ground (arith, once u, count-append u (que ∷ xs) (y ∷ ys), count-cons u entry (y ∷ ys));
    }

search-step :
    (n x que entry : ℕ) (h : Links)
    → search_entry (suc n) x que entry h ≡ (
        if x == entry
        then some true
        else if h.next x == que
        then some false
        else search_entry n (h.next x) que entry h)
unfolding search_entry
search-step n x que entry h = refl

search-there :
    (h : Links) (n x que entry : ℕ) (ys : List ℕ)
    → length ys < n
    → IsSeg h x ys que
    → IsNot que ys
    → search_entry n x que entry h ≡ some (not (count entry (x ∷ ys) == 0))
unfolding IsSeg
search-there h zero x que entry ys enough seg alone = absurd (omega arith)
search-there h (suc n) x que entry [] enough (f, g) alone =
    search-step n x que entry h
    ∙ ground (arith, f, count-cons entry x [], count-is_empty entry [] refl)
search-there h (suc n) x que entry (y ∷ ys) enough (f, g, rest) alone =
    let other : (y == que) ≡ false =
      apart-from y que (y ∷ ys) (ground (arith, count-cons y y ys)) alone in
    let later =
      search-there h n y que entry ys (omega arith) rest
        (ground (arith, alone, count-cons que y ys)) in
    let e : search_entry n (h.next x) que entry h ≡ some (not (count entry (y ∷ ys) == 0)) =
      ap (λ y. search_entry n y que entry h) f ∙ later in
    search-step n x que entry h ∙ ground (arith, f, other, e, count-cons entry x (y ∷ ys))

-- On a ring, with more turns allowed than the ring has entries, queue_contains_entry ends and says whether the node looked for, another one than the queue, is an entry.
pub queue_contains_entry-IsRing :
    (h : Links) (que entry : ℕ) (xs : List ℕ)
    → IsRing h que xs
    → (que == entry) ≡ false
    → (fuel : ℕ) → length xs < fuel
    → queue_contains_entry fuel que entry h ≡ some (not (count entry xs == 0))
unfolding queue_contains_entry IsSeg
queue_contains_entry-IsRing h que entry xs ring other zero enough = absurd (omega arith)
queue_contains_entry-IsRing h que entry [] ring other (suc n) enough =
    let (f, g) = ring.seg in
    search-step n (h.next que) que entry h
    ∙ ground (arith, f, ap h.next f, other, count-is_empty entry [] refl)
queue_contains_entry-IsRing h que entry (x ∷ xs) ring other (suc n) enough =
    let (f, g, rest) = ring.seg in
    let alone : IsNot que xs =
      ground (arith, ring.once que, count-cons que que (x ∷ xs), count-cons que x xs) in
    ap (λ x. search_entry (suc n) x que entry h) f
    ∙ search-there h (suc n) x que entry xs (omega arith) rest alone

-- A task that still is the first entry of one ring is added to another, as task_wait_complete does
-- with a task that a timeout or tn_task_release_wait ends the wait of: the first queue leads to the
-- entry as before, and the entry leads on to the other queue, so that a walk along the first queue
-- comes into the other.
pub queue_add_tail-linked :
    (h : Links) (que other entry : ℕ) (xs : List ℕ)
    → IsRing h que (entry ∷ xs)
    → (que == other) ≡ false
    → (que == entry) ≡ false
    → (h.prev other == que) ≡ false
    → (h.prev other == entry) ≡ false
    → let k = queue_add_tail other entry h in
      (k.next que ≡ entry) × (k.next entry ≡ other) × ((queue_remove_head que k).0 ≡ some entry)
unfolding queue_add_tail queue_remove_head IsSeg
queue_add_tail-linked h que other entry xs ring a b c d =
    let (f, g, rest) = ring.seg in
    (ground (arith, f, c, b), ground (arith, d), ground (arith, f, b, c, a))
