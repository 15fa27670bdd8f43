-- ===== src/Kernel/Fifo/Laws.antt =====
-- A valid storage of `num_entries` entries is a queue of at most `num_entries - 1`.
use usb_bulk.Prelude.{
  ℕ, zero, suc, ◌+◌, ◌-◌, ◌<◌, ◌≡◌, refl, ap, ◌∙◌, Bool-cases, ◌⊎◌, inl, inr, sym, true, false,
  Option, none, some, List, [], ◌∷◌, ◌++◌, arith, ◌==◌, if◌then◌else◌, length, length-set, get_or,
  set,
}
use usb_bulk.Kernel.Code.{Code, no_err, overflow, underflow}
use usb_bulk.Kernel.Fifo.{Dque, is_full, dque_fifo_write, dque_fifo_read, advance}
use usb_bulk.Kernel.Fifo.Contents.{
  entries, used, contents, length-entries, entries-set, entries_pos, get_elem?-get_or, behind,
}

pub record IsValid (q : Dque) : Type 0 where
  pub storage : length q.data_fifo ≡ q.num_entries
  pub tail_in : q.tail_cnt < q.num_entries
  pub header_in : q.header_cnt < q.num_entries

-- The test for a full storage holds exactly when one entry is left free.
pub is_full-used : (q : Dque) → IsValid q → is_full q ≡ (used q + 1 == q.num_entries)
unfolding is_full
is_full-used q v = ground arith

header-behind : (q : Dque) → IsValid q → q.header_cnt ≡ behind q.num_entries q.tail_cnt (used q)
header-behind q v = ground arith

pub zero-cases : (k : ℕ) → (k ≡ 0) ⊎ (0 < k)
zero-cases zero = inl refl
zero-cases (suc k) = inr (omega arith)

-- The queue that is meant: at most one entry fewer than the array has.
abbrev pub push : ℕ → List ℕ → ℕ → Code × List ℕ
push n xs x = if length xs + 1 == n then (overflow, xs) else (no_err, xs ++ (x ∷ []))

abbrev pub pop : List ℕ → Code × Option ℕ × List ℕ
pop [] = (underflow, none, [])
pop (x ∷ xs) = (no_err, some x, xs)

pub used_lt : (q : Dque) → IsValid q → used q < q.num_entries
used_lt q v = ground arith

-- The storage with one entry more.
abbrev written : Dque → ℕ → Dque
written q x = record q {
  data_fifo = set q.data_fifo q.header_cnt x;
  header_cnt = advance q.num_entries q.header_cnt;
}

used-written :
    (q : Dque) (x : ℕ)
    → IsValid q
    → (used q + 1 == q.num_entries) ≡ false
    → used (written q x) ≡ suc (used q)
used-written q x v h = ground arith

contents-written :
    (q : Dque) (x : ℕ)
    → IsValid q
    → (used q + 1 == q.num_entries) ≡ false
    → contents (written q x) ≡ contents q ++ (x ∷ [])
contents-written q x v h =
    ap (entries (set q.data_fifo q.header_cnt x) q.num_entries q.tail_cnt) (used-written q x v h)
    ∙ entries-set q.data_fifo q.num_entries q.tail_cnt (used q) q.header_cnt x
        (omega (arith, v.storage)) v.tail_in (used_lt q v) (header-behind q v)

written-IsValid : (q : Dque) (x : ℕ) → IsValid q → IsValid (written q x)
written-IsValid q x v = record {
  storage = length-set q.data_fifo q.header_cnt x ∙ v.storage;
  tail_in = v.tail_in;
  header_in = ground (arith, v.header_in);
}

dque_fifo_write_full :
    (q : Dque) (x : ℕ)
    → IsValid q
    → (used q + 1 == q.num_entries) ≡ true
    → dque_fifo_write q x ≡ (overflow, q)
unfolding dque_fifo_write
dque_fifo_write_full q x v e = ground (arith, is_full-used q v, v.tail_in)

dque_fifo_write_free :
    (q : Dque) (x : ℕ)
    → IsValid q
    → (used q + 1 == q.num_entries) ≡ false
    → dque_fifo_write q x ≡ (no_err, written q x)
unfolding dque_fifo_write
dque_fifo_write_free q x v e = ground (arith, is_full-used q v, v.tail_in)

push_full :
    (q : Dque) (x : ℕ)
    → (used q + 1 == q.num_entries) ≡ true
    → push q.num_entries (contents q) x ≡ (overflow, contents q)
push_full q x e = rw (length-entries q.data_fifo q.num_entries q.tail_cnt (used q), e) refl

push_free :
    (q : Dque) (x : ℕ)
    → (used q + 1 == q.num_entries) ≡ false
    → push q.num_entries (contents q) x ≡ (no_err, contents q ++ (x ∷ []))
push_free q x e = rw (length-entries q.data_fifo q.num_entries q.tail_cnt (used q), e) refl

pub wait_send_list-dque_fifo_write :
    (q : Dque) (x : ℕ) → (dque_fifo_write q x).1.wait_send_list ≡ q.wait_send_list
unfolding dque_fifo_write
wait_send_list-dque_fifo_write q x = ground arith

-- dque_fifo_write on a valid storage keeps it valid and does to its contents what `push` does to a
-- queue: it appends, or, once all entries but one are in use, answers TERR_OVERFLOW.
pub dque_fifo_write-push :
    (q : Dque) (x : ℕ)
    → IsValid q
    → let (rc, r) = dque_fifo_write q x in
      ((rc, contents r) ≡ push q.num_entries (contents q) x)
      × IsValid r
      × (r.num_entries ≡ q.num_entries)
dque_fifo_write-push q x v = elim (Bool-cases (used q + 1 == q.num_entries)) [
  | inl e ↦ rw (dque_fifo_write_full q x v e) (sym (push_full q x e), v, refl)
  | inr e ↦ rw (dque_fifo_write_free q x v e) (
    ap (λ l. (no_err, l)) (contents-written q x v e) ∙ sym (push_free q x e),
    written-IsValid q x v,
    refl,
  )
]

-- The storage with its oldest entry taken.
abbrev pub taken : Dque → Dque
taken q = record q { tail_cnt = advance q.num_entries q.tail_cnt }

pub used-taken : (q : Dque) → IsValid q → 0 < used q → used (taken q) ≡ used q - 1
used-taken q v h = ground arith

pub taken-IsValid : (q : Dque) → IsValid q → IsValid (taken q)
taken-IsValid q v = record {
  storage = v.storage;
  tail_in = ground (arith, v.tail_in);
  header_in = v.header_in;
}

pub dque_fifo_read-none :
    (q : Dque) → IsValid q → used q ≡ 0 → dque_fifo_read q ≡ (underflow, none, q)
unfolding dque_fifo_read
dque_fifo_read-none q v h = ground (arith, v.tail_in, v.header_in)

pub dque_fifo_read-some :
    (q : Dque)
    → IsValid q
    → 0 < used q
    → dque_fifo_read q ≡ (no_err, some (get_or q.data_fifo q.tail_cnt 0), taken q)
unfolding dque_fifo_read
dque_fifo_read-some q v h =
    rw (sym (get_elem?-get_or q.data_fifo q.tail_cnt 0 (omega (arith, v.storage, v.tail_in))))
      (ground (arith, v.tail_in, v.header_in))

pub contents-taken :
    (q : Dque)
    → IsValid q
    → 0 < used q
    → contents q ≡ get_or q.data_fifo q.tail_cnt 0 ∷ contents (taken q)
contents-taken q v h =
    entries_pos q.data_fifo q.num_entries q.tail_cnt (used q) h
    ∙ ap
        (λ k.
          get_or q.data_fifo q.tail_cnt 0
          ∷ entries q.data_fifo q.num_entries (advance q.num_entries q.tail_cnt) k)
        (sym (used-taken q v h))

-- dque_fifo_read on a valid storage keeps it valid and takes the oldest entry, or answers
-- TERR_UNDERFLOW when there is none.
pub dque_fifo_read-pop :
    (q : Dque)
    → IsValid q
    → let (rc, out, r) = dque_fifo_read q in
      ((rc, out, contents r) ≡ pop (contents q)) × IsValid r × (r.num_entries ≡ q.num_entries)
dque_fifo_read-pop q v = elim (zero-cases (used q)) [
  | inl e ↦ rw (dque_fifo_read-none q v e) (rw e refl, v, refl)
  | inr h ↦
      rw (dque_fifo_read-some q v h) (sym (ap pop (contents-taken q v h)), taken-IsValid q v, refl)
]
