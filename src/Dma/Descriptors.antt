-- ===== src/Dma/Descriptors.antt =====
-- The descriptors of an endpoint that receives, as tn_usb_dma_rx_init sets them up.
use usb_bulk.Prelude.{
  some, ℕ, zero, suc, ◌+◌, ◌*◌, ◌/◌, ◌%◌, ◌^◌, ◌≤◌, ◌<◌, ◌≡◌, refl, ◌∙◌, false, arith, ◌==◌,
  if◌then◌else◌,
}
use usb_bulk.Kernel.Pool.{Cells, put_cell}
use usb_bulk.Dma.{
  DmaEndpoint, tn_usb_dma_rx_init, dd_bytes, buf_size, begin_dd, end_dd, rx_loop, rx_dds,
}

-- The words of a descriptor.
pub record IsDd (m : Cells) (dd word_1 retired buf : ℕ) : Type 0 where
  pub next : m dd ≡ 0
  pub config : m (dd + 4) ≡ word_1
  pub place : m (dd + 8) ≡ buf
  pub status : m (dd + 12) ≡ retired
  pub iso : m (dd + 16) ≡ 0
  pub buffer : m (dd + 20) ≡ buf

-- The six cells of a descriptor are the same.
same-IsDd :
    (m m' : Cells) (dd word_1 retired buf : ℕ)
    → ((a : ℕ) → dd ≤ a → a < dd + dd_bytes → m' a ≡ m a)
    → IsDd m dd word_1 retired buf
    → IsDd m' dd word_1 retired buf
same-IsDd m m' dd word_1 retired buf same d = record {
  next = same dd (omega arith) (omega arith) ∙ d.next;
  config = same (dd + 4) (omega arith) (omega arith) ∙ d.config;
  place = same (dd + 8) (omega arith) (omega arith) ∙ d.place;
  status = same (dd + 12) (omega arith) (omega arith) ∙ d.status;
  iso = same (dd + 16) (omega arith) (omega arith) ∙ d.iso;
  buffer = same (dd + 20) (omega arith) (omega arith) ∙ d.buffer;
}

end_dd-IsDd :
    (m : Cells) (dd word_1 retired buf : ℕ)
    → m dd ≡ 0
    → m (dd + 4) ≡ word_1
    → IsDd (end_dd m dd retired buf) dd word_1 retired buf
unfolding end_dd
end_dd-IsDd m dd word_1 retired buf first second = record {
  next = ground (arith, first);
  config = ground (arith, second);
  place = ground arith;
  status = ground arith;
  iso = ground arith;
  buffer = ground arith;
}

-- A cell in front of the descriptors that are set up stays as it is.
rx_loop-before : (word_1 n dd buf a : ℕ) (m : Cells) → a < dd → rx_loop m word_1 dd buf n a ≡ m a
unfolding rx_loop begin_dd end_dd
rx_loop-before word_1 zero dd buf a m before = refl
rx_loop-before word_1 (suc n) dd buf a m before =
    rx_loop-before word_1 n (dd + dd_bytes) (buf + buf_size word_1) a
      (end_dd (begin_dd m dd word_1) dd 1 buf) (omega (arith, before))
    ∙ ground (arith, before)

rx_loop-IsDd :
    (word_1 n dd buf i : ℕ) (m : Cells)
    → i < n
    → IsDd (rx_loop m word_1 dd buf n) (dd + dd_bytes * i) word_1 1 (buf + buf_size word_1 * i)
unfolding rx_loop begin_dd
rx_loop-IsDd word_1 zero dd buf i m inside = absurd (omega (arith, inside))
rx_loop-IsDd word_1 (suc n) dd buf zero m inside =
    let m1 : Cells = begin_dd m dd word_1 in
    let m' : Cells = end_dd m1 dd 1 buf in
    let e : dd + dd_bytes * 0 ≡ dd = omega arith in
    let e' : buf + buf_size word_1 * 0 ≡ buf = omega arith in
    rw (e, e')
      (same-IsDd m' (rx_loop m' word_1 (dd + dd_bytes) (buf + buf_size word_1) n) dd word_1 1 buf
        (λ a from before.
          rx_loop-before word_1 n (dd + dd_bytes) (buf + buf_size word_1) a m' before)
        (end_dd-IsDd m1 dd word_1 1 buf (ground arith) (ground arith)))
rx_loop-IsDd word_1 (suc n) dd buf (suc i) m inside =
    let e : dd + dd_bytes + dd_bytes * i ≡ dd + dd_bytes * suc i = omega arith in
    let d = buf_size word_1 in
    let e' : buf + d + d * i ≡ buf + d * suc i = grind arith in
    let m' : Cells = end_dd (begin_dd m dd word_1) dd 1 buf in
    rw (← e, ← e') (rx_loop-IsDd word_1 n (dd + dd_bytes) (buf + d) i m' (omega (arith, inside)))

-- The words of the first descriptor, with the place in the UDCA behind it.
rx_dds-IsDd :
    (udca word_1 n dd buf i : ℕ) (m : Cells)
    → udca < dd
    → i < n
    → IsDd
        (rx_dds m udca word_1 dd buf n)
        (dd + dd_bytes * i)
        word_1
        (if i == 0 then 0 else 1)
        (buf + buf_size word_1 * i)
unfolding rx_dds begin_dd
rx_dds-IsDd udca word_1 zero dd buf i m apart inside = absurd (omega (arith, inside))
rx_dds-IsDd udca word_1 (suc n) dd buf zero m apart inside =
    let m1 : Cells = put_cell (begin_dd m dd word_1) udca dd in
    let m' : Cells = end_dd m1 dd 0 buf in
    let e : dd + dd_bytes * 0 ≡ dd = omega arith in
    let e' : buf + buf_size word_1 * 0 ≡ buf = omega arith in
    rw (e, e')
      (same-IsDd m' (rx_loop m' word_1 (dd + dd_bytes) (buf + buf_size word_1) n) dd word_1 0 buf
        (λ a from before.
          rx_loop-before word_1 n (dd + dd_bytes) (buf + buf_size word_1) a m' before)
        (end_dd-IsDd m1 dd word_1 0 buf (ground (arith, apart)) (ground (arith, apart))))
rx_dds-IsDd udca word_1 (suc n) dd buf (suc i) m apart inside =
    let e : dd + dd_bytes + dd_bytes * i ≡ dd + dd_bytes * suc i = omega arith in
    let d = buf_size word_1 in
    let e' : buf + d + d * i ≡ buf + d * suc i = grind arith in
    let m' : Cells = end_dd (put_cell (begin_dd m dd word_1) udca dd) dd 0 buf in
    let behind : (suc i == 0) ≡ false = ground arith in
    rw (behind, ← e, ← e')
      (rx_loop-IsDd word_1 n (dd + dd_bytes) (buf + d) i m' (omega (arith, inside)))

rx_dds-udca :
    (udca word_1 n dd buf : ℕ) (m : Cells)
    → udca < dd
    → 0 < n
    → rx_dds m udca word_1 dd buf n udca ≡ dd
unfolding rx_dds end_dd
rx_dds-udca udca word_1 zero dd buf m apart some_dd = absurd (omega (arith, some_dd))
rx_dds-udca udca word_1 (suc n) dd buf m apart some_dd =
    rx_loop-before word_1 n (dd + dd_bytes) (buf + buf_size word_1) udca
      (end_dd (put_cell (begin_dd m dd word_1) udca dd) dd 0 buf) (omega (arith, apart))
    ∙ ground (arith, apart)

-- tn_usb_dma_rx_init of an endpoint whose place in the UDCA is in front of its descriptors: the first
-- descriptor is the current one; the descriptor of each number i has word 1 of the endpoint, is
-- retired unless i is 0, and its buffer, from whose start it is to be filled, begins i times a quarter
-- of the packet size in word 1 behind the first one.
pub tn_usb_dma_rx_init-IsDd :
    {S : Type 0} (e : DmaEndpoint S) (i : ℕ)
    → e.p_udca_pos < e.ep_dma_addr.p_dd
    → i < e.ep_dma_addr.nbuffers
    → (e' : DmaEndpoint S) × (tn_usb_dma_rx_init e ≡ some (tt, e'))
      × (e'.cells e.p_udca_pos ≡ e.ep_dma_addr.p_dd)
      × IsDd e'.cells
          (e.ep_dma_addr.p_dd + dd_bytes * i)
          e.ep_dma_addr.word_1
          (if i == 0 then 0 else 1)
          (e.ep_dma_addr.p_data_buffers + e.ep_dma_addr.word_1 / 2 ^ 16 % 2 ^ 16 / 4 * i)
unfolding tn_usb_dma_rx_init
tn_usb_dma_rx_init-IsDd e i apart inside =
    let a = e.ep_dma_addr in
    (
      record e { cells = rx_dds e.cells e.p_udca_pos a.word_1 a.p_dd a.p_data_buffers a.nbuffers },
      refl,
      rx_dds-udca e.p_udca_pos a.word_1 a.nbuffers a.p_dd a.p_data_buffers e.cells apart
          (omega (arith, inside)),
      rx_dds-IsDd e.p_udca_pos a.word_1 a.nbuffers a.p_dd a.p_data_buffers i e.cells apart inside,
    )
