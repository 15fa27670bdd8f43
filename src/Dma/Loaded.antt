-- ===== src/Dma/Loaded.antt =====
-- Descriptors that are to send: with a packet, and without one.
use usb_bulk.Prelude.{ℕ, ◌+◌, ◌≡◌, ◌≤◌, ◌<◌, arith}
use usb_bulk.Kernel.Pool.{Cells, put_cell}
use usb_bulk.Dma.{packet_words, fill_dd, no_packet}
use usb_bulk.Dma.Request.{copy_words-others}

-- A descriptor without a packet: it is not retired, and both its next address and its configuration
-- are 0; its buffer is to be used from its start.
pub record HasNoPacket (m : Cells) (dd : ℕ) : Type 0 where
  pub next : m dd ≡ 0
  pub config : m (dd + 4) ≡ 0
  pub place : m (dd + 8) ≡ m (dd + 20)
  pub status : m (dd + 12) ≡ 0

-- A descriptor with a packet, which is not retired, and its place the address of its own word 5.
pub record HasPacket (m : Cells) (dd : ℕ) : Type 0 where
  pub next : m dd ≡ 0
  pub place : m (dd + 8) ≡ dd + 20
  pub status : m (dd + 12) ≡ 0
  pub iso : m (dd + 16) ≡ 0

pub no_packet-HasNoPacket :
    (m : Cells) (udca dd : ℕ) → udca < dd → HasNoPacket (put_cell (no_packet m dd) udca dd) dd
unfolding no_packet
no_packet-HasNoPacket m udca dd before = record {
  next = ground (arith, before);
  config = ground (arith, before);
  place = ground (arith, before);
  status = ground (arith, before);
}

-- The first five words of a descriptor are not those that its packet is copied to.
fill_dd-below :
    (m : Cells) (dd p a : ℕ)
    → a < dd + 20
    → fill_dd m dd p a
      ≡ put_cell
          (put_cell (put_cell (put_cell m dd 0) (dd + 12) 0) (dd + 16) 0)
          (dd + 8)
          (dd + 20)
          a
unfolding fill_dd
fill_dd-below m dd p a below =
    let m1 : Cells = put_cell (put_cell (put_cell m dd 0) (dd + 12) 0) (dd + 16) 0 in
    let m2 : Cells = put_cell m1 (dd + 8) (dd + 20) in
    let place : m2 (dd + 8) ≡ dd + 20 = ground arith in
    rw (place) (copy_words-others packet_words (dd + 20) p a m2 (λ j inside. ground (arith, below)))

pub fill_dd-HasPacket :
    (m m' : Cells) (dd p udca : ℕ)
    → udca < dd
    → ((a : ℕ) → dd ≤ a → m' a ≡ fill_dd m dd p a)
    → HasPacket (put_cell m' udca dd) dd
fill_dd-HasPacket m m' dd p udca before same = record {
  next = ground (arith, before, same dd (omega arith), fill_dd-below m dd p dd (omega arith));
  place =
      ground
        (arith, before, same (dd + 8) (omega arith), fill_dd-below m dd p (dd + 8) (omega arith));
  status =
      ground
        (arith, before, same (dd + 12) (omega arith), fill_dd-below m dd p (dd + 12) (omega arith));
  iso =
      ground
        (arith, before, same (dd + 16) (omega arith), fill_dd-below m dd p (dd + 16) (omega arith));
}
