-- ===== src/Safe/Bounds.antt =====
-- The writer's address in the receive ring, the byte indices of the channels, the bytes owed of a
-- reply and the place in pkt of the next byte of a command stay in their bounds, however main and
-- the interrupt handlers are interleaved.
use hbc_mac_src.Base.{
  ℕ, ◌+◌, ◌-◌, ◌≤◌, ◌<◌, ◌≡◌, ◌==◌, ◌∙◌, ap, arith, inl, inr, truth, length, length-set, u8,
  Bool-cases,
}
use hbc_mac_src.Machine.{Board, RxState, SpiState, CtrlState}
use hbc_mac_src.Machine.Keeps.{At, Keeps, after, Keeps-get_spi}
use hbc_mac_src.Machine.Keeps.Blocks.{◌>>=◌, ◌>>◌, only_if}
use hbc_mac_src.Rx.Ring.{IsInRing, inc_buf-IsInRing}
use hbc_mac_src.Spi.{load_byte, ack_byte, reply_byte, fetch_word, dump_fetched, dump_byte}
use hbc_mac_src.Ctrl.{Protocol}
use hbc_mac_src.Ctrl.Steps
use hbc_mac_src.Safe.{Closed}
use hbc_mac_src.Safe.Main.{Step-keeps}

-- The writer is in the receive ring; each byte of a word that a channel takes or gives is one of
-- four; the next byte of a command has a place in `pkt`.
pub record IsBounded (p : Protocol) (r : RxState) (d : SpiState) (c : CtrlState) : Type 0 where
  pub writer : IsInRing r.wr_buf_addr
  pub load_index : d.load_index < 4
  pub dump_index : d.dump_index < 4
  pub ack_bytes : d.ack_bytes ≤ p.reply_size
  pub reply_bytes : d.reply_bytes ≤ d.reply_size
  pub reply_size : d.reply_size ≤ 4
  pub pkt : length c.pkt ≡ p.packet_size
  pub bytes_req : c.bytes_req ≤ p.packet_size

module _ (p : Protocol) where
  -- The index of a byte comes back to 0 behind the fourth.
  loads-IsBounded : (byte : ℕ) → Keeps (IsBounded p) (load_byte byte)
  unfolding load_byte
  loads-IsBounded byte = record {
    at = λ s h. elim (Bool-cases (s.spi.load_index + 1 == 4)) [
      | inl full ↦ rw full (after (ground arith))
      | inr room ↦ rw room (after (ground arith))
    ];
  }

  acks-IsBounded : Keeps (IsBounded p) (ack_byte p.reply_size)
  unfolding ack_byte
  acks-IsBounded = record { at = λ s h. after (ground arith) }

  replies-IsBounded : Keeps (IsBounded p) reply_byte
  unfolding reply_byte
  replies-IsBounded = record { at = λ s h. after (ground arith) }

  fetch_word-IsBounded : (b : Board) → Keeps (IsBounded p) (fetch_word b)
  unfolding fetch_word
  fetch_word-IsBounded b = record {
    at = λ s h. elim (Bool-cases (truth s.spi.dump_hbc_rx)) [
      | inl rx ↦ rw rx (after (ground arith))
      | inr own ↦ rw own (after (ground arith))
    ];
  }

  sent-IsBounded : Keeps (IsBounded p) dump_fetched
  unfolding dump_fetched
  sent-IsBounded = record {
    at = λ s h. elim (Bool-cases (s.spi.dump_index + 1 == 4)) [
      | inl full ↦ rw full (after (ground arith))
      | inr room ↦ rw room (after (ground arith))
    ];
  }

  dumps-IsBounded : (b : Board) → Keeps (IsBounded p) (dump_byte b)
  unfolding dump_byte
  dumps-IsBounded b = do
    d ← Keeps-get_spi
    only_if (d.dump_index == 0) (fetch_word-IsBounded b)
    sent-IsBounded

  writer_moved :
      {r r' : RxState} {d : SpiState} {c : CtrlState}
      → IsBounded p r d c
      → IsInRing r'.wr_buf_addr
      → IsBounded p r' d c
  writer_moved h writer = record {
    writer = writer;
    load_index = h.load_index;
    dump_index = h.dump_index;
    ack_bytes = h.ack_bytes;
    reply_bytes = h.reply_bytes;
    reply_size = h.reply_size;
    pkt = h.pkt;
    bytes_req = h.bytes_req;
  }

  more_collected :
      {r : RxState} {d : SpiState} {c c' : CtrlState}
      → IsBounded p r d c
      → length c'.pkt ≡ length c.pkt
      → c'.bytes_req ≤ p.packet_size
      → IsBounded p r d c'
  more_collected h same fits = record {
    writer = h.writer;
    load_index = h.load_index;
    dump_index = h.dump_index;
    ack_bytes = h.ack_bytes;
    reply_bytes = h.reply_bytes;
    reply_size = h.reply_size;
    pkt = same ∙ h.pkt;
    bytes_req = fits;
  }

  Closed-IsBounded : (b : Board) → p.reply_size ≤ 4 → Closed b p (IsBounded p)
  Closed-IsBounded b small = record {
    reading = λ f same r d c h. writer_moved h (rw (same r) h.writer);
    writing = λ r d c h. writer_moved h (inc_buf-IsInRing r.wr_buf_addr h.writer);
    acked = λ w r d c h. ground arith;
    replied = λ w r d c h. ground arith;
    load_from = λ a r d c h. ground arith;
    dump_from = λ a r d c h. ground arith;
    loading = λ n r d c h. ground arith;
    dumping = λ n from_rx r d c h. ground arith;
    loads = loads-IsBounded;
    acks = acks-IsBounded;
    replies = replies-IsBounded;
    dumps = dumps-IsBounded b;
    sets = λ f setting r d c h.
        more_collected h (ap length (setting.same_pkt c))
          (rw (setting.same_bytes_req c) h.bytes_req);
    begun = λ r d c h. ground arith;
    collected = λ byte r d c some_left h.
        more_collected h (length-set c.pkt (p.packet_size - c.bytes_req) (u8 byte)) (omega arith);
  }

  -- In every state that main and the interrupt handlers reach in any order from a state that is in
  -- bounds, the state is in bounds: the writer is in the receive ring, each byte of a word is one
  -- of four, and the next byte of a command has a place in `pkt`. REPLY_SIZE is four at most.
  pub Reach-IsBounded :
      (b : Board) {x y : Steps.System b p}
      → p.reply_size ≤ 4
      → At (IsBounded p) x.now
      → Steps.Reach b p x y
      → At (IsBounded p) y.now
  Reach-IsBounded b small h Steps.here = h
  Reach-IsBounded b small h (Steps.later r step) =
      Step-keeps (Closed-IsBounded b small) step (λ e r d c k. ground arith)
        (Reach-IsBounded b small h r)
