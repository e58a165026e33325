-- ===== src/Ctrl/Stepping.antt =====
-- How the main loop steps through the packets of the transmit buffer.
use hbc_mac_src.Base.{
  ℕ, ◌+◌, bit_and, ◌*◌, ◌/◌, ◌%◌, ◌^◌, ◌<◌, ◌≡◌, refl, ap, ◌∙◌, arith, u8, u32, truth, ◌∷◌,
  Bool-cases, inl, inr,
}
use hbc_mac_src.Base.Bits.Fields.{and_ones}
use hbc_mac_src.Machine.{
  Board, Port, word, wrote_word, read_word, interrupts_off, State, CtrlState, PlcpHeader,
}
use hbc_mac_src.Machine.Returns
use hbc_mac_src.Machine.Returns.{Returns, returns}
use hbc_mac_src.Crc.{crc8}
use hbc_mac_src.Header.{header_bits}
use hbc_mac_src.Fifo.Sending.{Drains}
use hbc_mac_src.Tx.Packet.{header_lem}
use hbc_mac_src.Tx.Payload.{payload_lem}
use hbc_mac_src.Spi.Dump.{kept}
use hbc_mac_src.Mem.Fault.{HasMemory, replay}
use hbc_mac_src.Machine.Stage.{Stage, stage}
use hbc_mac_src.Ctrl.Loop.{
  blink, listen, send_header_info, send_next_locked, send_next, negated, one_less, mem_tx_mask,
}

-- Around the transmit path no component but `ctrl` changes.
pub record Quiet (c : CtrlState) (s s' : State) : Type 0 where
  pub ctrl_now : s'.ctrl ≡ c
  pub spi_same : s'.spi ≡ s.spi
  pub rx_same : s'.rx ≡ s.rx

-- The header as it is sent.
abbrev sent_header : PlcpHeader → PlcpHeader
sent_header h = record h { crc8 = u8 (crc8 (header_bits h)) }

abbrev with_header : PlcpHeader → CtrlState → CtrlState
with_header h c = record c { header_info = h }

abbrev toggled : CtrlState → CtrlState
toggled c = record c { toggle = negated c.toggle }

-- The calls between change neither the memory nor the stage of the FIFO.
record IsAside (s s' : State) : Type 0 where
  memory_same : replay s'.events ≡ replay s.events
  stage_same : stage s'.events ≡ stage s.events

aside :
    {s s' : State}
    → replay s'.events ≡ replay s.events
    → stage s'.events ≡ stage s.events
    → IsAside s s'
aside e e' = record { memory_same = e; stage_same = e' }

blink-Quiet : (s : State) → Returns (λ a s'. Quiet (toggled s.ctrl) s s' × IsAside s s') (blink s)
unfolding blink
blink-Quiet s = elim (Bool-cases (truth s.ctrl.toggle)) [
  | inl on ↦ elim (Bool-cases (truth s.ctrl.loopback)) [
    | inl back ↦
        rw (on, back)
          (returns
            (record { ctrl_now = rw on refl; spi_same = refl; rx_same = refl }, aside refl refl))
    | inr air ↦
        rw (on, air)
          (returns
            (record { ctrl_now = rw on refl; spi_same = refl; rx_same = refl }, aside refl refl))
  ]
  | inr off ↦ elim (Bool-cases (truth s.ctrl.loopback)) [
    | inl back ↦
        rw (off, back)
          (returns
            (record { ctrl_now = rw off refl; spi_same = refl; rx_same = refl }, aside refl refl))
    | inr air ↦
        rw (off, air)
          (returns
            (record { ctrl_now = rw off refl; spi_same = refl; rx_same = refl }, aside refl refl))
  ]
]

listen-Quiet : (s : State) → Returns (λ a s'. Quiet s.ctrl s s' × IsAside s s') (listen s)
unfolding listen
listen-Quiet s = elim (Bool-cases (truth s.ctrl.loopback)) [
  | inl back ↦
      rw back
        (returns (record { ctrl_now = refl; spi_same = refl; rx_same = refl }, aside refl refl))
  | inr air ↦
      rw air
        (returns (record { ctrl_now = refl; spi_same = refl; rx_same = refl }, aside refl refl))
]

-- The `ctrl` component behind a packet of `n` bytes.
abbrev pub stepped : ℕ → CtrlState → CtrlState
stepped n c = record c {
  toggle = negated c.toggle;
  header_info = record (sent_header (record (c.header_info) { pdsu_length = n })) {
    scrambler_seed = negated (c.header_info.scrambler_seed);
  };
  pkt_addr = (c.pkt_addr + (n / 4 * 4 + 4)) % 2 ^ 24;
  tx_pending = one_less c.tx_pending;
}

module _ (b : Board) (d : Drains b) where
  send_header_info_lem :
      (s : State)
      → s.ctrl.header_info.data_rate < 4
      → s.ctrl.header_info.pdsu_length < 256
      → stage s.events ≡ Stage.whole
      → Returns
          (λ n s'.
            (n ≡ s.ctrl.header_info.pdsu_length / 4)
            × Quiet (with_header (sent_header s.ctrl.header_info) s.ctrl) s s'
            × (stage s'.events ≡ Stage.whole))
          (send_header_info b s)
  unfolding send_header_info
  send_header_info_lem s rate_fits len_fits at =
      let h = s.ctrl.header_info in
      Returns.bind (header_lem b d h rate_fits s at) λ h' s₁ (stored, first, k). rw stored (
        Returns.mono
          (payload_lem b d (sent_header h) len_fits
            (record s₁ { ctrl = with_header (sent_header h) s₁.ctrl }) k)
          λ n s₂ (e, on, closed, words, scrambled, second). (
            e,
            record {
              ctrl_now = second.ctrl_same ∙ ap (with_header (sent_header h)) first.ctrl_same;
              spi_same = second.spi_same ∙ first.spi_same;
              rx_same = second.rx_same ∙ first.rx_same;
            },
            closed,
          ))

module _ (b : Board) (d : Drains b) {sequence : ℕ → ℕ → ℕ}
    (memory : HasMemory b kept sequence) where
  -- The state as the packet's length has been read.
  abbrev length_read : ℕ → State → State
  length_read n s = record s {
    events =
        read_word Port.mem_rd_wr (u32 n)
        ∷ wrote_word Port.mem_rd_p (u32 s.ctrl.pkt_addr)
        ∷ interrupts_off
        ∷ s.events;
    ctrl = with_header (record (s.ctrl.header_info) { pdsu_length = n }) s.ctrl;
  }

  -- The `ctrl` component as the packet has been sent.
  abbrev advanced : ℕ → CtrlState → CtrlState
  advanced n c = record (with_header (sent_header (record (c.header_info) { pdsu_length = n })) c) {
    pkt_addr = u32 (c.pkt_addr + (n / 4 * 4 + 4));
  }

  send_next_locked-Quiet :
      (n : ℕ) (s : State)
      → s.ctrl.header_info.data_rate < 4
      → n < 256
      → u32 ((replay s.events).cells (u32 s.ctrl.pkt_addr)) ≡ n
      → stage s.events ≡ Stage.whole
      → Returns
          (λ a s'. Quiet (advanced n s.ctrl) s s' × (stage s'.events ≡ Stage.whole))
          (send_next_locked b s)
  unfolding send_next_locked
  send_next_locked-Quiet n s rate_fits small holds at =
      let cut : u8 (u32 n) ≡ n = omega arith in
      let whole_word : n ≡ u32 n = omega arith in
      let pointed = wrote_word Port.mem_rd_p (u32 s.ctrl.pkt_addr) ∷ interrupts_off ∷ s.events in
      let read : u32 (b.respond pointed (word Port.mem_rd_wr)) ≡ u32 n =
        memory.reads pointed ∙ holds ∙ whole_word in
      rw (read, cut)
        (Returns.bind (send_header_info_lem b d (length_read n s) rate_fits small at)
          λ words s₂ (e, q, closed). returns (
            record {
              ctrl_now = rw (q.ctrl_now, e) refl;
              spi_same = q.spi_same;
              rx_same = q.rx_same;
            },
            closed,
          ))

  -- The `ctrl` component with the address masked and the seed toggled.
  abbrev behind : CtrlState → CtrlState
  behind c =
      with_header
        (record (c.header_info) { scrambler_seed = negated (c.header_info.scrambler_seed) })
        (record c { pkt_addr = bit_and c.pkt_addr mem_tx_mask })

  abbrev counted : CtrlState → CtrlState
  counted c = record c { tx_pending = one_less c.tx_pending }

  address :
      (a n : ℕ) → bit_and (u32 (a + (n / 4 * 4 + 4))) mem_tx_mask ≡ (a + (n / 4 * 4 + 4)) % 2 ^ 24
  address a n = omega (arith, and_ones 24 (u32 (a + (n / 4 * 4 + 4))))

  -- On a board whose FIFO flags settle, with a memory that gives each word as it was last written:
  -- between packets, with a rate of the enumeration and a length of a byte in memory at the
  -- packet's address, the next packet is sent to its end, triggered and flushed; the address goes
  -- behind the length and the whole words of the packet, in the 16 MB of the transmit buffer; the
  -- seed is toggled and one packet less is pending; no other component changes.
  pub send_next_lem :
      (n : ℕ) (s : State)
      → s.ctrl.header_info.data_rate < 4
      → n < 256
      → u32 ((replay s.events).cells (u32 s.ctrl.pkt_addr)) ≡ n
      → stage s.events ≡ Stage.whole
      → Returns
          (λ a s'. Quiet (stepped n s.ctrl) s s' × (stage s'.events ≡ Stage.whole))
          (send_next b s)
  unfolding send_next
  send_next_lem n s rate_fits small holds at = Returns.bind (blink-Quiet s) λ _ s₁ (q₁, a₁).
      Returns.bind
        (send_next_locked-Quiet n s₁ (rw q₁.ctrl_now rate_fits) small
          (rw (q₁.ctrl_now, a₁.memory_same) holds) (a₁.stage_same ∙ at))
        λ _ s₂ (q₂, closed).
          Returns.bind (listen-Quiet (record s₂ { ctrl = behind s₂.ctrl })) λ _ s₃ (q₃, a₃).
            returns (
              record {
                ctrl_now =
                    ap counted q₃.ctrl_now
                    ∙ rw (q₂.ctrl_now, q₁.ctrl_now, address s.ctrl.pkt_addr n) refl;
                spi_same = q₃.spi_same ∙ q₂.spi_same ∙ q₁.spi_same;
                rx_same = q₃.rx_same ∙ q₂.rx_same ∙ q₁.rx_same;
              },
              a₃.stage_same ∙ closed,
            )

  -- The state as CMD_HBC_TX_PACKET leaves it.
  abbrev announced : ℕ → State → State
  announced n s = record s {
    events =
        wrote_word Port.mem_rd_wr (u32 n)
        ∷ wrote_word Port.mem_wr_p (u32 s.spi.load_addr)
        ∷ s.events;
    spi = record (s.spi) { load_index = 0; loading_mem = n; load_addr = u32 (s.spi.load_addr + 4) };
    ctrl = record (s.ctrl) { tx_pending = u32 (s.ctrl.tx_pending + 1) };
  }
