-- ===== src/Fifo/Sending.antt =====
-- What the operations of fifo.c put on the bus, whatever the flags read in between.
use hbc_mac_src.Base.{
  ℕ, zero, suc, some, ◌+◌, ◌∙◌, ◌<◌, ◌≡◌, refl, true, false, List, [], ◌∷◌, inl, inr, arith, u8,
  u32, truth, Bool-cases, sym,
}
use mathlib.Core.List.{append-nil}
use hbc_mac_src.Machine.{
  Board, Pin, Port, Irq, Event, discrete_set, discrete_clear, wrote_word, wrote_byte, State, pure,
  same, wait_while,
}
use hbc_mac_src.Machine.Returns.{Returns, returns}
use hbc_mac_src.Machine.Sent.{
  Sent, Sent-nil, Sent-emit, Sent-append, InPacket, Sends, Exactly, Sends-emit, Sends-seq,
  transmitted, pulses,
}
use hbc_mac_src.Machine.Wait.{polled, Settles, Unmoved, after_poll, poll-Sent, wait-Unmoved}
use hbc_mac_src.Machine.Stage.{
  Stage, stage, under_way, running, IsEnded, filled-IsUnderWay, on-going, off-started,
  ended-IsEnded, on-whole, off-whole,
}
use hbc_mac_src.Machine.Returns
use hbc_mac_src.Fifo.{
  fifo_trigger, fifo_flush, fifo_write_size, fifo_modulate_sf, fifo_wait, wait_for_room, fifo_write,
  fifo_modulate,
}

-- The flags of the transmit FIFO. Once a packet is triggered the FIFO goes, and there will be room
-- in it; before that, and behind the flush, it may stay almost full. It runs empty only when a
-- packet is triggered and flushed. The patience is enough for one poll more than the backlog.
pub record Drains (b : Board) : Type 0 where
  pub room : Settles b Irq.tx_fifo_almost_full true (λ g. g ≡ Stage.going)
  pub spare : (h : List Event) → room.backlog h + 1 < b.patience
  pub empty : Settles b Irq.tx_fifo_empty false (λ g. g ≡ Stage.whole)

abbrev after_trigger : State → State
after_trigger s = record s {
  events =
      discrete_clear (Pin.hbc_tx_trigger ∷ []) ∷ discrete_set (Pin.hbc_tx_trigger ∷ []) ∷ s.events;
  triggered = 1;
}

first_trigger-Sent : (s : State) → s.triggered ≡ 0 → Sent [] s (after_trigger s)
unfolding transmitted pulses
first_trigger-Sent s e = record {
  wire = sym (append-nil _);
  pulsed = omega arith;
  bound = λ h. omega arith;
  rx_same = refl;
  spi_same = refl;
  ctrl_same = refl;
}

-- Within a packet fifo_trigger sends nothing else, and the FIFO goes.
trigger-going :
    (s : State)
    → InPacket s
    → Returns
        (λ a s'. Sent [] s s' × (s'.triggered ≡ 1) × (stage s'.events ≡ Stage.going))
        (fifo_trigger s)
unfolding fifo_trigger
trigger-going s k = elim (Bool-cases (truth s.triggered)) [
  | inl on ↦ let (one, going) = on-going k on in rw on (returns (Sent-nil s, one, going))
  | inr off ↦
      let (none, going) = off-started k off in
      rw off (returns (first_trigger-Sent s none, refl, going))
]

trigger_inert :
    (s : State) (h : List Event)
    → s.triggered ≡ 1
    → fifo_trigger (record s { events = h }) ≡ some (tt, record s { events = h })
unfolding fifo_trigger
trigger_inert s h one = let on : truth s.triggered ≡ true = ground arith in rw on refl

-- Behind the flush it sends nothing else too; the packet is whole and the variable set.
pub trigger-closes :
    (s : State)
    → IsEnded s.triggered (stage s.events)
    → Returns
        (λ a s'. Sent [] s s' × (truth s'.triggered ≡ true) × (stage s'.events ≡ Stage.whole))
        (fifo_trigger s)
unfolding fifo_trigger
trigger-closes s k = elim (Bool-cases (truth s.triggered)) [
  | inl on ↦ rw on (returns (Sent-nil s, on, on-whole k on))
  | inr off ↦
      let (none, closed) = off-whole k off in
      rw off (returns (first_trigger-Sent s none, refl, closed))
]

module _ (b : Board) (d : Drains b) where
  -- The FIFO runs empty behind a packet that is whole, and nothing is sent.
  pub fifo_wait-Unmoved :
      (s : State) → stage s.events ≡ Stage.whole → Returns (λ a s'. Unmoved s s') (fifo_wait b s)
  unfolding fifo_wait
  fifo_wait-Unmoved s at =
      wait-Unmoved d.empty b.patience (pure tt) s (λ h. refl) at (d.empty.bounded s.events)

  wait_for_room-Sent :
      (n : ℕ) (s : State)
      → InPacket s
      → ((h : List Event) → d.room.backlog h + 1 < n)
      → Returns
          (λ a s'. Sent [] s s' × InPacket s')
          (wait_while b n Irq.tx_fifo_almost_full true fifo_trigger s)
  unfolding wait_while
  wait_for_room-Sent zero s k patient = absurd (omega (arith, patient s.events))
  wait_for_room-Sent (suc n) s k patient =
      elim (Bool-cases
        (same (truth (b.irq_status Irq.tx_fifo_almost_full (polled b s.events))) true)) [
          | inl on ↦ rw on (
              Returns.bind (trigger-going (after_poll b s) k) λ a t (sent, one, going).
                Returns.mono
                  (wait-Unmoved d.room n fifo_trigger t (λ h. trigger_inert t h one) going
                    (omega (arith, patient t.events)))
                  λ a' s' rest. (
                    Sent-append (poll-Sent b s) (Sent-append sent rest.sent),
                    under_way running (rest.same_triggered ∙ one) (rest.same_stage ∙ going),
                  ))
          | inr off ↦ rw off (returns (poll-Sent b s, k))
        ]

  wait_for_room-Sends : Sends (wait_for_room b) (Exactly [])
  unfolding wait_for_room
  wait_for_room-Sends = record {
    at = λ s k.
        Returns.mono (wait_for_room-Sent b.patience s k d.spare)
          λ a s' (sent, k'). ([], refl, sent, k');
  }

  pub fifo_write-Sends :
      (word : ℕ) → Sends (fifo_write b word) (Exactly (wrote_word Port.fifo_port (u32 word) ∷ []))
  unfolding fifo_write
  fifo_write-Sends word =
      Sends-seq wait_for_room-Sends (Sends-emit _ refl refl λ t g k. filled-IsUnderWay k)

  pub fifo_modulate-Sends :
      (word : ℕ)
      → Sends (fifo_modulate b word) (Exactly (wrote_word Port.modulator (u32 word) ∷ []))
  unfolding fifo_modulate
  fifo_modulate-Sends word =
      Sends-seq wait_for_room-Sends (Sends-emit _ refl refl λ t g k. filled-IsUnderWay k)

pub write_size-Sends :
    (size : ℕ) → Sends (fifo_write_size size) (Exactly (wrote_byte Port.fifo_mask (u8 size) ∷ []))
unfolding fifo_write_size
write_size-Sends size = Sends-emit _ refl refl λ t g k. k

pub modulate_sf-Sends :
    (sf : ℕ) → Sends (fifo_modulate_sf sf) (Exactly (wrote_byte Port.modulator_sf (u8 sf) ∷ []))
unfolding fifo_modulate_sf
modulate_sf-Sends sf = Sends-emit _ refl refl λ t g k. k

abbrev pub flush_calls : List Event
flush_calls = discrete_set (Pin.hbc_tx_flush ∷ []) ∷ discrete_clear (Pin.hbc_tx_flush ∷ []) ∷ []

-- The flush ends a packet that is under way.
pub flush-ends :
    (s : State)
    → InPacket s
    → Returns
        (λ a s'. Sent flush_calls s s' × IsEnded s'.triggered (stage s'.events))
        (fifo_flush s)
unfolding fifo_flush
flush-ends s k = returns (
  Sent-append (Sent-emit (discrete_set (Pin.hbc_tx_flush ∷ [])) refl refl s)
      (Sent-emit (discrete_clear (Pin.hbc_tx_flush ∷ [])) refl refl _),
  ended-IsEnded k,
)
