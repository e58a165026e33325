-- ===== src/Rx/Writer.antt =====
-- The writer's side: the two interrupt handlers keep the ring's bookkeeping.
use hbc_mac_src.Base.{
  ℕ, zero, suc, ◌+◌, ◌<◌, ◌≡◌, refl, sym, ap, ◌⊎◌, ◌∙◌, u32, truth, arith, if◌then◌else◌, Bool,
  true, false, Bool-cases, inl, inr, List, ◌∷◌, some,
}
use mathlib.Core.Path.{subst}
use hbc_mac_src.Machine.{
  Board, Port, Irq, Event, read_irqs, read_word, wrote_word, RxState, RxPhase, packet_init,
  packet_reading, State,
}
use hbc_mac_src.Machine.Returns
use hbc_mac_src.Machine.Returns.{Returns, returns}
use hbc_mac_src.Machine.Wait.{polled}
use hbc_mac_src.Rx.{
  inc_buf, is_init, start_packet, store_word, data_loop, header_test, rx_data_int_func,
}
use hbc_mac_src.Rx.Ring.{IsInRing, place, inc_buf-IsInRing, inc_buf-place}

abbrev pub data_ready : Board → List Event → Bool
data_ready b h = truth (b.irq_status Irq.rx_data_ready (polled b h))

-- What the writer knows: its address lies in the ring, `wr_bytes` behind the packet in progress,
-- and between packets nothing is pending.
abbrev pub InPhase : RxPhase → RxState → Type 0
InPhase packet_init r = r.wr_bytes ≡ 0
InPhase packet_reading r =
    IsInRing r.wr_packet_addr × (place r.wr_buf_addr ≡ place (r.wr_packet_addr + r.wr_bytes))

pub record IsWriter (r : RxState) : Type 0 where
  pub ring : IsInRing r.wr_buf_addr
  pub phase : InPhase r.rx_state r

-- The receive FIFO gives its words out: a measure of the words in it falls with each word that is
-- taken, and the calls between two such reads add none. A word that waits is not lost.
pub record Supplies (b : Board) : Type 0 where
  pub backlog : List Event → ℕ
  pub bounded : (h : List Event) → backlog h < b.patience
  pub pops :
      (v p m scram : ℕ) (h : List Event)
      → data_ready b h ≡ true
      → backlog (
          wrote_word Port.mem_rd_wr m
          ∷ read_word Port.scrambler_port scram
          ∷ read_word Port.rx_fifo v
          ∷ read_irqs p
          ∷ h)
        < backlog h
  pub waits :
      (p a : ℕ) (h : List Event)
      → data_ready b h ≡ true
      → data_ready b (wrote_word Port.mem_wr_p a ∷ read_irqs p ∷ h) ≡ true

-- From the statics `r` to the state `s'` the handler stayed within the packet that it began at.
pub record Continues (r : RxState) (s' : State) : Type 0 where
  pub writer : IsWriter s'.rx
  pub reading : s'.rx.rx_state ≡ packet_reading
  pub packet_same : s'.rx.wr_packet_addr ≡ r.wr_packet_addr
  pub ready_same : s'.rx.packet_ready ≡ r.packet_ready

-- A word stored moves the address and the count together.
stored : RxState → RxState
stored r = record r { wr_buf_addr = inc_buf r.wr_buf_addr; wr_bytes = u32 (r.wr_bytes + 4) }

stored-place :
    (r : RxState)
    → IsInRing r.wr_buf_addr
    → place r.wr_buf_addr ≡ place (r.wr_packet_addr + r.wr_bytes)
    → place (inc_buf r.wr_buf_addr) ≡ place (r.wr_packet_addr + u32 (r.wr_bytes + 4))
stored-place r ring e = omega (arith, inc_buf-place r.wr_buf_addr ring)

pub reading_phase :
    {r : RxState}
    → r.rx_state ≡ packet_reading
    → IsWriter r
    → IsInRing r.wr_packet_addr × (place r.wr_buf_addr ≡ place (r.wr_packet_addr + r.wr_bytes))
reading_phase {r} e w = subst (λ p. InPhase p r) e w.phase

Continues-trans : {r : RxState} {s s' : State} → Continues r s → Continues s.rx s' → Continues r s'
Continues-trans p q = record {
  writer = q.writer;
  reading = q.reading;
  packet_same = q.packet_same ∙ p.packet_same;
  ready_same = q.ready_same ∙ p.ready_same;
}

-- The calls of one round.
abbrev IsRound : List Event → List Event → Type 0
IsRound h h' =
    (v : ℕ) × (scram : ℕ) × (m : ℕ) × (h'
      ≡ wrote_word Port.mem_rd_wr m
        ∷ read_word Port.scrambler_port scram
        ∷ read_word Port.rx_fifo v
        ∷ h)

store_word-Continues :
    (b : Board) (s : State)
    → IsWriter s.rx
    → s.rx.rx_state ≡ packet_reading
    → Returns (λ a s'. Continues s.rx s' × IsRound s.events s'.events) (store_word b s)
unfolding store_word stored
store_word-Continues b s w reading =
    let (packet, e) = reading_phase reading w in
    returns (
      record {
        writer = record {
          ring = inc_buf-IsInRing s.rx.wr_buf_addr w.ring;
          phase =
              subst (λ p. InPhase p (stored s.rx)) (sym reading)
                (packet, stored-place s.rx w.ring e);
        };
        reading = reading;
        packet_same = refl;
        ready_same = refl;
      },
      (_, _, _, refl),
    )

module _ (b : Board) (supply : Supplies b) where
  abbrev after_poll : State → State
  after_poll s = record s { events = read_irqs (polled b s.events) ∷ s.events }

  data_loop-Continues :
      (n : ℕ) (s : State)
      → IsWriter s.rx
      → s.rx.rx_state ≡ packet_reading
      → supply.backlog s.events < n
      → Returns (λ a s'. Continues s.rx s') (data_loop b n s)
  unfolding data_loop
  data_loop-Continues zero s w reading h = absurd (omega arith)
  data_loop-Continues (suc n) s w reading h = elim (Bool-cases (data_ready b s.events)) [
    | inl on ↦ rw on (
        Returns.bind (store_word-Continues b (after_poll s) w reading)
          λ a s₁ (step, (v, scram, m, e)).
            let popped = supply.pops v (polled b s.events) m scram s.events on in
            let less : supply.backlog s₁.events < n = rw e (omega arith) in
            Returns.mono (data_loop-Continues n s₁ step.writer step.reading less)
              λ a' s₂ rest. Continues-trans step rest)
    | inr off ↦
        rw off (
          returns (record { writer = w; reading = reading; packet_same = refl; ready_same = refl }))
  ]

  -- The handler, once a packet is in progress.
  rest_of_packet :
      (s : State)
      → IsWriter s.rx
      → s.rx.rx_state ≡ packet_reading
      → Returns (λ a s'. Continues s.rx s') (data_loop b b.patience s)
  rest_of_packet s w reading = data_loop-Continues b.patience s w reading (supply.bounded s.events)

started : RxState → RxState
started r = record r {
  wr_packet_addr = r.wr_buf_addr;
  wr_buf_addr = inc_buf (inc_buf r.wr_buf_addr);
  rx_state = packet_reading;
  wr_bytes = u32 (r.wr_bytes + 8);
}

started-IsWriter : (r : RxState) → IsWriter r → r.wr_bytes ≡ 0 → IsWriter (started r)
unfolding started
started-IsWriter r w e =
    let one = inc_buf-IsInRing r.wr_buf_addr w.ring in
    record {
      ring = inc_buf-IsInRing (inc_buf r.wr_buf_addr) one;
      phase = (
        w.ring,
        omega
            (arith, inc_buf-place r.wr_buf_addr w.ring, inc_buf-place (inc_buf r.wr_buf_addr) one),
      );
    }

start_packet-Continues :
    (b : Board) (s : State)
    → IsWriter s.rx
    → s.rx.wr_bytes ≡ 0
    → Returns (λ a s'. Continues (started s.rx) s') (start_packet b s)
unfolding start_packet started
start_packet-Continues b s w e = returns (record {
  writer = started-IsWriter s.rx w e;
  reading = refl;
  packet_same = unfold started in refl;
  ready_same = unfold started in refl;
})

-- The packet that the handler works on.
abbrev pub packet_of : RxState → ℕ
packet_of r = if is_init r.rx_state then r.wr_buf_addr else r.wr_packet_addr

packet_init_lem : (r : RxState) → r.rx_state ≡ packet_init → packet_of r ≡ r.wr_buf_addr
packet_init_lem r e = let first : is_init r.rx_state ≡ true = ap is_init e in rw first

pub packet_reading_lem :
    (r : RxState) → r.rx_state ≡ packet_reading → packet_of r ≡ r.wr_packet_addr
packet_reading_lem r e = let later : is_init r.rx_state ≡ false = ap is_init e in rw later

-- After the handler a packet is in progress, at the address where it began.
pub record IsReceiving (r : RxState) (s' : State) : Type 0 where
  pub writer : IsWriter s'.rx
  pub reading : s'.rx.rx_state ≡ packet_reading
  pub packet : s'.rx.wr_packet_addr ≡ packet_of r
  pub ready_same : s'.rx.packet_ready ≡ r.packet_ready

pub Phase-cases : (p : RxPhase) → (p ≡ packet_init) ⊎ (p ≡ packet_reading)
Phase-cases packet_init = inl refl
Phase-cases packet_reading = inr refl

pub header_test-init :
    (b : Board) (s : State)
    → s.rx.rx_state ≡ packet_init
    → data_ready b s.events ≡ true
    → header_test b s ≡ some (true, record s { events = read_irqs (polled b s.events) ∷ s.events })
unfolding header_test
header_test-init b s e on =
    let first : is_init s.rx.rx_state ≡ true = ap is_init e in rw (first, on)

pub header_test-reading :
    (b : Board) (s : State) → s.rx.rx_state ≡ packet_reading → header_test b s ≡ some (false, s)
unfolding header_test
header_test-reading b s e = let later : is_init s.rx.rx_state ≡ false = ap is_init e in rw later

-- Entered with a word in the FIFO, or within a packet, the data handler ends, and the ring's
-- bookkeeping holds.
pub data_int-IsReceiving :
    (b : Board) (s : State)
    → Supplies b
    → IsWriter s.rx
    → data_ready b (wrote_word Port.mem_wr_p (u32 s.rx.wr_buf_addr) ∷ s.events) ≡ true
    → Returns (λ a s'. IsReceiving s.rx s') (rx_data_int_func b s)
unfolding rx_data_int_func started
data_int-IsReceiving b s supply w on = elim (Phase-cases s.rx.rx_state) [
  | inl init ↦
      let idle : s.rx.wr_bytes ≡ 0 = subst (λ p. InPhase p s.rx) init w.phase in
      rw (header_test-init b at_address init on) (
        Returns.bind (start_packet-Continues b polled_once w idle) λ a s₁ begun.
          Returns.mono (rest_of_packet b supply s₁ begun.writer begun.reading) λ a' s₂ rest.
            record {
              writer = rest.writer;
              reading = rest.reading;
              packet = rest.packet_same ∙ begun.packet_same ∙ sym (packet_init_lem s.rx init);
              ready_same = rest.ready_same ∙ begun.ready_same;
            })
  | inr reading ↦ rw (header_test-reading b at_address reading) (
      Returns.mono (rest_of_packet b supply at_address w reading) λ a s₁ rest. record {
        writer = rest.writer;
        reading = rest.reading;
        packet = rest.packet_same ∙ sym (packet_reading_lem s.rx reading);
        ready_same = rest.ready_same;
      })
]
  where
    at_address : State
    at_address = record s { events = wrote_word Port.mem_wr_p (u32 s.rx.wr_buf_addr) ∷ s.events }

    polled_once : State
    polled_once = record s { events = read_irqs (polled b at_address.events) ∷ at_address.events }
