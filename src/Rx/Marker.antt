-- ===== src/Rx/Marker.antt =====
-- The end of a packet: its marker says where the next one begins.
use hbc_mac_src.Base.{
  ℕ, ◌+◌, ◌≡◌, ◌⊎◌, inl, inr, refl, sym, ap, u32, truth, arith, true, Bool-cases, List, [], ◌∷◌,
}
use mathlib.Core.Path.{subst}
use hbc_mac_src.Machine.{
  Board, Pin, Port, Event, wrote_word, read_irqs, discrete_set, discrete_clear, RxState,
  packet_init, packet_reading, State, Action, get_rx, when, ◌>>=◌, ◌>>◌,
}
use hbc_mac_src.Machine.Returns
use hbc_mac_src.Machine.Returns.{Returns, returns}
use hbc_mac_src.Machine.Wait.{polled}
use hbc_mac_src.Rx.{finish_packet, acknowledge, rx_ready_int_func}
use hbc_mac_src.Rx.Ring.{place}
use hbc_mac_src.Rx.Writer.{
  IsWriter, InPhase, Supplies, data_ready, data_int-IsReceiving, packet_of, Phase-cases,
  reading_phase, packet_reading_lem,
}

-- The last calls: the marker `bytes` at the address `packet`, and the acknowledgement.
abbrev pub marker_calls : ℕ → ℕ → List Event → List Event
marker_calls packet bytes h =
    discrete_clear (Pin.hbc_rx_pkt_ack ∷ [])
    ∷ discrete_set (Pin.hbc_rx_pkt_ack ∷ [])
    ∷ wrote_word Port.mem_rd_wr bytes
    ∷ wrote_word Port.mem_wr_p (u32 packet)
    ∷ h

-- One packet more is ready: its marker stands at `packet` and leads to where the writer is.
pub record IsClosed (packet ready : ℕ) (s' : State) : Type 0 where
  pub counted : s'.rx.packet_ready ≡ u32 (ready + 1)
  pub phase : s'.rx.rx_state ≡ packet_init
  pub bytes : ℕ
  pub before : List Event
  pub marked : s'.events ≡ marker_calls packet bytes before
  pub leads_on : place s'.rx.wr_buf_addr ≡ place (packet + bytes)

-- After the handler nothing is pending: no packet was in progress, or it is closed.
pub record IsSettled (packet ready : ℕ) (s' : State) : Type 0 where
  pub writer : IsWriter s'.rx
  pub none_pending : s'.rx.wr_bytes ≡ 0
  pub outcome : (s'.rx.packet_ready ≡ ready) ⊎ IsClosed packet ready s'

abbrev pub last_part : Action
last_part = do r ← get_rx; when (truth r.wr_bytes) finish_packet; acknowledge

-- A count that is not zero tells that a packet is in progress.
in_progress : (r : RxState) → IsWriter r → truth r.wr_bytes ≡ true → r.rx_state ≡ packet_reading
in_progress r w pending = elim (Phase-cases r.rx_state) [
  | inl init ↦
      let idle : r.wr_bytes ≡ 0 = subst (λ p. InPhase p r) init w.phase in absurd (ground arith)
  | inr reading ↦ reading
]

last_part-IsSettled :
    (packet : ℕ) (s : State)
    → IsWriter s.rx
    → (s.rx.rx_state ≡ packet_reading → s.rx.wr_packet_addr ≡ packet)
    → Returns (λ a s'. IsSettled packet s.rx.packet_ready s') (last_part s)
unfolding finish_packet acknowledge
last_part-IsSettled packet s w at = elim (Bool-cases (truth s.rx.wr_bytes)) [
  | inl pending ↦
      let reading = in_progress s.rx w pending in
      let place_of : s.rx.wr_packet_addr ≡ packet = at reading in
      rw pending (
        returns (record {
          writer = record { ring = w.ring; phase = refl };
          none_pending = refl;
          outcome = inr (record {
            counted = refl;
            phase = refl;
            bytes = u32 s.rx.wr_bytes;
            before = s.events;
            marked = ap (λ t. marker_calls t (u32 s.rx.wr_bytes) s.events) place_of;
            leads_on = omega (arith, (reading_phase reading w).1);
          });
        }))
  | inr idle ↦
      rw idle (returns (record { writer = w; none_pending = ground arith; outcome = inl refl }))
]

-- The handler of a finished packet ends. Afterwards nothing is pending, and either no packet is
-- counted, or the one that was in progress or that began in the handler is: its marker stands at
-- its address and leads to the place where the next packet will begin.
pub ready_int-IsSettled :
    (b : Board) (s : State)
    → Supplies b
    → IsWriter s.rx
    → Returns (λ a s'. IsSettled (packet_of s.rx) s.rx.packet_ready s') (rx_ready_int_func b s)
unfolding rx_ready_int_func
ready_int-IsSettled b s supply w = elim (Bool-cases (data_ready b s.events)) [
  | inl on ↦ rw on (
      Returns.bind (data_int-IsReceiving b polled_once supply w (supply.waits _ _ s.events on))
        λ a s₁ got.
          Returns.mono (last_part-IsSettled (packet_of s.rx) s₁ got.writer (λ _. got.packet))
            λ a' s₂ done. subst (λ n. IsSettled (packet_of s.rx) n s₂) got.ready_same done)
  | inr off ↦ rw off (
      last_part-IsSettled (packet_of s.rx) polled_once w
        (λ reading. sym (packet_reading_lem s.rx reading)))
]
  where
    polled_once : State
    polled_once = record s { events = read_irqs (polled b s.events) ∷ s.events }
