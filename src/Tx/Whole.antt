-- ===== src/Tx/Whole.antt =====
-- A header and its payload, as main sends them.
use hbc_mac_src.Base.{◌+◌, ◌/◌, ◌<◌, ◌≤◌, ◌≡◌, ◌∙◌, ap, refl, List, ◌++◌, truth, u8, arith, true}
use mathlib.Core.List.{append_assoc}
use hbc_mac_src.Machine.{Board, Event, State, PlcpHeader, ◌>>=◌}
use hbc_mac_src.Machine.Returns
use hbc_mac_src.Machine.Returns.{Returns}
use hbc_mac_src.Machine.Sent.{Sent, transmitted, pulses}
use hbc_mac_src.Machine.Stage.{Stage, stage}
use hbc_mac_src.Crc.{crc8}
use hbc_mac_src.Header.{header_bits}
use hbc_mac_src.Fifo.Sending.{Drains}
use hbc_mac_src.Tx.{build_tx_plcp_header, build_tx_payload}
use hbc_mac_src.Tx.Packet.{header_lem, head_stream}
use hbc_mac_src.Tx.Payload.{Scrambled, payload_stream, payload_lem}

-- From `s` to `s'` one packet went out: its stream in full, and one trigger pulse.
pub record IsPacket (h : PlcpHeader) (s s' : State) : Type 0 where
  pub words : List Event
  pub scrambled : Scrambled ((h.pdsu_length + 3) / 4) words
  pub stream :
      transmitted s'.events ≡ transmitted s.events ++ (head_stream h ++ payload_stream h words)
  pub one_pulse : pulses s'.events ≡ pulses s.events + 1
  pub left_triggered : s'.triggered ≡ 1
  pub closed : stage s'.events ≡ Stage.whole
  pub rx_same : s'.rx ≡ s.rx
  pub ctrl_same : s'.ctrl ≡ s.ctrl

IsPacket-joined :
    {h : PlcpHeader} {s s₁ s₂ : State} {head : List Event} (words : List Event)
    → Scrambled ((h.pdsu_length + 3) / 4) words
    → head ≡ head_stream h
    → Sent head (record s { triggered = 0 }) s₁
    → Sent (payload_stream h words) s₁ s₂
    → truth s₂.triggered ≡ true
    → stage s₂.events ≡ Stage.whole
    → IsPacket h s s₂
IsPacket-joined {h} {s} {s₁} {s₂} words scrambled e first second on closed = record {
  words = words;
  scrambled = scrambled;
  stream =
      second.wire
      ∙ ap (λ t. t ++ payload_stream h words) (first.wire ∙ ap (λ t. transmitted s.events ++ t) e)
      ∙ append_assoc (transmitted s.events) (head_stream h) (payload_stream h words);
  one_pulse = omega (arith, first.pulsed, second.pulsed, set);
  left_triggered = set;
  closed = closed;
  rx_same = second.rx_same ∙ first.rx_same;
  ctrl_same = second.ctrl_same ∙ first.ctrl_same;
}
  where
    set : s₂.triggered ≡ 1
    set =
        let once : s₂.triggered ≤ 1 = second.bound (first.bound (omega arith)) in
        let some_pulse : 0 < s₂.triggered = ground arith in omega arith

-- On a board whose FIFO makes room only while a triggered packet goes out, and runs empty only
-- behind one that is triggered and flushed: between packets, with a rate of the enumeration and a
-- length of a byte, a packet is sent in full, with exactly one trigger pulse, and is left whole,
-- triggered and flushed. The result is the count of its whole words.
pub packet_lem :
    (b : Board) (h : PlcpHeader)
    → Drains b
    → h.data_rate < 4
    → h.pdsu_length < 256
    → (s : State) → stage s.events ≡ Stage.whole
    → Returns
        (λ n s'. (n ≡ h.pdsu_length / 4) × IsPacket h s s')
        ((build_tx_plcp_header b h >>= build_tx_payload b) s)
packet_lem b h d rate_fits len_fits s at =
    Returns.bind (header_lem b d h rate_fits s at) λ h' s₁ (stored, first, k). rw stored (
      Returns.mono (payload_lem b d (record h { crc8 = u8 (crc8 (header_bits h)) }) len_fits s₁ k)
        λ n s₂ (e, on, closed, words, scrambled, second).
          (e, IsPacket-joined words scrambled refl first second on closed))
