-- ===== src/Tx/Packet.antt =====
-- The head of a packet, up to its header word, as one stream.
use hbc_mac_src.Base.{
  ℕ, ◌<◌, ◌≡◌, ◌∙◌, refl, List, [], ◌∷◌, ◌++◌, inl, inr, truth, if◌then◌else◌, Bool-cases, u8, u32,
}
use mathlib.Core.Path.{subst}
use hbc_mac_src.Machine.{Board, Port, Event, State, wrote_word, wrote_byte, PlcpHeader, pure, ◌>>◌}
use hbc_mac_src.Machine.Returns
use hbc_mac_src.Machine.Returns.{Returns, returns}
use hbc_mac_src.Machine.Sent.{Sent, Sent-append, InPacket, Sends, Exactly, Sends-then, Sends-result}
use hbc_mac_src.Machine.Stage.{Stage, stage, under_way, idle}
use hbc_mac_src.Crc.{crc8}
use hbc_mac_src.Header.{header_bits, header_word}
use hbc_mac_src.Fifo.{fifo_modulate}
use hbc_mac_src.Fifo.Sending.{Drains, fifo_wait-Unmoved, fifo_modulate-Sends}
use hbc_mac_src.Tx.{build_tx_sfd, build_tx_plcp_header, build_tx_preamble, fifo_set_rate}
use hbc_mac_src.Tx.Stream.{preamble, sfd_code, sfd_lead, sfd_tail}
use hbc_mac_src.Tx.Sends.{preamble-Sends, put_sfd-Sends, sfd_at_rate-Sends, set_rate-Sends, size_at}

abbrev pub sfd_stream : PlcpHeader → List Event
sfd_stream h =
    if truth h.use_ri then sfd_lead h.data_rate ++ (sfd_code ++ sfd_tail h.data_rate) else sfd_code

-- The rate of the header word itself.
abbrev pub header_rate : PlcpHeader → ℕ
header_rate h = if truth h.use_ri then h.data_rate else 0

abbrev pub head_stream : PlcpHeader → List Event
head_stream h =
    preamble
    ++ (preamble
        ++ (preamble
            ++ (preamble
                ++ (sfd_stream h
                    ++ ((wrote_byte Port.modulator_sf (u8 (header_rate h))
                          ∷ size_at (header_rate h))
                        ++ wrote_word Port.modulator (u32 (header_word h)) ∷ [])))))

module _ (b : Board) (d : Drains b) (h : PlcpHeader) (in_range : h.data_rate < 4) where
  pub sfd-Sends : Sends (build_tx_sfd b h) (Exactly (sfd_stream h))
  unfolding build_tx_sfd
  sfd-Sends = elim (Bool-cases (truth h.use_ri)) [
    | inl ri ↦ rw ri (sfd_at_rate-Sends b d h.data_rate in_range)
    | inr fixed ↦ rw fixed (put_sfd-Sends b d)
  ]

  abbrev sent_header : PlcpHeader
  sent_header = record h { crc8 = u8 (crc8 (header_bits h)) }

  -- What follows the reset of the trigger and the wait for an empty FIFO.
  abbrev IsHead : PlcpHeader → List Event → Type 0
  IsHead h' out = (h' ≡ sent_header) × (out ≡ head_stream h)

  abbrev rate_stream : List Event
  rate_stream = wrote_byte Port.modulator_sf (u8 (header_rate h)) ∷ size_at (header_rate h)

  IsHead-Sends :
      Sends
        (build_tx_preamble b
          >> (build_tx_preamble b
              >> (build_tx_preamble b
                  >> (build_tx_preamble b
                      >> (build_tx_sfd b h
                          >> (fifo_set_rate (header_rate h)
                              >> (fifo_modulate b (header_word h) >> pure sent_header)))))))
        IsHead
  IsHead-Sends = Sends-then preamble (preamble-Sends b d) (
      Sends-then preamble (preamble-Sends b d) (
        Sends-then preamble (preamble-Sends b d) (
          Sends-then preamble (preamble-Sends b d) (
            Sends-then (sfd_stream h) sfd-Sends (
              Sends-then rate_stream (set_rate-Sends (header_rate h)) (
                Sends-then (wrote_word Port.modulator (u32 (header_word h)) ∷ [])
                  (fifo_modulate-Sends b d (header_word h))
                  (Sends-result sent_header (refl, refl))))))))

  -- Between packets, with a rate of the enumeration, and flags that settle, the head is sent in
  -- full: four preambles, the delimiter, the rate and the header word, and no other call is made
  -- but polls and trigger pulses. The stored sum is that of the header's fields.
  pub header_lem :
      (s : State)
      → stage s.events ≡ Stage.whole
      → Returns
          (λ h' s'.
            (h' ≡ record h { crc8 = u8 (crc8 (header_bits h)) })
            × Sent (head_stream h) (record s { triggered = 0 }) s'
            × InPacket s')
          (build_tx_plcp_header b h s)
  unfolding build_tx_plcp_header
  header_lem s at =
      Returns.bind (fifo_wait-Unmoved b d (record s { triggered = 0 }) at) λ _ t unmoved.
        Returns.mono
          (IsHead-Sends.at t (under_way idle unmoved.same_triggered (unmoved.same_stage ∙ at)))
          λ h' s' (out, (stored, all), sent, k).
            (stored, Sent-append unmoved.sent (subst (λ es. Sent es t s') all sent), k)
