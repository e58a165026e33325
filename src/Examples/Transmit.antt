-- ===== src/Examples/Transmit.antt =====
-- The transmitter's theorems at a packet of five bytes, and its functions on small inputs.
use hbc_mac_src.Base.{◌%◌, ◌≡◌, ◌≢◌, ◌↔◌, refl, arith, List, [], ◌∷◌}
use hbc_mac_src.Machine.{Event, ◌>>=◌}
use hbc_mac_src.Machine.Returns.{Returns}
use hbc_mac_src.Machine.Sent.{Sent, InPacket}
use hbc_mac_src.Machine.Stage.{idle}
use hbc_mac_src.Crc.{crc8, crc8_init, crc_over, crc8_update}
use hbc_mac_src.Crc.Laws.{single_byte_detected, accepted_iff}
use hbc_mac_src.Header.{
  read_dr, read_pi, read_bm, read_ss, read_len, read_crc, header_bits, header_word, crc_ok,
}
use hbc_mac_src.Header.RoundTrip.{IsInRange, read_header, crc_ok_iff}
use hbc_mac_src.Tx.{build_tx_plcp_header, build_tx_payload, build_tx_sfd}
use hbc_mac_src.Tx.Whole.{IsPacket, packet_lem}
use hbc_mac_src.Tx.Delimiter.{IsPlaced, build_tx_sfd-IsPlaced}
use hbc_mac_src.Examples.Boards.{busy_board, busy-Drains, header, boot}

header-IsInRange : IsInRange header
header-IsInRange = omega arith

packet_lem_example :
    Returns
      (λ n s'. (n ≡ 1) × IsPacket header boot s')
      ((build_tx_plcp_header busy_board header >>= build_tx_payload busy_board) boot)
packet_lem_example = packet_lem busy_board header busy-Drains (omega arith) (omega arith) boot refl

build_tx_sfd-IsPlaced_example :
    Returns
      (λ a s'. (out : List Event) × IsPlaced 2 out × Sent out boot s' × InPacket s')
      (build_tx_sfd busy_board header boot)
build_tx_sfd-IsPlaced_example =
    build_tx_sfd-IsPlaced busy_board header busy-Drains (omega arith) refl boot idle

read_header_example :
    (read_dr (header_word header) ≡ 2)
    × (read_pi (header_word header) ≡ 6)
    × (read_bm (header_word header) ≡ 0)
    × (read_ss (header_word header) ≡ 1)
    × (read_len (header_word header) ≡ 5)
    × (read_crc (header_word header) ≡ crc8 (header_bits header))
read_header_example = read_header header header-IsInRange

crc_ok_iff_example : (crc_ok 0x12345678 ≡ 1) ↔ (read_crc 0x12345678 ≡ crc8 0x12345678)
crc_ok_iff_example = crc_ok_iff 0x12345678 (omega arith)

single_byte_detected_example :
    crc_over crc8_init (1 ∷ 2 ∷ 3 ∷ []) ≢ crc_over crc8_init (1 ∷ 7 ∷ 3 ∷ [])
single_byte_detected_example = single_byte_detected (1 ∷ []) (3 ∷ []) 2 7 (omega arith)

accepted_iff_example :
    (crc_over crc8_init (1 ∷ 2 ∷ 3 ∷ []) ≡ 0) ↔ (3 % 256 ≡ crc_over crc8_init (1 ∷ 2 ∷ []))
accepted_iff_example = accepted_iff (1 ∷ 2 ∷ []) 3

-- The header word of the example, as the source packs it.
header_word_run : header_word header % 0x1000000 ≡ 0x050832
unfolding header_word crc8
header_word_run = refl

crc8_update_run : crc8_update 0xFF 0x00 ≡ crc8_update 0 0xFF
unfolding crc8_update
crc8_update_run = refl
