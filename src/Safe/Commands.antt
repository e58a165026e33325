-- ===== src/Safe/Commands.antt =====
-- The commands of src/main.c keep what is closed under the updates of the program.
use hbc_mac_src.Base.{
  ℕ, zero, suc, ◌+◌, ◌-◌, ◌^◌, ◌==◌, ◌>>>◌, bit_and, not, truth, ltb, if◌then◌else◌,
}
use hbc_mac_src.Machine.{Board}
use hbc_mac_src.Machine.Keeps.{Condition, Keeps, Keeps-pure}
use hbc_mac_src.Machine.Keeps.Blocks.{◌>>=◌, ◌>>◌, branch}
use hbc_mac_src.Safe.{Closed}
use hbc_mac_src.Safe.Drivers.{Keeps-mem_set_rd_p, Keeps-mem_read}
use hbc_mac_src.Safe.Receiver.{
  Keeps-rx_packet_ready, Keeps-rx_packet_length, Keeps-rx_bytes_read, Keeps-rx_check_crc_ok,
  Keeps-rx_read, Keeps-rx_packet_next,
}
use hbc_mac_src.Safe.Channels.{Keeps-hbc_spi_ack}
use hbc_mac_src.Ctrl

module _ {J : Condition} {b : Board} {p : Ctrl.Protocol} (closed : Closed b p J) where
  Keeps-check_loop : (left correct chk word : ℕ) → Keeps J (Ctrl.check_loop b left correct chk word)
  unfolding Ctrl.check_loop
  Keeps-check_loop zero correct chk word = Keeps-pure correct
  Keeps-check_loop (suc left) correct chk word = do
    next_chk ← branch (Ctrl.refill left) (Keeps-mem_read b) (Keeps-pure (chk >>> 8))
    next_word ← branch (Ctrl.refill left) (Keeps-rx_read closed) (Keeps-pure (word >>> 8))
    Keeps-check_loop left (if bit_and chk 0xff == bit_and word 0xff then correct + 1 else correct)
        next_chk next_word

  Keeps-compare_packet : (bytes : ℕ) → Keeps J (Ctrl.compare_packet b bytes)
  unfolding Ctrl.compare_packet
  Keeps-compare_packet bytes = do
    marker ← Keeps-rx_read closed
    header ← Keeps-rx_read closed
    Keeps-mem_set_rd_p 0
    chk ← Keeps-mem_read b
    word ← Keeps-rx_read closed
    correct ← Keeps-check_loop bytes 0 chk word
    Keeps-rx_packet_next closed
    Keeps-pure correct

  Keeps-discard_packet : Keeps J (Ctrl.discard_packet b)
  unfolding Ctrl.discard_packet
  Keeps-discard_packet = do Keeps-rx_packet_next closed; Keeps-pure (2 ^ 32 - 1)

  pub Keeps-rx_check_packet : Keeps J (Ctrl.rx_check_packet b)
  unfolding Ctrl.rx_check_packet
  Keeps-rx_check_packet = do
    ready ← Keeps-rx_packet_ready closed
    branch (not (truth ready)) (Keeps-pure (2 ^ 32 - 1)) (do
      ok ← Keeps-rx_check_crc_ok
      bytes ← Keeps-rx_packet_length
      stored ← Keeps-rx_bytes_read
      branch (not (truth ok)) Keeps-discard_packet
          (branch (ltb stored bytes) Keeps-discard_packet (Keeps-compare_packet bytes)))

  pub Keeps-reply_pkt : (cmd arg : ℕ) → Keeps J (Ctrl.reply_pkt b p cmd arg)
  unfolding Ctrl.reply_pkt
  Keeps-reply_pkt cmd arg = Keeps-hbc_spi_ack closed (Ctrl.reply_word p.packet_header cmd arg)
