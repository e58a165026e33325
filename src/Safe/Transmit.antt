-- ===== src/Safe/Transmit.antt =====
-- The transmitter and mem_test touch no variable of extract_rx.c, spi.c or main.c.
use hbc_mac_src.Base.{
  ℕ, zero, suc, ◌+◌, ◌/◌, ◌%◌, ltb, bit_xor, ◌==◌, if◌then◌else◌, u32, u8, truth, not, bit_and,
  ◌<<<◌,
}
use hbc_mac_src.Machine.{Board, PlcpHeader}
use hbc_mac_src.Machine.Keeps.{Condition, Keeps, Keeps-pure}
use hbc_mac_src.Machine.Keeps.Blocks.{◌>>=◌, ◌>>◌, branch}
use hbc_mac_src.Safe.Drivers.{
  Keeps-fifo_trigger, Keeps-fifo_flush, Keeps-fifo_reset, Keeps-fifo_write_size,
  Keeps-fifo_modulate_sf, Keeps-fifo_wait, Keeps-fifo_write, Keeps-fifo_modulate,
  Keeps-scrambler_read, Keeps-scrambler_reseed, Keeps-mem_set_wr_p, Keeps-mem_set_rd_p,
  Keeps-mem_set_flags, Keeps-mem_write, Keeps-mem_get_flags, Keeps-mem_read,
}
use hbc_mac_src.Mem.{fill_loop, compare_loop, mem_test}
use hbc_mac_src.Crc.{crc8}
use hbc_mac_src.Header.{header_bits, header_word}
use hbc_mac_src.Tx.{
  fifo_set_rate, bitmap_loop, put_bitmap_32, build_tx_preamble, put_sfd, sfd_at_rate, build_tx_sfd,
  build_tx_plcp_header, payload_loop, build_tx_payload, r_sf_64, r_sf_32, r_sf_16, r_sf_8,
  bit_map_32_0, bit_map_32_1, preamble_1, preamble_2, sfd_1, sfd_2,
}

module _ {J : Condition} where
  pub Keeps-fifo_set_rate : (rate : ℕ) → Keeps J (fifo_set_rate rate)
  unfolding fifo_set_rate
  Keeps-fifo_set_rate rate =
      Keeps-fifo_modulate_sf rate
      >> branch (rate == r_sf_64) (Keeps-fifo_write_size 32) (
          branch (rate == r_sf_32) (Keeps-fifo_write_size 32) (
            branch (rate == r_sf_16) (Keeps-fifo_write_size 16)
              (branch (rate == r_sf_8) (Keeps-fifo_write_size 8) (Keeps-pure tt))))

module _ {J : Condition} (b : Board) where
  pub Keeps-fill_loop : (n : ℕ) → Keeps J (fill_loop b n)
  unfolding fill_loop
  Keeps-fill_loop zero = Keeps-pure tt
  Keeps-fill_loop (suc n) = (do w ← Keeps-scrambler_read b; Keeps-mem_write w) >> Keeps-fill_loop n

  pub Keeps-compare_loop : (n errors : ℕ) → Keeps J (compare_loop b n errors)
  unfolding compare_loop
  Keeps-compare_loop zero errors = Keeps-pure errors
  Keeps-compare_loop (suc n) errors = do
    mem ← Keeps-mem_read b
    scram ← Keeps-scrambler_read b
    Keeps-compare_loop n (if mem == scram then errors else u32 (errors + 1))

  pub Keeps-mem_test : (bytes : ℕ) → Keeps J (mem_test b bytes)
  unfolding mem_test
  Keeps-mem_test bytes = do
    flags ← Keeps-mem_get_flags b
    Keeps-mem_set_flags 0
    Keeps-mem_set_wr_p 0
    Keeps-scrambler_reseed 0
    Keeps-fill_loop (bytes / 4)
    Keeps-mem_set_rd_p 0
    Keeps-mem_set_wr_p 0
    Keeps-scrambler_reseed 0
    errors ← Keeps-compare_loop (bytes / 4) 0
    Keeps-mem_set_rd_p 0
    Keeps-mem_set_wr_p 0
    Keeps-scrambler_reseed 0
    Keeps-mem_set_flags flags
    Keeps-pure (if ltb 0xff errors then 0xff else u8 errors)

  pub Keeps-bitmap_loop : (code n : ℕ) → Keeps J (bitmap_loop b code n)
  unfolding bitmap_loop
  Keeps-bitmap_loop code zero = Keeps-pure tt
  Keeps-bitmap_loop code (suc left) =
      branch (truth (bit_and code (1 <<< left))) (Keeps-fifo_write b bit_map_32_1)
        (Keeps-fifo_write b bit_map_32_0)
      >> Keeps-bitmap_loop code left

  Keeps-put_bitmap_32 : (code : ℕ) → Keeps J (put_bitmap_32 b code)
  unfolding put_bitmap_32
  Keeps-put_bitmap_32 code = Keeps-fifo_set_rate r_sf_8 >> Keeps-bitmap_loop code 32

  Keeps-build_tx_preamble : Keeps J (build_tx_preamble b)
  unfolding build_tx_preamble
  Keeps-build_tx_preamble = Keeps-put_bitmap_32 preamble_1 >> Keeps-put_bitmap_32 preamble_2

  Keeps-put_sfd : Keeps J (put_sfd b)
  unfolding put_sfd
  Keeps-put_sfd = Keeps-put_bitmap_32 sfd_1 >> Keeps-put_bitmap_32 sfd_2

  Keeps-sfd_at_rate : (rate : ℕ) → Keeps J (sfd_at_rate b rate)
  unfolding sfd_at_rate
  Keeps-sfd_at_rate rate =
      let space = Keeps-fifo_write {J = J} b bit_map_32_0 in
      branch (rate == r_sf_64)
        (Keeps-put_sfd >> (Keeps-fifo_write_size 32 >> (space >> (space >> space))))
        (branch (rate == r_sf_32)
          (do
            Keeps-fifo_write_size 16
            space
            Keeps-put_sfd
            Keeps-fifo_write_size 32
            space
            space
            Keeps-fifo_write_size 16
            space)
          (branch (rate == r_sf_16)
            (do
              Keeps-fifo_write_size 32
              space
              Keeps-put_sfd
              Keeps-fifo_write_size 32
              space
              space)
            (branch (rate == r_sf_8)
              (do
                Keeps-fifo_write_size 32
                space
                Keeps-fifo_write_size 16
                space
                Keeps-put_sfd
                Keeps-fifo_write_size 32
                space
                Keeps-fifo_write_size 16
                space)
              (Keeps-pure tt))))

  Keeps-build_tx_sfd : (h : PlcpHeader) → Keeps J (build_tx_sfd b h)
  unfolding build_tx_sfd
  Keeps-build_tx_sfd h = branch (not (truth h.use_ri)) Keeps-put_sfd (Keeps-sfd_at_rate h.data_rate)

  pub Keeps-build_tx_plcp_header : (h : PlcpHeader) → Keeps J (build_tx_plcp_header b h)
  unfolding build_tx_plcp_header
  Keeps-build_tx_plcp_header h = do
    Keeps-fifo_reset
    Keeps-fifo_wait b
    Keeps-build_tx_preamble
    Keeps-build_tx_preamble
    Keeps-build_tx_preamble
    Keeps-build_tx_preamble
    Keeps-build_tx_sfd h
    Keeps-fifo_set_rate (if truth h.use_ri then h.data_rate else r_sf_64)
    Keeps-fifo_modulate b (header_word h)
    Keeps-pure (record h { crc8 = u8 (crc8 (header_bits h)) })

  Keeps-payload_loop : (n : ℕ) → Keeps J (payload_loop b n)
  unfolding payload_loop
  Keeps-payload_loop zero = Keeps-pure tt
  Keeps-payload_loop (suc n) =
      (do
        word ← Keeps-mem_read b
        scram ← Keeps-scrambler_read b
        Keeps-fifo_modulate b (bit_xor word scram))
      >> Keeps-payload_loop n

  pub Keeps-build_tx_payload : (h : PlcpHeader) → Keeps J (build_tx_payload b h)
  unfolding build_tx_payload
  Keeps-build_tx_payload h =
      let whole : ℕ = u8 (u8 h.pdsu_length / 4) in
      do
        Keeps-fifo_set_rate h.data_rate
        Keeps-scrambler_reseed h.scrambler_seed
        Keeps-payload_loop (if truth (u8 h.pdsu_length % 4) then u8 (whole + 1) else whole)
        Keeps-fifo_flush
        Keeps-fifo_trigger
        Keeps-pure whole
