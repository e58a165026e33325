-- ===== src/Tx.antt =====
-- src/build_tx.c: the transmitter. A packet is four preambles, a start frame delimiter, the header
-- word and the payload, each as words into the FIFO or the modulator.
pub mod Stream
pub mod Sends
pub mod Packet
pub mod Payload
pub mod Whole
pub mod Aside
pub mod Spread
pub mod OnAir
pub mod Delimiter
use hbc_mac_src.Base.{
  ℕ, zero, suc, ◌+◌, ◌-◌, ◌*◌, ◌/◌, ◌%◌, ◌^◌, ◌==◌, ◌<<<◌, bit_and, bit_xor, truth, u8, not,
  if◌then◌else◌,
}
use hbc_mac_src.Machine.{Board, PlcpHeader, M, Action, pure, ◌>>=◌, ◌>>◌}
use hbc_mac_src.Fifo.{
  fifo_write, fifo_modulate, fifo_modulate_sf, fifo_write_size, fifo_wait, fifo_reset, fifo_flush,
  fifo_trigger,
}
use hbc_mac_src.Scrambler.{scrambler_read, scrambler_reseed}
use hbc_mac_src.Mem.{mem_read}
use hbc_mac_src.Crc.{crc8}
use hbc_mac_src.Header.{header_bits, header_word}

abbrev pub preamble_1 : ℕ
preamble_1 = 0xC4CA5018

abbrev pub preamble_2 : ℕ
preamble_2 = 0xFAE4B982

abbrev pub sfd_1 : ℕ
sfd_1 = 0x565DDBCA

abbrev pub sfd_2 : ℕ
sfd_2 = 0x58267ACD

abbrev pub bit_map_32_0 : ℕ
bit_map_32_0 = 0x55555555

abbrev pub bit_map_32_1 : ℕ
bit_map_32_1 = 0xAAAAAAAA

-- tx_rate_t.
abbrev pub r_sf_64 : ℕ
r_sf_64 = 0

abbrev pub r_sf_32 : ℕ
r_sf_32 = 1

abbrev pub r_sf_16 : ℕ
r_sf_16 = 2

abbrev pub r_sf_8 : ℕ
r_sf_8 = 3

-- A value outside the enumeration leaves the size of the FIFO as it is.
unfoldable pub fifo_set_rate : ℕ → Action
unfolding fifo_modulate_sf fifo_write_size
fifo_set_rate rate =
    fifo_modulate_sf rate
    >> (if rate == r_sf_64
        then fifo_write_size 32
        else if rate == r_sf_32
        then fifo_write_size 32
        else if rate == r_sf_16
        then fifo_write_size 16
        else if rate == r_sf_8
        then fifo_write_size 8
        else pure tt)

module _ (b : Board) where
  -- The loop of put_bitmap_32, on the rounds left: `i` is 32 - left.
  unfoldable pub bitmap_loop : ℕ → ℕ → Action
  unfolding fifo_write
  bitmap_loop code zero = pure tt
  bitmap_loop code (suc left) =
      (if truth (bit_and code (1 <<< left))
        then fifo_write b bit_map_32_1
        else fifo_write b bit_map_32_0)
      >> bitmap_loop code left

  unfoldable pub put_bitmap_32 : ℕ → Action
  unfolding fifo_set_rate bitmap_loop
  put_bitmap_32 code = fifo_set_rate r_sf_8 >> bitmap_loop code 32

  unfoldable pub build_tx_preamble : Action
  unfolding put_bitmap_32
  build_tx_preamble = put_bitmap_32 preamble_1 >> put_bitmap_32 preamble_2

  unfoldable pub put_sfd : Action
  unfolding put_bitmap_32
  put_sfd = put_bitmap_32 sfd_1 >> put_bitmap_32 sfd_2

  -- The switch of build_tx_sfd. A rate outside the enumeration sends nothing.
  unfoldable pub sfd_at_rate : ℕ → Action
  unfolding put_sfd fifo_write fifo_write_size
  sfd_at_rate rate =
      if rate == r_sf_64
      then (do
        put_sfd
        fifo_write_size 32
        fifo_write b bit_map_32_0
        fifo_write b bit_map_32_0
        fifo_write b bit_map_32_0)
      else if rate == r_sf_32
      then (do
        fifo_write_size 16
        fifo_write b bit_map_32_0
        put_sfd
        fifo_write_size 32
        fifo_write b bit_map_32_0
        fifo_write b bit_map_32_0
        fifo_write_size 16
        fifo_write b bit_map_32_0)
      else if rate == r_sf_16
      then (do
        fifo_write_size 32
        fifo_write b bit_map_32_0
        put_sfd
        fifo_write_size 32
        fifo_write b bit_map_32_0
        fifo_write b bit_map_32_0)
      else if rate == r_sf_8
      then (do
        fifo_write_size 32
        fifo_write b bit_map_32_0
        fifo_write_size 16
        fifo_write b bit_map_32_0
        put_sfd
        fifo_write_size 32
        fifo_write b bit_map_32_0
        fifo_write_size 16
        fifo_write b bit_map_32_0)
      else pure tt

  unfoldable pub build_tx_sfd : PlcpHeader → Action
  unfolding sfd_at_rate
  build_tx_sfd h = if not (truth h.use_ri) then put_sfd else sfd_at_rate h.data_rate

  -- The header comes back with its sum stored, as the source writes through its pointer.
  unfoldable pub build_tx_plcp_header : PlcpHeader → M PlcpHeader
  unfolding fifo_reset fifo_wait build_tx_preamble build_tx_sfd fifo_set_rate fifo_modulate
      header_word
  build_tx_plcp_header h = do
    fifo_reset
    fifo_wait b
    build_tx_preamble
    build_tx_preamble
    build_tx_preamble
    build_tx_preamble
    build_tx_sfd h
    fifo_set_rate (if truth h.use_ri then h.data_rate else r_sf_64)
    fifo_modulate b (header_word h)
    pure (record h { crc8 = u8 (crc8 (header_bits h)) })

  -- The loop of build_tx_payload, on the words left.
  unfoldable pub payload_loop : ℕ → Action
  unfolding mem_read scrambler_read fifo_modulate
  payload_loop zero = pure tt
  payload_loop (suc num_words) =
      (do word ← mem_read b; scram ← scrambler_read b; fifo_modulate b (bit_xor word scram))
      >> payload_loop num_words

  -- The result counts the whole words alone: it is taken before the last, partial word is added.
  unfoldable pub build_tx_payload : PlcpHeader → M ℕ
  unfolding fifo_set_rate scrambler_reseed payload_loop fifo_flush fifo_trigger
  build_tx_payload h =
      let whole = u8 (u8 h.pdsu_length / 4) in
      let num_words = if truth (u8 h.pdsu_length % 4) then u8 (whole + 1) else whole in
      do
        fifo_set_rate h.data_rate
        scrambler_reseed h.scrambler_seed
        payload_loop num_words
        fifo_flush
        fifo_trigger
        pure whole
