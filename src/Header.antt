-- ===== src/Header.antt =====
-- The header word of a packet: HDR_READ and the masks of build_tx.h, the packing at the top of
-- build_tx_plcp_header, and the check of rx_check_crc_ok on the word that was received.
pub mod RoundTrip
use hbc_mac_src.Base.{ℕ, ◌<<<◌, ◌>>>◌, bit_and, bit_or, truth, u8, u32, if◌then◌else◌}
use hbc_mac_src.Machine.{PlcpHeader}
use hbc_mac_src.Crc.{crc8, crc8_update, crc8_init}

-- HDR_READ(hdr, member), one function for each member.
unfoldable pub read_dr : ℕ → ℕ
read_dr hdr = bit_and hdr 0x0000_0007 >>> 0

unfoldable pub read_pi : ℕ → ℕ
read_pi hdr = bit_and hdr 0x0000_0038 >>> 3

unfoldable pub read_bm : ℕ → ℕ
read_bm hdr = bit_and hdr 0x0000_0100 >>> 8

unfoldable pub read_ss : ℕ → ℕ
read_ss hdr = bit_and hdr 0x0000_0800 >>> 11

unfoldable pub read_len : ℕ → ℕ
read_len hdr = bit_and hdr 0x00ff_0000 >>> 16

unfoldable pub read_crc : ℕ → ℕ
read_crc hdr = bit_and hdr 0xff00_0000 >>> 24

-- `header_bits` before its CRC is known. Every shift is cut to 32 bits.
unfoldable pub header_bits : PlcpHeader → ℕ
header_bits h =
    let rate = bit_or 0 (u32 (h.data_rate <<< 0)) in
    let pilot = bit_or rate (u32 (h.pilot_info <<< 3)) in
    let burst = bit_or pilot (u32 (h.burst_mode <<< 8)) in
    let seed = bit_or burst (u32 (h.scrambler_seed <<< 11)) in
    bit_or seed (u32 (u8 h.pdsu_length <<< 16))

-- The word that is sent.
unfoldable pub header_word : PlcpHeader → ℕ
unfolding header_bits
header_word h = let bits = header_bits h in bit_or bits (u32 (u8 (crc8 bits) <<< 24))

-- rx_check_crc_ok, of the header that was received.
unfoldable pub crc_ok : ℕ → ℕ
crc_ok header =
    let one = crc8_update crc8_init (header >>> 0) in
    let two = crc8_update one (header >>> 8) in
    let three = crc8_update two (header >>> 16) in
    let four = crc8_update three (header >>> 24) in if truth four then 0 else 1
