-- ===== src/Crc.antt =====
-- The CRC-8 of build_tx.c: the polynomial x^8 + x^7 + x^3 + x^2 + 1, lowest bit first.
pub mod Laws
use hbc_mac_src.Base.{
  ℕ, zero, suc, ◌<<<◌, ◌>>>◌, bit_and, bit_xor, ◌≡◌, refl, truth, u8, if◌then◌else◌, List, [], ◌∷◌,
}

abbrev pub crc8_poly : ℕ
crc8_poly = 0xB1

abbrev pub crc8_init : ℕ
crc8_init = 0xFF

-- One round of the loop of crc8_update.
unfoldable pub crc_round : ℕ → ℕ
crc_round crc = if truth (bit_and crc 1) then bit_xor (crc >>> 1) crc8_poly else crc >>> 1

unfoldable pub crc_rounds : ℕ → ℕ → ℕ
unfolding crc_round
crc_rounds zero crc = crc
crc_rounds (suc n) crc = crc_rounds n (crc_round crc)

-- The argument is cut to a byte by its type.
unfoldable pub crc8_update : ℕ → ℕ → ℕ
unfolding crc_rounds
crc8_update crc byte = crc_rounds 8 (bit_xor crc (u8 byte))

unfoldable pub crc8 : ℕ → ℕ
unfolding crc8_update
crc8 header =
    let one = crc8_update crc8_init (header >>> 0) in
    let two = crc8_update one (header >>> 8) in crc8_update two (header >>> 16)

-- The sum over a buffer, as rx_check_crc_ok and ctrl_cmd take it.
unfoldable pub crc_over : ℕ → List ℕ → ℕ
unfolding crc8_update
crc_over crc [] = crc
crc_over crc (x ∷ xs) = crc_over (crc8_update crc x) xs
