-- ===== src/Header/RoundTrip.antt =====
-- What the transmitter packs, the receiver reads, and its check accepts.
use hbc_mac_src.Base.{
  ℕ, ◌+◌, ◌*◌, ◌/◌, ◌%◌, ◌^◌, ◌<◌, ◌≡◌, ◌↔◌, refl, ◌∙◌, sym, arith, List, [], ◌∷◌, ◌++◌, bit_and,
  truth, if◌then◌else◌,
}
use hbc_mac_src.Base.Bits.Fields.{or_above, field_of}
use hbc_mac_src.Machine.{PlcpHeader}
use hbc_mac_src.Crc.{crc8, crc8_update, crc8_init, crc_over}
use hbc_mac_src.Crc.Laws.{accepted_iff, over-lt, update_same}
use hbc_mac_src.Header.{
  read_dr, read_pi, read_bm, read_ss, read_len, read_crc, header_bits, header_word, crc_ok,
}

-- The fields have the widths of the masks.
pub record IsInRange (h : PlcpHeader) : Type 0 where
  pub data_rate : h.data_rate < 8
  pub pilot_info : h.pilot_info < 8
  pub burst_mode : h.burst_mode < 2
  pub scrambler_seed : h.scrambler_seed < 2
  pub pdsu_length : h.pdsu_length < 256

pub bits_sum :
    (h : PlcpHeader)
    → IsInRange h
    → header_bits h
      ≡ h.data_rate
        + h.pilot_info * 2 ^ 3
        + h.burst_mode * 2 ^ 8
        + h.scrambler_seed * 2 ^ 11
        + h.pdsu_length * 2 ^ 16
unfolding header_bits
bits_sum h r =
    let dr = h.data_rate in
    let pi = dr + h.pilot_info * 2 ^ 3 in
    let bm = pi + h.burst_mode * 2 ^ 8 in
    let ss = bm + h.scrambler_seed * 2 ^ 11 in
    ground (
      arith,
      or_above 0 0 dr (omega arith),
      or_above 3 dr h.pilot_info (omega arith),
      or_above 8 pi h.burst_mode (omega arith),
      or_above 11 bm h.scrambler_seed (omega arith),
      or_above 16 ss h.pdsu_length (omega arith),
    )

abbrev low_bytes : ℕ → List ℕ
low_bytes w = (w / 2 ^ 0) ∷ (w / 2 ^ 8) ∷ (w / 2 ^ 16) ∷ []

crc8_over : (w : ℕ) → crc8 w ≡ crc_over crc8_init (low_bytes w)
unfolding crc8 crc_over
crc8_over w = refl

pub crc8-lt : (w : ℕ) → crc8 w < 256
crc8-lt w = rw crc8_over (over-lt crc8_init (low_bytes w) (omega arith))

pub word_sum :
    (h : PlcpHeader) → IsInRange h → header_word h ≡ header_bits h + crc8 (header_bits h) * 2 ^ 24
unfolding header_word
word_sum h r = ground (
  arith,
  bits_sum h r,
  crc8-lt (header_bits h),
  or_above 24 (header_bits h) (crc8 (header_bits h)) (omega (arith, bits_sum h r)),
)

-- The packed word gives back every field that was packed, and its sum.
pub read_header :
    (h : PlcpHeader)
    → IsInRange h
    → (read_dr (header_word h) ≡ h.data_rate)
      × (read_pi (header_word h) ≡ h.pilot_info)
      × (read_bm (header_word h) ≡ h.burst_mode)
      × (read_ss (header_word h) ≡ h.scrambler_seed)
      × (read_len (header_word h) ≡ h.pdsu_length)
      × (read_crc (header_word h) ≡ crc8 (header_bits h))
unfolding read_dr read_pi read_bm read_ss read_len read_crc
read_header h r =
    let sum = word_sum h r in
    let fields = bits_sum h r in
    let small = crc8-lt (header_bits h) in
    let w = header_word h in
    (
      omega (arith, sum, fields, field_of 0 3 w),
      omega (arith, sum, fields, field_of 3 3 w),
      omega (arith, sum, fields, field_of 8 1 w),
      omega (arith, sum, fields, field_of 11 1 w),
      omega (arith, sum, fields, field_of 16 8 w),
      omega (arith, sum, fields, small, field_of 24 8 w),
    )

-- The sum looks at the low three bytes alone.
pub crc8_low : (w v : ℕ) → w % 2 ^ 24 ≡ v % 2 ^ 24 → crc8 w ≡ crc8 v
unfolding crc8
crc8_low w v e =
    let one = update_same crc8_init (w / 2 ^ 0) (v / 2 ^ 0) (omega arith) in
    let mid = crc8_update crc8_init (v / 2 ^ 0) in
    let two = update_same mid (w / 2 ^ 8) (v / 2 ^ 8) (omega arith) in
    let top = crc8_update mid (v / 2 ^ 8) in
    rw (one, two) (update_same top (w / 2 ^ 16) (v / 2 ^ 16) (omega arith))

none_left : (crc : ℕ) → (if◌then◌else◌ {A = ℕ} (truth crc) 0 1 ≡ 1) ↔ (crc ≡ 0)
none_left crc = ground arith

crc_ok_zero : (w : ℕ) → (crc_ok w ≡ 1) ↔ (crc_over crc8_init (low_bytes w ++ (w / 2 ^ 24) ∷ []) ≡ 0)
unfolding crc_ok crc_over
crc_ok_zero w = none_left (crc_over crc8_init (low_bytes w ++ (w / 2 ^ 24) ∷ []))

-- The receiver accepts a word exactly if its top byte is the sum of the three below it.
pub crc_ok_iff : (w : ℕ) → w < 2 ^ 32 → (crc_ok w ≡ 1) ↔ (read_crc w ≡ crc8 w)
unfolding read_crc
crc_ok_iff w h =
    let zero_iff = crc_ok_zero w in
    let byte_iff = accepted_iff (low_bytes w) (w / 2 ^ 24) in
    let sum = crc8_over w in
    let top : bit_and w 0xff00_0000 / 2 ^ 24 ≡ w / 2 ^ 24 % 2 ^ 8 = field_of 24 8 w in
    (
      λ e. top ∙ byte_iff.0 (zero_iff.0 e) ∙ sym sum,
      λ e. zero_iff.1 (byte_iff.1 (sym top ∙ e ∙ sum)),
    )

pub word-lt : (h : PlcpHeader) → IsInRange h → header_word h < 2 ^ 32
word-lt h r = omega (arith, word_sum h r, bits_sum h r, crc8-lt (header_bits h))

-- What the transmitter sends, the receiver accepts.
pub crc_ok-header_word : (h : PlcpHeader) → IsInRange h → crc_ok (header_word h) ≡ 1
crc_ok-header_word h r =
    let low : header_bits h % 2 ^ 24 ≡ header_word h % 2 ^ 24 =
      omega (arith, word_sum h r, bits_sum h r) in
    let sent = (read_header h r).5 in
    (crc_ok_iff (header_word h) (word-lt h r)).1
      (sent ∙ crc8_low (header_bits h) (header_word h) low)
