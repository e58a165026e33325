-- ===== src/Ctrl/Reply.antt =====
-- The acknowledgement of a command.
use hbc_mac_src.Base.{ℕ, ◌+◌, ◌*◌, ◌%◌, ◌^◌, ◌<◌, ◌≡◌, ◌∙◌, arith}
use hbc_mac_src.Base.Bits.Fields.{or_above, field_of}
use hbc_mac_src.Crc.{crc8}
use hbc_mac_src.Header.{crc_ok, read_crc}
use hbc_mac_src.Header.RoundTrip.{crc_ok_iff, crc8-lt, crc8_low}
use hbc_mac_src.Ctrl.{reply_word}

-- The three bytes of an acknowledgement that its sum is taken of.
abbrev pub reply_bits : ℕ → ℕ → ℕ → ℕ
reply_bits header cmd arg = header + cmd * 2 ^ 8 + arg * 2 ^ 16

-- An acknowledgement is its three bytes, the lowest first, and the sum of these on top.
pub reply_word_lem :
    (header cmd arg : ℕ)
    → header < 256
    → cmd < 256
    → arg < 256
    → reply_word header cmd arg
      ≡ reply_bits header cmd arg + crc8 (reply_bits header cmd arg) * 2 ^ 24
unfolding reply_word
reply_word_lem header cmd arg h hc ha =
    let one = or_above 8 header cmd (omega arith) in
    let two = or_above 16 (header + cmd * 2 ^ 8) arg (omega arith) in
    let cmd_byte : cmd % 2 ^ 8 ≡ cmd = omega arith in
    let arg_byte : arg % 2 ^ 8 ≡ arg = omega arith in
    let small = crc8-lt (reply_bits header cmd arg) in
    let cut : (crc8 (reply_bits header cmd arg) * 2 ^ 24) % 2 ^ 32
        ≡ crc8 (reply_bits header cmd arg) * 2 ^ 24 =
      omega (arith, small) in
    let three =
      or_above 24 (reply_bits header cmd arg) (crc8 (reply_bits header cmd arg)) (omega arith) in
    rw (cmd_byte, arg_byte, one, two, cut) three

-- An acknowledgement of bytes carries a right sum: the test of rx_check_crc_ok on a word accepts
-- it.
crc_ok-reply_word :
    (header cmd arg : ℕ)
    → header < 256
    → cmd < 256
    → arg < 256
    → crc_ok (reply_word header cmd arg) ≡ 1
unfolding read_crc
crc_ok-reply_word header cmd arg h hc ha =
    let bits = reply_bits header cmd arg in
    let word = reply_word header cmd arg in
    let sum = reply_word_lem header cmd arg h hc ha in
    let small = crc8-lt bits in
    let low : bits % 2 ^ 24 ≡ word % 2 ^ 24 = omega (arith, sum) in
    let top : read_crc word ≡ crc8 bits = omega (arith, sum, small, field_of 24 8 word) in
    (crc_ok_iff word (omega (arith, sum, small))).1 (top ∙ crc8_low bits word low)
