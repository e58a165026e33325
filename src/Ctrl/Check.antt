-- ===== src/Ctrl/Check.antt =====
-- The comparison of rx_check_packet, when a packet does not end at a word.
use hbc_mac_src.Base.{ℕ, suc, ◌+◌, ◌*◌, ◌%◌, ◌≡◌, refl, ◌∙◌, sym, true, arith, bit_and}
use hbc_mac_src.Base.Bits.Fields.{and_ones}
use hbc_mac_src.Machine.{Board, State}
use hbc_mac_src.Ctrl.{check_loop, refill}

same_low : (x y : ℕ) → x % 256 ≡ y % 256 → bit_and x 0xff ≡ bit_and y 0xff
same_low x y e = and_ones 8 x ∙ e ∙ sym (and_ones 8 y)

-- Of a packet of one byte more than some whole words, the comparison does not depend on the bytes
-- of the first words behind their first: words that agree in their lowest byte give the same.
pub first_words_skipped :
    (b : Board) (k correct chk chk' word word' : ℕ) (s : State)
    → chk % 256 ≡ chk' % 256
    → word % 256 ≡ word' % 256
    → check_loop b (4 * suc k + 1) correct chk word s
      ≡ check_loop b (4 * suc k + 1) correct chk' word' s
unfolding check_loop
first_words_skipped b k correct chk chk' word word' s e e' =
    let due : refill (4 * suc k) ≡ true = ground arith in
    let bytes : 4 * suc k + 1 ≡ suc (4 * suc k) = omega arith in
    rw (bytes, due, same_low chk chk' e, same_low word word' e') refl
