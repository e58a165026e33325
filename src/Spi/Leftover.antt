-- ===== src/Spi/Leftover.antt =====
-- A load that ends inside a word, and the load after it: hbc_spi_load_bytes leaves the word that
-- was begun as it is.
use hbc_mac_src.Base.{ℕ, ◌+◌, ◌*◌, ◌%◌, ◌^◌, ◌<◌, ◌≡◌, ◌∙◌, refl, u32, arith, [], ◌∷◌, bit_or, some}
use hbc_mac_src.Base.Bits.Fields.{or_above, or-lt, zero-or}
use hbc_mac_src.Machine.{Port, wrote_word, State, ◌>>◌}
use hbc_mac_src.Spi.{load_byte, hbc_spi_load_bytes}
use hbc_mac_src.Spi.Load.{word_of, load_bytes, IsAligned}

-- The first word of a load, on top of a byte that was left.
merged :
    (r x y z w : ℕ)
    → r < 256
    → x < 256
    → y < 256
    → z < 256
    → w < 256
    → bit_or
        (bit_or (bit_or (bit_or r (u32 (x * 2 ^ 0))) (u32 (y * 2 ^ 8))) (u32 (z * 2 ^ 16)))
        (u32 (w * 2 ^ 24))
      ≡ word_of (bit_or r x) y z w
merged r x y z w hr hx hy hz hw =
    let low = or-lt 8 r x (omega arith) (omega arith) in
    let cut : u32 (x * 2 ^ 0) ≡ x = omega arith in
    rw cut (
      ground (
        arith,
        low,
        or_above 8 (bit_or r x) y (omega (arith, low)),
        or_above 16 (bit_or r x + y * 2 ^ 8) z (omega (arith, low)),
        or_above 24 (bit_or r x + y * 2 ^ 8 + z * 2 ^ 16) w (omega (arith, low)),
      ))

-- The state behind one word stored.
abbrev pub one_word : ℕ → State → State
one_word word s = record s {
  events =
      wrote_word Port.mem_rd_wr word ∷ wrote_word Port.mem_wr_p (u32 s.spi.load_addr) ∷ s.events;
  spi = record (s.spi) {
    load_addr = u32 (s.spi.load_addr + 4);
    loading_mem = 0;
    load_index = 0;
    rd_data = 0;
  };
}

-- After a load of one byte, which is not stored, the first word of the next load carries that byte
-- merged into its own first byte, by `|`.
pub leftover_byte :
    (r x y z w : ℕ) (s : State)
    → r < 256
    → x < 256
    → y < 256
    → z < 256
    → w < 256
    → IsAligned s.spi
    → (hbc_spi_load_bytes 1 0
          >> (load_bytes (r ∷ []) >> (hbc_spi_load_bytes 4 0 >> load_bytes (x ∷ y ∷ z ∷ w ∷ []))))
        s
      ≡ some (tt, one_word (word_of (bit_or r x) y z w) s)
unfolding hbc_spi_load_bytes load_bytes load_byte
leftover_byte r x y z w s hr hx hy hz hw at =
    let begun : bit_or 0 (u32 (r * 2 ^ 0)) ≡ r = zero-or (u32 (r * 2 ^ 0)) ∙ omega arith in
    let word = merged r x y z w hr hx hy hz hw in
    let low = or-lt 8 r x (omega arith) (omega arith) in
    let fits : word_of (bit_or r x) y z w % 2 ^ 32 ≡ word_of (bit_or r x) y z w =
      omega (arith, low) in
    rw (at.empty, begun, word, fits) refl
