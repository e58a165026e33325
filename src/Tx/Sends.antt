-- ===== src/Tx/Sends.antt =====
-- The calls of each function of build_tx.c, whatever the flags of the FIFO read in between.
use hbc_mac_src.Base.{
  ℕ, zero, suc, ◌*◌, ◌/◌, ◌%◌, ◌^◌, ◌<◌, ◌==◌, ◌≡◌, refl, List, [], ◌∷◌, ◌++◌, inl, inr, arith,
  truth, bit_and, if◌then◌else◌, Bool-cases, u8,
}
use hbc_mac_src.Base.Bits.Fields.{and_shifted, and_ones}
use native.Mathlib.Nat.{one-le-pow}
use hbc_mac_src.Machine.{Board, Port, Event, wrote_byte}
use hbc_mac_src.Machine.Sent.{Sends, Exactly, Sends-pure, Sends-seq, Sends-if}
use hbc_mac_src.Fifo.Sending.{Drains, fifo_write-Sends, write_size-Sends, modulate_sf-Sends}
use hbc_mac_src.Fifo.{fifo_write}
use hbc_mac_src.Tx.{
  bitmap_loop, sfd_at_rate, put_bitmap_32, build_tx_preamble, put_sfd, fifo_set_rate, bit_map_32_0,
  bit_map_32_1, preamble_1, preamble_2, sfd_1, sfd_2,
}
use hbc_mac_src.Tx.Stream.{
  chip_words, digits_down, bitmap, preamble, sfd_code, sfd_lead, sfd_tail, fifo_word,
}

-- The test of put_bitmap_32 reads the digit.
digit_test : (code left : ℕ) → truth (bit_and code (1 * 2 ^ left)) ≡ (code / 2 ^ left % 2 == 1)
digit_test code left =
    let bit = and_shifted left code 1 in
    let low = and_ones 1 (code / 2 ^ left) in
    let pos = one-le-pow left 2 in
    rw (bit, low)
      (elim (Bool-cases (code / 2 ^ left % 2 == 1)) [
        | inl one ↦ ground arith
        | inr none ↦ ground arith
      ])

bitmap_lem :
    (code : ℕ)
    → bitmap code
      ≡ wrote_byte Port.modulator_sf 3
        ∷ wrote_byte Port.fifo_mask 8
        ∷ chip_words (digits_down 32 code)
unfolding bitmap
bitmap_lem code = refl

-- The size that goes with a rate; no size is written for a rate outside the enumeration.
unfoldable pub size_at : ℕ → List Event
size_at rate =
    if rate == 0
    then wrote_byte Port.fifo_mask 32 ∷ []
    else if rate == 1
    then wrote_byte Port.fifo_mask 32 ∷ []
    else if rate == 2
    then wrote_byte Port.fifo_mask 16 ∷ []
    else if rate == 3
    then wrote_byte Port.fifo_mask 8 ∷ []
    else []

pub set_rate-Sends :
    (rate : ℕ)
    → Sends (fifo_set_rate rate) (Exactly (wrote_byte Port.modulator_sf (u8 rate) ∷ size_at rate))
unfolding fifo_set_rate size_at
set_rate-Sends rate = Sends-seq (modulate_sf-Sends rate) (
    Sends-if (rate == 0) (write_size-Sends 32) (
      Sends-if (rate == 1) (write_size-Sends 32) (
        Sends-if (rate == 2) (write_size-Sends 16)
          (Sends-if (rate == 3) (write_size-Sends 8) (Sends-pure tt)))))

module _ (b : Board) (d : Drains b) where
  loop-Sends :
      (code left : ℕ)
      → Sends (bitmap_loop b code left) (Exactly (chip_words (digits_down left code)))
  unfolding bitmap_loop chip_words digits_down
  loop-Sends code zero = Sends-pure tt
  loop-Sends code (suc left) = elim (Bool-cases (code / 2 ^ left % 2 == 1)) [
    | inl one ↦
        rw (digit_test, one) (Sends-seq (fifo_write-Sends b d bit_map_32_1) (loop-Sends code left))
    | inr none ↦
        rw (digit_test, none) (Sends-seq (fifo_write-Sends b d bit_map_32_0) (loop-Sends code left))
  ]

  pub bitmap-Sends : (code : ℕ) → Sends (put_bitmap_32 b code) (Exactly (bitmap code))
  unfolding put_bitmap_32 size_at
  bitmap-Sends code = rw bitmap_lem (Sends-seq (set_rate-Sends 3) (loop-Sends code 32))

  pub preamble-Sends : Sends (build_tx_preamble b) (Exactly preamble)
  unfolding build_tx_preamble preamble
  preamble-Sends = Sends-seq (bitmap-Sends preamble_1) (bitmap-Sends preamble_2)

  pub put_sfd-Sends : Sends (put_sfd b) (Exactly sfd_code)
  unfolding put_sfd sfd_code
  put_sfd-Sends = Sends-seq (bitmap-Sends sfd_1) (bitmap-Sends sfd_2)

  write_chips : Sends (fifo_write b bit_map_32_0) (Exactly (fifo_word bit_map_32_0 ∷ []))
  write_chips = fifo_write-Sends b d bit_map_32_0

  -- The delimiter at a rate of the enumeration.
  pub sfd_at_rate-Sends :
      (rate : ℕ)
      → rate < 4
      → Sends (sfd_at_rate b rate) (Exactly (sfd_lead rate ++ (sfd_code ++ sfd_tail rate)))
  unfolding sfd_at_rate sfd_lead sfd_tail
  sfd_at_rate-Sends zero h =
      Sends-seq put_sfd-Sends (
        Sends-seq (write_size-Sends 32) (Sends-seq write_chips (Sends-seq write_chips write_chips)))
  sfd_at_rate-Sends (suc zero) h = Sends-seq (write_size-Sends 16) (
      Sends-seq write_chips (
        Sends-seq put_sfd-Sends (
          Sends-seq (write_size-Sends 32) (
            Sends-seq write_chips
              (Sends-seq write_chips (Sends-seq (write_size-Sends 16) write_chips))))))
  sfd_at_rate-Sends (suc (suc zero)) h = Sends-seq (write_size-Sends 32) (
      Sends-seq write_chips (
        Sends-seq put_sfd-Sends
          (Sends-seq (write_size-Sends 32) (Sends-seq write_chips write_chips))))
  sfd_at_rate-Sends (suc (suc (suc zero))) h = Sends-seq (write_size-Sends 32) (
      Sends-seq write_chips (
        Sends-seq (write_size-Sends 16) (
          Sends-seq write_chips (
            Sends-seq put_sfd-Sends (
              Sends-seq (write_size-Sends 32)
                (Sends-seq write_chips (Sends-seq (write_size-Sends 16) write_chips)))))))
  sfd_at_rate-Sends (suc (suc (suc (suc n)))) h = absurd (omega arith)
