-- ===== src/Rx/Delivery.antt =====
-- src/build_tx.c and src/extract_rx.c: a receiver gives back the words of memory that a transmitter
-- sent.
use hbc_mac_src.Base.{
  Bool, ℕ, zero, suc, ◌+◌, ◌*◌, ◌^◌, ◌<◌, ◌≤◌, ◌≡◌, refl, ap, sym, ◌∙◌, bit_xor, u32, true, List,
  [], ◌∷◌, ◌++◌, length, length-append, take, arith,
}
use hbc_mac_src.Base.Bits.Xor.{xor_cancel, xor-lt}
use mathlib.Core.Path.{ap₂}
use mathlib.Core.List.{nil≢cons, head-eq_of_cons-eq, tail-eq_of_cons-eq}
use hbc_mac_src.Machine.{Board, packet_init, State, PlcpHeader, ◌>>◌}
use hbc_mac_src.Machine.Returns
use hbc_mac_src.Machine.Returns.{Returns}
use hbc_mac_src.Mem.{mem_size, mem_rx_buf}
use hbc_mac_src.Mem.Fault.{onward, HasMemory}
use hbc_mac_src.Header.{header_word, crc_ok}
use hbc_mac_src.Header.RoundTrip.{IsInRange, read_header, crc_ok-header_word, word-lt}
use hbc_mac_src.Spi.Dump.{kept}
use hbc_mac_src.Tx.Spread.{words_at, scrambled}
use hbc_mac_src.Tx.OnAir.{on_air, chosen_seed}
use hbc_mac_src.Rx.Writer.{data_ready}
use hbc_mac_src.Rx.Feed.{left, HasFeed, plain}
use hbc_mac_src.Rx.Buffering.{seed_of}
use hbc_mac_src.Rx.Reception.{receive}
use hbc_mac_src.Rx.Stored.{AreWords}
use hbc_mac_src.Rx.ReadBack.{read_packet, receive-IsReadBack}

words_at-AreWords : (wraps : Bool) (cells : ℕ → ℕ) (a n : ℕ) → AreWords (words_at wraps cells a n)
words_at-AreWords wraps cells a zero = tt
words_at-AreWords wraps cells a (suc n) =
    (omega arith, words_at-AreWords wraps cells (onward wraps a) n)

length-words_at : (wraps : Bool) (cells : ℕ → ℕ) (a n : ℕ) → length (words_at wraps cells a n) ≡ n
length-words_at wraps cells a zero = refl
length-words_at wraps cells a (suc n) = ap suc (length-words_at wraps cells (onward wraps a) n)

length-scrambled :
    (sequence : ℕ → ℕ) (k : ℕ) (ws : List ℕ) → length (scrambled sequence k ws) ≡ length ws
length-scrambled sequence k [] = refl
length-scrambled sequence k (w ∷ ws) = ap suc (length-scrambled sequence (k + 1) ws)

word_back : (w x : ℕ) → u32 w ≡ w → x < 2 ^ 32 → u32 (bit_xor (u32 (bit_xor w x)) x) ≡ w
word_back w x short fits =
    let small : bit_xor w x < 2 ^ 32 = xor-lt 32 w x (omega (arith, short)) fits in
    let kept_word : u32 (bit_xor w x) ≡ bit_xor w x = omega (arith, small) in
    ap (λ v. u32 (bit_xor v x)) kept_word ∙ ap u32 (xor_cancel w x) ∙ short

-- The receiver takes off what the transmitter added, as far as the words came.
plain-scrambled :
    (sequence : ℕ → ℕ) (fits : (k : ℕ) → sequence k < 2 ^ 32) (ds ws rest : List ℕ) (k : ℕ)
    → AreWords ds
    → scrambled sequence k ds ≡ ws ++ rest
    → plain sequence k ws ≡ take (length ws) ds
plain-scrambled sequence fits ds [] rest k short e = refl
plain-scrambled sequence fits [] (w ∷ ws) rest k short e = absurd (nil≢cons e)
plain-scrambled sequence fits (x ∷ ds) (w ∷ ws) rest k (first, short) e =
    let same : u32 (bit_xor x (sequence k)) ≡ w = head-eq_of_cons-eq e in
    ap₂ (λ y ys. y ∷ ys)
      (ap (λ v. u32 (bit_xor v (sequence k))) (sym same) ∙ word_back x (sequence k) first (fits k))
      (plain-scrambled sequence fits ds ws rest (k + 1) short (tail-eq_of_cons-eq e))

-- What was read of a packet of `n` words, of which `missing` have not come: its marker, its header,
-- whose sum is right, and the other words as they stood in the sender's memory.
pub record IsDelivered (h : PlcpHeader) (wraps : Bool) (cells : ℕ → ℕ) (a n missing : ℕ)
    (read : List ℕ) : Type 0 where
  pub count : ℕ
  pub whole : count + missing ≡ n
  pub words : read ≡ (8 + 4 * count) ∷ header_word h ∷ take count (words_at wraps cells a n)
  pub accepted : crc_ok (header_word h) ≡ 1

module _ {b : Board} {sequence : ℕ → ℕ → ℕ} (memory : HasMemory b kept sequence)
    (fits : (g k : ℕ) → sequence g k < 2 ^ 32) (h : PlcpHeader) (in_range : IsInRange h)
    (wraps : Bool) (cells : ℕ → ℕ) (a n : ℕ)
    (feed : HasFeed b (on_air sequence h (words_at wraps cells a n))) where
  -- For a header in range and the `n` words of the sender's memory from `a` on, in the order of its
  -- read pointer, which stays in its 16 MB if it wraps: if the FIFO gives out the words that the
  -- sender's modulator is given, from the first on, and both scramblers have the same sequence, of
  -- 32-bit words, then between packets, with nothing pending, a word waiting, the next packet to
  -- read at the writer's place in the ring and room for the packet before the end of the ring, any
  -- number of data interrupts, the interrupt at the end of the packet and a read of the packet,
  -- with nothing run between them, return. What is read is the marker, the header word, whose sum
  -- is right, and the words as they stood in the sender's memory, all but those that are still in
  -- the FIFO.
  pub receive-IsDelivered :
      (interrupts : ℕ) (s : State)
      → left (on_air sequence h (words_at wraps cells a n)) s.events
        ≡ on_air sequence h (words_at wraps cells a n)
      → data_ready b s.events ≡ true
      → s.rx.rx_state ≡ packet_init
      → s.rx.wr_bytes ≡ 0
      → s.rx.rd_packet_addr ≡ s.rx.wr_buf_addr
      → mem_rx_buf ≤ s.rx.wr_buf_addr
      → s.rx.wr_buf_addr + 8 + 4 * n < mem_size
      → Returns
          (λ read s'.
            IsDelivered h wraps cells a n
              (length (left (on_air sequence h (words_at wraps cells a n)) s'.events))
              read)
          ((receive b interrupts >> read_packet b) s)
  receive-IsDelivered interrupts s first on init idle empty low room =
      let ds = words_at wraps cells a n in
      let header : u32 (header_word h) ≡ header_word h = omega (arith, word-lt h in_range) in
      let seed : seed_of (u32 (header_word h)) ≡ chosen_seed h.scrambler_seed =
        ap seed_of header ∙ ap chosen_seed (read_header h in_range).3 in
      let sequence' = sequence (chosen_seed h.scrambler_seed) in
      let all : length (left (on_air sequence h ds) s.events) ≡ suc n =
        ap length first
        ∙ ap suc (length-scrambled sequence' 0 ds ∙ length-words_at wraps cells a n) in
      Returns.mono
        (receive-IsReadBack feed memory interrupts (u32 (header_word h)) (scrambled sequence' 0 ds)
          s first on init idle empty low (omega (arith, all)))
        λ read s' (ws, got).
          let rest = left (on_air sequence h ds) s'.events in
          let split : scrambled sequence' 0 ds ≡ ws ++ rest =
            tail-eq_of_cons-eq (sym first ∙ got.took) in
          record {
            count = length ws;
            whole =
                sym (ap length split ∙ length-append ws rest)
                ∙ length-scrambled sequence' 0 ds
                ∙ length-words_at wraps cells a n;
            words =
                got.words
                ∙ ap₂ (λ x g. (8 + 4 * length ws) ∷ x ∷ plain (sequence g) 0 ws) header seed
                ∙ ap (λ ys. (8 + 4 * length ws) ∷ header_word h ∷ ys)
                    (plain-scrambled sequence' (fits (chosen_seed h.scrambler_seed)) ds ws rest 0
                      (words_at-AreWords wraps cells a n) split);
            accepted = crc_ok-header_word h in_range;
          }
