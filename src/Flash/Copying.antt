-- ===== src/Flash/Copying.antt =====
-- Bytes that are copied from the words of memory to the chip.
use hbc_mac_src.Base.{
  ℕ, ◌+◌, ◌-◌, ◌*◌, ◌/◌, ◌%◌, ◌<◌, ◌≡◌, refl, ◌∙◌, u32, true, false, ◌&&◌, leb, ltb, ◌==◌, bit_and,
  table, table_entry, ==_iff, Bool, Bool-cases, inl, inr, if◌then◌else◌, arith, ap,
}
use hbc_mac_src.Mem.Fault.{poke}
use hbc_mac_src.Spi.Output.{byte_at}

-- Byte `i` of memory from `from` on, by words, the lowest byte first.
abbrev pub source : (ℕ → ℕ) → ℕ → ℕ → ℕ
source cells from i = byte_at (u32 (cells (from + 4 * (i / 4)))) (i % 4)

-- The first `k` bytes from `to` on are those of `src`, the others those of `old`.
abbrev pub copied : (ℕ → ℕ) → ℕ → ℕ → (ℕ → ℕ) → ℕ → ℕ
copied src to k old x = if leb to x && ltb x (to + k) then src (x - to) else old x

unfoldable erased_test : ℕ → Bool
erased_test v = bit_and 255 v == v

-- A byte programmed over an erased one.
bit_and-erased : (v : ℕ) → v < 256 → bit_and 255 v ≡ v
unfolding erased_test table
bit_and-erased v h = (==_iff (bit_and 255 v) v).0 (table_entry 256 erased_test v refl h)

-- One more byte.
pub copied_next :
    (src old cells : ℕ → ℕ) (to k a v x : ℕ)
    → a ≡ to + k
    → v ≡ src k
    → v < 256
    → old (to + k) ≡ 255
    → ((y : ℕ) → cells y ≡ copied src to k old y)
    → poke cells a (bit_and (cells a) v) x ≡ copied src to (k + 1) old x
copied_next src old cells to k a v x at same fits blank holds = elim (Bool-cases (a == x)) [
  | inl here ↦
      let e : a ≡ x = (==_iff a x).0 here in
      let inside : (leb to a && ltb a (to + k)) ≡ false = ground arith in
      let was : cells a ≡ 255 = holds a ∙ rw inside (ap old at ∙ blank) in
      let in_range : (leb to x && ltb x (to + (k + 1))) ≡ true = ground arith in
      let offset : x - to ≡ k = omega arith in
      rw (here, in_range, offset) (ap (λ u. bit_and u v) was ∙ bit_and-erased v fits ∙ same)
  | inr other ↦
      let same_range : (leb to x && ltb x (to + k)) ≡ (leb to x && ltb x (to + (k + 1))) =
        ground arith in
      rw other (holds x ∙ ap (λ c. if c then src (x - to) else old x) same_range)
]

-- A byte of a word of memory.
pub source_byte :
    (cells : ℕ → ℕ) (from k j i w : ℕ)
    → i ≡ k + j
    → k % 4 ≡ 0
    → j < 4
    → w ≡ u32 (cells (from + k))
    → byte_at w j ≡ source cells from i
source_byte cells from k j i w at whole below same =
    let word : 4 * (i / 4) ≡ k = omega arith in
    let offset : i % 4 ≡ j = omega arith in rw (word, offset, same) refl

-- In a frame that programs the page at `a`, with `n` of its bytes sent, and `k` bytes from `to` on
