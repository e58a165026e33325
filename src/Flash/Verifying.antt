-- ===== src/Flash/Verifying.antt =====
-- src/flash.c: flash_verify on the chip.
use hbc_mac_src.Base.{
  ℕ, zero, suc, ◌+◌, ◌-◌, ◌*◌, ◌/◌, ◌^◌, ◌≤◌, ◌<◌, ◌≡◌, refl, ◌∙◌, ◌==◌, u32, Bool, true, false,
  ◌&&◌, if◌then◌else◌, ◌∷◌, arith, ap, Bool-cases, inl, inr,
}
use mathlib.Core.Path.{ap₂}
use hbc_mac_src.Machine.{Board, Port, Request, wrote_word, read_word, State}
use hbc_mac_src.Machine.Returns
use hbc_mac_src.Machine.Returns.{Returns, returns}
use hbc_mac_src.Mem.Fault.{
  HasMemory, replay, reads_wrap, onward, Stays, onward-one, Stays-tail, Stays-le,
}
use hbc_mac_src.Spi.Dump.{kept}
use hbc_mac_src.Flash.{flash_verify, verify_words}
use hbc_mac_src.Flash.Chip.{Part, chip, release, HasChip}
use hbc_mac_src.Flash.Settling.{released}
use hbc_mac_src.Flash.Reading.{
  flash_word, IsReading, four_sent, word_given, word-IsReading, begun, begun-IsReading,
}

-- `n` words of the chip from `a` on are those of memory from `from` on.
unfoldable pub agree : (ℕ → ℕ) → ℕ → (ℕ → ℕ) → ℕ → ℕ → Bool
agree flash a mem from zero = true
agree flash a mem from (suc n) =
    (flash_word flash a == u32 (mem from)) && agree flash (a + 4) mem (from + 4) n

either_way : (c : Bool) (v : ℕ) → (if c then v else v) ≡ v
either_way true v = refl
either_way false v = refl

module _ {b : Board} {p : Part} (has : HasChip b p) (flash mem : ℕ → ℕ) {sequence : ℕ → ℕ → ℕ}
    (has_memory : HasMemory b kept sequence) where
  -- What is left of a comparison.
  verify_words-Returns :
      (n a from retval : ℕ) (s : State)
      → IsReading flash a (chip p s.events)
      → (replay s.events).cells ≡ mem
      → (replay s.events).read_at ≡ from
      → Stays (reads_wrap (replay s.events).flags) from (4 * n)
      → a + 4 * n ≤ p.size
      → Returns
          (λ r s'.
            (r ≡ (if agree flash a mem from n then retval else 2 ^ 32 - 1))
            × ((d : ℕ) → (release d (chip p s'.events)).cells ≡ flash)
            × ((d : ℕ) → (release d (chip p s'.events)).work ≡ 0)
            × ((replay s'.events).cells ≡ mem)
            × ((replay s'.events).flags ≡ (replay s.events).flags)
            × (s' ≡ record s { events = s'.events }))
          (verify_words b n retval s)
  unfolding verify_words agree
  verify_words-Returns zero a from retval s r same at stays fits =
      returns (refl, r.left_cells, r.left_work, same, refl, refl)
  verify_words-Returns (suc n) a from retval s r same at stays fits =
      let (word, r₄) = word-IsReading has flash a s.events (omega arith) r in
      let h = four_sent has flash s.events in
      let m = u32 (b.respond h (Request.word Port.mem_rd_wr)) in
      let read : m ≡ u32 (mem from) =
        has_memory.reads h ∙ ap (λ c. u32 (c (replay h).read_at)) same ∙ ap (λ x. u32 (mem x)) at in
      let wraps = reads_wrap (replay s.events).flags in
      let next : State = record s { events = read_word Port.mem_rd_wr m ∷ h } in
      let rest = λ (v : ℕ).
        verify_words-Returns n (a + 4) (from + 4) v next r₄ same
          (ap (onward wraps) at ∙ onward-one wraps from (4 * suc n) stays (omega arith))
          (Stays-tail wraps from n stays) (omega arith) in
      let tests : (word_given has flash s.events == m) ≡ (flash_word flash a == u32 (mem from)) =
        ap₂ ◌==◌ word read in
      elim (Bool-cases (flash_word flash a == u32 (mem from))) [
        | inl good ↦ rw (tests ∙ good, good) (rest retval)
        | inr bad ↦
            rw (tests ∙ bad, bad)
              (Returns.mono (rest (2 ^ 32 - 1)) λ v s' (e, x, y, z, f, w).
                (e ∙ either_way (agree flash (a + 4) mem (from + 4) n) (2 ^ 32 - 1), x, y, z, f, w))
      ]

  -- On a chip at rest that holds `flash`, and a memory that holds `mem`, with a memory address of
  -- 32 bits a range of the chip and, if the memory's read pointer wraps at 16 MB, a range of memory
  -- within such a bound, flash_verify returns: 0 if the words of the two ranges agree, and the
  -- pattern of -1 if one differs. Chip, memory and variables stay as they are.
  pub flash_verify-Returns :
      (mem_addr size flash_addr : ℕ) (s : State)
      → (chip p s.events).work ≡ 0
      → (chip p s.events).cells ≡ flash
      → (replay s.events).cells ≡ mem
      → mem_addr < 2 ^ 32
      → Stays (reads_wrap (replay s.events).flags) mem_addr size
      → flash_addr < p.size
      → flash_addr + size ≤ p.size
      → Returns
          (λ r s'.
            (r ≡ (if agree flash flash_addr mem mem_addr (size / 4) then 0 else 2 ^ 32 - 1))
            × ((chip p s'.events).cells ≡ flash)
            × ((chip p s'.events).work ≡ 0)
            × ((replay s'.events).cells ≡ mem)
            × ((replay s'.events).flags ≡ (replay s.events).flags)
            × (s' ≡ record s { events = s'.events }))
          (flash_verify b mem_addr size flash_addr s)
  unfolding flash_verify
  flash_verify-Returns mem_addr size flash_addr s rest here there small stays start fits =
      let pointed = wrote_word Port.mem_rd_p (u32 mem_addr) ∷ s.events in
      let first : State = record s { events = begun has flash flash_addr pointed } in
      Returns.bind
        (verify_words-Returns (size / 4) flash_addr mem_addr 0 first
          (begun-IsReading has flash flash_addr pointed rest here (omega (arith, start, has.reach)))
          there (omega arith) (Stays-le _ mem_addr (4 * (size / 4)) size (omega arith) stays)
          (omega arith))
        λ r t (result, cells, work, memory, same_flags, variables). returns (
          result,
          cells (p.delay t.events),
          work (p.delay t.events),
          memory,
          same_flags,
          ap {A = State} (λ u. record u { events = released t.events }) variables,
        )
