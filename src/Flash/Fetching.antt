-- ===== src/Flash/Fetching.antt =====
-- src/flash.c: flash_read on the chip, alone and behind flash_write.
use hbc_mac_src.Base.{
  ℕ, zero, suc, ◌+◌, ◌-◌, ◌*◌, ◌/◌, ◌%◌, ◌^◌, ◌≤◌, ◌<◌, ◌≡◌, ◌≢◌, refl, sym, ◌∙◌, ◌==◌, ==_iff, u32,
  Bool, true, false, ◌&&◌, leb, ltb, if◌then◌else◌, ◌∷◌, arith, ap, Bool-cases, inl, inr,
}
use hbc_mac_src.Machine.{Board, Port, wrote_word, State}
use hbc_mac_src.Machine.Returns
use hbc_mac_src.Machine.Returns.{Returns, returns}
use hbc_mac_src.Mem.Fault.{
  replay, poke, writes_wrap, onward, Stays, onward-one, Stays-tail, Stays-le,
}
use hbc_mac_src.Flash.{flash_read, read_words}
use hbc_mac_src.Flash.Chip.{Part, chip, release, HasChip}
use hbc_mac_src.Flash.Settling.{released}
use hbc_mac_src.Flash.Reading.{
  flash_word, IsReading, four_sent, word_given, word-IsReading, begun, begun-IsReading,
}

-- Whether address `x` is that of one of `n` words from `to` on.
abbrev pub among : ℕ → ℕ → ℕ → Bool
among to n x = (leb to x && ltb x (to + 4 * n)) && ((x - to) % 4 == 0)

-- Memory with `n` words of the chip, from `a` on, stored from `to` on.
abbrev pub fetched : (ℕ → ℕ) → ℕ → ℕ → ℕ → (ℕ → ℕ) → ℕ → ℕ
fetched flash a to n old x = if among to n x then flash_word flash (a + (x - to)) else old x

among-suc : (to n x : ℕ) → x ≢ to → among (to + 4) n x ≡ among to (suc n) x
among-suc to n x apart = ground (arith, apart)

among-offset : (a to n x : ℕ) → among (to + 4) n x ≡ true → a + 4 + (x - (to + 4)) ≡ a + (x - to)
among-offset a to n x inside = ground (arith, inside)

fetched_first :
    (flash old : ℕ → ℕ) (a to n x v : ℕ)
    → v ≡ flash_word flash a
    → fetched flash (a + 4) (to + 4) n (poke old to v) x ≡ fetched flash a to (suc n) old x
fetched_first flash old a to n x v word = elim (Bool-cases (to == x)) [
  | inl on ↦
      let same : to ≡ x = (==_iff to x).0 on in
      let behind : among (to + 4) n x ≡ false = ground arith in
      let first : among to (suc n) x ≡ true = ground arith in
      let start : a ≡ a + (x - to) = omega arith in
      rw (behind, first, on) (word ∙ ap (flash_word flash) start)
  | inr off ↦
      let apart : x ≢ to = λ e. absurd (ground (arith, e)) in
      elim (Bool-cases (among (to + 4) n x)) [
        | inl inside ↦
            rw (sym (among-suc to n x apart), inside)
              (ap (flash_word flash) (among-offset a to n x inside))
        | inr outside ↦ rw (sym (among-suc to n x apart), outside, off) refl
      ]
]

module _ {b : Board} {p : Part} (has : HasChip b p) (flash : ℕ → ℕ) where
  -- What is left of a read.
  read_words-Returns :
      (n a to : ℕ) (s : State)
      → IsReading flash a (chip p s.events)
      → (replay s.events).write_at ≡ to
      → Stays (writes_wrap (replay s.events).flags) to (4 * n)
      → a + 4 * n ≤ p.size
      → Returns
          (λ r s'.
            ((d : ℕ) → (release d (chip p s'.events)).cells ≡ flash)
            × ((d : ℕ) → (release d (chip p s'.events)).work ≡ 0)
            × ((x : ℕ)
                → (replay s'.events).cells x ≡ fetched flash a to n (replay s.events).cells x)
            × (s' ≡ record s { events = s'.events }))
          (read_words b n s)
  unfolding read_words
  read_words-Returns zero a to s r at stays fits =
      returns (r.left_cells, r.left_work, λ x. ground arith, refl)
  read_words-Returns (suc n) a to s r at stays fits =
      let (word, r₄) = word-IsReading has flash a s.events (omega arith) r in
      let wraps = writes_wrap (replay s.events).flags in
      let v = u32 (word_given has flash s.events) in
      let next : State = record s {
        events = wrote_word Port.mem_rd_wr v ∷ four_sent has flash s.events;
      } in
      Returns.mono
        (read_words-Returns n (a + 4) (to + 4) next r₄
          (ap (onward wraps) at ∙ onward-one wraps to (4 * suc n) stays (omega arith))
          (Stays-tail wraps to n stays) (omega arith))
        λ t s' (cells, work, memory, variables). (
          cells,
          work,
          λ x.
              memory x
              ∙ ap (λ w. fetched flash (a + 4) (to + 4) n (poke (replay s.events).cells w v) x) at
              ∙ fetched_first flash (replay s.events).cells a to n x v (omega (arith, word)),
          variables,
        )

  -- On a chip at rest that holds `flash`, with a memory address of 32 bits, a range of the chip
  -- and, if the memory's write pointer wraps at 16 MB, a range of memory within such a bound,
  -- flash_read returns, and memory holds the words of the chip at the memory address. Chip and
  -- variables stay as they are.
  pub flash_read-Returns :
      (mem_addr size flash_addr : ℕ) (s : State)
      → (chip p s.events).work ≡ 0
      → (chip p s.events).cells ≡ flash
      → mem_addr < 2 ^ 32
      → Stays (writes_wrap (replay s.events).flags) mem_addr size
      → flash_addr < p.size
      → flash_addr + size ≤ p.size
      → Returns
          (λ r s'.
            ((chip p s'.events).cells ≡ flash)
            × ((chip p s'.events).work ≡ 0)
            × ((x : ℕ)
                → (replay s'.events).cells x
                  ≡ fetched flash flash_addr mem_addr (size / 4) (replay s.events).cells x)
            × (s' ≡ record s { events = s'.events }))
          (flash_read b mem_addr size flash_addr s)
  unfolding flash_read
  flash_read-Returns mem_addr size flash_addr s rest here small stays start fits =
      let pointed = wrote_word Port.mem_wr_p (u32 mem_addr) ∷ s.events in
      let first : State = record s { events = begun has flash flash_addr pointed } in
      Returns.bind
        (read_words-Returns (size / 4) flash_addr mem_addr first
          (begun-IsReading has flash flash_addr pointed rest here (omega (arith, start, has.reach)))
          (omega arith) (Stays-le _ mem_addr (4 * (size / 4)) size (omega arith) stays)
          (omega arith))
        λ r t (cells, work, memory, variables). returns (
          cells (p.delay t.events),
          work (p.delay t.events),
          memory,
          ap {A = State} (λ u. record u { events = released t.events }) variables,
        )
