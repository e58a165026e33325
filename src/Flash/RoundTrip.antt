-- ===== src/Flash/RoundTrip.antt =====
-- src/flash.c: flash_verify behind flash_write.
use hbc_mac_src.Base.{
  Bool-cases, inl, inr, ℕ, zero, suc, ◌+◌, ◌-◌, ◌*◌, ◌/◌, ◌%◌, ◌^◌, ◌≤◌, ◌<◌, ◌≡◌, refl, sym, ◌∙◌,
  ◌==◌, ==_iff, u8, u32, true, ◌&&◌, leb, ltb, if◌then◌else◌, arith, ap,
}
use mathlib.Core.Path.{subst, ap₂}
use hbc_mac_src.Machine.{Board, State, ◌>>◌}
use hbc_mac_src.Machine.Returns
use hbc_mac_src.Machine.Returns.{Returns, returns}
use hbc_mac_src.Mem.Fault.{HasMemory, replay, reads_wrap, writes_wrap, Stays, Stays-le}
use hbc_mac_src.Spi.Dump.{kept}
use hbc_mac_src.Spi.Output.{byte_at, bytes_of_word}
use hbc_mac_src.Flash.{sector_size, flash_num_pages, flash_write, flash_verify, flash_read}
use hbc_mac_src.Flash.Chip.{Part, chip, HasChip}
use hbc_mac_src.Flash.Copying.{source, copied, source_byte}
use hbc_mac_src.Flash.Writing.{IsWritten, written, flash_write-IsWritten}
use hbc_mac_src.Flash.Reading.{flash_word}
use hbc_mac_src.Flash.Fetching.{among, fetched, flash_read-Returns}
use hbc_mac_src.Flash.Verifying.{agree, flash_verify-Returns}

module _ (mem flash old : ℕ → ℕ) (from to k : ℕ)
    (holds : (x : ℕ) → flash x ≡ copied (source mem from) to k old x) where
  byte-copied :
      (i j x : ℕ)
      → x ≡ to + 4 * i + j
      → j < 4
      → 4 * i + 4 ≤ k
      → u8 (flash x) ≡ byte_at (u32 (mem (from + 4 * i))) j
  byte-copied i j x at below fits =
      let inside : (leb to x && ltb x (to + k)) ≡ true = ground arith in
      let offset : x - to ≡ 4 * i + j = omega arith in
      let byte =
        source_byte mem from (4 * i) j (4 * i + j) (u32 (mem (from + 4 * i))) refl (omega arith)
          below refl in
      let same : flash x ≡ byte_at (u32 (mem (from + 4 * i))) j =
        holds x ∙ rw (inside, offset) (sym byte) in
      omega (arith, same)

  word-copied : (i : ℕ) → 4 * i + 4 ≤ k → flash_word flash (to + 4 * i) ≡ u32 (mem (from + 4 * i))
  word-copied i fits =
      let w = u32 (mem (from + 4 * i)) in
      let at =
        λ (j x : ℕ) (e : x ≡ to + 4 * i + j) (below : j < 4). byte-copied i j x e below fits in
      rw
        (
          byte-copied i 0 (to + 4 * i) (omega arith) (omega arith) fits,
          byte-copied i 1 (to + 4 * i + 1) refl (omega arith) fits,
          byte-copied i 2 (to + 4 * i + 2) refl (omega arith) fits,
          byte-copied i 3 (to + 4 * i + 3) refl (omega arith) fits,
        )
        (bytes_of_word w (omega arith))

  agree-copied : (n i : ℕ) → 4 * (i + n) ≤ k → agree flash (to + 4 * i) mem (from + 4 * i) n ≡ true
  unfolding agree
  agree-copied zero i fits = refl
  agree-copied (suc n) i fits =
      let here : (flash_word flash (to + 4 * i) == u32 (mem (from + 4 * i))) ≡ true =
        (==_iff _ _).1 (word-copied i (omega arith)) in
      let flash_next : to + 4 * (i + 1) ≡ to + 4 * i + 4 = omega arith in
      let mem_next : from + 4 * (i + 1) ≡ from + 4 * i + 4 = omega arith in
      rw here (
        ap₂ (λ a m. agree flash a mem m n) (sym flash_next) (sym mem_next)
        ∙ agree-copied n (i + 1) (omega arith))

  fetched-copied :
      (dest n x : ℕ) (cells : ℕ → ℕ)
      → 4 * n ≤ k
      → fetched flash to dest n cells x
        ≡ (if among dest n x then u32 (mem (from + (x - dest))) else cells x)
  fetched-copied dest n x cells fits = elim (Bool-cases (among dest n x)) [
    | inl inside ↦
        let offset : x - dest ≡ 4 * ((x - dest) / 4) = ground (arith, inside) in
        rw inside (
          ap (λ d. flash_word flash (to + d)) offset
          ∙ word-copied ((x - dest) / 4) (ground (arith, inside))
          ∙ ap (λ d. u32 (mem (from + d))) (sym offset))
    | inr outside ↦ rw outside refl
  ]

size-le-pages : (size : ℕ) → size < 2 ^ 32 → size ≤ 256 * flash_num_pages size
unfolding flash_num_pages
size-le-pages size small = ground arith

module _ {b : Board} {p : Part} (has : HasChip b p) {sequence : ℕ → ℕ → ℕ}
    (has_memory : HasMemory b kept sequence) where
  all_agree :
      (mem_addr size flash_addr : ℕ) (s t : State)
      → IsWritten p mem_addr size flash_addr s t
      → size < 2 ^ 32
      → agree (chip p t.events).cells flash_addr (replay s.events).cells mem_addr (size / 4) ≡ true
  all_agree mem_addr size flash_addr s t w small =
      let flash_start : flash_addr + 4 * 0 ≡ flash_addr = omega arith in
      let mem_start : mem_addr + 4 * 0 ≡ mem_addr = omega arith in
      ap₂ (λ a m. agree (chip p t.events).cells a (replay s.events).cells m (size / 4))
        (sym flash_start) (sym mem_start)
      ∙ agree-copied (replay s.events).cells (chip p t.events).cells _ mem_addr flash_addr
          (256 * flash_num_pages size) w.holds (size / 4) 0
          (omega (arith, size-le-pages size small))

  -- On a board with the chip, and with a memory that gives each word as it was last written: if the
  -- chip is at rest, the memory address has 32 bits, the pages of the size in memory do not cross a
  -- bound of 16 MB if the read pointer wraps there, the flash address is that of a sector in the
  -- chip and the range ends there too, then flash_write and flash_verify of the range, the one
  -- behind the other, return with the result 0. The chip then holds the bytes of memory on all the
  -- pages of the size, erased bytes in the rest of its sectors and what it held elsewhere; it is at
  -- rest, the words of memory and the memory controller's flags are as they were, and so are the
  -- variables.
  pub write_verified :
      (mem_addr size flash_addr : ℕ) (s : State)
      → (chip p s.events).work ≡ 0
      → mem_addr < 2 ^ 32
      → Stays (reads_wrap (replay s.events).flags) mem_addr (256 * flash_num_pages size)
      → flash_addr % sector_size ≡ 0
      → flash_addr + size ≤ p.size
      → flash_addr < p.size
      → Returns
          (λ r s'. (r ≡ 0) × IsWritten p mem_addr size flash_addr s s')
          ((flash_write b mem_addr size flash_addr >> flash_verify b mem_addr size flash_addr) s)
  write_verified mem_addr size flash_addr s rest small stays aligned fits below =
      Returns.bind
        (flash_write-IsWritten has has_memory mem_addr size flash_addr s rest small stays aligned
          fits)
        λ a t w.
          Returns.mono
            (flash_verify-Returns has (chip p t.events).cells (replay s.events).cells has_memory
              mem_addr size flash_addr t w.at_rest refl w.memory small
              (subst (λ f. Stays (reads_wrap f) mem_addr size) (sym w.same_flags)
                (Stays-le _ mem_addr size (256 * flash_num_pages size)
                  (size-le-pages size (omega (arith, fits, has.reach))) stays))
              below fits)
            λ r s' (result, cells, work, memory, same_flags, variables). (
              result
                  ∙ ap (λ c. if c then 0 else 2 ^ 32 - 1)
                      (all_agree mem_addr size flash_addr s t w (omega (arith, fits, has.reach))),
              record {
                holds = λ x. ap {A = ℕ → ℕ} (λ c. c x) cells ∙ w.holds x;
                at_rest = work;
                memory = memory;
                same_flags = same_flags ∙ w.same_flags;
                variables =
                    variables ∙ ap {A = State} (λ u. record u { events = s'.events }) w.variables;
              },
            )

  -- On a board with the chip, and with a memory that gives each word as it was last written: if the
  -- chip is at rest, both memory addresses have 32 bits, neither the pages of the size in memory
  -- nor the range at the second address cross a bound of 16 MB if the pointer wraps there, the
  -- flash address is that of a sector in the chip and the range ends there too, then flash_write of
  -- the range and flash_read of it to a second address return, the one behind the other. The whole
  -- words of the range then stand at the second address too, and no other word of memory has
  -- changed; the chip holds what flash_write left and is at rest, and the variables are as they
  -- were.
  pub write_read_back :
      (mem_addr dest size flash_addr : ℕ) (s : State)
      → (chip p s.events).work ≡ 0
      → mem_addr < 2 ^ 32
      → Stays (reads_wrap (replay s.events).flags) mem_addr (256 * flash_num_pages size)
      → dest < 2 ^ 32
      → Stays (writes_wrap (replay s.events).flags) dest size
      → flash_addr % sector_size ≡ 0
      → flash_addr + size ≤ p.size
      → flash_addr < p.size
      → Returns
          (λ a s'.
            ((x : ℕ)
              → (replay s'.events).cells x ≡ (
                  if among dest (size / 4) x
                  then u32 ((replay s.events).cells (mem_addr + (x - dest)))
                  else (replay s.events).cells x))
            × ((x : ℕ)
                → (chip p s'.events).cells x
                  ≡ written
                      (replay s.events).cells
                      mem_addr
                      size
                      flash_addr
                      (chip p s.events).cells
                      x)
            × ((chip p s'.events).work ≡ 0)
            × (s' ≡ record s { events = s'.events }))
          ((flash_write b mem_addr size flash_addr >> flash_read b dest size flash_addr) s)
  write_read_back mem_addr dest size flash_addr s rest small stays small' stays' aligned fits
        below =
      Returns.bind
        (flash_write-IsWritten has has_memory mem_addr size flash_addr s rest small stays aligned
          fits)
        λ a t w.
          Returns.mono
            (flash_read-Returns has (chip p t.events).cells dest size flash_addr t w.at_rest refl
              small' (subst (λ f. Stays (writes_wrap f) dest size) (sym w.same_flags) stays') below
              fits)
            λ r s' (cells, work, memory, variables). (
              λ x.
                  memory x
                  ∙ ap {A = ℕ → ℕ}
                      (λ c. fetched (chip p t.events).cells flash_addr dest (size / 4) c x) w.memory
                  ∙ fetched-copied (replay s.events).cells (chip p t.events).cells _ mem_addr
                      flash_addr (256 * flash_num_pages size) w.holds dest (size / 4) x
                      (replay s.events).cells (omega (arith, size-le-pages size (omega arith))),
              λ x. ap {A = ℕ → ℕ} (λ c. c x) cells ∙ w.holds x,
              work,
              variables ∙ ap {A = State} (λ u. record u { events = s'.events }) w.variables,
            )
