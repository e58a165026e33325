-- ===== src/Flash/Writing.antt =====
-- flash_write on the chip: the sectors are erased, then the pages programmed.
use hbc_mac_src.Base.{ℕ, ◌+◌, ◌*◌, ◌%◌, ◌^◌, ◌≤◌, ◌<◌, ◌≡◌, ◌∙◌, u32, ◌∷◌, arith, ap}
use hbc_mac_src.Machine.{Board, Port, wrote_word, State}
use hbc_mac_src.Machine.Returns
use hbc_mac_src.Machine.Returns.{Returns, returns}
use hbc_mac_src.Mem.Fault.{Memory, HasMemory, replay, reads_wrap, Stays}
use hbc_mac_src.Spi.Dump.{kept}
use hbc_mac_src.Flash.{
  sector_size, flash_mem_to_page, flash_mem_to_sector, flash_num_pages, flash_num_sectors,
  flash_write,
}
use hbc_mac_src.Flash.Chip.{Part, chip, HasChip}
use hbc_mac_src.Flash.Erasing.{erased_between, flash_sector_erase-IsRested}
use hbc_mac_src.Flash.Copying.{source, copied}
use hbc_mac_src.Flash.Programming.{program_pages-IsBetween}

-- What the chip holds behind flash_write: the bytes of memory on all the pages of the size, and
-- erased bytes in the rest of the sectors of the size.
abbrev pub written : (ℕ → ℕ) → ℕ → ℕ → ℕ → (ℕ → ℕ) → ℕ → ℕ
written cells mem_addr size flash_addr old =
    copied (source cells mem_addr) flash_addr (256 * flash_num_pages size) (
      erased_between (flash_mem_to_sector flash_addr * sector_size)
        ((flash_mem_to_sector flash_addr + flash_num_sectors size) * sector_size) old)

pub record IsWritten (p : Part) (mem_addr size flash_addr : ℕ) (s s' : State) : Type 0 where
  pub holds :
      (x : ℕ)
      → (chip p s'.events).cells x
        ≡ written (replay s.events).cells mem_addr size flash_addr (chip p s.events).cells x
  pub at_rest : (chip p s'.events).work ≡ 0
  pub memory : (replay s'.events).cells ≡ (replay s.events).cells
  pub same_flags : (replay s'.events).flags ≡ (replay s.events).flags
  pub variables : s' ≡ record s { events = s'.events }

sectors_fit :
    (size flash_addr : ℕ)
    → flash_addr % sector_size ≡ 0
    → flash_addr + size ≤ 2 ^ 24
    → flash_mem_to_sector flash_addr + flash_num_sectors size ≤ 256
unfolding flash_mem_to_sector flash_num_sectors
sectors_fit size flash_addr aligned fits = ground arith

pages_fit :
    (size flash_addr : ℕ)
    → flash_addr % sector_size ≡ 0
    → flash_addr + size ≤ 2 ^ 24
    → flash_mem_to_page flash_addr + flash_num_pages size ≤ 65536
unfolding flash_mem_to_page flash_num_pages
pages_fit size flash_addr aligned fits = ground arith

page_at :
    (flash_addr : ℕ)
    → flash_addr % sector_size ≡ 0
    → flash_mem_to_page flash_addr * 256 ≡ flash_addr + 0
unfolding flash_mem_to_page
page_at flash_addr aligned = omega arith

pages_blank :
    (size flash_addr j : ℕ) (old : ℕ → ℕ)
    → flash_addr % sector_size ≡ 0
    → flash_addr + size ≤ 2 ^ 24
    → j < 256 * flash_num_pages size
    → erased_between
        (flash_mem_to_sector flash_addr * sector_size)
        ((flash_mem_to_sector flash_addr + flash_num_sectors size) * sector_size)
        old
        (flash_addr + j)
      ≡ 255
unfolding flash_mem_to_sector flash_num_sectors flash_num_pages
pages_blank size flash_addr j old aligned fits below = ground arith

none_copied : (src old : ℕ → ℕ) (to x : ℕ) → old x ≡ copied src to 0 old x
none_copied src old to x = ground arith

module _ {b : Board} {p : Part} (has : HasChip b p) {sequence : ℕ → ℕ → ℕ}
    (has_memory : HasMemory b kept sequence) where
  -- On a chip at rest, with a memory address of 32 bits and, if the memory's read pointer wraps at
  -- 16 MB, with the pages of the size in memory within such a bound, flash_write of a range that
  -- starts at a sector and ends in the chip returns, with the range written as IsWritten says.
  pub flash_write-IsWritten :
      (mem_addr size flash_addr : ℕ) (s : State)
      → (chip p s.events).work ≡ 0
      → mem_addr < 2 ^ 32
      → Stays (reads_wrap (replay s.events).flags) mem_addr (256 * flash_num_pages size)
      → flash_addr % sector_size ≡ 0
      → flash_addr + size ≤ p.size
      → Returns
          (λ a s'. IsWritten p mem_addr size flash_addr s s')
          (flash_write b mem_addr size flash_addr s)
  unfolding flash_write
  flash_write-IsWritten mem_addr size flash_addr s rest small stays aligned fits =
      let in_reach : flash_addr + size ≤ 2 ^ 24 = omega (arith, fits, has.reach) in
      let sector = flash_mem_to_sector flash_addr in
      let old =
        erased_between (sector * sector_size) ((sector + flash_num_sectors size) * sector_size)
          (chip p s.events).cells in
      Returns.bind
        (flash_sector_erase-IsRested has (flash_num_sectors size) sector s rest
          (sectors_fit size flash_addr aligned in_reach))
        λ a t erased.
          Returns.mono
            (program_pages-IsBetween has (replay s.events).cells mem_addr flash_addr old
              (replay s.events).flags has_memory (256 * flash_num_pages size) stays
              (λ j below.
                pages_blank size flash_addr j (chip p s.events).cells aligned in_reach below)
              (flash_num_pages size) 0 (256 * flash_num_pages size) (flash_mem_to_page flash_addr) s
              (record t { events = wrote_word Port.mem_rd_p (u32 mem_addr) ∷ t.events })
              (record {
                holds = λ x.
                    erased.holds x
                    ∙ none_copied (source (replay s.events).cells mem_addr) old flash_addr x;
                at_rest = erased.at_rest;
                memory = ap {A = Memory} (λ m. m.cells) erased.memory;
                read_at = omega arith;
                same_flags = ap {A = Memory} (λ m. m.flags) erased.memory;
                variables =
                    ap {A = State}
                      (λ u. record u {
                        events = wrote_word Port.mem_rd_p (u32 mem_addr) ∷ t.events;
                      })
                      erased.variables;
              })
              (omega arith) (omega arith) (omega arith) (page_at flash_addr aligned)
              (pages_fit size flash_addr aligned in_reach))
            λ a' s' done. record {
              holds = done.holds;
              at_rest = done.at_rest;
              memory = done.memory;
              same_flags = done.same_flags;
              variables = done.variables;
            }
