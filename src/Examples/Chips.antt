-- ===== src/Examples/Chips.antt =====
-- A board with a flash chip, which works for two polls on each command, and a memory.
use hbc_mac_src.Base.{
  ℕ, suc, ◌-◌, ◌/◌, ◌+◌, ◌^◌, ◌≡◌, ◌∙◌, refl, arith, ap, u8, u32, bit_and, truth, Bool-cases, inl,
  inr, if◌then◌else◌, List, [],
}
use hbc_mac_src.Machine.{Board, Port, Event, Request, ◌>>◌}
use hbc_mac_src.Machine.Returns.{Returns}
use hbc_mac_src.Mem.Fault.{HasMemory, replay}
use hbc_mac_src.Spi.Dump.{kept}
use hbc_mac_src.Flash.{flash_num_pages, flash_write, flash_verify, flash_read}
use hbc_mac_src.Flash.Chip.{Chip, Phase, status_asked, showing, Part, chip, HasChip}
use hbc_mac_src.Flash.Writing.{IsWritten, written}
use hbc_mac_src.Flash.Verifying.{agree, flash_verify-Returns}
use hbc_mac_src.Flash.Fetching.{among}
use hbc_mac_src.Flash.RoundTrip.{write_verified, write_read_back}
use hbc_mac_src.Examples.Boards.{boot}

abbrev part : Part
part = record { size = 0x80000; fresh = λ a. u8 a; delay = λ h. 2 }

abbrev port_answer : Chip → Phase → ℕ
port_answer c (status_asked (suc n)) = if truth c.work then 1 else 0
port_answer c (showing a) = c.cells a
port_answer c _ = 0

abbrev chip_answer : List Event → Request → ℕ
chip_answer h (Request.byte Port.flash_port) = let c = chip part h in port_answer c c.phase
chip_answer h (Request.word Port.mem_rd_wr) = let m = replay h in m.cells m.read_at
chip_answer h _ = 0

abbrev chip_board : Board
chip_board = record { respond = chip_answer; irq_status = λ q v. v; patience = 3 }

abbrev sequence : ℕ → ℕ → ℕ
sequence seed k = 0

chip-HasMemory : HasMemory chip_board kept sequence
chip-HasMemory = record { reads = λ h. refl; draws = λ h. refl }

chip-HasChip : HasChip chip_board part
chip-HasChip = record {
  reach = omega arith;
  sectors = refl;
  status = λ h n at.
      ap (λ q. bit_and (u8 (port_answer (chip part h) q)) 1) at
      ∙ elim (Bool-cases (truth (chip part h).work)) [
        | inl busy ↦ rw busy refl
        | inr idle ↦ rw idle refl
      ];
  output = λ h a at fits. ap (λ q. u8 (port_answer (chip part h) q)) at;
  brief = λ h. omega arith;
}

write_verified_example :
    Returns
      (λ r s'. (r ≡ 0) × IsWritten part 0x100 300 0x60000 boot s')
      ((flash_write chip_board 0x100 300 0x60000 >> flash_verify chip_board 0x100 300 0x60000) boot)
unfolding flash_num_pages
write_verified_example =
    write_verified chip-HasChip chip-HasMemory 0x100 300 0x60000 boot refl (omega arith)
      (λ on. omega arith) refl (omega arith) (omega arith)

write_read_back_example :
    Returns
      (λ a s'.
        ((x : ℕ)
          → (replay s'.events).cells x ≡ (
              if among 0x800 (300 / 4) x
              then u32 ((replay boot.events).cells (0x100 + (x - 0x800)))
              else (replay boot.events).cells x))
        × ((x : ℕ)
            → (chip part s'.events).cells x
              ≡ written
                  (replay boot.events).cells
                  0x100
                  300
                  0x60000
                  (chip part boot.events).cells
                  x)
        × ((chip part s'.events).work ≡ 0)
        × (s' ≡ record boot { events = s'.events }))
      ((flash_write chip_board 0x100 300 0x60000 >> flash_read chip_board 0x800 300 0x60000) boot)
unfolding flash_num_pages
write_read_back_example =
    write_read_back chip-HasChip chip-HasMemory 0x100 0x800 300 0x60000 boot refl (omega arith)
      (λ on. omega arith) (omega arith) (λ on. omega arith) refl (omega arith) (omega arith)

flash_verify-Returns_example :
    Returns
      (λ r s'.
        (r ≡ 2 ^ 32 - 1)
        × ((chip part s'.events).cells ≡ (chip part boot.events).cells)
        × ((chip part s'.events).work ≡ 0)
        × ((replay s'.events).cells ≡ (replay boot.events).cells)
        × ((replay s'.events).flags ≡ (replay boot.events).flags)
        × (s' ≡ record boot { events = s'.events }))
      (flash_verify chip_board 0x100 8 0x60000 boot)
unfolding agree
flash_verify-Returns_example =
    flash_verify-Returns chip-HasChip (chip part []).cells (replay []).cells chip-HasMemory 0x100 8
      0x60000 boot refl refl refl (omega arith) (λ on. omega arith) (omega arith) (omega arith)
