-- ===== src/Examples/Memory.antt =====
-- A memory whose word at byte address 8 is always 0, and one that keeps every word.
use Prim.Native.Nat.{min}
use hbc_mac_src.Base.{ℕ, ◌+◌, ◌*◌, ◌/◌, ◌≡◌, ◌==◌, if◌then◌else◌, u32, refl, arith, List, [], ◌∷◌}
use hbc_mac_src.Machine.{Board, Port, Event, Request}
use hbc_mac_src.Machine.Returns.{Returns}
use hbc_mac_src.Mem.{mem_test}
use hbc_mac_src.Spi.Load.{Quad, bytes_of}
use hbc_mac_src.Spi.Dump.{kept, received}
use hbc_mac_src.Spi.Copied.{load_and_dump, load_and_dump_lem}
use hbc_mac_src.Mem.Fault.{HasMemory, replay, bad_words, mem_test_lem}
use hbc_mac_src.Examples.Boards.{boot}

abbrev recall : ℕ → ℕ → ℕ
recall a v = u32 (if a == 8 then 0 else v)

abbrev sequence : ℕ → ℕ → ℕ
sequence seed k = u32 (k * 0x10000 + 0x1234 + seed)

abbrev memory_answer : List Event → Request → ℕ
memory_answer h (Request.word Port.mem_rd_wr) =
    let m = replay h in recall m.read_at (m.cells m.read_at)
memory_answer h (Request.word Port.scrambler_port) = sequence (replay h).seed (replay h).drawn
memory_answer h _ = 0

abbrev memory_board : Board
memory_board = record { respond = memory_answer; irq_status = λ q v. v; patience = 1 }

memory-HasMemory : HasMemory memory_board recall sequence
memory-HasMemory = record { reads = λ h. omega arith; draws = λ h. omega arith }

one_bad : bad_words recall (sequence 0) 0 4 ≡ 1
one_bad = refl

mem_test_lem_example :
    Returns
      (λ e s'. e ≡ min 255 (bad_words recall (sequence 0) 0 (16 / 4)))
      (mem_test memory_board 16 boot)
mem_test_lem_example = mem_test_lem memory-HasMemory 16 boot (omega arith)

abbrev good_answer : List Event → Request → ℕ
good_answer h (Request.word Port.mem_rd_wr) = let m = replay h in m.cells m.read_at
good_answer h (Request.word Port.scrambler_port) = sequence (replay h).seed (replay h).drawn
good_answer h _ = 0

abbrev good_board : Board
good_board = record { respond = good_answer; irq_status = λ q v. v; patience = 1 }

good-HasMemory : HasMemory good_board kept sequence
good-HasMemory = record { reads = λ h. refl; draws = λ h. omega arith }

abbrev quads : List Quad
quads =
    record { b0 = 1; b1 = 2; b2 = 3; b3 = 4 } ∷ record { b0 = 255; b1 = 0; b2 = 7; b3 = 128 } ∷ []

load_and_dump_lem_example :
    Returns
      (λ a s'.
        (received s'.events ≡ 1 ∷ 2 ∷ 3 ∷ 4 ∷ 255 ∷ 0 ∷ 7 ∷ 128 ∷ [])
        × (s'.spi.dumping_mem ≡ 0)
        × (s'.rx ≡ boot.rx)
        × (s'.ctrl ≡ boot.ctrl))
      (load_and_dump good_board 4 0x100 (bytes_of quads) boot)
load_and_dump_lem_example =
    load_and_dump_lem good_board 4 good-HasMemory quads 0x100 boot
      (
        (omega arith, omega arith, omega arith, omega arith),
        ((omega arith, omega arith, omega arith, omega arith), tt),
      )
      refl (refl, refl) (omega arith)
