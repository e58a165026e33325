-- ===== src/Flash/Chip.antt =====
-- A serial flash chip, as the firmware relies on it: a state that the calls of the I/O library
-- drive. A frame is what is sent while the chip is selected. A chip at work takes no command but
-- the one for its status; how long it works is its own affair.
use hbc_mac_src.Base.{
  ℕ, zero, suc, ◌+◌, ◌-◌, ◌*◌, ◌/◌, ◌%◌, ◌^◌, ◌≤◌, ◌<◌, ◌≡◌, ◌==◌, bit_and, truth, u8, Bool, true,
  false, ◌&&◌, not, if◌then◌else◌, List, [], ◌∷◌,
}
use hbc_mac_src.Machine.{
  Board, Port, Pin, Event, Request, wrote_byte, read_byte, discrete_set, discrete_clear,
}
use hbc_mac_src.Mem.Fault.{poke}
use hbc_mac_src.Flash.{page_size, sector_size}

-- The commands with an address.
pub data Order : Type 0 where
  to_read to_program to_erase : Order

-- Where the chip stands in a frame: not selected; no byte yet; behind the command of write enable;
-- of status, with the bytes since; in an address, with its bytes left and its bytes so far; about
-- to show a byte, and showing it; in a page's bytes, with their number; behind the address of an
-- erase; in a frame that it ignores.
pub data Phase : Type 0 where
  deselected opened enabling : Phase
  status_asked : ℕ → Phase
  addressed : Order → ℕ → ℕ → Phase
  reading showing : ℕ → Phase
  programming : ℕ → ℕ → Phase
  erasing : ℕ → Phase
  ignored : Phase

-- `work`: the polls of the status that still find the chip at work.
pub record Chip : Type 0 where
  pub cells : ℕ → ℕ
  pub latch : Bool
  pub work : ℕ
  pub phase : Phase

-- The chip takes a command that changes it: writing is enabled, and it is not at work.
abbrev pub takes : Chip → Bool
takes c = c.latch && not (truth c.work)

abbrev pub first_byte : Chip → ℕ → Phase
first_byte c v =
    if v == 0x05
    then status_asked 0
    else if truth c.work
    then ignored
    else if v == 0x06
    then enabling
    else if v == 0x03
    then addressed to_read 3 0
    else if v == 0x02
    then addressed to_program 3 0
    else if v == 0xD8
    then addressed to_erase 3 0
    else ignored

-- An address is whole.
abbrev pub whole_address : Chip → Order → ℕ → Phase
whole_address c to_read a = reading a
whole_address c to_program a = if takes c then programming a 0 else ignored
whole_address c to_erase a = if takes c then erasing a else ignored

-- The place of byte `n` of a frame that programs from `a` on: within the page.
abbrev pub place_in_page : ℕ → ℕ → ℕ
place_in_page a n = a / page_size * page_size + (a + n) % page_size

abbrev pub take_byte : Chip → ℕ → Phase → Chip
take_byte c v deselected = c
take_byte c v opened = record c { phase = first_byte c v }
take_byte c v enabling = record c { phase = ignored }
take_byte c v (status_asked n) = record c { phase = status_asked (suc n) }
take_byte c v (addressed o zero a) = record c { phase = ignored }
take_byte c v (addressed o (suc zero) a) = record c { phase = whole_address c o (a * 256 + v) }
take_byte c v (addressed o (suc (suc n)) a) = record c { phase = addressed o (suc n) (a * 256 + v) }
take_byte c v (reading a) = record c { phase = showing a }
take_byte c v (showing a) = record c { phase = showing (a + 1) }
take_byte c v (programming a n) =
    let x = place_in_page a n in
    record c { cells = poke c.cells x (bit_and (c.cells x) v); phase = programming a (n + 1) }
take_byte c v (erasing a) = record c { phase = ignored }
take_byte c v ignored = c

-- A read of the port: of the status, it is one poll.
abbrev pub answer_given : Chip → Phase → Chip
answer_given c (status_asked (suc n)) = record c { work = c.work - 1 }
answer_given c _ = c

abbrev pub erase : (ℕ → ℕ) → ℕ → ℕ → ℕ
erase cells a x = if x / sector_size == a / sector_size then 0xFF else cells x

-- The end of a frame; an erase or a program keeps the chip at work for `delay` polls.
abbrev pub close : ℕ → Chip → Phase → Chip
close delay c enabling = record c { latch = true; phase = deselected }
close delay c (programming a n) = record c { latch = false; work = delay; phase = deselected }
close delay c (erasing a) = record c {
  cells = erase c.cells a;
  latch = false;
  work = delay;
  phase = deselected;
}
close delay c _ = record c { phase = deselected }

abbrev pub select : Chip → Chip
select c = record c { phase = opened }

abbrev pub take : Chip → ℕ → Chip
take c v = take_byte c v c.phase

abbrev pub give : Chip → Chip
give c = answer_given c c.phase

abbrev pub release : ℕ → Chip → Chip
release delay c = close delay c c.phase

abbrev pub chip_call : ℕ → Event → Chip → Chip
chip_call delay (discrete_clear (Pin.flash_ss ∷ ps)) c = select c
chip_call delay (discrete_set (Pin.flash_ss ∷ ps)) c = release delay c
chip_call delay (wrote_byte Port.flash_port v) c = take c v
chip_call delay (read_byte Port.flash_port v) c = give c
chip_call delay _ c = c

-- The bytes of the chip, what it holds at first, and how long it works on a command that ends a
-- history.
pub record Part : Type 0 where
  pub size : ℕ
  pub fresh : ℕ → ℕ
  pub delay : List Event → ℕ

abbrev pub chip : Part → List Event → Chip
chip p [] = record { cells = p.fresh; latch = false; work = 0; phase = deselected }
chip p (e ∷ h) = chip_call (p.delay h) e (chip p h)

-- The board's port answers as the chip does, on the bytes that the chip has, which are whole
-- sectors and which three bytes of address reach; and the chip works for fewer polls than the
-- patience.
pub record HasChip (b : Board) (p : Part) : Type 0 where
  pub reach : p.size ≤ 2 ^ 24
  pub sectors : p.size % sector_size ≡ 0
  pub status :
      (h : List Event) (n : ℕ)
      → (chip p h).phase ≡ status_asked (suc n)
      → bit_and (u8 (b.respond h (Request.byte Port.flash_port))) 1
        ≡ (if truth (chip p h).work then 1 else 0)
  pub output :
      (h : List Event) (a : ℕ)
      → (chip p h).phase ≡ showing a
      → a < p.size
      → u8 (b.respond h (Request.byte Port.flash_port)) ≡ u8 ((chip p h).cells a)
  pub brief : (h : List Event) → p.delay h < b.patience
