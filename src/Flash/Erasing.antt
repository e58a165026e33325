-- ===== src/Flash/Erasing.antt =====
-- flash_sector_erase on the chip.
use hbc_mac_src.Base.{
  ℕ, zero, suc, ◌+◌, ◌*◌, ◌≤◌, ◌<◌, ◌≡◌, refl, sym, ◌∙◌, u8, false, ◌&&◌, leb, ltb, if◌then◌else◌,
  List, arith, ap,
}
use hbc_mac_src.Machine.{Board, Event, State}
use mathlib.Core.Path.{subst}
use hbc_mac_src.Machine.Returns
use hbc_mac_src.Machine.Returns.{Returns, returns}
use hbc_mac_src.Mem.Fault.{replay}
use hbc_mac_src.Flash.{flash_sector_erase, sector_size}
use hbc_mac_src.Flash.Chip.{Chip, deselected, select, release, Part, chip, erase, HasChip}
use hbc_mac_src.Flash.Settling.{
  IsRested, sent, selected, released, enabled, exchange, chip-enabled, wait_written-IsRested,
}

-- From `lo` to below `hi` every byte is erased.
abbrev pub erased_between : ℕ → ℕ → (ℕ → ℕ) → ℕ → ℕ
erased_between lo hi cells x = if leb lo x && ltb x hi then 0xFF else cells x

-- The frames of one sector.
abbrev sector_frames : Board → ℕ → List Event → List Event
sector_frames b sector h =
    released (sent b 0 (sent b 0 (sent b sector (sent b 0xD8 (selected (enabled b h))))))

module _ {b : Board} {p : Part} (has : HasChip b p) where
  chip-sector_frames :
      (sector : ℕ) (h : List Event)
      → (chip p h).work ≡ 0
      → chip p (sector_frames b sector h) ≡ record {
        cells = erase (chip p h).cells (((0 * 256 + u8 sector) * 256 + 0) * 256 + 0);
        latch = false;
        work = p.delay (sent b 0 (sent b 0 (sent b sector (sent b 0xD8 (selected (enabled b h))))));
        phase = deselected;
      }
  chip-sector_frames sector h rest =
      ap {A = Chip} {B = Chip}
        (λ c.
          release
            (p.delay (sent b 0 (sent b 0 (sent b sector (sent b 0xD8 (selected (enabled b h)))))))
            (exchange (exchange (exchange (exchange (select c) 0xD8) (u8 sector)) 0) 0))
        (chip-enabled b p h rest)

  abbrev framed : ℕ → State → State
  framed sector s = record s { events = sector_frames b sector s.events }

  -- One sector.
  erased_first :
      (cells : ℕ → ℕ) (sector num x : ℕ)
      → sector < 256
      → erased_between
          ((sector + 1) * sector_size)
          ((sector + 1 + num) * sector_size)
          (erase cells (((0 * 256 + u8 sector) * 256 + 0) * 256 + 0))
          x
        ≡ erased_between (sector * sector_size) ((sector + suc num) * sector_size) cells x
  erased_first cells sector num x fits = ground arith

  -- On a chip at rest, the sectors are erased and nothing else of it is touched; the chip is at
  -- rest again, and memory is as it was.
  pub flash_sector_erase-IsRested :
      (num sector : ℕ) (s : State)
      → (chip p s.events).work ≡ 0
      → sector + num ≤ 256
      → Returns
          (λ a s'.
            IsRested p
              (erased_between
                (sector * sector_size)
                ((sector + num) * sector_size)
                (chip p s.events).cells)
              (replay s.events)
              s
              s')
          (flash_sector_erase b sector num s)
  unfolding flash_sector_erase
  flash_sector_erase-IsRested zero sector s rest fits =
      returns
        (record { holds = λ x. ground arith; at_rest = rest; memory = refl; variables = refl })
  flash_sector_erase-IsRested (suc num) sector s rest fits =
      let frames = chip-sector_frames sector s.events rest in
      Returns.bind
        (wait_written-IsRested has b.patience (framed sector s)
          (subst (λ c. c.work < b.patience) (sym frames) (has.brief _)))
        λ a t r.
          Returns.mono (flash_sector_erase-IsRested num (sector + 1) t r.at_rest (omega arith))
            λ a' s' r'. record {
              holds = λ x.
                  r'.holds x
                  ∙ ap
                      (λ v.
                        if leb ((sector + 1) * sector_size) x
                          && ltb x ((sector + 1 + num) * sector_size)
                        then 0xFF
                        else v)
                      (r.holds x ∙ ap {A = Chip} (λ c. c.cells x) frames)
                  ∙ erased_first (chip p s.events).cells sector num x (omega arith);
              at_rest = r'.at_rest;
              memory = r'.memory ∙ r.memory;
              variables =
                  r'.variables ∙ ap {A = State} (λ u. record u { events = s'.events }) r.variables;
            }
