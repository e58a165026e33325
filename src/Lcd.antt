-- ===== src/Lcd.antt =====
-- src/lcd.c: the character display. A string is the list of its bytes up to its NUL, or to its
-- end; a line is a number from 0 on. The delay loops of lcd_init have no effect here.
pub mod Hex
pub mod Print
use hbc_mac_src.Base.{
  ℕ, zero, suc, ◌+◌, ◌-◌, ◌*◌, ◌==◌, ◌>>>◌, bit_and, truth, ltb, leb, u8, set, Bool, true, false,
  none, List, [], ◌∷◌, if◌then◌else◌,
}
use hbc_mac_src.Machine.{Board, Port, M, Action, pure, when, ◌>>◌, ◌>>=◌, write_byte, io_read_byte}

abbrev pub lcd_rows : ℕ
lcd_rows = 2

abbrev pub lcd_columns : ℕ
lcd_columns = 16

unfoldable pub lcd_init : Action
unfolding write_byte
lcd_init =
    write_byte Port.lcd_cmd 0x38
    >> write_byte Port.lcd_cmd 0x38
    >> write_byte Port.lcd_cmd 0x0c
    >> write_byte Port.lcd_cmd 0x01
    >> write_byte Port.lcd_cmd 0x06

module _ (b : Board) where
  -- The loop on the busy flag, on as many rounds as the number.
  unfoldable pub busy_loop : ℕ → Action
  unfolding io_read_byte
  busy_loop zero = λ s. none
  busy_loop (suc n) =
      let again = busy_loop n in
      do
        status ← io_read_byte b Port.lcd_cmd
        if truth (bit_and status 0x80) then again else pure tt

  unfoldable pub lcd_busy : Action
  unfolding busy_loop
  lcd_busy = busy_loop b.patience

  unfoldable pub lcd_cr : ℕ → Action
  unfolding lcd_busy write_byte
  lcd_cr line =
      lcd_busy
      >> when (line == 0) (write_byte Port.lcd_cmd 0x80)
      >> when (line == 1) (write_byte Port.lcd_cmd 0xc0)

  unfoldable pub lcd_clear : Action
  unfolding lcd_busy write_byte
  lcd_clear = lcd_busy >> write_byte Port.lcd_cmd 0x01

  unfoldable pub blanks : ℕ → Action
  unfolding lcd_busy write_byte
  blanks zero = pure tt
  blanks (suc left) = lcd_busy >> write_byte Port.lcd_data 0x20 >> blanks left

  unfoldable pub lcd_clrln : ℕ → Action
  unfolding lcd_cr blanks
  lcd_clrln line = lcd_cr line >> blanks lcd_columns

  -- The loop over the columns left.
  unfoldable pub print_from : ℕ → List ℕ → Action
  unfolding lcd_busy write_byte
  print_from zero string = pure tt
  print_from (suc left) [] = pure tt
  print_from (suc left) (c ∷ string) =
      if c == 0 then pure tt else lcd_busy >> write_byte Port.lcd_data c >> print_from left string

  unfoldable pub lcd_printf : ℕ → List ℕ → Action
  unfolding lcd_cr print_from
  lcd_printf line string =
      if leb lcd_rows line then pure tt else lcd_cr line >> print_from lcd_columns string

abbrev pub hex_digit : ℕ → ℕ
hex_digit v = u8 (if ltb v 0xa then v + 0x30 else v + 0x37)

-- The loop from digit `i` on, of `left` digits.
unfoldable pub hex_from : ℕ → ℕ → ℕ → List ℕ → List ℕ
hex_from zero i val chars = chars
hex_from (suc left) i val chars =
    hex_from left (i + 1) val (set chars (7 - i) (hex_digit (bit_and (val >>> (i * 4)) 0xf)))

unfoldable pub u32_to_hex : ℕ → List ℕ → List ℕ
unfolding hex_from
u32_to_hex val chars = hex_from 8 0 val chars
