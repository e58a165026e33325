-- ===== src/Lcd/Hex.antt =====
-- u32_to_hex against the reading of hexadecimal digits.
use hbc_mac_src.Base.{
  ℕ, zero, suc, ◌+◌, ◌-◌, ◌*◌, ◌/◌, ◌%◌, ◌^◌, ◌<◌, ◌≡◌, refl, ap, ◌==◌, ◌>>>◌, bit_and, ltb, Bool,
  List, [], ◌∷◌, if◌then◌else◌, arith, table, table_entry, ==_iff,
}
use hbc_mac_src.Base.Bits.Fields.{and_ones}
use hbc_mac_src.Lcd.{hex_digit, hex_from, u32_to_hex}

-- The value of the ASCII digits 0-9 and A-F.
abbrev pub digit_value : ℕ → ℕ
digit_value c = if ltb c 0x41 then c - 0x30 else c - 0x37

-- The number that the first `n` characters write behind `value`, and the characters left.
abbrev pub read_hex : ℕ → ℕ → List ℕ → ℕ × List ℕ
read_hex zero value chars = (value, chars)
read_hex (suc n) value [] = (value, [])
read_hex (suc n) value (c ∷ chars) = read_hex n (value * 16 + digit_value c) chars

unfoldable digit_test : ℕ → Bool
digit_test v = digit_value (hex_digit v) == v

value-digit : (v : ℕ) → v < 16 → digit_value (hex_digit v) ≡ v
unfolding digit_test table
value-digit v h = (==_iff (digit_value (hex_digit v)) v).0 (table_entry 16 digit_test v refl h)

nibble : (val s : ℕ) → digit_value (hex_digit (bit_and (val >>> s) 0xf)) ≡ val / 2 ^ s % 16
nibble val s = rw (and_ones 4 (val / 2 ^ s)) (value-digit (val / 2 ^ s % 16) (omega arith))

-- The eight characters that `u32_to_hex` writes read as the number, and those behind them stay.
pub u32_to_hex_lem :
    (val a b c d e f g h : ℕ) (rest : List ℕ)
    → val < 2 ^ 32
    → read_hex 8 0 (u32_to_hex val (a ∷ b ∷ c ∷ d ∷ e ∷ f ∷ g ∷ h ∷ rest)) ≡ (val, rest)
unfolding u32_to_hex hex_from
u32_to_hex_lem val a b c d e f g h rest fits =
    rw
      (
        nibble val 28,
        nibble val 24,
        nibble val 20,
        nibble val 16,
        nibble val 12,
        nibble val 8,
        nibble val 4,
        nibble val 0,
      )
      (ap (λ v. (v, rest)) (omega (arith, fits)))
