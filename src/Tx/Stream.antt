-- ===== src/Tx/Stream.antt =====
-- The calls of the transmitter as plain lists, and what a receiver of the chips makes of them.
use hbc_mac_src.Base.{
  ℕ, zero, suc, ◌+◌, ◌*◌, ◌/◌, ◌%◌, ◌^◌, ◌<◌, ◌==◌, ◌≡◌, ap, List, [], ◌∷◌, ◌++◌, if◌then◌else◌,
  arith,
}
use native.Mathlib.Nat.{pow-suc, div-div-eq-div-mul, div-add-mod}
use hbc_mac_src.Machine.{Port, Event, wrote_word, wrote_byte}
use hbc_mac_src.Tx.{bit_map_32_0, bit_map_32_1, preamble_1, preamble_2, sfd_1, sfd_2}

abbrev pub fifo_word : ℕ → Event
fifo_word w = wrote_word Port.fifo_port w

abbrev pub fifo_size : ℕ → Event
fifo_size n = wrote_byte Port.fifo_mask n

-- Binary digits, the most significant first: `digit` of each of the low `n` places.
unfoldable pub digits_down : ℕ → ℕ → List ℕ
digits_down zero code = []
digits_down (suc n) code = (code / 2 ^ n % 2) ∷ digits_down n code

abbrev pub chip_word : ℕ → Event
chip_word digit = fifo_word (if digit == 1 then bit_map_32_1 else bit_map_32_0)

unfoldable pub chip_words : List ℕ → List Event
chip_words [] = []
chip_words (x ∷ xs) = chip_word x ∷ chip_words xs

-- A 32-bit code at 8 chips a digit.
unfoldable pub bitmap : ℕ → List Event
unfolding digits_down chip_words
bitmap code = wrote_byte Port.modulator_sf 3 ∷ fifo_size 8 ∷ chip_words (digits_down 32 code)

unfoldable pub preamble : List Event
unfolding bitmap
preamble = bitmap preamble_1 ++ bitmap preamble_2

unfoldable pub sfd_code : List Event
unfolding bitmap
sfd_code = bitmap sfd_1 ++ bitmap sfd_2

-- The number of chips that a stream sends: the size in force for each word.
unfoldable pub chips : ℕ → List Event → ℕ
chips size [] = 0
chips size (wrote_word Port.fifo_port w ∷ es) = size + chips size es
chips size (wrote_byte Port.fifo_mask n ∷ es) = chips n es
chips size (_ ∷ es) = chips size es

-- Reading digits back, most significant first.
unfoldable pub value : ℕ → List ℕ → ℕ
value acc [] = acc
value acc (x ∷ xs) = value (2 * acc + x) xs

-- The top digit and the rest.
mod_top : (a m : ℕ) → a % (m * 2) ≡ a / m % 2 * m + a % m
mod_top a m = omega (
  arith,
  div-add-mod a (m * 2),
  div-add-mod a m,
  ap (λ (t : ℕ). m * t) (div-add-mod (a / m) 2),
  ap (λ (t : ℕ). m * t) (div-div-eq-div-mul a m 2),
)

digits_value : (n acc code : ℕ) → value acc (digits_down n code) ≡ acc * 2 ^ n + code % 2 ^ n
unfolding value digits_down
digits_value zero acc code = omega arith
digits_value (suc n) acc code =
    let power = pow-suc 2 n in
    let top = mod_top code (2 ^ n) in
    rw (digits_value n (2 * acc + code / 2 ^ n % 2) code, power, top) (omega arith)

-- The digits of a 32-bit code, most significant first, give the code back.
pub value-digits_down : (code : ℕ) → code < 2 ^ 32 → value 0 (digits_down 32 code) ≡ code
value-digits_down code h = omega (arith, digits_value 32 0 code)

-- What stands before and after the delimiter's code at each rate, the chips all of one kind.
unfoldable pub sfd_lead : ℕ → List Event
sfd_lead rate =
    if rate == 0
    then []
    else if rate == 1
    then fifo_size 16 ∷ fifo_word bit_map_32_0 ∷ []
    else if rate == 2
    then fifo_size 32 ∷ fifo_word bit_map_32_0 ∷ []
    else fifo_size 32 ∷ fifo_word bit_map_32_0 ∷ fifo_size 16 ∷ fifo_word bit_map_32_0 ∷ []

unfoldable pub sfd_tail : ℕ → List Event
sfd_tail rate =
    if rate == 0
    then fifo_size 32
      ∷ fifo_word bit_map_32_0
      ∷ fifo_word bit_map_32_0
      ∷ fifo_word bit_map_32_0
      ∷ []
    else if rate == 1
    then fifo_size 32
      ∷ fifo_word bit_map_32_0
      ∷ fifo_word bit_map_32_0
      ∷ fifo_size 16
      ∷ fifo_word bit_map_32_0
      ∷ []
    else if rate == 2
    then fifo_size 32 ∷ fifo_word bit_map_32_0 ∷ fifo_word bit_map_32_0 ∷ []
    else fifo_size 32 ∷ fifo_word bit_map_32_0 ∷ fifo_size 16 ∷ fifo_word bit_map_32_0 ∷ []
