-- ===== src/Base/Bits/Fields.antt =====
-- Fields of a word: `|` of disjoint fields is a sum, and `&` with the mask of a field selects it.
use Prim.Native.Nat.{
  ℕ, zero, suc, ◌+◌, ◌-◌, ◌*◌, ◌/◌, ◌%◌, ◌≤◌, ◌<◌, ◌^◌, bit_and, bit_or, bit_or-bitwise,
}
use mathlib.Core.Path.{◌≡◌, refl, ap}
use native.Mathlib.Omega.{arith}
use native.Mathlib.Nat.{pow-suc, div-div-eq-div-mul, div-add-mod, one-le-pow, mul-div_left}
use hbc_mac_src.Base.Bits.Digits.{bit_and_low, bit_or_low}

or_below : (n a : ℕ) → a ≤ n → bit_or a 0 ≡ a
or_below zero zero h = refl
or_below zero (suc a) h = absurd (omega arith)
or_below (suc n) a h = omega (arith, bit_or_low a 0, or_below n (a / 2) (omega arith))

pub or-zero : (a : ℕ) → bit_or a 0 ≡ a
or-zero a = or_below a a (omega arith)

pub or-lt : (k a b : ℕ) → a < 2 ^ k → b < 2 ^ k → bit_or a b < 2 ^ k
or-lt zero zero zero h l = omega arith
or-lt zero (suc a) b h l = absurd (omega arith)
or-lt zero zero (suc b) h l = absurd (omega arith)
or-lt (suc k) a b h l =
    let p = pow-suc 2 k in
    omega (arith, p, bit_or_low a b, or-lt k (a / 2) (b / 2) (omega arith) (omega arith))

and_below : (n a : ℕ) → a ≤ n → bit_and a 0 ≡ 0
and_below zero zero h = refl
and_below zero (suc a) h = absurd (omega arith)
and_below (suc n) a h = omega (arith, bit_and_low a 0, and_below n (a / 2) (omega arith))

pub and-zero : (a : ℕ) → bit_and a 0 ≡ 0
and-zero a = and_below a a (omega arith)

pub zero-or : (b : ℕ) → bit_or 0 b ≡ b
zero-or b = simp bit_or-bitwise

twice_pow : (h k : ℕ) → h * 2 ^ suc k ≡ 2 * (h * 2 ^ k)
twice_pow h k = omega (arith, ap (λ (t : ℕ). h * t) (pow-suc 2 k))

-- A field above `k` bits, and what those bits hold: they meet in no digit.
pub or_above : (k low high : ℕ) → low < 2 ^ k → bit_or low (high * 2 ^ k) ≡ low + high * 2 ^ k
or_above zero zero high h = omega (arith, zero-or (high * 2 ^ 0))
or_above zero (suc low) high h = absurd (omega arith)
or_above (suc k) low high h = ground (
  arith,
  pow-suc 2 k,
  twice_pow high k,
  bit_or_low low (high * 2 ^ suc k),
  or_above k (low / 2) high (omega arith),
)

div_twice : (a m : ℕ) → a / 2 / m ≡ a / (2 * m)
div_twice a m = div-div-eq-div-mul a 2 m

mod_twice : (a m : ℕ) → a % (2 * m) ≡ a / 2 % m * 2 + a % 2
mod_twice a m = grind (arith, div_twice a m, div-add-mod a (2 * m), div-add-mod (a / 2) m)

-- The low `k` ones keep the remainder by `2 ^ k`.
pub and_ones : (k a : ℕ) → bit_and a (2 ^ k - 1) ≡ a % 2 ^ k
and_ones zero a = rw and-zero (omega arith)
and_ones (suc k) a =
    let twice : 2 ^ suc k ≡ 2 * 2 ^ k = omega (arith, pow-suc 2 k) in
    let pos = one-le-pow k 2 in
    let half : (2 * 2 ^ k - 1) / 2 ≡ 2 ^ k - 1 = omega arith in
    let odd : (2 * 2 ^ k - 1) % 2 ≡ 1 = omega arith in
    rw (twice, bit_and_low a (2 * 2 ^ k - 1), half, odd, and_ones k (a / 2), mod_twice)
      (omega arith)

-- A mask that is shifted by `s`.
pub and_shifted : (s a mask : ℕ) → bit_and a (mask * 2 ^ s) ≡ bit_and (a / 2 ^ s) mask * 2 ^ s
and_shifted zero a mask =
    let one : a / 1 ≡ a = omega arith in
    let same : mask * 1 ≡ mask = omega arith in rw (one, same) (omega arith)
and_shifted (suc s) a mask =
    let twice : mask * 2 ^ suc s ≡ 2 * (mask * 2 ^ s) = twice_pow mask s in
    let half : 2 * (mask * 2 ^ s) / 2 ≡ mask * 2 ^ s = omega arith in
    let doubled : 2 ^ suc s ≡ 2 * 2 ^ s = omega (arith, pow-suc 2 s) in
    let even : 2 * (mask * 2 ^ s) % 2 ≡ 0 = omega arith in
    rw
      (
        twice,
        bit_and_low a (2 * (mask * 2 ^ s)),
        half,
        even,
        and_shifted s (a / 2) mask,
        div_twice,
        ← doubled,
      )
      (omega (arith, twice_pow (bit_and (a / 2 ^ suc s) mask) s))

-- `(a & MASK) >> s` for the mask of the `w` bits from bit `s` up.
pub field_of : (s w a : ℕ) → bit_and a ((2 ^ w - 1) * 2 ^ s) / 2 ^ s ≡ a / 2 ^ s % 2 ^ w
field_of s w a =
    rw (and_shifted, and_ones) (mul-div_left (a / 2 ^ s % 2 ^ w) (one-le-pow s 2 (omega arith)))
