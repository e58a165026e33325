-- ===== src/Base/Bits/Places.antt =====
-- The binary digits of a number, and those of `|`, `&` and a single bit.
use Prim.Native.Nat.{ℕ, zero, suc, ◌*◌, ◌/◌, ◌%◌, ◌^◌, ◌<◌, bit_and, bit_or, min, max}
use mathlib.Core.Path.{◌≡◌, refl}
use native.Mathlib.Omega.{arith}
use native.Mathlib.Nat.{pow-suc}
use hbc_mac_src.Base.Tests.{◌==◌, if◌then◌else◌}
use hbc_mac_src.Base.Bits.Digits.{bit_and_low, bit_or_low}
use hbc_mac_src.Base.Bits.Fields.{and-zero}

-- Digit `n`, the lowest being digit 0.
abbrev pub digit : ℕ → ℕ → ℕ
digit zero a = a % 2
digit (suc n) a = digit n (a / 2)

or_half : (a b : ℕ) → bit_or a b / 2 ≡ bit_or (a / 2) (b / 2)
or_half a b = omega (arith, bit_or_low a b)

and_half : (a b : ℕ) → bit_and a b / 2 ≡ bit_and (a / 2) (b / 2)
and_half a b = omega (arith, bit_and_low a b)

pub digit-or : (n a b : ℕ) → digit n (bit_or a b) ≡ max (digit n a) (digit n b)
digit-or zero a b = omega (arith, bit_or_low a b)
digit-or (suc n) a b = rw or_half (digit-or n (a / 2) (b / 2))

pub digit-and : (n a b : ℕ) → digit n (bit_and a b) ≡ min (digit n a) (digit n b)
digit-and zero a b = omega (arith, bit_and_low a b)
digit-and (suc n) a b = rw and_half (digit-and n (a / 2) (b / 2))

pub digit-lt : (n a : ℕ) → digit n a < 2
digit-lt zero a = omega arith
digit-lt (suc n) a = digit-lt n (a / 2)

digit-zero : (n : ℕ) → digit n 0 ≡ 0
digit-zero zero = refl
digit-zero (suc n) = digit-zero n

half_pow : (n : ℕ) → 2 ^ suc n / 2 ≡ 2 ^ n
half_pow n = omega (arith, pow-suc 2 n)

-- The digits of a single bit.
pub digit-pow : (j k : ℕ) → digit j (2 ^ k) ≡ (if k == j then 1 else 0)
digit-pow zero zero = refl
digit-pow zero (suc k) = grind (arith, pow-suc 2 k)
digit-pow (suc j) zero = grind (arith, digit-zero j)
digit-pow (suc j) (suc k) = rw half_pow (ground (arith, digit-pow j k))

and_shift : (n a : ℕ) → bit_and a (2 ^ suc n) ≡ bit_and (a / 2) (2 ^ n) * 2
and_shift n a =
    grind (arith, and_half a (2 ^ suc n), half_pow n, bit_and_low a (2 ^ suc n), pow-suc 2 n)

-- The test of a single bit.
pub bit_and-pow : (n a : ℕ) → bit_and a (2 ^ n) ≡ digit n a * 2 ^ n
bit_and-pow zero a = omega (arith, bit_and_low a 1, and-zero (a / 2))
bit_and-pow (suc n) a = grind (arith, and_shift n a, pow-suc 2 n, bit_and-pow n (a / 2))
