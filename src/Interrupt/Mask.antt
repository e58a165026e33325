-- ===== src/Interrupt/Mask.antt =====
-- The mask stands for the set of enabled lines.
use hbc_mac_src.Base.{
  ℕ, ◌+◌, ◌*◌, ◌-◌, ◌/◌, ◌%◌, ◌^◌, ◌<◌, ◌≡◌, ◌∙◌, sym, refl, ◌==◌, ◌<<<◌, zero, suc, ap, bit_and,
  truth, ones, Bool, true, false, if◌then◌else◌, arith, table, table_entry, ==_iff,
}
use mathlib.Core.Path.{ap₂}
use hbc_mac_src.Base.Bits.Places.{digit, digit-or, digit-and, digit-lt, digit-pow, bit_and-pow}
use native.Mathlib.Nat.{pow-suc}
use hbc_mac_src.Interrupt.{masked}

-- Line `j` is enabled.
abbrev pub is_enabled : ℕ → ℕ → Bool
is_enabled mask j = truth (bit_and mask (1 <<< (j + 16)))

pow_pos : (n : ℕ) → 0 < 2 ^ n
pow_pos zero = omega arith
pow_pos (suc n) = omega (arith, pow-suc 2 n, pow_pos n)

truth-scaled : (d n : ℕ) → truth (d * 2 ^ n) ≡ truth d
truth-scaled zero n = ground arith
truth-scaled (suc d) n = ground (arith, pow_pos n)

is_enabled-digit : (mask j : ℕ) → is_enabled mask j ≡ truth (digit (j + 16) mask)
is_enabled-digit mask j =
    let line : 1 <<< (j + 16) ≡ 2 ^ (j + 16) = omega arith in
    ap (λ l. truth (bit_and mask l)) line
    ∙ ap truth (bit_and-pow (j + 16) mask)
    ∙ truth-scaled (digit (j + 16) mask) (j + 16)

-- The digits of the complement of one line, of the lines of the controller.
abbrev complement : ℕ → ℕ
complement k = ones 32 - (1 <<< (k + 16))

unfoldable complement_at : ℕ → ℕ → Bool
complement_at k j = digit (j + 16) (complement k) == (if k == j then 0 else 1)

unfoldable complement_test : ℕ → Bool
complement_test x = complement_at (x / 16) (x % 16)

complement_entry :
    (k j : ℕ) → k < 16 → j < 16 → digit (j + 16) (complement k) ≡ (if k == j then 0 else 1)
unfolding complement_at complement_test table
complement_entry k j k_fits j_fits =
    let entry = table_entry 256 complement_test (k * 16 + j) refl (omega arith) in
    let high : (k * 16 + j) / 16 ≡ k = omega arith in
    let low : (k * 16 + j) % 16 ≡ j = omega arith in
    let here = sym (ap₂ complement_at high low) ∙ entry in
    (==_iff (digit (j + 16) (complement k)) (if k == j then 0 else 1)).0 here

masked-digit :
    (mask k j : ℕ) (enable : Bool)
    → k < 16
    → j < 16
    → digit (j + 16) (masked mask k enable)
      ≡ (if k == j then (if enable then 1 else 0) else digit (j + 16) mask)
unfolding masked
masked-digit mask k j true k_fits j_fits = grind (
  arith,
  digit-or (j + 16) mask (1 <<< (k + 16)),
  digit-pow (j + 16) (k + 16),
  digit-lt (j + 16) mask,
)
masked-digit mask k j false k_fits j_fits = grind (
  arith,
  digit-and (j + 16) mask (complement k),
  complement_entry k j k_fits j_fits,
  digit-lt (j + 16) mask,
)

-- The line that `enable_disable_interrupt` names takes the value it is given, and every other line
-- keeps its own, of the 16 lines of the controller.
pub masked_lem :
    (mask k j : ℕ) (enable : Bool)
    → k < 16
    → j < 16
    → is_enabled (masked mask k enable) j ≡ (if k == j then enable else is_enabled mask j)
masked_lem mask k j enable k_fits j_fits = ground (
  arith,
  is_enabled-digit (masked mask k enable) j,
  is_enabled-digit mask j,
  masked-digit mask k j enable,
)
