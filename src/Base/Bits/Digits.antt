-- ===== src/Base/Bits/Digits.antt =====
-- One binary digit of `bit_and`, `bit_or` and `bit_xor`: the operations by their lowest digit.
use Prim.Native.Nat.{ℕ, zero, suc, ◌+◌, ◌*◌, ◌/◌, ◌%◌, ◌≤◌, ◌<◌, min, max, differ, digits, bitwise}
use Prim.Native.Nat.{bit_and, bit_or, bit_xor, bit_and-bitwise, bit_or-bitwise, bit_xor-bitwise}
use mathlib.Core.Path.{◌≡◌, refl, sym, ap, ◌∙◌}
use native.Mathlib.Omega.{arith}

module _ (rest : ℕ → ℕ) (op : ℕ → ℕ → ℕ) where
  -- Nothing is left of the first number.
  digits_spent : (n b : ℕ) → digits rest op n 0 b ≡ rest b
  digits_spent zero b = refl
  digits_spent (suc n) b = refl

  -- Two counts of digits that both reach past the first number give the same result.
  digits_enough : (a b n k : ℕ) → a ≤ n → a ≤ k → digits rest op n a b ≡ digits rest op k a b
  digits_enough zero b n k l r = digits_spent n b ∙ sym (digits_spent k b)
  digits_enough (suc a) b zero k l r = absurd (omega arith)
  digits_enough (suc a) b (suc n) zero l r = absurd (omega arith)
  digits_enough (suc a) b (suc n) (suc k) l r =
      ap (λ high. high * 2 + op (suc a % 2) (b % 2))
        (digits_enough (suc a / 2) (b / 2) n k (omega arith) (omega arith))

  bitwise_low_digit :
      (a b : ℕ)
      → bitwise rest op (suc a) b ≡ bitwise rest op (suc a / 2) (b / 2) * 2 + op (suc a % 2) (b % 2)
  bitwise_low_digit a b =
      rw (digits_enough (suc a / 2) (b / 2) a (suc a / 2) (omega arith) (omega arith))

pub bit_and_low : (a b : ℕ) → bit_and a b ≡ bit_and (a / 2) (b / 2) * 2 + min (a % 2) (b % 2)
bit_and_low zero b = simp bit_and-bitwise (omega arith)
bit_and_low (suc a) b = simp bit_and-bitwise (bitwise_low_digit (λ _. 0) min a b)

pub bit_or_low : (a b : ℕ) → bit_or a b ≡ bit_or (a / 2) (b / 2) * 2 + max (a % 2) (b % 2)
bit_or_low zero b = simp bit_or-bitwise (omega arith)
bit_or_low (suc a) b = simp bit_or-bitwise (bitwise_low_digit (λ y. y) max a b)

differ_bits : (x y : ℕ) → x < 2 → y < 2 → differ x y ≡ (x + y) % 2
differ_bits zero y h k = omega arith
differ_bits (suc zero) zero h k = refl
differ_bits (suc zero) (suc zero) h k = refl
differ_bits (suc zero) (suc (suc y)) h k = absurd (omega arith)
differ_bits (suc (suc x)) y h k = absurd (omega arith)

bit_xor_low_differ : (a b : ℕ) → bit_xor a b ≡ bit_xor (a / 2) (b / 2) * 2 + differ (a % 2) (b % 2)
bit_xor_low_differ zero b =
    simp bit_xor-bitwise (omega (arith, differ_bits (0 % 2) (b % 2) (omega arith) (omega arith)))
bit_xor_low_differ (suc a) b = simp bit_xor-bitwise (bitwise_low_digit (λ y. y) differ a b)

pub bit_xor_low : (a b : ℕ) → bit_xor a b ≡ bit_xor (a / 2) (b / 2) * 2 + (a + b) % 2
bit_xor_low a b =
    omega (arith, bit_xor_low_differ a b, differ_bits (a % 2) (b % 2) (omega arith) (omega arith))
