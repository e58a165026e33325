-- ===== src/Crc/Laws.antt =====
-- What the CRC detects.
use hbc_mac_src.Base.{
  ℕ, suc, zero, ◌≡◌, refl, ◌<◌, ◌%◌, ◌+◌, ◌*◌, bit_xor, arith, table, table_entry, ==_iff, ◌==◌,
  if◌then◌else◌, ltb, ◌≢◌, ◌↔◌, List, [], ◌∷◌, ◌++◌, ◌∙◌, ap, sym, true,
}
use hbc_mac_src.Base.Bits.Xor.{xor_comm, xor_self, xor_cancel, eq_of_xor, xor-lt}
use hbc_mac_src.Crc.{crc_rounds, crc8_update, crc_over, crc8_poly, crc8_init}

-- Undoes a round: the top bit of the sum tells whether the polynomial was added.
round_back : ℕ → ℕ
round_back y = if ltb y 128 then 2 * y else 2 * bit_xor y crc8_poly + 1

rounds_back : ℕ → ℕ → ℕ
rounds_back zero y = y
rounds_back (suc n) y = round_back (rounds_back n y)

rounds_table : table (λ x. rounds_back 8 (crc_rounds 8 x) == x) 256 ≡ true
unfolding table crc_rounds rounds_back round_back
rounds_table = refl

range_table : table (λ x. ltb (crc_rounds 8 x) 256) 256 ≡ true
unfolding table crc_rounds
range_table = refl

rounds_undo : (x : ℕ) → x < 256 → rounds_back 8 (crc_rounds 8 x) ≡ x
rounds_undo x h = (==_iff _ x).0 (table_entry 256 _ x rounds_table h)

rounds-lt : (x : ℕ) → x < 256 → crc_rounds 8 x < 256
rounds-lt x h = ground (arith, table_entry 256 _ x range_table h)

update_rounds : (crc byte : ℕ) → crc8_update crc byte ≡ crc_rounds 8 (bit_xor crc (byte % 256))
unfolding crc8_update
update_rounds crc byte = refl

-- A sum and a byte, added: the argument of the rounds.
mixed-lt : (crc byte : ℕ) → crc < 256 → bit_xor crc (byte % 256) < 256
mixed-lt crc byte h = xor-lt 8 crc (byte % 256) h (omega arith)

pub update-lt : (crc byte : ℕ) → crc < 256 → crc8_update crc byte < 256
update-lt crc byte h = rw update_rounds (rounds-lt _ (mixed-lt crc byte h))

rounds_injective : (x y : ℕ) → x < 256 → y < 256 → crc_rounds 8 x ≡ crc_rounds 8 y → x ≡ y
rounds_injective x y h k e = sym (rounds_undo x h) ∙ ap (rounds_back 8) e ∙ rounds_undo y k

rounds_zero : crc_rounds 8 0 ≡ 0
unfolding crc_rounds
rounds_zero = refl

-- Where a byte is added, what was added to comes back from the sum.
xor_right_injective : (a b c : ℕ) → bit_xor a c ≡ bit_xor b c → a ≡ b
xor_right_injective a b c e = sym (xor_cancel a c) ∙ ap (λ t. bit_xor t c) e ∙ xor_cancel b c

-- From one byte on, different sums stay different.
pub update_injective :
    (crc crc' byte : ℕ)
    → crc < 256
    → crc' < 256
    → crc8_update crc byte ≡ crc8_update crc' byte
    → crc ≡ crc'
update_injective crc crc' byte h h' e = xor_right_injective crc crc' (byte % 256) (
    rounds_injective _ _ (mixed-lt crc byte h) (mixed-lt crc' byte h')
      (sym (update_rounds crc byte) ∙ e ∙ update_rounds crc' byte))

-- From one sum on, different bytes give different sums.
pub update_byte_injective :
    (crc x y : ℕ) → crc < 256 → crc8_update crc x ≡ crc8_update crc y → x % 256 ≡ y % 256
update_byte_injective crc x y h e = xor_right_injective (x % 256) (y % 256) crc (
    xor_comm (x % 256) crc
    ∙ rounds_injective _ _ (mixed-lt crc x h) (mixed-lt crc y h)
        (sym (update_rounds crc x) ∙ e ∙ update_rounds crc y)
    ∙ xor_comm crc (y % 256))

-- The new sum is zero exactly for the byte that equals the old sum.
pub update_zero_iff : (crc byte : ℕ) → crc < 256 → (crc8_update crc byte ≡ 0) ↔ (byte % 256 ≡ crc)
update_zero_iff crc byte h = (there, back)
  where
    there : crc8_update crc byte ≡ 0 → byte % 256 ≡ crc
    there e = sym (
        eq_of_xor crc (byte % 256) (
          rounds_injective _ 0 (mixed-lt crc byte h) (omega arith)
            (sym (update_rounds crc byte) ∙ e ∙ sym rounds_zero)))

    back : byte % 256 ≡ crc → crc8_update crc byte ≡ 0
    back e = rw (update_rounds, e, xor_self) rounds_zero

pub over-append :
    (crc : ℕ) (xs ys : List ℕ) → crc_over crc (xs ++ ys) ≡ crc_over (crc_over crc xs) ys
unfolding crc_over
over-append crc [] ys = refl
over-append crc (x ∷ xs) ys = over-append (crc8_update crc x) xs ys

pub over-lt : (crc : ℕ) (xs : List ℕ) → crc < 256 → crc_over crc xs < 256
unfolding crc_over
over-lt crc [] h = h
over-lt crc (x ∷ xs) h = over-lt (crc8_update crc x) xs (update-lt crc x h)

over_injective :
    (crc crc' : ℕ) (xs : List ℕ)
    → crc < 256
    → crc' < 256
    → crc_over crc xs ≡ crc_over crc' xs
    → crc ≡ crc'
unfolding crc_over
over_injective crc crc' [] h h' e = e
over_injective crc crc' (x ∷ xs) h h' e = update_injective crc crc' x h h' (
    over_injective (crc8_update crc x) (crc8_update crc' x) xs (update-lt crc x h)
      (update-lt crc' x h') e)

-- A message with one more byte sums to zero exactly if that byte is the sum of the message.
pub accepted_iff :
    (message : List ℕ) (last : ℕ)
    → (crc_over crc8_init (message ++ last ∷ []) ≡ 0) ↔ (last % 256 ≡ crc_over crc8_init message)
unfolding crc_over
accepted_iff message last =
    rw over-append
      (update_zero_iff (crc_over crc8_init message) last (over-lt crc8_init message (omega arith)))

-- Two messages that differ in one byte have different sums, whatever stands around it.
pub single_byte_detected :
    (before after : List ℕ) (x y : ℕ)
    → x % 256 ≢ y % 256
    → crc_over crc8_init (before ++ x ∷ after) ≢ crc_over crc8_init (before ++ y ∷ after)
unfolding crc_over
single_byte_detected before after x y differ e =
    let sum = crc_over crc8_init before in
    let small : sum < 256 = over-lt crc8_init before (omega arith) in
    differ (
      update_byte_injective sum x y small (
        over_injective (crc8_update sum x) (crc8_update sum y) after (update-lt sum x small)
          (update-lt sum y small)
          (sym (over-append crc8_init before (x ∷ after))
            ∙ e
            ∙ over-append crc8_init before (y ∷ after))))

-- Only the low byte of the argument counts.
pub update_same : (crc x y : ℕ) → x % 256 ≡ y % 256 → crc8_update crc x ≡ crc8_update crc y
update_same crc x y e = rw (update_rounds crc x, e) (sym (update_rounds crc y))
