-- ===== src/Interrupt/Pending.antt =====
-- The line that int_handler serves is the lowest one pending.
use hbc_mac_src.Base.{
  ℕ, zero, suc, ◌+◌, ◌≤◌, ◌<◌, ◌≡◌, ◌<<<◌, bit_and, truth, true, false, inl, inr, arith, Bool-cases,
  Bool,
}
use mathlib.Core.Path.{subst}
use native.Mathlib.Decide.{dec_lt}
use hbc_mac_src.Interrupt.{pending_from, pending_line}

-- Line `j` is pending.
abbrev pub is_pending : ℕ → ℕ → Bool
is_pending pending j = truth (bit_and pending (1 <<< (j + 16)))

-- `k` is the lowest line pending from `line` on, or `stop` if there is none below.
pub record IsLowest (pending line stop k : ℕ) : Type 0 where
  pub from : line ≤ k
  pub below : k ≤ stop
  pub none_before : (j : ℕ) → line ≤ j → j < k → is_pending pending j ≡ false
  pub pends : k < stop → is_pending pending k ≡ true

pending_from-IsLowest :
    (left pending line : ℕ) → IsLowest pending line (line + left) (pending_from left pending line)
unfolding pending_from
pending_from-IsLowest zero pending line = record {
  from = omega arith;
  below = omega arith;
  none_before = λ j h k. absurd (omega arith);
  pends = λ h. absurd (omega arith);
}
pending_from-IsLowest (suc left) pending line = elim (Bool-cases (is_pending pending line)) [
  | inl on ↦ rw on (record {
    from = omega arith;
    below = omega arith;
    none_before = λ j h k. absurd (omega arith);
    pends = λ h. on;
  })
  | inr off ↦
      let rest = pending_from-IsLowest left pending (line + 1) in
      rw off (record {
        from = omega (arith, rest.from);
        below = omega (arith, rest.below);
        none_before = λ j h k. elim (dec_lt line j) [
          | yes behind ↦ rest.none_before j (omega arith) k
          | no here ↦
              let same : line ≡ j = omega arith in
              subst (λ i. is_pending pending i ≡ false) same off
        ];
        pends = λ h. rest.pends (omega arith);
      })
]

-- The line that int_handler serves is pending, and no line below it is; it is 16 exactly if none of
-- the lines is pending.
pub pending_line-IsLowest : (pending : ℕ) → IsLowest pending 0 16 (pending_line pending)
unfolding pending_line
pending_line-IsLowest pending = pending_from-IsLowest 16 pending 0
