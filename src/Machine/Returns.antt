-- ===== src/Machine/Returns.antt =====
-- Total correctness of a run: it returns, and its result and state meet a condition.
use hbc_mac_src.Base.{Option, none, some, ◌≡◌, refl}
use hbc_mac_src.Machine.{State, M, and_then, pure}

pub data Returns {A : Type 0} (P : A → State → Type 0) : Option (A × State) → Type 0 where
  returns : {a : A} {s : State} → P a s → Returns P (some (a, s))

module _ {A : Type 0} {P : A → State → Type 0} where
  pub bind :
      {B : Type 0} {Q : B → State → Type 0} {r : Option (A × State)} {f : A → M B}
      → Returns P r
      → ((a : A) (s : State) → P a s → Returns Q (f a s))
      → Returns Q (and_then r f)
  bind (returns p) next = next _ _ p

  pub mono :
      {Q : A → State → Type 0} {r : Option (A × State)}
      → Returns P r
      → ((a : A) (s : State) → P a s → Q a s)
      → Returns Q r
  mono (returns p) weaken = returns (weaken _ _ p)

  pub found :
      {r : Option (A × State)} → Returns P r → (a : A) × (s : State) × (r ≡ some (a, s)) × P a s
  found (returns {a} {s} p) = (a, s, refl, p)

-- Nothing behind an action changes nothing.
pub then-pure : (r : Option (Unit {0} × State)) → and_then r (λ _. pure tt) ≡ r
then-pure none = refl
then-pure (some (tt, s)) = refl
