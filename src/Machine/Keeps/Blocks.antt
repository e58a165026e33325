-- ===== src/Machine/Keeps/Blocks.antt =====
-- A proof that a `do` block keeps a condition is a `do` block of proofs, step for step.
use hbc_mac_src.Base.{Bool, if◌then◌else◌}
use hbc_mac_src.Machine
use hbc_mac_src.Machine.{M, Action, when}
use hbc_mac_src.Machine.Keeps.{Condition, Keeps, Keeps-bind, Keeps-if, Keeps-when}

infixl 5 ◌>>=◌ ◌>>◌
abbrev pub ◌>>=◌ :
    {J : Condition} {A B : Type 0} {m : M A} {f : A → M B}
    → Keeps J m
    → ((a : A) → Keeps J (f a))
    → Keeps J (Machine.◌>>=◌ m f)
km >>= kf = Keeps-bind _ _ km kf

abbrev pub ◌>>◌ :
    {J : Condition} {A B : Type 0} {m : M A} {k : M B}
    → Keeps J m
    → Keeps J k
    → Keeps J (Machine.◌>>◌ m k)
km >> kk = km >>= λ _. kk

pub branch :
    {J : Condition} {A : Type 0} {m k : M A} (c : Bool)
    → Keeps J m
    → Keeps J k
    → Keeps J (if c then m else k)
branch c km kk = Keeps-if c _ _ km kk

pub only_if : {J : Condition} {m : Action} (c : Bool) → Keeps J m → Keeps J (when c m)
only_if c km = Keeps-when c _ km
