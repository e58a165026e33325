-- ===== src/Interrupt/Chain.antt =====
-- The linked list of handlers: what it stands for, and how add_int_handler lengthens it.
use hbc_mac_src.Base.{
  ℕ, zero, suc, ◌≤◌, ◌<◌, ◌≡◌, ◌≢◌, ◌∙◌, sym, ap, refl, ◌==◌, arith, Option, none, some, List, [],
  ◌∷◌, ◌++◌, length, true, false,
}
use hbc_mac_src.Machine.{Action}
use hbc_mac_src.Interrupt.{Registry, update, find_last, append_to, add_to, add_int_handler}

-- From `p` on, the links lead through `xs`.
abbrev pub Chain : (ℕ → Option ℕ) → Option ℕ → List ℕ → Type 0
Chain next p [] = p ≡ none
Chain next p (x ∷ xs) = (p ≡ some x) × Chain next (next x) xs

abbrev pub IsNew : ℕ → List ℕ → Type 0
IsNew a [] = Unit
IsNew a (x ∷ xs) = (a ≢ x) × IsNew a xs

abbrev pub AreDistinct : List ℕ → Type 0
AreDistinct [] = Unit
AreDistinct (x ∷ xs) = IsNew x xs × AreDistinct xs

ne_test : (a x : ℕ) → a ≢ x → (a == x) ≡ false
ne_test a x differs = ground arith

eq_test : (x : ℕ) → (x == x) ≡ true
eq_test x = ground arith

-- A link that is not on the way changes nothing.
Chain-update :
    (next : ℕ → Option ℕ) (a : ℕ) (v p : Option ℕ) (xs : List ℕ)
    → IsNew a xs
    → Chain next p xs
    → Chain (update next a v) p xs
Chain-update next a v p [] new c = c
Chain-update next a v p (x ∷ xs) (differs, new) (e, c) =
    (e, rw (ne_test a x differs) (Chain-update next a v (next x) xs new c))

-- The walk ends at the last handler, and a link behind it lengthens the chain.
find_last-Chain :
    (fuel : ℕ) (next : ℕ → Option ℕ) (a x : ℕ) (xs : List ℕ)
    → AreDistinct (x ∷ xs)
    → IsNew a (x ∷ xs)
    → Chain next (next x) xs
    → next a ≡ none
    → length xs < fuel
    → (last : ℕ) × (find_last fuel next x ≡ some last)
      × ((z : ℕ) → IsNew z (x ∷ xs) → z ≢ last)
      × Chain (update next last (some a)) (some x) (x ∷ xs ++ a ∷ [])
unfolding find_last
find_last-Chain zero next a x xs distinct new c end enough = absurd (omega arith)
find_last-Chain (suc n) next a x [] distinct (differs, new) c end enough = (
  x,
  rw (c, find_last) refl,
  λ z fresh. fresh.0,
  (refl, (rw (eq_test x) refl, rw (ne_test x a (λ e. differs (sym e))) end)),
)
find_last-Chain (suc n) next a x (y ∷ ys) (here, distinct) (differs, new) (e, c) end enough =
    let (last, found, other, chain) =
      find_last-Chain n next a y ys distinct new c end (omega arith) in
    (
      last,
      rw (e, find_last) found,
      λ z fresh. other z fresh.1,
      (refl, rw (ne_test last x (λ same. other x here (sym same)), e) chain),
    )

-- The list of the registry stands for `xs`; the structures' lines and functions are `line`, `func`.
pub record Lists (line : ℕ → ℕ) (func : ℕ → Action) (xs : List ℕ) (r : Registry) : Type 0 where
  pub chain : Chain r.next r.int_handler_list xs
  pub lines : r.irq_line ≡ line
  pub funcs : r.func ≡ func

pub add_int_handler-Lists :
    (fuel a : ℕ) (line : ℕ → ℕ) (func : ℕ → Action) (xs : List ℕ) (r : Registry)
    → AreDistinct xs
    → IsNew a xs
    → length xs ≤ fuel
    → Lists line func xs r
    → (r' : Registry) × (add_int_handler fuel a r ≡ some r') × Lists line func (xs ++ a ∷ []) r'
unfolding add_int_handler
add_int_handler-Lists fuel a line func [] r distinct new enough l = (
  record r { next = update r.next a none; int_handler_list = some a },
  ap (add_to fuel a (record r { next = update r.next a none })) l.chain,
  record { chain = (refl, rw (eq_test a) refl); lines = l.lines; funcs = l.funcs },
)
add_int_handler-Lists fuel a line func (x ∷ xs) r distinct new enough l =
    let cut = update r.next a none in
    let chain = Chain-update r.next a none r.int_handler_list (x ∷ xs) new l.chain in
    let (last, found, other, longer) =
      find_last-Chain fuel cut a x xs distinct new chain.1 (rw (eq_test a) refl) (omega arith) in
    (
      record r { next = update cut last (some a) },
      ap (add_to fuel a (record r { next = cut })) l.chain.0
          ∙ ap (append_to a (record r { next = cut })) found,
      record { chain = (l.chain.0, longer.1); lines = l.lines; funcs = l.funcs },
    )
