-- ===== src/Interrupt/Dispatch.antt =====
-- The linked list of handlers stands for the list of those that were added, in order, and an
-- interrupt runs those of its line in that order.
use hbc_mac_src.Base.{
  ℕ, zero, suc, ◌+◌, ◌≤◌, ◌≡◌, ◌≢◌, ◌∙◌, sym, ap, refl, ◌==◌, ◌<<<◌, u32, arith, Option, none, some,
  List, [], ◌∷◌, ◌++◌, length, length-append, if◌then◌else◌,
}
use hbc_mac_src.Machine.{
  Board, Port, word, M, Action, State, pure, ◌>>=◌, ◌>>◌, write_word, io_read_word,
}
use mathlib.Core.Path.{subst}
use mathlib.Core.List.{append_assoc, append-nil}
use hbc_mac_src.Interrupt.{Registry, add_int_handler, pending_line, run_chain, int_handler}
use hbc_mac_src.Interrupt.Chain.{Chain, IsNew, AreDistinct, Lists, add_int_handler-Lists}

-- The handlers are added one behind the other, as the parts of the program start.
unfoldable pub add_all : ℕ → List ℕ → Registry → Option Registry
unfolding add_int_handler
add_all fuel [] r = some r
add_all fuel (a ∷ xs) r = elim (add_int_handler fuel a r) [
  | none ↦ none
  | some r' ↦ add_all fuel xs r'
]

IsNew-front : (x a : ℕ) (xs ys : List ℕ) → IsNew x (xs ++ (a ∷ ys)) → IsNew x xs × (x ≢ a)
IsNew-front x a [] ys (differs, new) = (tt, differs)
IsNew-front x a (y ∷ xs) ys (differs, new) =
    let (front, apart) = IsNew-front x a xs ys new in ((differs, front), apart)

AreDistinct-front :
    (a : ℕ) (xs ys : List ℕ) → AreDistinct (xs ++ (a ∷ ys)) → AreDistinct xs × IsNew a xs
AreDistinct-front a [] ys distinct = (tt, tt)
AreDistinct-front a (x ∷ xs) ys (new, distinct) =
    let (front, apart) = IsNew-front x a xs ys new in
    let (rest, fresh) = AreDistinct-front a xs ys distinct in
    ((front, rest), (λ same. apart (sym same), fresh))

module _ (line : ℕ → ℕ) (func : ℕ → Action) where
  add_all-Lists :
      (fuel : ℕ) (xs ys : List ℕ) (r : Registry)
      → AreDistinct (xs ++ ys)
      → length (xs ++ ys) ≤ fuel
      → Lists line func xs r
      → (r' : Registry) × (add_all fuel ys r ≡ some r') × Lists line func (xs ++ ys) r'
  unfolding add_all
  add_all-Lists fuel xs [] r distinct enough l =
      (r, refl, subst (λ zs. Lists line func zs r) (sym (append-nil xs)) l)
  add_all-Lists fuel xs (a ∷ ys) r distinct enough l =
      let (front, new) = AreDistinct-front a xs ys distinct in
      let joined = append_assoc xs (a ∷ []) ys in
      let lengths = length-append xs (a ∷ ys) in
      let (r₁, added, l₁) =
        add_int_handler-Lists fuel a line func xs r front new (omega (arith, lengths)) l in
      let (r₂, all, l₂) =
        add_all-Lists fuel (xs ++ a ∷ []) ys r₁ (rw joined distinct) (rw joined enough) l₁ in
      (r₂, rw (added, add_all) all, subst (λ zs. Lists line func zs r₂) joined l₂)

  -- The functions of the handlers of a line, in order.
  unfoldable pub run_list : ℕ → List ℕ → Action
  run_list now [] = pure tt
  run_list now (x ∷ xs) = (if line x == now then func x else pure tt) >> run_list now xs

  pub run_chain-run_list :
      (n now : ℕ) (r : Registry) (p : Option ℕ) (xs : List ℕ)
      → r.irq_line ≡ line
      → r.func ≡ func
      → Chain r.next p xs
      → length xs ≤ n
      → run_chain n r now p ≡ run_list now xs
  unfolding run_chain run_list
  run_chain-run_list zero now r p [] same same' c enough = rw (c, run_chain) refl
  run_chain-run_list (suc n) now r p [] same same' c enough = rw (c, run_chain) refl
  run_chain-run_list zero now r p (x ∷ xs) same same' c enough = absurd (omega arith)
  run_chain-run_list (suc n) now r p (x ∷ xs) same same' (e, c) enough =
      let rest = run_chain-run_list n now r (r.next x) xs same same' c (omega arith) in
      let body =
        λ (l : ℕ → ℕ) (g : ℕ → Action) (k : Action). (if l x == now then g x else pure tt) >> k in
      ap (run_chain (suc n) r now) e
      ∙ ap (body r.irq_line r.func) rest
      ∙ ap (λ l. body l r.func (run_list now xs)) same
      ∙ ap (λ g. body line g (run_list now xs)) same'

  -- What an interrupt does when the handlers `xs` are registered: it asks which line is pending,
  -- acknowledges it, and runs the handlers of that line in order.
  unfoldable pub serve : Board → List ℕ → Registry → M Registry
  unfolding io_read_word write_word pending_line run_list
  serve b xs r = do
    pending ← io_read_word b Port.intr_status
    write_word Port.intr_ack (1 <<< (pending_line pending + 16))
    run_list (pending_line pending) xs
    pure (record r { interrupt_count = u32 (r.interrupt_count + 1) })

-- Handlers that are distinct, and no more of them than the fuel, are all added to an empty list;
-- an interrupt then runs those of the lowest pending line, in the order in which they were added.
pub int_handler_lem :
    (b : Board) (s : State) (fuel : ℕ) (xs : List ℕ) (r : Registry)
    → AreDistinct xs
    → length xs ≤ fuel
    → r.int_handler_list ≡ none
    → (r' : Registry) × (add_all fuel xs r ≡ some r')
      × (int_handler b fuel r' s ≡ serve r.irq_line r.func b xs r' s)
unfolding int_handler serve
int_handler_lem b s fuel xs r distinct enough empty =
    let (r', added, l) =
      add_all-Lists r.irq_line r.func fuel [] xs r distinct enough
        (record { chain = empty; lines = refl; funcs = refl }) in
    (
      r',
      added,
      rw
          (run_chain-run_list r.irq_line r.func fuel
            (pending_line (u32 (b.respond s.events (word Port.intr_status)))) r' r'.int_handler_list
            xs l.lines l.funcs l.chain enough)
          refl,
    )
