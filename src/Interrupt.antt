-- ===== src/Interrupt.antt =====
-- src/interrupt.c: the linked list of handlers, the mask of enabled lines, and the dispatch of an
-- interrupt. A handler's structure is named by a number; a walk along the list takes fuel.
pub mod Pending
pub mod Chain
pub mod Dispatch
pub mod Mask
use hbc_mac_src.Base.{
  ℕ, zero, suc, ◌+◌, ◌-◌, ◌^◌, ◌==◌, ◌<<<◌, bit_and, bit_or, truth, u32, ones, Bool, true, false,
  Option, none, some, if◌then◌else◌,
}
use hbc_mac_src.Machine.{
  Board, Port, M, Action, pure, ◌>>=◌, ◌>>◌, write_word, io_read_word, emit, interrupts_on,
  interrupts_off,
}

-- `int_handler_list`, the handlers' structures (`next`, and `irq_line` and `func`, which no code
-- writes), `interrupt_mask`, and `interrupt_count` of int_handler.
pub record Registry : Type 0 where
  pub int_handler_list : Option ℕ
  pub next : ℕ → Option ℕ
  pub irq_line : ℕ → ℕ
  pub func : ℕ → Action
  pub interrupt_mask : ℕ
  pub interrupt_count : ℕ

abbrev pub update : (ℕ → Option ℕ) → ℕ → Option ℕ → ℕ → Option ℕ
update f p v q = if p == q then v else f q

-- The loop that looks for the last handler.
unfoldable pub find_last : ℕ → (ℕ → Option ℕ) → ℕ → Option ℕ
find_last zero next p = none
find_last (suc n) next p = elim (next p) [ none ↦ some p | some q ↦ find_last n next q ]

abbrev pub append_to : ℕ → Registry → Option ℕ → Option Registry
append_to new r none = none
append_to new r (some last) = some (record r { next = update r.next last (some new) })

unfoldable pub add_to : ℕ → ℕ → Registry → Option ℕ → Option Registry
unfolding find_last
add_to fuel new r none = some (record r { int_handler_list = some new })
add_to fuel new r (some first) = append_to new r (find_last fuel r.next first)

unfoldable pub add_int_handler : ℕ → ℕ → Registry → Option Registry
unfolding add_to
add_int_handler fuel new r =
    add_to fuel new (record r { next = update r.next new none }) r.int_handler_list

-- The search for a pending line, on the lines left from `line` on.
unfoldable pub pending_from : ℕ → ℕ → ℕ → ℕ
pending_from zero pending line = line
pending_from (suc left) pending line =
    if truth (bit_and pending (1 <<< (line + 16)))
    then line
    else pending_from left pending (line + 1)

unfoldable pub pending_line : ℕ → ℕ
unfolding pending_from
pending_line pending = pending_from 16 pending 0

-- The loop over the handlers.
unfoldable pub run_chain : ℕ → Registry → ℕ → Option ℕ → Action
run_chain n r line none = pure tt
run_chain zero r line (some p) = λ s. none
run_chain (suc n) r line (some p) =
    (if r.irq_line p == line then r.func p else pure tt) >> run_chain n r line (r.next p)

-- With no line pending the line is 16, and the shift of the acknowledgement is one of 32 places,
-- which C leaves undefined; here nothing is acknowledged then.
unfoldable pub int_handler : Board → ℕ → Registry → M Registry
unfolding io_read_word write_word pending_line run_chain
int_handler b fuel r = do
  pending ← io_read_word b Port.intr_status
  write_word Port.intr_ack (1 <<< (pending_line pending + 16))
  run_chain fuel r (pending_line pending) r.int_handler_list
  pure (record r { interrupt_count = u32 (r.interrupt_count + 1) })

unfoldable pub masked : ℕ → ℕ → Bool → ℕ
masked mask int_no enable =
    let line = 1 <<< (int_no + 16) in
    if enable then bit_or mask line else bit_and mask (ones 32 - line)

unfoldable pub enable_disable_interrupt : ℕ → Bool → Registry → M Registry
unfolding masked write_word
enable_disable_interrupt int_no enable r =
    let mask = masked r.interrupt_mask int_no enable in
    do write_word Port.intr_enable mask; pure (record r { interrupt_mask = mask })

unfoldable pub enable_interrupts : Action
enable_interrupts = emit interrupts_on

unfoldable pub disable_interrupts : Action
disable_interrupts = emit interrupts_off
