-- ===== src/Ctrl/Start/Served.antt =====
-- What main's start leaves behind: each interrupt line runs its handler, and no other line is
-- enabled.
use hbc_mac_src.Base.{
  ℕ, ◌+◌, ◌<◌, ◌≡◌, ◌≢◌, refl, ap, ◌==◌, ◌<<<◌, Bool, true, false, ◌||◌, List, [], ◌∷◌, u32, arith,
}
use hbc_mac_src.Machine.{
  Board, Port, Irq, Request, M, Action, State, pure, and_then, ◌>>=◌, ◌>>◌, write_word,
  io_read_word,
}
use hbc_mac_src.Machine.Returns
use hbc_mac_src.Machine.Returns.{Returns, returns, then-pure}
use hbc_mac_src.Machine.Wait.{Settles, wait-Unmoved}
use hbc_mac_src.Interrupt.{Registry, int_handler, pending_line}
use hbc_mac_src.Ctrl.{Protocol}
use hbc_mac_src.Ctrl.Steps.{Handler, rx_data, rx_ready, spi_ctrl, spi_data, handle}
use hbc_mac_src.Interrupt.Chain.{Lists}
use hbc_mac_src.Interrupt.Dispatch.{run_list, run_chain-run_list}
use hbc_mac_src.Ctrl.Start.{handler_at, start}

-- The lines of the handlers are different lines of the controller.
pub record AreLines (lines : Handler → ℕ) : Type 0 where
  pub fits : (h : Handler) → lines h < 16
  pub apart : (h k : Handler) → h ≢ k → lines h ≢ lines k

module _ (b : Board) (p : Protocol) (lines : Handler → ℕ) where
  -- An interrupt on the line of `h`: the status is read, the line acknowledged, the handler run,
  -- and the interrupt counted.
  unfoldable pub answer : Handler → Registry → M Registry
  unfolding io_read_word write_word
  answer h r = do
    pending ← io_read_word b Port.intr_status
    write_word Port.intr_ack (1 <<< (lines h + 16))
    handle b p h
    pure (record r { interrupt_count = u32 (r.interrupt_count + 1) })

  -- The line that the status of the controller names.
  abbrev pub line_at : State → ℕ
  line_at s = pending_line (u32 (b.respond s.events (Request.word Port.intr_status)))

  abbrev line_of : ℕ → ℕ
  line_of x = lines (handler_at x)

  abbrev func_of : ℕ → Action
  func_of x = handle b p (handler_at x)

  abbrev all : List ℕ
  all = 0 ∷ 1 ∷ 2 ∷ 3 ∷ []

  own_line : (h : Handler) → (lines h == lines h) ≡ true
  own_line h = ground arith

  other_line : (h k : Handler) → AreLines lines → h ≢ k → (lines h == lines k) ≡ false
  other_line h k are differ = ground (arith, are.apart h k differ)

  -- Of the four handlers the one of the line runs, and no other.
  list_served :
      (h : Handler) (s : State)
      → AreLines lines
      → run_list line_of func_of (lines h) all s ≡ handle b p h s
  unfolding run_list
  list_served rx_data s are =
      rw
        (
          own_line rx_data,
          other_line rx_ready rx_data are (λ e. cc),
          other_line spi_ctrl rx_data are (λ e. cc),
          other_line spi_data rx_data are (λ e. cc),
        )
        (then-pure (handle b p rx_data s))
  list_served rx_ready s are =
      rw
        (
          own_line rx_ready,
          other_line rx_data rx_ready are (λ e. cc),
          other_line spi_ctrl rx_ready are (λ e. cc),
          other_line spi_data rx_ready are (λ e. cc),
        )
        (then-pure (handle b p rx_ready s))
  list_served spi_ctrl s are =
      rw
        (
          own_line spi_ctrl,
          other_line rx_data spi_ctrl are (λ e. cc),
          other_line rx_ready spi_ctrl are (λ e. cc),
          other_line spi_data spi_ctrl are (λ e. cc),
        )
        (then-pure (handle b p spi_ctrl s))
  list_served spi_data s are =
      rw
        (
          own_line spi_data,
          other_line rx_data spi_data are (λ e. cc),
          other_line rx_ready spi_data are (λ e. cc),
          other_line spi_ctrl spi_data are (λ e. cc),
        )
        (then-pure (handle b p spi_data s))

  registry_serves :
      (h : Handler) (s : State) (r : Registry)
      → AreLines lines
      → Lists line_of func_of all r
      → line_at s ≡ lines h
      → int_handler b 4 r s ≡ answer h r s
  unfolding int_handler answer
  registry_serves h s r are l pends =
      rw
        (run_chain-run_list line_of func_of 4 (line_at s) r r.int_handler_list all l.lines l.funcs
          l.chain (omega arith))
        (rw pends (
          ap
            (λ o.
              and_then o (λ _. pure (record r { interrupt_count = u32 (r.interrupt_count + 1) })))
            (list_served h _ are)))

  -- Main's start returns, given that the memory gets ready and that the lines differ; the registry
  -- that it leaves is such that an interrupt on the line of a handler runs this handler and no
  -- other.
  pub start-serves :
      (h : Handler) (s s' : State)
      → Settles b Irq.ram_init true (λ g. Unit)
      → AreLines lines
      → line_at s' ≡ lines h
      → Returns (λ r s''. int_handler b 4 r s' ≡ answer h r s') (start b p lines s)
  unfolding start
  start-serves h s s' settles distinct pends =
      Returns.bind
        (wait-Unmoved settles b.patience (pure tt) s (λ q. refl) tt (settles.bounded s.events))
        λ a t unmoved. returns (
          registry_serves h s' _ distinct
            (record { chain = (refl, (refl, (refl, (refl, refl)))); lines = refl; funcs = refl })
            pends)

  -- Line `j` is one of the handlers'.
  abbrev pub is_line : ℕ → Bool
  is_line j =
      (lines spi_data == j)
      || ((lines spi_ctrl == j) || ((lines rx_ready == j) || (lines rx_data == j)))
