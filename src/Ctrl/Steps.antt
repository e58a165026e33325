-- ===== src/Ctrl/Steps.antt =====
-- The firmware as steps: the main loop of src/main.c, cut where a handler can come between, and the
-- interrupt handlers, which run to their end between any two of its steps. What main does with
-- interrupts off is one step. Where main changes a variable that a handler changes too, the load and
-- the store are two steps, as on the processor. A condition of several volatile variables is one step,
-- which is coarser than the processor.
use hbc_mac_src.Base.{
  ℕ, ◌≡◌, ◌≢◌, none, ◌&&◌, ◌||◌, ◌==◌, Bool, bit_and, not, truth, some, if◌then◌else◌,
}
use hbc_mac_src.Machine.{Board, M, Action, State, pure, ◌>>=◌, ◌>>◌, get_ctrl, modify_ctrl}
use hbc_mac_src.Rx.{rx_data_int_func, rx_ready_int_func}
use hbc_mac_src.Spi.{hbc_spi_load_busy, hbc_spi_dump_busy, hbc_ctrl_irq, hbc_data_irq}
use hbc_mac_src.Ctrl.{Protocol, ctrl_cmd}
use hbc_mac_src.Ctrl.Loop.{
  led_toggle, receiver_off, negated, mem_tx_mask, listen, withdraw, one_less, send_locked,
  send_next_locked, several, hbc_to_spi, psoc_locked,
}

-- Where main stands.
pub data Pc : Type 0 where
  test_single blink_single disable_single lock_single seed_single listen_single : Pc
  store_seed_single : ℕ → Pc
  test_flood load_flood : Pc
  store_flood : ℕ → Pc
  withdraw_single : Pc
  test_next blink_next disable_next lock_next mask_next seed_next listen_next load_pending : Pc
  store_mask store_seed_next store_pending : ℕ → Pc
  test_forward : Pc
  lock_forward : Bool → Pc
  test_psoc lock_psoc clear_psoc : Pc

-- The handlers that the inits register.
pub data Handler : Type 0 where
  rx_data rx_ready spi_ctrl spi_data : Handler

abbrev pub set_seed : ℕ → Action
set_seed seed =
    modify_ctrl λ c. record c { header_info = record (c.header_info) { scrambler_seed = seed } }

abbrev pub then_at : Pc → Action → M Pc
then_at pc m = m >> pure pc

module _ (b : Board) (p : Protocol) where
  unfoldable pub main_step : Pc → M Pc
  unfolding led_toggle receiver_off send_locked listen withdraw send_next_locked hbc_spi_load_busy
      hbc_spi_dump_busy hbc_to_spi psoc_locked
  main_step test_single = do
    c ← get_ctrl
    pure (if truth c.send_packet || truth c.tx_flood then blink_single else test_next)
  main_step blink_single = then_at disable_single led_toggle
  main_step disable_single = then_at lock_single receiver_off
  main_step lock_single = then_at seed_single (send_locked b)
  main_step seed_single = do c ← get_ctrl; pure (store_seed_single c.header_info.scrambler_seed)
  main_step (store_seed_single n) = then_at listen_single (set_seed (negated n))
  main_step listen_single = then_at test_flood listen
  main_step test_flood = do
    c ← get_ctrl
    pure (if truth c.tx_flood then load_flood else withdraw_single)
  main_step load_flood = do c ← get_ctrl; pure (store_flood c.tx_flood)
  main_step (store_flood n) =
      then_at withdraw_single (modify_ctrl λ c. record c { tx_flood = one_less n })
  main_step withdraw_single = then_at test_next withdraw
  main_step test_next = do
    c ← get_ctrl
    loading ← hbc_spi_load_busy
    pure (
        if truth c.tx_auto
          && (several b c.tx_pending || ((c.tx_pending == 1) && not (truth loading)))
        then blink_next
        else test_forward)
  main_step blink_next = then_at disable_next led_toggle
  main_step disable_next = then_at lock_next receiver_off
  main_step lock_next = then_at mask_next (send_next_locked b)
  main_step mask_next = do c ← get_ctrl; pure (store_mask c.pkt_addr)
  main_step (store_mask a) =
      then_at seed_next (modify_ctrl λ c. record c { pkt_addr = bit_and a mem_tx_mask })
  main_step seed_next = do c ← get_ctrl; pure (store_seed_next c.header_info.scrambler_seed)
  main_step (store_seed_next n) = then_at listen_next (set_seed (negated n))
  main_step listen_next = then_at load_pending listen
  main_step load_pending = do c ← get_ctrl; pure (store_pending c.tx_pending)
  main_step (store_pending n) =
      then_at test_forward (modify_ctrl λ c. record c { tx_pending = one_less n })
  main_step test_forward = do
    c ← get_ctrl
    dumping ← hbc_spi_dump_busy
    pure (
        if truth c.rx_flood || (truth c.rx_auto && not (truth dumping))
        then lock_forward (not (truth c.rx_flood))
        else test_psoc)
  main_step (lock_forward forward) = then_at test_psoc (hbc_to_spi b p forward)
  main_step test_psoc = do
    c ← get_ctrl
    pure (if truth c.do_psoc_flash then lock_psoc else test_single)
  main_step lock_psoc = then_at clear_psoc psoc_locked
  main_step clear_psoc = then_at test_single (modify_ctrl λ c. record c { do_psoc_flash = 0 })

  unfoldable pub handle : Handler → Action
  unfolding rx_data_int_func rx_ready_int_func hbc_ctrl_irq hbc_data_irq ctrl_cmd
  handle rx_data = rx_data_int_func b
  handle rx_ready = rx_ready_int_func b
  handle spi_ctrl = hbc_ctrl_irq b (ctrl_cmd b p)
  handle spi_data = hbc_data_irq b p.reply_size

  pub record System : Type 0 where
    pub pc : Pc
    pub now : State

  pub data Step (x : System) : System → Type 0 where
    main :
        {pc : Pc} {s : State}
        → main_step x.pc x.now ≡ some (pc, s)
        → Step x (record { pc = pc; now = s })
    interrupt :
        {s : State} (h : Handler)
        → handle h x.now ≡ some (tt, s)
        → Step x (record { pc = x.pc; now = s })

  pub data Reach (x : System) : System → Type 0 where
    here : Reach x x
    later : {y z : System} → Reach x y → Step y z → Reach x z

  -- Main alone: steps with no handler between them, one at least, that do not come to the top of
  -- the loop before the last.
  pub data Runs : System → System → Type 0 where
    last :
        {x : System} {pc : Pc} {s : State}
        → main_step x.pc x.now ≡ some (pc, s)
        → Runs x (record { pc = pc; now = s })
    go :
        {x y : System} {pc : Pc} {s : State}
        → main_step x.pc x.now ≡ some (pc, s)
        → pc ≢ test_single
        → Runs (record { pc = pc; now = s }) y
        → Runs x y

  -- Main alone comes to a step that gives nothing, and not to the top of the loop before.
  pub data Sticks : System → Type 0 where
    at_once : {x : System} → main_step x.pc x.now ≡ none → Sticks x
    behind :
        {x : System} {pc : Pc} {s : State}
        → main_step x.pc x.now ≡ some (pc, s)
        → pc ≢ test_single
        → Sticks (record { pc = pc; now = s })
        → Sticks x
