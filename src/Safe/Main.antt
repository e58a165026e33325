-- ===== src/Safe/Main.antt =====
-- The steps of main and the interrupt handlers keep what is closed under the updates of the
-- program.
use hbc_mac_src.Base.{ℕ, ◌+◌, ◌*◌, ◌≡◌, refl, ◌&&◌, Bool, not, truth, ltb, u8, u32, Option, some}
use mathlib.Core.Path.{subst}
use hbc_mac_src.Machine.{
  Board, Pin, RxState, SpiState, CtrlState, State, interrupts_on, interrupts_off, psoc_flashed, M,
}
use hbc_mac_src.Machine.Keeps.{
  Condition, At, After, stuck, after, Keeps, Keeps-pure, Keeps-get_ctrl, Keeps-modify_ctrl,
  Keeps-gpo_set, Keeps-gpo_clear, Keeps-emit,
}
use hbc_mac_src.Machine.Keeps.Blocks.{◌>>=◌, ◌>>◌, branch, only_if}
use hbc_mac_src.Safe.{Closed}
use hbc_mac_src.Safe.Drivers.{Keeps-mem_set_rd_p, Keeps-mem_read}
use hbc_mac_src.Safe.Transmit.{Keeps-build_tx_plcp_header, Keeps-build_tx_payload}
use hbc_mac_src.Safe.Receiver.{
  Keeps-rx_packet_ready, Keeps-rx_packet_length, Keeps-rx_bytes_read, Keeps-rx_check_crc_ok,
  Keeps-rx_read, Keeps-rx_packet_next, Keeps-rx_data_int_func, Keeps-rx_ready_int_func,
}
use hbc_mac_src.Safe.Channels.{
  Keeps-hbc_spi_dump_bytes, Keeps-hbc_spi_data_trigger, Keeps-hbc_ctrl_irq, Keeps-hbc_data_irq,
}
use hbc_mac_src.Safe.Commands.{Keeps-reply_pkt}
use hbc_mac_src.Safe.Dispatch.{Keeps-setting, Keeps-ctrl_cmd}
use hbc_mac_src.Rx.{rx_enable, rx_disable}
use hbc_mac_src.Ctrl.{Protocol, ctrl_cmd}
use hbc_mac_src.Ctrl.Loop
use hbc_mac_src.Ctrl.Steps

module _ {J : Condition} where
  kept :
      {A : Type 0} {r : Option (A × State)} {a : A} {s : State}
      → After J r
      → r ≡ some (a, s)
      → At J s
  kept stuck e = cc
  kept {s} (after {s = s'} h) e = let same : s' ≡ s = cc in subst (λ t. At J t) same h

  Keeps-psoc_locked : Keeps J Loop.psoc_locked
  unfolding Loop.psoc_locked
  Keeps-psoc_locked = do
    Keeps-emit interrupts_off
    Keeps-emit psoc_flashed
    Keeps-emit interrupts_on

  Keeps-listen : Keeps J Loop.listen
  unfolding Loop.listen rx_enable
  Keeps-listen = do
    c ← Keeps-get_ctrl
    only_if (not (truth c.loopback)) (Keeps-gpo_set Pin.hbc_rx_enable)

module _ {J : Condition} {b : Board} {p : Protocol} (closed : Closed b p J) where
  Keeps-led_toggle : Keeps J Loop.led_toggle
  unfolding Loop.led_toggle
  Keeps-led_toggle = do
    c ← Keeps-get_ctrl
    branch (truth c.toggle) (Keeps-gpo_clear Pin.led_1bit) (Keeps-gpo_set Pin.led_1bit)
    Keeps-setting closed (λ c. record c { toggle = Loop.negated c.toggle }) (λ c. refl) (λ c. refl)
        (λ c. refl)

  Keeps-receiver_off : Keeps J Loop.receiver_off
  unfolding Loop.receiver_off rx_disable
  Keeps-receiver_off = do
    c ← Keeps-get_ctrl
    only_if (not (truth c.loopback)) (Keeps-gpo_clear Pin.hbc_rx_enable)

  Keeps-blink : Keeps J Loop.blink
  unfolding Loop.blink
  Keeps-blink = do Keeps-led_toggle; Keeps-receiver_off

  Keeps-toggle_seed : Keeps J Loop.toggle_seed
  unfolding Loop.toggle_seed
  Keeps-toggle_seed = Keeps-setting closed _ (λ c. refl) (λ c. refl) (λ c. refl)

  Keeps-mask_addr : Keeps J Loop.mask_addr
  unfolding Loop.mask_addr
  Keeps-mask_addr = Keeps-setting closed _ (λ c. refl) (λ c. refl) (λ c. refl)

  Keeps-send_header_info : Keeps J (Loop.send_header_info b)
  unfolding Loop.send_header_info
  Keeps-send_header_info = do
    c ← Keeps-get_ctrl
    h ← Keeps-build_tx_plcp_header b c.header_info
    Keeps-setting closed (λ c. record c { header_info = h }) (λ c. refl) (λ c. refl) (λ c. refl)
    Keeps-build_tx_payload b h

  Keeps-send_locked : Keeps J (Loop.send_locked b)
  unfolding Loop.send_locked
  Keeps-send_locked = do
    Keeps-emit interrupts_off
    Keeps-mem_set_rd_p 0
    words ← Keeps-send_header_info
    Keeps-emit interrupts_on

  Keeps-send_next_locked : Keeps J (Loop.send_next_locked b)
  unfolding Loop.send_next_locked
  Keeps-send_next_locked = do
    Keeps-emit interrupts_off
    c ← Keeps-get_ctrl
    Keeps-mem_set_rd_p c.pkt_addr
    length_word ← Keeps-mem_read b
    Keeps-setting closed
        (λ c. record c { header_info = record (c.header_info) { pdsu_length = u8 length_word } })
        (λ c. refl) (λ c. refl) (λ c. refl)
    words ← Keeps-send_header_info
    Keeps-setting closed (λ c. record c { pkt_addr = u32 (c.pkt_addr + (words * 4 + 4)) })
        (λ c. refl) (λ c. refl) (λ c. refl)
    Keeps-emit interrupts_on

  Keeps-forward : (bytes : ℕ) → Keeps J (Loop.forward b p bytes)
  unfolding Loop.forward
  Keeps-forward bytes = do
    Keeps-reply_pkt closed p.rx_packet bytes
    marker ← Keeps-rx_read closed
    Keeps-hbc_spi_dump_bytes closed (u32 (bytes + p.hbc_header_size + Loop.rx_pad)) 1
    Keeps-hbc_spi_data_trigger closed

  Keeps-hbc_to_spi : (forward_packet : Bool) → Keeps J (Loop.hbc_to_spi b p forward_packet)
  unfolding Loop.hbc_to_spi
  Keeps-hbc_to_spi forward_packet = do
    Keeps-emit interrupts_off
    ready ← Keeps-rx_packet_ready closed
    branch (not (truth ready)) (Keeps-emit interrupts_on) (do
      ok ← Keeps-rx_check_crc_ok
      bytes ← Keeps-rx_packet_length
      stored ← Keeps-rx_bytes_read
      only_if (truth ok && not (ltb stored bytes))
          do Keeps-led_toggle; only_if forward_packet (Keeps-forward bytes)
      Keeps-rx_packet_next closed
      Keeps-emit interrupts_on)

  then_at : {m : M (Unit {0})} (pc : Steps.Pc) → Keeps J m → Keeps J (Steps.then_at pc m)
  then_at pc km = km >> Keeps-pure pc

  Keeps-withdraw :
      ((r : RxState) (d : SpiState) (c : CtrlState)
        → J r d c
        → J r d (record c { send_packet = 0 }))
      → Keeps J Loop.withdraw
  unfolding Loop.withdraw
  Keeps-withdraw back = Keeps-modify_ctrl _ back

  -- A step of main; where main takes the request for a packet back, the condition has to be closed
  -- under that too.
  pub Keeps-main_step :
      (pc : Steps.Pc)
      → (pc ≡ Steps.withdraw_single
          → (r : RxState) (d : SpiState) (c : CtrlState) → J r d c
          → J r d (record c { send_packet = 0 }))
      → Keeps J (Steps.main_step b p pc)
  unfolding Steps.main_step
  Keeps-main_step Steps.test_single back = record { at = λ s h. after h }
  Keeps-main_step Steps.blink_single back = then_at Steps.disable_single Keeps-led_toggle
  Keeps-main_step Steps.disable_single back = then_at Steps.lock_single Keeps-receiver_off
  Keeps-main_step Steps.lock_single back = then_at Steps.seed_single Keeps-send_locked
  Keeps-main_step Steps.seed_single back = record { at = λ s h. after h }
  Keeps-main_step (Steps.store_seed_single n) back =
      then_at Steps.listen_single (Keeps-setting closed _ (λ c. refl) (λ c. refl) (λ c. refl))
  Keeps-main_step Steps.listen_single back = then_at Steps.test_flood Keeps-listen
  Keeps-main_step Steps.test_flood back = record { at = λ s h. after h }
  Keeps-main_step Steps.load_flood back = record { at = λ s h. after h }
  Keeps-main_step (Steps.store_flood n) back = then_at Steps.withdraw_single (
      Keeps-setting closed (λ c. record c { tx_flood = Loop.one_less n }) (λ c. refl) (λ c. refl)
        (λ c. refl))
  Keeps-main_step Steps.withdraw_single back = then_at Steps.test_next (Keeps-withdraw (back refl))
  Keeps-main_step Steps.test_next back = record { at = λ s h. after h }
  Keeps-main_step Steps.blink_next back = then_at Steps.disable_next Keeps-led_toggle
  Keeps-main_step Steps.disable_next back = then_at Steps.lock_next Keeps-receiver_off
  Keeps-main_step Steps.lock_next back = then_at Steps.mask_next Keeps-send_next_locked
  Keeps-main_step Steps.mask_next back = record { at = λ s h. after h }
  Keeps-main_step (Steps.store_mask a) back =
      then_at Steps.seed_next (Keeps-setting closed _ (λ c. refl) (λ c. refl) (λ c. refl))
  Keeps-main_step Steps.seed_next back = record { at = λ s h. after h }
  Keeps-main_step (Steps.store_seed_next n) back =
      then_at Steps.listen_next (Keeps-setting closed _ (λ c. refl) (λ c. refl) (λ c. refl))
  Keeps-main_step Steps.listen_next back = then_at Steps.load_pending Keeps-listen
  Keeps-main_step Steps.load_pending back = record { at = λ s h. after h }
  Keeps-main_step (Steps.store_pending n) back = then_at Steps.test_forward (
      Keeps-setting closed (λ c. record c { tx_pending = Loop.one_less n }) (λ c. refl) (λ c. refl)
        (λ c. refl))
  Keeps-main_step Steps.test_forward back = record { at = λ s h. after h }
  Keeps-main_step (Steps.lock_forward forward) back =
      then_at Steps.test_psoc (Keeps-hbc_to_spi forward)
  Keeps-main_step Steps.test_psoc back = record { at = λ s h. after h }
  Keeps-main_step Steps.lock_psoc back = then_at Steps.clear_psoc Keeps-psoc_locked
  Keeps-main_step Steps.clear_psoc back = then_at Steps.test_single (
      Keeps-setting closed (λ c. record c { do_psoc_flash = 0 }) (λ c. refl) (λ c. refl)
        (λ c. refl))

  Keeps-handle : (h : Steps.Handler) → Keeps J (Steps.handle b p h)
  unfolding Steps.handle
  Keeps-handle Steps.rx_data = Keeps-rx_data_int_func closed
  Keeps-handle Steps.rx_ready = Keeps-rx_ready_int_func closed
  Keeps-handle Steps.spi_ctrl = Keeps-hbc_ctrl_irq closed (ctrl_cmd b p) (Keeps-ctrl_cmd closed)
  Keeps-handle Steps.spi_data = Keeps-hbc_data_irq closed

  pub Step-keeps :
      {x y : Steps.System b p}
      → Steps.Step b p x y
      → (x.pc ≡ Steps.withdraw_single
          → (r : RxState) (d : SpiState) (c : CtrlState) → J r d c
          → J r d (record c { send_packet = 0 }))
      → At J x.now
      → At J y.now
  Step-keeps {x} (Steps.main e) back h = kept ((Keeps-main_step x.pc back).at x.now h) e
  Step-keeps {x} (Steps.interrupt i e) back h = kept ((Keeps-handle i).at x.now h) e
