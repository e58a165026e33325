-- ===== src/Examples/System.antt =====
-- Runs of the main loop and of the interrupt handlers, and the display, at concrete inputs.
use hbc_mac_src.Base.{◌+◌, ◌%◌, ◌≡◌, refl, arith, [], ◌∷◌, some, none, u8, u32, false}
use hbc_mac_src.Machine.{Board, Port, State, ◌>>=◌, ◌>>◌, emit, interrupts_on}
use hbc_mac_src.Machine.Keeps.{At}
use hbc_mac_src.Machine.Returns.{Returns}
use hbc_mac_src.Ctrl.{perform, tx_trigger, tx_packet}
use hbc_mac_src.Ctrl.Loop.{one_less}
use hbc_mac_src.Ctrl.Rounds.{stands}
use hbc_mac_src.Ctrl.Steps
use hbc_mac_src.Safe.Bounds.{IsBounded, Reach-IsBounded}
use hbc_mac_src.Safe.Requests.{
  IsAsked, Calm, still, next, request_stands, trigger_lost, announcement_lost,
}
use hbc_mac_src.Interrupt.{Registry, int_handler, pending_line, masked}
use hbc_mac_src.Interrupt.Pending.{IsLowest, pending_line-IsLowest}
use hbc_mac_src.Interrupt.Mask.{is_enabled, masked_lem}
use hbc_mac_src.Interrupt.Dispatch.{add_all, serve, int_handler_lem}
use hbc_mac_src.Lcd.{u32_to_hex, lcd_printf}
use hbc_mac_src.Lcd.Hex.{read_hex, u32_to_hex_lem}
use hbc_mac_src.Lcd.Print.{Finishes, Displays, lcd_printf_lem}
use hbc_mac_src.Examples.Boards.{receiving_board, boot}
use hbc_mac_src.Examples.Commands.{protocol}

-- Main tests for a packet; then the host sends a byte of data.
unfoldable after_data :
    (y : Steps.System receiving_board protocol) × Steps.Reach receiving_board protocol
      (stands receiving_board protocol Steps.test_single boot)
      y
unfolding Steps.main_step Steps.handle
after_data = (
  _,
  Steps.later (Steps.later Steps.here (Steps.main refl)) (Steps.interrupt Steps.spi_data refl),
)

abbrev two_pending : State
two_pending = record boot { ctrl = record (boot.ctrl) { tx_pending = 2 } }

-- A packet is asked for, and main is behind its test for one.
abbrev asked : Steps.System receiving_board protocol
asked =
    stands receiving_board protocol Steps.test_next
      (record boot { ctrl = record (boot.ctrl) { send_packet = 1 } })

-- Main goes through the rest of the loop, to the test of the next round.
calm_to_top : (y : Steps.System receiving_board protocol) × Calm receiving_board protocol asked y
unfolding Steps.main_step
calm_to_top = (
  _,
  next (next (next still (λ e. cc) (Steps.main refl)) (λ e. cc) (Steps.main refl)) (λ e. cc)
      (Steps.main refl),
)

boot-IsBounded : At (IsBounded protocol) boot
boot-IsBounded = record {
  writer = record { above = omega arith; below = omega arith; aligned = refl };
  load_index = omega arith;
  dump_index = omega arith;
  ack_bytes = omega arith;
  reply_bytes = omega arith;
  reply_size = omega arith;
  pkt = refl;
  bytes_req = omega arith;
}

Reach-IsBounded_example : At (IsBounded protocol) (after_data.0.now)
Reach-IsBounded_example =
    Reach-IsBounded protocol receiving_board (omega arith) boot-IsBounded after_data.1

trigger_lost_example :
    Returns
      (λ ack s₁.
        (s₂ : State) × Steps.Runs receiving_board protocol
          (stands receiving_board protocol Steps.seed_single s₁)
          (stands receiving_board protocol Steps.test_next s₂)
        × (s₁.ctrl.send_packet ≡ 1)
        × (s₂.ctrl.send_packet ≡ 0)
        × (s₂.ctrl.header_info.pdsu_length ≡ u8 9))
      (perform receiving_board protocol tx_trigger 9 boot)
trigger_lost_example = trigger_lost receiving_board protocol boot 9

announcement_lost_example :
    Returns
      (λ pc s'. s'.ctrl.tx_pending ≡ one_less 2)
      ((Steps.main_step receiving_board protocol Steps.load_pending >>= λ pc.
          perform receiving_board protocol tx_packet 9
          >> Steps.main_step receiving_board protocol pc)
        two_pending)
    × Returns
        (λ ack s'. s'.ctrl.tx_pending ≡ u32 (one_less 2 + 1))
        ((Steps.main_step receiving_board protocol Steps.load_pending >>= λ pc.
            Steps.main_step receiving_board protocol pc
            >> perform receiving_board protocol tx_packet 9)
          two_pending)
announcement_lost_example = announcement_lost receiving_board protocol two_pending 9

request_stands_example :
    At IsAsked calm_to_top.0.now
    × (Steps.main_step receiving_board protocol Steps.test_single calm_to_top.0.now
        ≡ some (Steps.blink_single, calm_to_top.0.now))
request_stands_example = request_stands receiving_board protocol refl calm_to_top.1

-- Lines 1 and 3 are pending.
pending_line-IsLowest_example : IsLowest 0xa0000 0 16 (pending_line 0xa0000)
pending_line-IsLowest_example = pending_line-IsLowest 0xa0000

masked_lem_example : is_enabled (masked 0xa0000 3 false) 1 ≡ is_enabled 0xa0000 1
masked_lem_example = masked_lem 0xa0000 3 1 false (omega arith) (omega arith)

abbrev no_handlers : Registry
no_handlers = record {
  int_handler_list = none;
  next = λ h. none;
  irq_line = λ h. h % 2;
  func = λ h. emit interrupts_on;
  interrupt_mask = 0;
  interrupt_count = 0;
}

int_handler_lem_example :
    (r : Registry) × (add_all 3 (5 ∷ 2 ∷ 7 ∷ []) no_handlers ≡ some r)
    × (int_handler receiving_board 3 r boot
        ≡ serve no_handlers.irq_line no_handlers.func receiving_board (5 ∷ 2 ∷ 7 ∷ []) r boot)
int_handler_lem_example =
    int_handler_lem receiving_board boot 3 (5 ∷ 2 ∷ 7 ∷ []) no_handlers
      (
        ((λ e. absurd (omega (arith, e))), ((λ e. absurd (omega (arith, e))), tt)),
        (((λ e. absurd (omega (arith, e))), tt), (tt, tt)),
      )
      (omega arith) refl

-- The display is never busy.
abbrev idle_display : Board
idle_display = record { respond = λ h q. 0; irq_status = λ q v. v; patience = 1 }

idle-Finishes : Finishes idle_display
idle-Finishes = record { backlog = λ h. 0; bounded = λ h. omega arith; falls = λ h busy. cc }

lcd_printf_lem_example :
    Returns
      (λ a s'.
        Displays ((Port.lcd_cmd, 0xc0) ∷ (Port.lcd_data, 72) ∷ (Port.lcd_data, 105) ∷ []) boot s')
      (lcd_printf idle_display 1 (72 ∷ 105 ∷ 0 ∷ 33 ∷ []) boot)
lcd_printf_lem_example = lcd_printf_lem idle-Finishes 1 (72 ∷ 105 ∷ 0 ∷ 33 ∷ []) boot (omega arith)

u32_to_hex_lem_example :
    read_hex 8 0 (u32_to_hex 0xBEEF2016 (1 ∷ 2 ∷ 3 ∷ 4 ∷ 5 ∷ 6 ∷ 7 ∷ 8 ∷ 9 ∷ []))
    ≡ (0xBEEF2016, 9 ∷ [])
u32_to_hex_lem_example = u32_to_hex_lem 0xBEEF2016 1 2 3 4 5 6 7 8 (9 ∷ []) (omega arith)
