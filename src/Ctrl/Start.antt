-- ===== src/Ctrl/Start.antt =====
-- The start of main in src/main.c: the parts are set up, their handlers registered, and their lines
-- enabled. The numbers of the lines, from constants.vhh, are a parameter. The structures of the
-- handlers are named 0 to 3, in the order in which they are registered.
pub mod Served
use hbc_mac_src.Base.{ℕ, zero, suc, bit_or, true, Option, some, none}
use hbc_mac_src.Machine.{
  Board, Pin, M, Action, State, pure, ◌>>=◌, ◌>>◌, gpo_set, gpo_clear, gpo_out,
}
use hbc_mac_src.Interrupt.{Registry, add_int_handler, enable_disable_interrupt, enable_interrupts}
use hbc_mac_src.Mem.{mem_init, mem_set_flags}
use hbc_mac_src.Flash.{flash_init}
use hbc_mac_src.Rx.{rx_enable}
use hbc_mac_src.Ctrl.{Protocol}
use hbc_mac_src.Ctrl.Steps.{Handler, rx_data, rx_ready, spi_ctrl, spi_data, handle}

abbrev pub handler_at : ℕ → Handler
handler_at zero = rx_data
handler_at (suc zero) = rx_ready
handler_at (suc (suc zero)) = spi_ctrl
handler_at (suc (suc (suc h))) = spi_data

abbrev pub lifted : {A : Type 0} → Option A → M A
lifted none s = none
lifted (some a) s = some (a, s)

-- Four handlers at most are walked along.
abbrev pub handlers : ℕ
handlers = 4

unfoldable pub rx_init : Registry → M Registry
unfolding add_int_handler
rx_init r = lifted (add_int_handler handlers 0 r) >>= λ r. lifted (add_int_handler handlers 1 r)

-- The command function is `ctrl_cmd` throughout.
unfoldable pub hbc_spi_init : Registry → M Registry
unfolding add_int_handler gpo_clear gpo_out
hbc_spi_init r = do
  r ← lifted (add_int_handler handlers 2 r)
  r ← lifted (add_int_handler handlers 3 r)
  gpo_clear Pin.hbc_data_int
  gpo_out Pin.hbc_data_int
  gpo_clear Pin.hbc_ctrl_int
  gpo_out Pin.hbc_ctrl_int
  pure r

module _ (b : Board) (p : Protocol) (lines : Handler → ℕ) where
  -- The initial values of interrupt.c, and the structures that DECLARE_HANDLER makes.
  abbrev pub unregistered : Registry
  unregistered = record {
    int_handler_list = none;
    next = λ h. none;
    irq_line = λ h. lines (handler_at h);
    func = λ h. handle b p (handler_at h);
    interrupt_mask = 0;
    interrupt_count = 0;
  }

  -- fifo_init does nothing, and setup_interrupts makes int_handler the processor's handler.
  unfoldable pub start : M Registry
  unfolding mem_init flash_init rx_init hbc_spi_init mem_set_flags enable_disable_interrupt
      enable_interrupts gpo_set rx_enable gpo_clear
  start = do
    mem_init b
    flash_init
    r ← rx_init unregistered
    r ← hbc_spi_init r
    mem_set_flags (bit_or 0x02 0x01)
    r ← enable_disable_interrupt (lines rx_data) true r
    r ← enable_disable_interrupt (lines rx_ready) true r
    r ← enable_disable_interrupt (lines spi_ctrl) true r
    r ← enable_disable_interrupt (lines spi_data) true r
    enable_interrupts
    gpo_set Pin.hbc_data_switch
    rx_enable
    gpo_clear Pin.led_1bit
    pure r
