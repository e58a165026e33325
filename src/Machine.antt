-- ===== src/Machine.antt =====
-- The board as the firmware sees it, and the state monad of the firmware.
--
-- Everything outside the sources is a parameter. The I/O module of the FPGA (`XIOModule_*` of the
-- vendor's library, and the hardware behind it) is a `Board`: it answers each read by a value that
-- may depend on the whole history of calls and answers, and nothing else is known of it. The
-- history is kept in the state, the last event first. An address or a line is named by its macro in
-- the generated constants.vhh, whose numbers are not in the repository.
pub mod Returns
pub mod Sent
pub mod Stage
pub mod Wait
pub mod Keeps
use hbc_mac_src.Base.{
  ℕ, zero, suc, Bool, true, false, Option, none, some, List, [], ◌∷◌, ◌==◌, u8, u16, u32, truth,
  if◌then◌else◌, not,
}

-- The addresses of the I/O bus: HEX(..._ADDR), and the registers of the interrupt controller.
pub data Port : Type 0 where
  fifo_port fifo_mask modulator modulator_sf rx_fifo scrambler_port : Port
  mem_wr_p mem_rd_p mem_flags mem_rd_wr : Port
  flash_port spi_ctrl spi_data usb_port lcd_cmd lcd_data : Port
  intr_status intr_ack intr_enable : Port

-- The general purpose outputs: GPP_... and GPO_..., and those of the scrambler's register.
pub data Pin : Type 0 where
  hbc_tx_trigger hbc_tx_flush hbc_rx_enable hbc_rx_pkt_ack hbc_data_switch : Pin
  hbc_data_int hbc_ctrl_int flash_ss led_1bit usb_pkt_end : Pin
  scram_reseed scram_seed_val scram_seed_clk : Pin

-- The interrupt lines whose level the firmware polls.
pub data Irq : Type 0 where
  tx_fifo_empty tx_fifo_almost_full rx_data_ready ram_init usb_full : Irq

-- A call of the I/O library: what was written, or the value that was read.
pub data Event : Type 0 where
  wrote_word wrote_half wrote_byte : Port → ℕ → Event
  read_word read_byte : Port → ℕ → Event
  read_irqs : ℕ → Event
  discrete_set discrete_clear : List Pin → Event
  set_direction : Pin → Event
  interrupts_on interrupts_off : Event
  psoc_flashed : Event

-- What a read asks of the board.
pub data Request : Type 0 where
  word byte : Port → Request
  irqs : Request

pub record Board : Type 0 where
  -- the value that the hardware returns
  pub respond : List Event → Request → ℕ
  -- IRQ_STATUS(irq, word) of constants.vhh
  pub irq_status : Irq → ℕ → ℕ
  -- rounds that a loop on a hardware flag may take before the model gives up
  pub patience : ℕ

-- The statics of extract_rx.c. `packet_ready` is an `int`, kept as its 32-bit pattern.
pub data RxPhase : Type 0 where
  packet_init packet_reading : RxPhase

pub record RxState : Type 0 where
  pub rd_buf_addr : ℕ
  pub wr_buf_addr : ℕ
  pub wr_bytes : ℕ
  pub packet_ready : ℕ
  pub rd_packet_addr : ℕ
  pub wr_packet_addr : ℕ
  pub rd_packet_header : ℕ
  pub rd_packet_marker : ℕ
  pub rx_state : RxPhase

-- The statics of spi.c: `data_status`, `rd_data` of hbc_ctrl_irq and `wr_data` of hbc_data_irq.
pub record SpiState : Type 0 where
  pub load_addr : ℕ
  pub dump_addr : ℕ
  pub loading_mem : ℕ
  pub dumping_mem : ℕ
  pub dump_hbc_rx : ℕ
  pub load_index : ℕ
  pub dump_index : ℕ
  pub ack_data : ℕ
  pub ack_bytes : ℕ
  pub reply_bytes : ℕ
  pub reply_size : ℕ
  pub reply_data : ℕ
  pub rd_data : ℕ
  pub wr_data : ℕ

-- plcp_header_t of build_tx.h. The enumerated fields are written from host arguments without a
-- check (main.c:205), so they hold any number of 32 bits.
pub record PlcpHeader : Type 0 where
  pub data_rate : ℕ
  pub pilot_info : ℕ
  pub burst_mode : ℕ
  pub use_ri : ℕ
  pub scrambler_seed : ℕ
  pub pdsu_length : ℕ
  pub crc8 : ℕ

-- The statics of main.c, those of ctrl_cmd (`flash_addr`, `pkt`, `bytes_req`) and of led_toggle
-- (`toggle`) among them.
pub record CtrlState : Type 0 where
  pub send_packet : ℕ
  pub tx_flood : ℕ
  pub rx_flood : ℕ
  pub tx_pending : ℕ
  pub pkt_addr : ℕ
  pub rx_auto : ℕ
  pub tx_auto : ℕ
  pub do_psoc_flash : ℕ
  pub loopback : ℕ
  pub header_info : PlcpHeader
  pub flash_addr : ℕ
  pub pkt : List ℕ
  pub bytes_req : ℕ
  pub toggle : ℕ

-- All static variables of the program, and the history of its calls, the last one first.
-- `triggered` is the static of fifo.c.
pub record State : Type 0 where
  pub events : List Event
  pub triggered : ℕ
  pub rx : RxState
  pub spi : SpiState
  pub ctrl : CtrlState

-- `none`: a loop on a hardware flag ran out of patience.
abbrev pub M : Type 0 → Type 0
M A = State → Option (A × State)

abbrev pub pure : {A : Type 0} → A → M A
pure a s = some (a, s)

abbrev pub and_then : {A B : Type 0} → Option (A × State) → (A → M B) → Option (B × State)
and_then none f = none
and_then (some (a, s)) f = f a s

infixl 5 ◌>>=◌ ◌>>◌
abbrev pub ◌>>=◌ : {A B : Type 0} → M A → (A → M B) → M B
◌>>=◌ m f s = and_then (m s) f

abbrev pub ◌>>◌ : {A B : Type 0} → M A → M B → M B
m >> k = m >>= λ _. k

abbrev pub Action : Type 0
Action = M (Unit {0})

abbrev pub get_rx : M RxState
get_rx s = some (s.rx, s)

abbrev pub modify_rx : (RxState → RxState) → Action
modify_rx f s = some (tt, record s { rx = f s.rx })

abbrev pub get_spi : M SpiState
get_spi s = some (s.spi, s)

abbrev pub modify_spi : (SpiState → SpiState) → Action
modify_spi f s = some (tt, record s { spi = f s.spi })

abbrev pub get_ctrl : M CtrlState
get_ctrl s = some (s.ctrl, s)

abbrev pub modify_ctrl : (CtrlState → CtrlState) → Action
modify_ctrl f s = some (tt, record s { ctrl = f s.ctrl })

abbrev pub when : Bool → Action → Action
when true m = m
when false m = pure tt

abbrev pub emit : Event → Action
emit e s = some (tt, record s { events = e ∷ s.events })

-- XIOModule_IoWriteWord, IoWriteHalfword, IoWriteByte: the argument is cut to the width.
unfoldable pub write_word : Port → ℕ → Action
write_word p v = emit (wrote_word p (u32 v))

unfoldable pub write_half : Port → ℕ → Action
write_half p v = emit (wrote_half p (u16 v))

unfoldable pub write_byte : Port → ℕ → Action
write_byte p v = emit (wrote_byte p (u8 v))

-- GPO_SET, GPO_CLEAR and GPO_OUT of gpio.h.
unfoldable pub gpo_set : Pin → Action
gpo_set p = emit (discrete_set (p ∷ []))

unfoldable pub gpo_clear : Pin → Action
gpo_clear p = emit (discrete_clear (p ∷ []))

unfoldable pub gpo_out : Pin → Action
gpo_out p = emit (set_direction p)

abbrev pub same : Bool → Bool → Bool
same true y = y
same false y = not y

module _ (b : Board) where
  -- XIOModule_IoReadWord, XIOModule_IoReadByte.
  unfoldable pub io_read_word : Port → M ℕ
  io_read_word p s =
      let v = u32 (b.respond s.events (word p)) in
      some (v, record s { events = read_word p v ∷ s.events })

  unfoldable pub io_read_byte : Port → M ℕ
  io_read_byte p s =
      let v = u8 (b.respond s.events (byte p)) in
      some (v, record s { events = read_byte p v ∷ s.events })

  -- XIOModule_DiscreteRead(&io_mod, INT(IRQ_GPI)).
  unfoldable pub discrete_read : M ℕ
  discrete_read s =
      let v = u32 (b.respond s.events irqs) in
      some (v, record s { events = read_irqs v ∷ s.events })

  -- IRQ_FLAG_SET of interrupt.h.
  unfoldable pub irq_flag_set : Irq → M Bool
  unfolding discrete_read
  irq_flag_set q = do v ← discrete_read; pure (truth (b.irq_status q v))

  -- `while (IRQ_FLAG_SET(q) == busy) body`, on as many rounds as the patience allows.
  unfoldable pub wait_while : ℕ → Irq → Bool → Action → Action
  unfolding irq_flag_set
  wait_while zero q busy body = λ s. none
  wait_while (suc n) q busy body =
      let again = wait_while n q busy body in
      do flag ← irq_flag_set q; if same flag busy then body >> again else pure tt
