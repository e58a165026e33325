-- ===== src/Ctrl.antt =====
-- src/main.c: the commands of the host. ctrl_cmd collects the bytes of a command, checks it and
-- runs it. The constants of host_protocol.h, which is not in the repository, are a parameter.
pub mod Framing
pub mod Reply
pub mod Check
pub mod Loop
pub mod Stepping
pub mod Steps
pub mod Rounds
pub mod Start
use hbc_mac_src.Base.{
  ℕ, zero, suc, ◌+◌, ◌-◌, ◌%◌, ◌^◌, ◌==◌, ◌<<<◌, ◌>>>◌, bit_and, bit_or, truth, u8, u32, Bool, true,
  false, not, ◌&&◌, if◌then◌else◌, ltb, List, get_or, set,
}
use hbc_mac_src.Machine.{
  Board, Pin, CtrlState, PlcpHeader, M, Action, pure, ◌>>=◌, ◌>>◌, get_ctrl, modify_ctrl, when,
  gpo_set, gpo_clear, discrete_read,
}
use hbc_mac_src.Scrambler.{scrambler_read}
use hbc_mac_src.Crc.{crc8, crc_over, crc8_init}
use hbc_mac_src.Mem.{mem_size, mem_set_rd_p, mem_read, mem_test}
use hbc_mac_src.Flash.{flash_size, flash_read, flash_write, flash_verify}
use hbc_mac_src.Rx.{
  rx_packet_ready, rx_packet_length, rx_bytes_read, rx_check_crc_ok, rx_read, rx_packet_next,
  rx_read_addr, rx_write_addr,
}
use hbc_mac_src.Spi.{
  hbc_spi_ack, hbc_spi_reply, hbc_spi_dump_addr, hbc_spi_load_addr, hbc_spi_dump_bytes,
  hbc_spi_load_bytes, hbc_spi_data_trigger,
}

-- The labels of the switch of ctrl_cmd, `default` last.
pub data Command : Type 0 where
  irq_status_read scrambler_read_cmd : Command
  mem_read_cmd mem_rd_addr mem_wr_addr mem_dump mem_load mem_test_cmd : Command
  flash_read_cmd flash_write_addr flash_write_cmd psoc_flash : Command
  tx_trigger tx_spread_factor tx_scrambler_seed tx_auto_cmd tx_addr tx_packet : Command
  tx_loopback tx_filter tx_flood_cmd : Command
  rx_ready rx_length rx_bytes_read_cmd rx_crc_ok rx_read_cmd rx_next rx_check : Command
  rx_auto_cmd rx_get_rd_addr rx_get_wr_addr rx_flood_cmd : Command
  other : Command

-- host_protocol.h. `label` gives the CMD_ constant that a byte equals, `number` its number.
pub record Protocol : Type 0 where
  pub packet_header : ℕ
  pub packet_size : ℕ
  pub packet_cmd_offset : ℕ
  pub packet_arg_offset : ℕ
  pub reply_size : ℕ
  pub hbc_ack : ℕ
  pub psoc_ack : ℕ
  pub no_ack : ℕ
  pub rx_packet : ℕ
  pub hbc_header_size : ℕ
  pub label : ℕ → Command
  pub number : Command → ℕ

-- Four bytes from an index on, the highest first.
unfoldable pub buf_to_word : List ℕ → ℕ → ℕ
buf_to_word buf i =
    let high = bit_or (u32 (get_or buf i 0 <<< 24)) (get_or buf (i + 1) 0 <<< 16) in
    bit_or (bit_or high (get_or buf (i + 2) 0 <<< 8)) (get_or buf (i + 3) 0)

-- The word of an acknowledgement.
unfoldable pub reply_word : ℕ → ℕ → ℕ → ℕ
reply_word header cmd arg =
    let word = bit_or (bit_or header (u8 cmd <<< 8)) (u8 arg <<< 16) in
    bit_or word (u32 (crc8 word <<< 24))

-- A new word of both streams of rx_check_packet is due.
abbrev pub refill : ℕ → Bool
refill left = truth left && (left % 4 == 0)

module _ (b : Board) where
  -- The loop of rx_check_packet, on the bytes left.
  unfoldable pub check_loop : ℕ → ℕ → ℕ → ℕ → M ℕ
  unfolding mem_read rx_read
  check_loop zero correct chk word = pure correct
  check_loop (suc left) correct chk word = do
    next_chk ← (if refill left then mem_read b else pure (chk >>> 8))
    next_word ← (if refill left then rx_read b else pure (word >>> 8))
    check_loop left (if bit_and chk 0xff == bit_and word 0xff then correct + 1 else correct)
        next_chk next_word

  unfoldable pub compare_packet : ℕ → M ℕ
  unfolding rx_read mem_set_rd_p mem_read check_loop rx_packet_next
  compare_packet bytes = do
    marker ← rx_read b
    header ← rx_read b
    mem_set_rd_p 0
    chk ← mem_read b
    word ← rx_read b
    correct ← check_loop bytes 0 chk word
    rx_packet_next
    pure correct

  abbrev minus_one : ℕ
  minus_one = 2 ^ 32 - 1

  unfoldable pub discard_packet : M ℕ
  unfolding rx_packet_next
  discard_packet = do rx_packet_next; pure minus_one

  -- The result is an `int`, kept as its 32-bit pattern.
  unfoldable pub rx_check_packet : M ℕ
  unfolding rx_packet_ready rx_check_crc_ok rx_packet_length rx_bytes_read compare_packet
      discard_packet
  rx_check_packet = do
    ready ← rx_packet_ready b
    (if not (truth ready) then pure minus_one else do
      ok ← rx_check_crc_ok
      bytes ← rx_packet_length
      stored ← rx_bytes_read
      (if not (truth ok)
          then discard_packet
          else if ltb stored bytes
          then discard_packet
          else compare_packet bytes))

  module _ (p : Protocol) where
    unfoldable pub reply_pkt : ℕ → ℕ → Action
    unfolding reply_word hbc_spi_ack
    reply_pkt cmd arg = hbc_spi_ack p.reply_size (reply_word p.packet_header cmd arg)

    -- hbc_spi_reply of a word that is computed first, and the acknowledgement that is due.
    unfoldable pub reply_with : M ℕ → M ℕ
    unfolding hbc_spi_reply
    reply_with m = do word ← m; hbc_spi_reply word 4; pure p.hbc_ack

    abbrev pub acked : Action → M ℕ
    acked m = do m; pure p.hbc_ack

    abbrev pub set_ctrl : (CtrlState → CtrlState) → M ℕ
    set_ctrl f = acked (modify_ctrl f)

    abbrev pub set_header : (PlcpHeader → PlcpHeader) → CtrlState → CtrlState
    set_header f c = record c { header_info = f c.header_info }

    -- The switch: the result is `do_ack`.
    unfoldable pub perform : Command → ℕ → M ℕ
    unfolding reply_with discrete_read scrambler_read mem_set_rd_p mem_read hbc_spi_dump_addr
        hbc_spi_load_addr hbc_spi_dump_bytes hbc_spi_load_bytes mem_test flash_read flash_write
        flash_verify gpo_set gpo_clear rx_packet_ready rx_packet_length rx_bytes_read
        rx_check_crc_ok rx_read rx_packet_next rx_check_packet rx_read_addr rx_write_addr
    perform irq_status_read arg = reply_with (discrete_read b)
    perform scrambler_read_cmd arg = reply_with (scrambler_read b)
    perform mem_read_cmd arg = reply_with (do mem_set_rd_p arg; mem_read b)
    perform mem_rd_addr arg = acked (hbc_spi_dump_addr arg)
    perform mem_wr_addr arg = acked (hbc_spi_load_addr arg)
    perform mem_dump arg = acked (hbc_spi_dump_bytes arg 0)
    perform mem_load arg = acked (hbc_spi_load_bytes arg 0)
    perform mem_test_cmd arg = reply_with (mem_test b mem_size)
    perform flash_read_cmd arg =
        reply_with (do flash_read b 0 flash_size 0; pure (p.number flash_read_cmd))
    perform flash_write_addr arg = set_ctrl λ c. record c { flash_addr = arg }
    perform flash_write_cmd arg =
        reply_with
          (do c ← get_ctrl; flash_write b 0 arg c.flash_addr; flash_verify b 0 arg c.flash_addr)
    perform psoc_flash arg = set_ctrl λ c. record c { do_psoc_flash = 1 }
    perform tx_trigger arg =
        set_ctrl
          λ c. record (set_header (λ h. record h { pdsu_length = u8 arg }) c) { send_packet = 1 }
    perform tx_spread_factor arg = set_ctrl (set_header λ h. record h { data_rate = arg })
    perform tx_scrambler_seed arg = set_ctrl (set_header λ h. record h { scrambler_seed = arg })
    perform tx_auto_cmd arg = set_ctrl λ c. record c { tx_auto = arg }
    perform tx_addr arg = do
      modify_ctrl λ c. record c { pkt_addr = arg }
      acked (hbc_spi_load_addr arg)
    perform tx_packet arg = do
      hbc_spi_load_bytes arg 1
      modify_ctrl λ c. record c { tx_pending = u32 (c.tx_pending + 1) }
      pure p.no_ack
    perform tx_loopback arg = set_ctrl λ c. record c { loopback = arg }
    perform tx_filter arg =
        acked (if truth arg then gpo_clear Pin.hbc_data_switch else gpo_set Pin.hbc_data_switch)
    perform tx_flood_cmd arg = set_ctrl λ c. record c { tx_flood = arg }
    perform rx_ready arg = reply_with (rx_packet_ready b)
    perform rx_length arg = reply_with rx_packet_length
    perform rx_bytes_read_cmd arg = reply_with rx_bytes_read
    perform rx_crc_ok arg = reply_with rx_check_crc_ok
    perform rx_read_cmd arg = reply_with (rx_read b)
    perform rx_next arg = acked rx_packet_next
    perform rx_check arg = reply_with rx_check_packet
    perform rx_auto_cmd arg = set_ctrl λ c. record c { rx_auto = arg }
    perform rx_get_rd_addr arg = reply_with rx_read_addr
    perform rx_get_wr_addr arg = reply_with rx_write_addr
    perform rx_flood_cmd arg = set_ctrl λ c. record c { rx_flood = arg }
    perform other arg = pure p.psoc_ack

    unfoldable pub run_command : Action
    unfolding buf_to_word perform reply_pkt hbc_spi_data_trigger
    run_command = do
      c ← get_ctrl
      ack ←
          perform (p.label (get_or c.pkt p.packet_cmd_offset 0))
            (buf_to_word c.pkt p.packet_arg_offset)
      when (not (ack == p.no_ack)) (reply_pkt ack 0)
      hbc_spi_data_trigger b p.reply_size

    -- A whole command: its sum is checked. `pkt` has PACKET_SIZE entries.
    unfoldable pub finish_command : Action
    unfolding crc_over run_command
    finish_command = do c ← get_ctrl; when (not (truth (crc_over crc8_init c.pkt))) run_command

    -- Nothing is done until the command is whole.
    unfoldable pub finish_if_whole : Action
    unfolding finish_command
    finish_if_whole = do c ← get_ctrl; when (not (truth c.bytes_req)) finish_command

    -- The argument is cut to a byte by its type.
    unfoldable pub ctrl_cmd : ℕ → Action
    unfolding finish_if_whole
    ctrl_cmd byte = do
      c ← get_ctrl
      (if not (truth c.bytes_req)
          then when (u8 byte == p.packet_header)
              (modify_ctrl λ c. record c { bytes_req = p.packet_size })
          else do
            modify_ctrl λ c. record c {
              pkt = set c.pkt (p.packet_size - c.bytes_req) (u8 byte);
              bytes_req = c.bytes_req - 1;
            }
            finish_if_whole)
