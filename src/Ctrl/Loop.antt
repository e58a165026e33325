-- ===== src/Ctrl/Loop.antt =====
-- src/main.c: what the main loop does in one round, with interrupts as the handlers leave them.
use hbc_mac_src.Base.{
  ℕ, ◌+◌, ◌-◌, ◌*◌, ◌^◌, ◌==◌, bit_and, truth, u8, u32, Bool, not, ◌&&◌, ◌||◌, if◌then◌else◌, ltb,
}
use hbc_mac_src.Machine.{
  Board, Pin, M, Action, ◌>>=◌, ◌>>◌, get_ctrl, modify_ctrl, when, gpo_set, gpo_clear, emit,
  interrupts_on, interrupts_off, psoc_flashed,
}
use hbc_mac_src.Mem.{mem_set_rd_p, mem_read, mem_rx_buf}
use hbc_mac_src.Tx.{build_tx_plcp_header, build_tx_payload}
use hbc_mac_src.Rx.{
  rx_enable, rx_disable, rx_packet_ready, rx_packet_length, rx_bytes_read, rx_check_crc_ok, rx_read,
  rx_packet_next,
}
use hbc_mac_src.Spi.{hbc_spi_dump_bytes, hbc_spi_data_trigger, hbc_spi_load_busy, hbc_spi_dump_busy}
use hbc_mac_src.Ctrl.{Protocol, reply_pkt}

-- MEM_TX_MASK
abbrev pub mem_tx_mask : ℕ
mem_tx_mask = mem_rx_buf - 1

abbrev pub rx_pad : ℕ
rx_pad = 4

-- `!x`
abbrev pub negated : ℕ → ℕ
negated n = if truth n then 0 else 1

unfoldable pub led_toggle : Action
unfolding gpo_clear gpo_set
led_toggle = do
  c ← get_ctrl
  (if truth c.toggle then gpo_clear Pin.led_1bit else gpo_set Pin.led_1bit)
  modify_ctrl λ c. record c { toggle = negated c.toggle }

-- Before a packet is sent, the receiver is off unless the board hears itself.
unfoldable pub receiver_off : Action
unfolding rx_disable
receiver_off = do c ← get_ctrl; when (not (truth c.loopback)) rx_disable

unfoldable pub blink : Action
unfolding led_toggle receiver_off
blink = led_toggle >> receiver_off

-- The seed is toggled behind each packet.
unfoldable pub toggle_seed : Action
toggle_seed = modify_ctrl λ c. record c {
  header_info = record (c.header_info) { scrambler_seed = negated (c.header_info.scrambler_seed) };
}

unfoldable pub listen : Action
unfolding rx_enable
listen = do c ← get_ctrl; when (not (truth c.loopback)) rx_enable

-- `n--` of an `int`.
abbrev pub one_less : ℕ → ℕ
one_less n = u32 (n + (2 ^ 32 - 1))

unfoldable pub count_flood : Action
count_flood = do
  c ← get_ctrl
  when (truth c.tx_flood) (modify_ctrl λ c. record c { tx_flood = one_less c.tx_flood })

unfoldable pub withdraw : Action
withdraw = modify_ctrl λ c. record c { send_packet = 0 }

unfoldable pub mask_addr : Action
mask_addr = modify_ctrl λ c. record c { pkt_addr = bit_and c.pkt_addr mem_tx_mask }

unfoldable pub count_pending : Action
count_pending = modify_ctrl λ c. record c { tx_pending = one_less c.tx_pending }

-- psoc_flash_device, which is not in the repository, with interrupts off.
unfoldable pub psoc_locked : Action
psoc_locked = do emit interrupts_off; emit psoc_flashed; emit interrupts_on

module _ (b : Board) where
  -- build_tx_plcp_header(&header_info) and build_tx_payload(&header_info).
  unfoldable pub send_header_info : M ℕ
  unfolding build_tx_plcp_header build_tx_payload
  send_header_info = do
    c ← get_ctrl
    h ← build_tx_plcp_header b c.header_info
    modify_ctrl λ c. record c { header_info = h }
    build_tx_payload b h

  -- What the first branch of the loop does with interrupts off.
  unfoldable pub send_locked : Action
  unfolding mem_set_rd_p send_header_info
  send_locked = do emit interrupts_off; mem_set_rd_p 0; words ← send_header_info; emit interrupts_on

  unfoldable pub send_single : Action
  unfolding blink send_locked toggle_seed listen count_flood withdraw
  send_single = do blink; send_locked; toggle_seed; listen; count_flood; withdraw

  -- The second: the next packet of the transmit buffer, behind the word of its length.
  unfoldable pub send_next_locked : Action
  unfolding mem_set_rd_p mem_read send_header_info
  send_next_locked = do
    emit interrupts_off
    c ← get_ctrl
    mem_set_rd_p c.pkt_addr
    length_word ← mem_read b
    modify_ctrl
        λ c. record c { header_info = record (c.header_info) { pdsu_length = u8 length_word } }
    words ← send_header_info
    modify_ctrl λ c. record c { pkt_addr = u32 (c.pkt_addr + (words * 4 + 4)) }
    emit interrupts_on

  unfoldable pub send_next : Action
  unfolding blink send_next_locked mask_addr toggle_seed listen count_pending
  send_next = do blink; send_next_locked; mask_addr; toggle_seed; listen; count_pending

  -- `tx_pending > 1`, of an `int`.
  abbrev pub several : ℕ → Bool
  several pending = ltb 1 pending && ltb pending (2 ^ 31)

  unfoldable pub forward : Protocol → ℕ → Action
  unfolding reply_pkt rx_read hbc_spi_dump_bytes hbc_spi_data_trigger
  forward p bytes = do
    reply_pkt b p p.rx_packet bytes
    marker ← rx_read b
    hbc_spi_dump_bytes (u32 (bytes + p.hbc_header_size + rx_pad)) 1
    hbc_spi_data_trigger b p.reply_size

  unfoldable pub hbc_to_spi : Protocol → Bool → Action
  unfolding rx_packet_ready rx_check_crc_ok rx_packet_length rx_bytes_read led_toggle forward
      rx_packet_next
  hbc_to_spi p forward_packet = do
    emit interrupts_off
    ready ← rx_packet_ready b
    (if not (truth ready) then emit interrupts_on else do
      ok ← rx_check_crc_ok
      bytes ← rx_packet_length
      stored ← rx_bytes_read
      when (truth ok && not (ltb stored bytes)) do led_toggle; when forward_packet (forward p bytes)
      rx_packet_next
      emit interrupts_on)

  unfoldable pub flash_psoc : Action
  unfolding psoc_locked
  flash_psoc = do psoc_locked; modify_ctrl λ c. record c { do_psoc_flash = 0 }

  -- One round of `while (1)`, the handlers aside.
  unfoldable pub main_round : Protocol → Action
  unfolding send_single hbc_spi_load_busy send_next hbc_spi_dump_busy hbc_to_spi flash_psoc
  main_round p = do
    c ← get_ctrl
    when (truth c.send_packet || truth c.tx_flood) send_single
    c ← get_ctrl
    loading ← hbc_spi_load_busy
    when (truth c.tx_auto && (several c.tx_pending || ((c.tx_pending == 1) && not (truth loading))))
        send_next
    c ← get_ctrl
    dumping ← hbc_spi_dump_busy
    when (truth c.rx_flood || (truth c.rx_auto && not (truth dumping)))
        (hbc_to_spi p (not (truth c.rx_flood)))
    c ← get_ctrl
    when (truth c.do_psoc_flash) flash_psoc
