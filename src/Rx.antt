-- ===== src/Rx.antt =====
-- src/extract_rx.c: the receiver. Its two interrupt handlers fill a ring of packets in memory, each
-- behind a marker word that holds its length; the other functions read the packets back.
pub mod Ring
pub mod Reader
pub mod Writer
pub mod Marker
pub mod Feed
pub mod Buffering
pub mod Reception
pub mod Stored
pub mod ReadBack
pub mod Delivery
use hbc_mac_src.Base.{
  ℕ, zero, suc, ◌+◌, ◌-◌, ◌%◌, ◌^◌, ◌==◌, bit_xor, truth, u8, u32, Bool, true, false, if◌then◌else◌,
  none,
}
use hbc_mac_src.Machine.{
  Board, Pin, Irq, RxState, RxPhase, packet_init, packet_reading, State, M, Action, pure, ◌>>=◌,
  ◌>>◌, get_rx, modify_rx, when, gpo_set, gpo_clear, irq_flag_set,
}
use hbc_mac_src.Fifo.{fifo_read}
use hbc_mac_src.Scrambler.{scrambler_read, scrambler_reseed}
use hbc_mac_src.Mem.{mem_size, mem_rx_buf, mem_set_rd_p, mem_set_wr_p, mem_read, mem_write}
use hbc_mac_src.Header.{read_len, read_ss, crc_ok}

-- -1 as a `uint32_t`.
abbrev pub no_marker : ℕ
no_marker = 2 ^ 32 - 1

-- The statics as the program starts.
abbrev pub rx_start : RxState
rx_start = record {
  rd_buf_addr = mem_rx_buf;
  wr_buf_addr = mem_rx_buf;
  wr_bytes = 0;
  packet_ready = 0;
  rd_packet_addr = mem_rx_buf;
  wr_packet_addr = 0;
  rd_packet_header = 0;
  rd_packet_marker = 0;
  rx_state = packet_init;
}

unfoldable pub inc_buf : ℕ → ℕ
inc_buf addr = let next = u32 (addr + 4) in if next == mem_size then mem_rx_buf else next

unfoldable pub inc_rd_buf : Action
unfolding inc_buf
inc_rd_buf = modify_rx λ r. record r { rd_buf_addr = inc_buf r.rd_buf_addr }

unfoldable pub inc_wr_buf : Action
unfolding inc_buf
inc_wr_buf = modify_rx λ r. record r { wr_buf_addr = inc_buf r.wr_buf_addr }

unfoldable pub rx_packet_length : M ℕ
unfolding read_len
rx_packet_length = do r ← get_rx; pure (u8 (read_len r.rd_packet_header))

unfoldable pub rx_bytes_read : M ℕ
rx_bytes_read = do r ← get_rx; pure (u32 (r.rd_packet_marker + 2 ^ 32 - 8))

unfoldable pub rx_check_crc_ok : M ℕ
unfolding crc_ok
rx_check_crc_ok = do r ← get_rx; pure (crc_ok r.rd_packet_header)

unfoldable pub rx_read_addr : M ℕ
rx_read_addr = do r ← get_rx; pure r.rd_packet_addr

unfoldable pub rx_write_addr : M ℕ
rx_write_addr = do r ← get_rx; pure r.wr_packet_addr

-- The packet's address is not taken back into the ring.
unfoldable pub next_packet : RxState → RxState
next_packet r = if r.rd_packet_marker == no_marker then r else record r {
  rd_packet_addr = u32 (r.rd_packet_addr + r.rd_packet_marker);
  packet_ready = u32 (r.packet_ready + 2 ^ 32 - 1);
}

unfoldable pub rx_packet_next : Action
unfolding next_packet
rx_packet_next = modify_rx next_packet

unfoldable pub rx_enable : Action
unfolding gpo_set
rx_enable = gpo_set Pin.hbc_rx_enable

unfoldable pub rx_disable : Action
unfolding gpo_clear
rx_disable = gpo_clear Pin.hbc_rx_enable

abbrev pub add_wr_bytes : ℕ → RxState → RxState
add_wr_bytes n r = record r { wr_bytes = u32 (r.wr_bytes + n) }

abbrev pub is_init : RxPhase → Bool
is_init packet_init = true
is_init packet_reading = false

-- The marker of the finished packet, in the place that was left for it.
unfoldable pub finish_packet : Action
unfolding mem_set_wr_p mem_write
finish_packet = do
  r ← get_rx
  mem_set_wr_p r.wr_packet_addr
  mem_write r.wr_bytes
  modify_rx λ r. record r {
    rx_state = packet_init;
    packet_ready = u32 (r.packet_ready + 1);
    wr_bytes = 0;
  }

unfoldable pub acknowledge : Action
unfolding gpo_set gpo_clear
acknowledge = gpo_set Pin.hbc_rx_pkt_ack >> gpo_clear Pin.hbc_rx_pkt_ack

module _ (b : Board) where
  unfoldable pub read_headers : Action
  unfolding mem_set_rd_p mem_read
  read_headers = do
    r ← get_rx
    mem_set_rd_p r.rd_packet_addr
    marker ← mem_read b
    modify_rx λ r. record r { rd_packet_marker = marker }
    header ← mem_read b
    modify_rx λ r. record r { rd_packet_header = header }

  unfoldable pub rx_packet_ready : M ℕ
  unfolding read_headers
  rx_packet_ready = do
    read_headers
    modify_rx λ r. record r { rd_buf_addr = r.rd_packet_addr }
    r ← get_rx
    pure r.packet_ready

  unfoldable pub rx_read : M ℕ
  unfolding mem_set_rd_p inc_rd_buf mem_read
  rx_read = do r ← get_rx; mem_set_rd_p r.rd_buf_addr; inc_rd_buf; mem_read b

  -- A new packet: its header goes behind the place of its marker.
  unfoldable pub start_packet : Action
  unfolding fifo_read mem_write inc_wr_buf scrambler_reseed read_ss
  start_packet = do
    modify_rx λ r. record r { wr_packet_addr = r.wr_buf_addr }
    val ← fifo_read b
    mem_write no_marker
    mem_write val
    inc_wr_buf
    inc_wr_buf
    scrambler_reseed (read_ss val)
    modify_rx λ r. record r { rx_state = packet_reading }
    modify_rx (add_wr_bytes 8)

  -- The body of the loop of rx_data_int_func.
  unfoldable pub store_word : Action
  unfolding fifo_read scrambler_read mem_write inc_wr_buf
  store_word = do
    val ← fifo_read b
    scram ← scrambler_read b
    mem_write (bit_xor val scram)
    inc_wr_buf
    modify_rx (add_wr_bytes 4)

  unfoldable pub data_loop : ℕ → Action
  unfolding irq_flag_set store_word
  data_loop zero = λ s. none
  data_loop (suc n) =
      let again = data_loop n in
      do flag ← irq_flag_set b Irq.rx_data_ready; if flag then store_word >> again else pure tt

  -- The flag is polled only between packets: `&&` of C.
  unfoldable pub header_test : M Bool
  unfolding irq_flag_set
  header_test = do
    r ← get_rx
    if is_init r.rx_state then irq_flag_set b Irq.rx_data_ready else pure false

  unfoldable pub rx_data_int_func : Action
  unfolding mem_set_wr_p header_test start_packet data_loop
  rx_data_int_func = do
    r ← get_rx
    mem_set_wr_p r.wr_buf_addr
    begins ← header_test
    when begins start_packet
    data_loop b.patience

  unfoldable pub rx_ready_int_func : Action
  unfolding irq_flag_set rx_data_int_func finish_packet acknowledge
  rx_ready_int_func = do
    flag ← irq_flag_set b Irq.rx_data_ready
    when flag rx_data_int_func
    r ← get_rx
    when (truth r.wr_bytes) finish_packet
    acknowledge
