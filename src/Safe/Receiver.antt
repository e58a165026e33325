-- ===== src/Safe/Receiver.antt =====
-- src/extract_rx.c keeps what is closed under the updates of the program.
use hbc_mac_src.Base.{ℕ, zero, suc, ◌+◌, ◌-◌, ◌^◌, ◌≡◌, refl, arith, bit_xor, truth, u8, u32, false}
use hbc_mac_src.Machine.{Board, Irq, RxState, packet_init, packet_reading, modify_rx}
use hbc_mac_src.Machine.Keeps.{
  Condition, Keeps, Keeps-pure, Keeps-stuck, Keeps-get_rx, Keeps-modify_rx, Keeps-irq_flag_set,
  Keeps-gpo_set, Keeps-gpo_clear,
}
use hbc_mac_src.Machine.{Pin}
use hbc_mac_src.Machine.Keeps.Blocks.{◌>>=◌, ◌>>◌, branch, only_if}
use hbc_mac_src.Safe.{Closed}
use hbc_mac_src.Safe.Drivers.{
  Keeps-fifo_read, Keeps-scrambler_read, Keeps-scrambler_reseed, Keeps-mem_set_wr_p,
  Keeps-mem_set_rd_p, Keeps-mem_write, Keeps-mem_read,
}
use hbc_mac_src.Header.{read_len, read_ss, crc_ok}
use hbc_mac_src.Ctrl.{Protocol}
use hbc_mac_src.Rx.{
  no_marker, is_init, inc_rd_buf, inc_wr_buf, rx_packet_length, rx_bytes_read, rx_check_crc_ok,
  rx_read_addr, rx_write_addr, next_packet, rx_packet_next, add_wr_bytes, finish_packet,
  acknowledge, read_headers, rx_packet_ready, rx_read, start_packet, store_word, data_loop,
  header_test, rx_data_int_func, rx_ready_int_func,
}

next_packet_writer : (r : RxState) → (next_packet r).wr_buf_addr ≡ r.wr_buf_addr
unfolding next_packet
next_packet_writer r = ground arith

module _ {J : Condition} where
  Keeps-acknowledge : Keeps J acknowledge
  unfolding acknowledge
  Keeps-acknowledge = Keeps-gpo_set Pin.hbc_rx_pkt_ack >> Keeps-gpo_clear Pin.hbc_rx_pkt_ack

  pub Keeps-rx_packet_length : Keeps J rx_packet_length
  unfolding rx_packet_length
  Keeps-rx_packet_length = do r ← Keeps-get_rx; Keeps-pure (u8 (read_len r.rd_packet_header))

  pub Keeps-rx_bytes_read : Keeps J rx_bytes_read
  unfolding rx_bytes_read
  Keeps-rx_bytes_read = do r ← Keeps-get_rx; Keeps-pure (u32 (r.rd_packet_marker + 2 ^ 32 - 8))

  pub Keeps-rx_check_crc_ok : Keeps J rx_check_crc_ok
  unfolding rx_check_crc_ok
  Keeps-rx_check_crc_ok = do r ← Keeps-get_rx; Keeps-pure (crc_ok r.rd_packet_header)

  pub Keeps-rx_read_addr : Keeps J rx_read_addr
  unfolding rx_read_addr
  Keeps-rx_read_addr = do r ← Keeps-get_rx; Keeps-pure r.rd_packet_addr

  pub Keeps-rx_write_addr : Keeps J rx_write_addr
  unfolding rx_write_addr
  Keeps-rx_write_addr = do r ← Keeps-get_rx; Keeps-pure r.wr_packet_addr

  Keeps-header_test : (b : Board) → Keeps J (header_test b)
  unfolding header_test
  Keeps-header_test b = do
    r ← Keeps-get_rx
    branch (is_init r.rx_state) (Keeps-irq_flag_set b Irq.rx_data_ready) (Keeps-pure false)

module _ {J : Condition} {b : Board} {p : Protocol} (closed : Closed b p J) where
  -- An update of the receiver's variables that leaves the writer where it is.
  Keeps-reading :
      (f : RxState → RxState)
      → ((r : RxState) → (f r).wr_buf_addr ≡ r.wr_buf_addr)
      → Keeps J (modify_rx f)
  Keeps-reading f same = Keeps-modify_rx f (closed.reading f same)

  Keeps-inc_rd_buf : Keeps J inc_rd_buf
  unfolding inc_rd_buf
  Keeps-inc_rd_buf = Keeps-reading _ (λ r. refl)

  Keeps-inc_wr_buf : Keeps J inc_wr_buf
  unfolding inc_wr_buf
  Keeps-inc_wr_buf = Keeps-modify_rx _ closed.writing

  pub Keeps-rx_packet_next : Keeps J rx_packet_next
  unfolding rx_packet_next
  Keeps-rx_packet_next = Keeps-reading next_packet next_packet_writer

  Keeps-finish_packet : Keeps J finish_packet
  unfolding finish_packet
  Keeps-finish_packet = do
    r ← Keeps-get_rx
    Keeps-mem_set_wr_p r.wr_packet_addr
    Keeps-mem_write r.wr_bytes
    Keeps-reading
        (λ r. record r {
          rx_state = packet_init;
          packet_ready = u32 (r.packet_ready + 1);
          wr_bytes = 0;
        })
        (λ r. refl)

  pub Keeps-rx_packet_ready : Keeps J (rx_packet_ready b)
  unfolding rx_packet_ready read_headers
  Keeps-rx_packet_ready = do
    (do
      r ← Keeps-get_rx
      Keeps-mem_set_rd_p r.rd_packet_addr
      marker ← Keeps-mem_read b
      Keeps-reading (λ r. record r { rd_packet_marker = marker }) (λ r. refl)
      header ← Keeps-mem_read b
      Keeps-reading (λ r. record r { rd_packet_header = header }) (λ r. refl))
    Keeps-reading (λ r. record r { rd_buf_addr = r.rd_packet_addr }) (λ r. refl)
    r ← Keeps-get_rx
    Keeps-pure r.packet_ready

  pub Keeps-rx_read : Keeps J (rx_read b)
  unfolding rx_read
  Keeps-rx_read = do
    r ← Keeps-get_rx
    Keeps-mem_set_rd_p r.rd_buf_addr
    Keeps-inc_rd_buf
    Keeps-mem_read b

  Keeps-start_packet : Keeps J (start_packet b)
  unfolding start_packet
  Keeps-start_packet = do
    Keeps-reading (λ r. record r { wr_packet_addr = r.wr_buf_addr }) (λ r. refl)
    val ← Keeps-fifo_read b
    Keeps-mem_write no_marker
    Keeps-mem_write val
    Keeps-inc_wr_buf
    Keeps-inc_wr_buf
    Keeps-scrambler_reseed (read_ss val)
    Keeps-reading (λ r. record r { rx_state = packet_reading }) (λ r. refl)
    Keeps-reading (add_wr_bytes 8) (λ r. refl)

  Keeps-store_word : Keeps J (store_word b)
  unfolding store_word
  Keeps-store_word = do
    val ← Keeps-fifo_read b
    scram ← Keeps-scrambler_read b
    Keeps-mem_write (bit_xor val scram)
    Keeps-inc_wr_buf
    Keeps-reading (add_wr_bytes 4) (λ r. refl)

  Keeps-data_loop : (n : ℕ) → Keeps J (data_loop b n)
  unfolding data_loop
  Keeps-data_loop zero = Keeps-stuck
  Keeps-data_loop (suc n) = do
    flag ← Keeps-irq_flag_set b Irq.rx_data_ready
    branch flag (Keeps-store_word >> Keeps-data_loop n) (Keeps-pure tt)

  pub Keeps-rx_data_int_func : Keeps J (rx_data_int_func b)
  unfolding rx_data_int_func
  Keeps-rx_data_int_func = do
    r ← Keeps-get_rx
    Keeps-mem_set_wr_p r.wr_buf_addr
    begins ← Keeps-header_test b
    only_if begins Keeps-start_packet
    Keeps-data_loop b.patience

  pub Keeps-rx_ready_int_func : Keeps J (rx_ready_int_func b)
  unfolding rx_ready_int_func
  Keeps-rx_ready_int_func = do
    flag ← Keeps-irq_flag_set b Irq.rx_data_ready
    only_if flag Keeps-rx_data_int_func
    r ← Keeps-get_rx
    only_if (truth r.wr_bytes) Keeps-finish_packet
    Keeps-acknowledge
