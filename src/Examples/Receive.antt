-- ===== src/Examples/Receive.antt =====
-- The receiver's theorems at a packet of one word behind its header.
use hbc_mac_src.Base.{◌-◌, refl, arith, [], ◌∷◌}
use hbc_mac_src.Machine.{Port, read_word, wrote_word, RxState, packet_reading, State}
use hbc_mac_src.Machine.Returns.{Returns}
use hbc_mac_src.Mem.{mem_size, mem_rx_buf}
use hbc_mac_src.Rx.{rx_start, rx_data_int_func, rx_ready_int_func}
use hbc_mac_src.Rx.Ring.{IsInRing}
use hbc_mac_src.Rx.Writer.{IsWriter, IsReceiving, data_int-IsReceiving}
use hbc_mac_src.Rx.Marker.{IsSettled, ready_int-IsSettled}
use hbc_mac_src.Examples.Boards.{receiving_board, receiving-Supplies, boot}

start-IsInRing : IsInRing mem_rx_buf
start-IsInRing = omega arith

start-IsWriter : IsWriter rx_start
start-IsWriter = record { ring = start-IsInRing; phase = refl }

data_int-IsReceiving_example :
    Returns (λ a s'. IsReceiving rx_start s') (rx_data_int_func receiving_board boot)
data_int-IsReceiving_example =
    data_int-IsReceiving receiving_board boot receiving-Supplies start-IsWriter refl

ready_int-IsSettled_example :
    Returns (λ a s'. IsSettled mem_rx_buf 0 s') (rx_ready_int_func receiving_board boot)
ready_int-IsSettled_example =
    ready_int-IsSettled receiving_board boot receiving-Supplies start-IsWriter

-- The last packet of the ring, twelve bytes long, is in progress, and the FIFO is empty.
abbrev in_packet : RxState
in_packet = record rx_start {
  wr_buf_addr = mem_rx_buf;
  wr_packet_addr = mem_size - 12;
  wr_bytes = 12;
  rx_state = packet_reading;
  rd_packet_addr = mem_size - 12;
  rd_packet_marker = 12;
}

abbrev drained : State
drained = record boot {
  events = read_word Port.rx_fifo 0 ∷ read_word Port.rx_fifo 0 ∷ [];
  rx = in_packet;
}

in_packet-IsWriter : IsWriter in_packet
in_packet-IsWriter = record { ring = start-IsInRing; phase = (omega arith, refl) }

-- The handler has just set the controller's pointer to the last word of the ring.
abbrev at_end : State
at_end = record boot {
  events = wrote_word Port.mem_wr_p (mem_size - 4) ∷ [];
  rx = record rx_start { wr_buf_addr = mem_size - 4 };
}
