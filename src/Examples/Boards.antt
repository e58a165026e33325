-- ===== src/Examples/Boards.antt =====
-- Two boards: one whose transmit FIFO is busy after each write until it has gone for two
-- polls, and one that has two
-- words in its receive FIFO.
use hbc_mac_src.Base.{ℕ, suc, ◌-◌, ◌≤◌, arith, ltb, if◌then◌else◌, List, [], ◌∷◌}
use hbc_mac_src.Machine.{
  Board, Port, Irq, Event, Request, read_irqs, read_word, discrete_set, discrete_clear, PlcpHeader,
  State, SpiState,
}
use hbc_mac_src.Machine.Stage.{Stage, whole, filling, going, late, stage}
use hbc_mac_src.Fifo.Sending.{Drains}
use hbc_mac_src.Rx.{rx_start}
use hbc_mac_src.Rx.Writer.{Supplies}

-- Polls since the last write in which the FIFO goes, two at most.
abbrev drained : Stage → ℕ → ℕ
drained filling n = n
drained late n = n
drained _ n = if ltb n 2 then suc n else 2

abbrev polls : List Event → ℕ
polls [] = 0
polls (read_irqs v ∷ h) = drained (stage h) (polls h)
polls (discrete_set ps ∷ h) = polls h
polls (discrete_clear ps ∷ h) = polls h
polls (_ ∷ h) = 0

abbrev busy_level : Irq → ℕ → ℕ
busy_level Irq.tx_fifo_almost_full v = if ltb v 2 then 1 else 0
busy_level _ v = if ltb v 2 then 0 else 1

abbrev busy_answer : (List Event → Request → ℕ) → List Event → Request → ℕ
busy_answer answer h Request.irqs = polls h
busy_answer answer h q = answer h q

-- Every other read gives the answer.
abbrev pub board_with : (List Event → Request → ℕ) → Board
board_with answer = record { respond = busy_answer answer; irq_status = busy_level; patience = 4 }

abbrev pub board_of : ℕ → Board
board_of n = board_with (λ h q. n)

abbrev pub busy_board : Board
busy_board = board_of 0x12345678

drained-le : (g : Stage) (n : ℕ) → n ≤ 2 → drained g n ≤ 2
drained-le whole n fits = ground arith
drained-le filling n fits = fits
drained-le going n fits = ground arith
drained-le late n fits = fits

polls-le : (h : List Event) → polls h ≤ 2
polls-le [] = omega arith
polls-le (read_irqs v ∷ h) = drained-le (stage h) (polls h) (polls-le h)
polls-le (discrete_set ps ∷ h) = polls-le h
polls-le (discrete_clear ps ∷ h) = polls-le h
polls-le (_ ∷ h) = omega arith

pub board_with-Drains : (answer : List Event → Request → ℕ) → Drains (board_with answer)
board_with-Drains answer = record {
  room = record {
    backlog = λ h. 2 - polls h;
    bounded = λ h. omega arith;
    falls = λ h at on. rw at (ground (arith, polls-le h));
  };
  spare = λ h. omega arith;
  empty = record {
    backlog = λ h. 2 - polls h;
    bounded = λ h. omega arith;
    falls = λ h at on. rw at (ground (arith, polls-le h));
  };
}

pub board_of-Drains : (n : ℕ) → Drains (board_of n)
board_of-Drains n = board_with-Drains (λ h q. n)

pub busy-Drains : Drains busy_board
busy-Drains = board_of-Drains 0x12345678

-- Words taken from the receive FIFO.
abbrev taken : List Event → ℕ
taken [] = 0
taken (read_word Port.rx_fifo v ∷ h) = suc (taken h)
taken (_ ∷ h) = taken h

abbrev word_answer : List Event → Request → ℕ
word_answer h Request.irqs = 2 - taken h
word_answer h _ = 0x00040800

abbrev pub receiving_board : Board
receiving_board = record { respond = word_answer; irq_status = λ q v. v; patience = 3 }

pub receiving-Supplies : Supplies receiving_board
receiving-Supplies = record {
  backlog = λ h. 2 - taken h;
  bounded = λ h. omega arith;
  pops = λ v p m scram h on. ground arith;
  waits = λ p a h on. on;
}

abbrev pub header : PlcpHeader
header = record {
  data_rate = 2;
  pilot_info = 6;
  burst_mode = 0;
  use_ri = 1;
  scrambler_seed = 1;
  pdsu_length = 5;
  crc8 = 0;
}

abbrev pub no_data : SpiState
no_data = record {
  load_addr = 0x100;
  dump_addr = 0;
  loading_mem = 0;
  dumping_mem = 0;
  dump_hbc_rx = 0;
  load_index = 0;
  dump_index = 0;
  ack_data = 0;
  ack_bytes = 0;
  reply_bytes = 0;
  reply_size = 0;
  reply_data = 0;
  rd_data = 0;
  wr_data = 0;
}

abbrev pub boot : State
boot = record {
  events = [];
  triggered = 0;
  rx = rx_start;
  spi = no_data;
  ctrl = record {
    send_packet = 0;
    tx_flood = 0;
    rx_flood = 0;
    tx_pending = 0;
    pkt_addr = 0;
    rx_auto = 0;
    tx_auto = 0;
    do_psoc_flash = 0;
    loopback = 0;
    header_info = header;
    flash_addr = 0;
    pkt = 0 ∷ 0 ∷ 0 ∷ 0 ∷ 0 ∷ 0 ∷ [];
    bytes_req = 0;
    toggle = 0;
  };
}
