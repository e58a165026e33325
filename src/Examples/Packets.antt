-- ===== src/Examples/Packets.antt =====
-- Boards whose receive FIFO holds a packet of two words behind its header, and a sender of one.
use hbc_mac_src.Base.{
  ℕ, false, ◌+◌, ◌*◌, ◌≡◌, refl, ap, arith, ◌≤◌, ◌∙◌, truth, u32, List, [], ◌∷◌, length,
}
use mathlib.Core.List.{nil≢cons}
use hbc_mac_src.Machine.{Board, Port, Event, Request, read_word, wrote_word, State, ◌>>◌, ◌>>=◌}
use hbc_mac_src.Machine.Returns.{Returns}
use hbc_mac_src.Mem.Fault.{HasMemory, replay}
use hbc_mac_src.Spi.Dump.{kept}
use hbc_mac_src.Rx.Feed.{left, tail, HasFeed}
use hbc_mac_src.Rx.Reception.{receive}
use hbc_mac_src.Rx.Stored.{AreWords}
use hbc_mac_src.Rx.ReadBack.{read_packet, IsReadBack, receive-IsReadBack}
use hbc_mac_src.Rx.Delivery.{IsDelivered, receive-IsDelivered}
use hbc_mac_src.Tx.{build_tx_plcp_header, build_tx_payload}
use hbc_mac_src.Tx.Spread.{words_at}
use hbc_mac_src.Tx.OnAir.{on_air, IsOnAir, packet-IsOnAir}
use hbc_mac_src.Examples.Boards.{board_with, board_with-Drains, header, boot}

abbrev first_of : List ℕ → ℕ
first_of [] = 0
first_of (w ∷ ws) = w

abbrev sequence : ℕ → ℕ → ℕ
sequence seed k = u32 (k * 0x10000 + 0x1234 + seed)

abbrev pub memory_answer : List Event → Request → ℕ
memory_answer h (Request.word Port.mem_rd_wr) = let m = replay h in m.cells m.read_at
memory_answer h (Request.word Port.scrambler_port) = sequence (replay h).seed (replay h).drawn
memory_answer h _ = 0

abbrev packet_answer : List ℕ → List Event → Request → ℕ
packet_answer incoming h Request.irqs = length (left incoming h)
packet_answer incoming h (Request.word Port.rx_fifo) = first_of (left incoming h)
packet_answer incoming h (Request.word Port.mem_rd_wr) =
    memory_answer h (Request.word Port.mem_rd_wr)
packet_answer incoming h (Request.word Port.scrambler_port) =
    memory_answer h (Request.word Port.scrambler_port)
packet_answer incoming h _ = 0

abbrev packet_board : List ℕ → Board
packet_board incoming = record {
  respond = packet_answer incoming;
  irq_status = λ q v. v;
  patience = 5;
}

packet-HasMemory : (incoming : List ℕ) → HasMemory (packet_board incoming) kept sequence
packet-HasMemory incoming = record { reads = λ h. refl; draws = λ h. omega arith }

abbrev IsShort : List ℕ → Type 0
IsShort ws = AreWords ws × (length ws ≤ 3)

tail-IsShort : (ws : List ℕ) → IsShort ws → IsShort (tail ws)
tail-IsShort [] short = short
tail-IsShort (w ∷ ws) ((first, rest), fits) = (rest, omega (arith, fits))

left-IsShort : (incoming : List ℕ) → IsShort incoming → (h : List Event) → IsShort (left incoming h)
left-IsShort incoming short [] = short
left-IsShort incoming short (read_word Port.rx_fifo v ∷ h) =
    tail-IsShort (left incoming h) (left-IsShort incoming short h)
left-IsShort incoming short (_ ∷ h) = left-IsShort incoming short h

first_small : (xs : List ℕ) (w : ℕ) (ws : List ℕ) → IsShort xs → xs ≡ w ∷ ws → u32 (first_of xs) ≡ w
first_small [] w ws short first = absurd (nil≢cons first)
first_small (x ∷ xs) w ws ((small, rest), fits) first = small ∙ ap first_of first

packet-HasFeed : (incoming : List ℕ) → IsShort incoming → HasFeed (packet_board incoming) incoming
packet-HasFeed incoming short = record {
  gives = λ h w ws first. first_small (left incoming h) w ws (left-IsShort incoming short h) first;
  ends = λ h none. ap (λ ws. truth (u32 (length ws))) none;
  waits_polled = λ v h on. on;
  waits_pointed = λ a h on. on;
  bounded = λ h. omega (arith, (left-IsShort incoming short h).1);
}

abbrev incoming : List ℕ
incoming = 0x00080800 ∷ 0x12345678 ∷ 0x9abcdef0 ∷ []

receive-IsReadBack_example :
    Returns
      (λ read s'. (ws : List ℕ) × IsReadBack sequence incoming 0x00080800 ws boot read s')
      ((receive (packet_board incoming) 2 >> read_packet (packet_board incoming)) boot)
receive-IsReadBack_example =
    receive-IsReadBack (packet-HasFeed incoming ((refl, (refl, (refl, tt))), omega arith))
      (packet-HasMemory incoming) 2 0x00080800 (0x12345678 ∷ 0x9abcdef0 ∷ []) boot refl refl refl
      refl refl (omega arith) (omega arith)

abbrev sent_cells : ℕ → ℕ
sent_cells x = x * 0x01020304

abbrev sent : List ℕ
sent = on_air sequence header (words_at false sent_cells 0x100 2)

receive-IsDelivered_example :
    Returns
      (λ read s'. IsDelivered header false sent_cells 0x100 2 (length (left sent s'.events)) read)
      ((receive (packet_board sent) 1 >> read_packet (packet_board sent)) boot)
receive-IsDelivered_example =
    receive-IsDelivered (packet-HasMemory sent) (λ g k. omega arith) header (omega arith) false
      sent_cells 0x100 2
      (packet-HasFeed sent ((omega arith, (omega arith, (omega arith, tt))), omega arith)) 1 boot
      refl refl refl refl refl (omega arith) (omega arith)

pub sender-HasMemory : HasMemory (board_with memory_answer) kept sequence
sender-HasMemory = record { reads = λ h. refl; draws = λ h. omega arith }

-- Two words stand at 0x100, where the read pointer is.
abbrev stocked : State
stocked = record boot {
  events =
      wrote_word Port.mem_rd_p 0x100
      ∷ wrote_word Port.mem_rd_wr 0x9abcdef0
      ∷ wrote_word Port.mem_rd_wr 0x12345678
      ∷ wrote_word Port.mem_wr_p 0x100
      ∷ [];
}

packet-IsOnAir_example :
    Returns
      (λ n s'. IsOnAir sequence header stocked s')
      ((build_tx_plcp_header (board_with memory_answer) header
          >>= build_tx_payload (board_with memory_answer))
        stocked)
packet-IsOnAir_example =
    packet-IsOnAir (board_with memory_answer) (board_with-Drains memory_answer) sender-HasMemory
      header stocked (omega arith) (omega arith) refl
