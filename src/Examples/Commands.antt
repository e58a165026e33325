-- ===== src/Examples/Commands.antt =====
-- The commands of the host and the flash at concrete inputs, with numbers of our own for the
-- constants of the protocol.
use hbc_mac_src.Base.{ℕ, List, ◌≡◌, refl, arith, ◌==◌, if◌then◌else◌, [], ◌∷◌, ◌++◌}
use hbc_mac_src.Machine.{Port, wrote_word, State, ◌>>◌}
use hbc_mac_src.Machine.Returns.{Returns}
use hbc_mac_src.Crc.{crc_over}
use hbc_mac_src.Spi.Load.{Quad}
use hbc_mac_src.Ctrl.{Command, Protocol, check_loop, finish_command}
use hbc_mac_src.Ctrl.Check.{first_words_skipped}
use hbc_mac_src.Ctrl.Framing.{ctrl_cmds, collecting, ctrl_cmds_lem, damaged_command_dropped}
use hbc_mac_src.Ctrl.Loop.{send_next}
use hbc_mac_src.Ctrl.Stepping.{Quiet, stepped, send_next_lem}
use hbc_mac_src.Examples.Boards.{receiving_board, board_with, board_with-Drains, boot}
use hbc_mac_src.Examples.Packets.{memory_answer, sender-HasMemory}
use hbc_mac_src.Machine.Stage.{whole, stage}

abbrev pub label : ℕ → Command
label n = if n == 3 then Command.tx_auto_cmd else if n == 4 then Command.rx_next else Command.other

abbrev pub protocol : Protocol
protocol = record {
  packet_header = 0xAA;
  packet_size = 6;
  packet_cmd_offset = 0;
  packet_arg_offset = 1;
  reply_size = 4;
  hbc_ack = 1;
  psoc_ack = 2;
  no_ack = 3;
  rx_packet = 4;
  hbc_header_size = 4;
  label = label;
  number = λ c. 0;
}

abbrev quad : Quad
quad = record { b0 = 1; b1 = 2; b2 = 3; b3 = 4 }

ctrl_cmds_lem_example :
    ctrl_cmds receiving_board protocol
      ((7 ∷ 8 ∷ []) ++ (0xAA ∷ (3 ∷ 0 ∷ 0 ∷ 0 ∷ 1 ∷ 84 ∷ []) ++ (7 ∷ [])))
      (collecting 0 (0 ∷ 0 ∷ 0 ∷ 0 ∷ 0 ∷ 0 ∷ []) boot)
    ≡ (finish_command receiving_board protocol >> ctrl_cmds receiving_board protocol (7 ∷ []))
        (collecting 0 (3 ∷ 0 ∷ 0 ∷ 0 ∷ 1 ∷ 84 ∷ []) boot)
ctrl_cmds_lem_example =
    ctrl_cmds_lem receiving_board protocol (7 ∷ 8 ∷ []) (0 ∷ 0 ∷ 0 ∷ 0 ∷ 0 ∷ 0 ∷ [])
      (3 ∷ 0 ∷ 0 ∷ 0 ∷ 1 ∷ 84 ∷ []) (7 ∷ []) 0xAA boot (refl, (refl, tt)) (omega arith)
      (omega arith) refl refl refl

-- A length stands where the next packet is sent from.
abbrev announced_seven : State
announced_seven = record boot {
  events = wrote_word Port.mem_rd_wr 7 ∷ wrote_word Port.mem_wr_p 0 ∷ [];
}

send_next_lem_example :
    Returns
      (λ a s'.
        Quiet (stepped 7 announced_seven.ctrl) announced_seven s' × (stage s'.events ≡ whole))
      (send_next (board_with memory_answer) announced_seven)
send_next_lem_example =
    send_next_lem (board_with memory_answer) (board_with-Drains memory_answer) sender-HasMemory 7
      announced_seven (omega arith) (omega arith) refl refl

abbrev at_zero : State
at_zero = record boot { spi = record (boot.spi) { load_addr = 0 } }

-- The sum of the other five bytes is 84.
abbrev damaged : List ℕ
damaged = 3 ∷ 0 ∷ 5 ∷ 0 ∷ 1 ∷ 84 ∷ []

damaged_command_dropped_example :
    ctrl_cmds receiving_board protocol
      (0xAA ∷ damaged ++ (7 ∷ []))
      (collecting 0 (0 ∷ 0 ∷ 0 ∷ 0 ∷ 0 ∷ 0 ∷ []) boot)
    ≡ ctrl_cmds receiving_board protocol (7 ∷ []) (collecting 0 damaged boot)
unfolding crc_over
damaged_command_dropped_example =
    damaged_command_dropped receiving_board protocol (3 ∷ 0 ∷ []) (0 ∷ 1 ∷ 84 ∷ [])
      (0 ∷ 0 ∷ 0 ∷ 0 ∷ 0 ∷ 0 ∷ []) (7 ∷ []) 0 5 0xAA boot (omega arith) (omega arith) refl refl refl
      refl (λ e. absurd (omega (arith, e)))

first_words_skipped_example :
    check_loop receiving_board 5 0 0x11223344 0x55667744 boot
    ≡ check_loop receiving_board 5 0 0x44 0x44 boot
first_words_skipped_example =
    first_words_skipped receiving_board 0 0 0x11223344 0x44 0x55667744 0x44 boot refl refl
