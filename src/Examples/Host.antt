-- ===== src/Examples/Host.antt =====
-- The host's channels at small transfers.
use hbc_mac_src.Base.{◌≡◌, refl, arith, [], ◌∷◌, some, bit_or}
use hbc_mac_src.Machine.{State, ◌>>◌}
use hbc_mac_src.Machine.Returns.{Returns}
use hbc_mac_src.Spi.{hbc_spi_reply, hbc_spi_ack, hbc_spi_load_bytes}
use hbc_mac_src.Spi.Load.{Quad, word_of, load_bytes, stored_after, IsAligned, load_bytes_lem}
use hbc_mac_src.Spi.Leftover.{one_word, leftover_byte}
use hbc_mac_src.Spi.Output.{data_irqs, sent_after, ack_before_reply}
use hbc_mac_src.Examples.Boards.{receiving_board, no_data, boot}

abbrev quad : Quad
quad = record { b0 = 1; b1 = 2; b2 = 3; b3 = 4 }

abbrev loading : State
loading = record boot { spi = record no_data { loading_mem = 4 } }

load_bytes_lem_example :
    Returns
      (λ a s'.
        (s'.events ≡ stored_after 0x100 (quad ∷ []) [])
        × (s'.spi.load_addr ≡ 0x104)
        × (s'.spi.loading_mem ≡ 0)
        × IsAligned s'.spi
        × (s'.rx ≡ boot.rx)
        × (s'.ctrl ≡ boot.ctrl))
      (load_bytes (1 ∷ 2 ∷ 3 ∷ 4 ∷ []) loading)
load_bytes_lem_example =
    load_bytes_lem (quad ∷ []) loading (omega arith) (record { index = refl; empty = refl }) refl
      (omega arith)

ack_before_reply_example :
    (hbc_spi_reply 7 4 >> (hbc_spi_ack 4 9 >> data_irqs receiving_board 4 8)) boot
    ≡ some (
      tt,
      record boot {
        events = sent_after 7 0 4 (sent_after 9 0 4 []);
        spi = record no_data {
          ack_bytes = 0;
          ack_data = 9;
          reply_bytes = 0;
          reply_size = 4;
          reply_data = 7;
        };
      },
    )
ack_before_reply_example = ack_before_reply receiving_board 4 4 9 7 boot

leftover_byte_example :
    (hbc_spi_load_bytes 1 0
        >> (load_bytes (5 ∷ []) >> (hbc_spi_load_bytes 4 0 >> load_bytes (2 ∷ 0 ∷ 0 ∷ 0 ∷ []))))
      boot
    ≡ some (tt, one_word (word_of (bit_or 5 2) 0 0 0) boot)
leftover_byte_example =
    leftover_byte 5 2 0 0 0 boot (omega arith) (omega arith) (omega arith) (omega arith)
      (omega arith) (record { index = refl; empty = refl })
