-- ===== src/Rx/Reader.antt =====
-- The reader's side of the ring.
use hbc_mac_src.Base.{ℕ, ◌+◌, ◌%◌, ◌<◌, ◌≡◌, arith, zero, suc}
use hbc_mac_src.Machine.{Board, RxState, Action, ◌>>◌, pure}
use hbc_mac_src.Machine.Returns
use hbc_mac_src.Machine.Returns.{Returns}
use hbc_mac_src.Mem.{mem_size}
use hbc_mac_src.Rx.{next_packet, rx_read}
use hbc_mac_src.Rx.Ring.{IsInRing, place}

-- A packet that ends inside the ring: the reader comes to the word behind it.
next_packet-IsInRing :
    (r : RxState)
    → IsInRing r.rd_packet_addr
    → r.rd_packet_marker % 4 ≡ 0
    → r.rd_packet_addr + r.rd_packet_marker < mem_size
    → IsInRing (next_packet r).rd_packet_addr
      × (place (next_packet r).rd_packet_addr ≡ place (r.rd_packet_addr + r.rd_packet_marker))
unfolding next_packet
next_packet-IsInRing r ring whole fits =
    (record { above = ground arith; below = ground arith; aligned = ground arith }, ground arith)

-- `n` calls of rx_read.
unfoldable pub read_words : Board → ℕ → Action
unfolding rx_read
read_words b zero = pure tt
read_words b (suc n) = rx_read b >> read_words b n
