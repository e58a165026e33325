-- ===== src/Fifo.antt =====
-- src/fifo.c: the transmit FIFO and the modulator. The interrupt handlers under FIFO_IRQ_DEBUG are
-- empty and compiled out, and fifo_init does nothing else.
pub mod Sending
use hbc_mac_src.Base.{ℕ, true, false, some, truth, if◌then◌else◌}
use hbc_mac_src.Machine.{
  Board, Port, Pin, Irq, M, Action, pure, ◌>>◌, write_word, write_byte, gpo_set, gpo_clear,
  io_read_word, wait_while,
}

unfoldable pub set_triggered : ℕ → Action
set_triggered v s = some (tt, record s { triggered = v })

unfoldable pub fifo_trigger : Action
unfolding gpo_set gpo_clear set_triggered
fifo_trigger s =
    if truth s.triggered
    then some (tt, s)
    else (gpo_set Pin.hbc_tx_trigger >> gpo_clear Pin.hbc_tx_trigger >> set_triggered 1) s

unfoldable pub fifo_flush : Action
unfolding gpo_set gpo_clear
fifo_flush = gpo_set Pin.hbc_tx_flush >> gpo_clear Pin.hbc_tx_flush

unfoldable pub fifo_reset : Action
unfolding set_triggered
fifo_reset = set_triggered 0

unfoldable pub fifo_write_size : ℕ → Action
unfolding write_byte
fifo_write_size size = write_byte Port.fifo_mask size

unfoldable pub fifo_modulate_sf : ℕ → Action
unfolding write_byte
fifo_modulate_sf sf = write_byte Port.modulator_sf sf

module _ (b : Board) where
  unfoldable pub fifo_wait : Action
  unfolding wait_while
  fifo_wait = wait_while b b.patience Irq.tx_fifo_empty false (pure tt)

  -- fifo_write and fifo_modulate wait for room in the same way.
  unfoldable pub wait_for_room : Action
  unfolding wait_while
  wait_for_room = wait_while b b.patience Irq.tx_fifo_almost_full true fifo_trigger

  unfoldable pub fifo_write : ℕ → Action
  unfolding wait_for_room write_word
  fifo_write word = wait_for_room >> write_word Port.fifo_port word

  unfoldable pub fifo_modulate : ℕ → Action
  unfolding wait_for_room write_word
  fifo_modulate word = wait_for_room >> write_word Port.modulator word

  unfoldable pub fifo_read : M ℕ
  unfolding io_read_word
  fifo_read = io_read_word b Port.rx_fifo
