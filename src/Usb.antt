-- ===== src/Usb.antt =====
-- src/usb.c: the USB port. The registration of the interrupt is `add_int_handler`.
use hbc_mac_src.Base.{ℕ, not}
use hbc_mac_src.Machine.{
  Board, Port, Pin, Irq, M, Action, when, ◌>>◌, ◌>>=◌, write_word, io_read_word, gpo_set, gpo_clear,
  irq_flag_set,
}
use hbc_mac_src.Mem.{mem_write}

unfoldable pub usb_trigger : Action
unfolding gpo_set gpo_clear
usb_trigger = gpo_set Pin.usb_pkt_end >> gpo_clear Pin.usb_pkt_end

module _ (b : Board) where
  unfoldable pub usb_write : ℕ → Action
  unfolding irq_flag_set write_word
  usb_write word = do
    full ← irq_flag_set b Irq.usb_full
    when (not full) (write_word Port.usb_port word)

  unfoldable pub usb_read : M ℕ
  unfolding io_read_word
  usb_read = io_read_word b Port.usb_port

  unfoldable pub usb_int_func : Action
  unfolding usb_read mem_write
  usb_int_func = usb_read >>= mem_write
