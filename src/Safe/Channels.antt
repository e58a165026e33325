-- ===== src/Safe/Channels.antt =====
-- src/spi.c keeps what is closed under the updates of the program.
use hbc_mac_src.Base.{ℕ, ◌+◌, truth, if◌then◌else◌, u32}
use hbc_mac_src.Machine.{Board, Port, Pin, Action}
use hbc_mac_src.Machine.Keeps.{
  Condition, Keeps, Keeps-pure, Keeps-get_spi, Keeps-modify_spi, Keeps-gpo_set, Keeps-gpo_clear,
  Keeps-io_read_byte,
}
use hbc_mac_src.Machine.Keeps.Blocks.{◌>>=◌, ◌>>◌, branch, only_if}
use hbc_mac_src.Safe.{Closed}
use hbc_mac_src.Safe.Drivers.{Keeps-mem_set_wr_p, Keeps-mem_write}
use hbc_mac_src.Ctrl.{Protocol}
use hbc_mac_src.Spi.{
  ctrl_req_next, hbc_spi_ack, hbc_spi_reply, hbc_spi_dump_addr, hbc_spi_load_addr,
  hbc_spi_dump_bytes, write_length, hbc_spi_load_bytes, hbc_spi_load_busy, hbc_spi_dump_busy,
  hbc_ctrl_read, hbc_ctrl_irq, hbc_data_irq, hbc_spi_data_trigger,
}

module _ {J : Condition} where
  Keeps-ctrl_req_next : Keeps J ctrl_req_next
  unfolding ctrl_req_next
  Keeps-ctrl_req_next = Keeps-gpo_set Pin.hbc_ctrl_int >> Keeps-gpo_clear Pin.hbc_ctrl_int

  pub Keeps-hbc_spi_load_busy : Keeps J hbc_spi_load_busy
  unfolding hbc_spi_load_busy
  Keeps-hbc_spi_load_busy = do d ← Keeps-get_spi; Keeps-pure (if truth d.loading_mem then 1 else 0)

  pub Keeps-hbc_spi_dump_busy : Keeps J hbc_spi_dump_busy
  unfolding hbc_spi_dump_busy
  Keeps-hbc_spi_dump_busy = do d ← Keeps-get_spi; Keeps-pure (if truth d.dumping_mem then 1 else 0)

module _ {J : Condition} {b : Board} {p : Protocol} (closed : Closed b p J) where
  pub Keeps-hbc_spi_ack : (w : ℕ) → Keeps J (hbc_spi_ack p.reply_size w)
  unfolding hbc_spi_ack
  Keeps-hbc_spi_ack w = Keeps-modify_spi _ (closed.acked w)

  pub Keeps-hbc_spi_reply : (w : ℕ) → Keeps J (hbc_spi_reply w 4)
  unfolding hbc_spi_reply
  Keeps-hbc_spi_reply w = Keeps-modify_spi _ (closed.replied (u32 w))

  pub Keeps-hbc_spi_dump_addr : (a : ℕ) → Keeps J (hbc_spi_dump_addr a)
  unfolding hbc_spi_dump_addr
  Keeps-hbc_spi_dump_addr a = Keeps-modify_spi _ (closed.dump_from a)

  pub Keeps-hbc_spi_load_addr : (a : ℕ) → Keeps J (hbc_spi_load_addr a)
  unfolding hbc_spi_load_addr
  Keeps-hbc_spi_load_addr a = Keeps-modify_spi _ (closed.load_from a)

  pub Keeps-hbc_spi_dump_bytes : (n from_rx : ℕ) → Keeps J (hbc_spi_dump_bytes n from_rx)
  unfolding hbc_spi_dump_bytes
  Keeps-hbc_spi_dump_bytes n from_rx = Keeps-modify_spi _ (closed.dumping n from_rx)

  Keeps-write_length : (n : ℕ) → Keeps J (write_length n)
  unfolding write_length
  Keeps-write_length n = do
    d ← Keeps-get_spi
    Keeps-mem_set_wr_p d.load_addr
    Keeps-modify_spi _ (λ r e c. closed.load_from (u32 (e.load_addr + 4)) r e c)
    Keeps-mem_write n

  pub Keeps-hbc_spi_load_bytes : (n for_tx : ℕ) → Keeps J (hbc_spi_load_bytes n for_tx)
  unfolding hbc_spi_load_bytes
  Keeps-hbc_spi_load_bytes n for_tx = do
    Keeps-modify_spi _ (closed.loading n)
    only_if (truth for_tx) (Keeps-write_length n)

  pub Keeps-hbc_ctrl_irq :
      (irq : ℕ → Action) → ((byte : ℕ) → Keeps J (irq byte)) → Keeps J (hbc_ctrl_irq b irq)
  unfolding hbc_ctrl_irq hbc_ctrl_read
  Keeps-hbc_ctrl_irq irq runs = do
    byte ← Keeps-io_read_byte b Port.spi_ctrl
    d ← Keeps-get_spi
    branch (truth d.loading_mem) (closed.loads byte) (runs byte)
    Keeps-ctrl_req_next

  pub Keeps-hbc_data_irq : Keeps J (hbc_data_irq b p.reply_size)
  unfolding hbc_data_irq
  Keeps-hbc_data_irq = do
    d ← Keeps-get_spi
    branch (truth d.ack_bytes) closed.acks (
        branch (truth d.reply_bytes) closed.replies
          (branch (truth d.dumping_mem) closed.dumps (Keeps-pure tt)))

  pub Keeps-hbc_spi_data_trigger : Keeps J (hbc_spi_data_trigger b p.reply_size)
  unfolding hbc_spi_data_trigger
  Keeps-hbc_spi_data_trigger = Keeps-hbc_data_irq
