-- ===== src/Safe/Dispatch.antt =====
-- ctrl_cmd of src/main.c, each command included, keeps what is closed under the updates of the
-- program.
use hbc_mac_src.Base.{
  ℕ, ◌+◌, ◌==◌, ◌≡◌, refl, ◌∙◌, not, inl, inr, truth, u8, u32, get_or, Bool-cases,
}
use hbc_mac_src.Machine.{Board, Pin, CtrlState, modify_ctrl, M, Action}
use hbc_mac_src.Machine.Keeps.{
  Condition, Keeps, Keeps-pure, Keeps-get_ctrl, Keeps-modify_ctrl, Keeps-gpo_set, Keeps-gpo_clear,
  Keeps-discrete_read,
}
use hbc_mac_src.Machine.Keeps.Blocks.{◌>>=◌, ◌>>◌, branch, only_if}
use hbc_mac_src.Safe.{Closed, IsSetting}
use hbc_mac_src.Safe.Drivers.{Keeps-scrambler_read, Keeps-mem_set_rd_p, Keeps-mem_read}
use hbc_mac_src.Safe.Transmit.{Keeps-mem_test}
use hbc_mac_src.Safe.Chip.{Keeps-flash_read, Keeps-flash_write, Keeps-flash_verify}
use hbc_mac_src.Safe.Receiver.{
  Keeps-rx_packet_ready, Keeps-rx_packet_length, Keeps-rx_bytes_read, Keeps-rx_check_crc_ok,
  Keeps-rx_read, Keeps-rx_packet_next, Keeps-rx_read_addr, Keeps-rx_write_addr,
}
use hbc_mac_src.Safe.Channels.{
  Keeps-hbc_spi_reply, Keeps-hbc_spi_dump_addr, Keeps-hbc_spi_load_addr, Keeps-hbc_spi_dump_bytes,
  Keeps-hbc_spi_load_bytes, Keeps-hbc_spi_data_trigger,
}
use hbc_mac_src.Safe.Commands.{Keeps-rx_check_packet, Keeps-reply_pkt}
use hbc_mac_src.Mem.{mem_size}
use hbc_mac_src.Flash.{flash_size}
use hbc_mac_src.Crc.{crc_over, crc8_init}
use hbc_mac_src.Ctrl

-- An update of a field that takes no part in collecting a command nor in asking for a packet.
plain :
    {f : CtrlState → CtrlState}
    → ((c : CtrlState) → (f c).pkt ≡ c.pkt)
    → ((c : CtrlState) → (f c).bytes_req ≡ c.bytes_req)
    → ((c : CtrlState) → (f c).send_packet ≡ c.send_packet)
    → IsSetting f
plain same_pkt same_bytes_req same_asked = record {
  same_pkt = same_pkt;
  same_bytes_req = same_bytes_req;
  still_asked = λ c asked. same_asked c ∙ asked;
}

module _ {J : Condition} {b : Board} {p : Ctrl.Protocol} (closed : Closed b p J) where
  replying : {m : M ℕ} → Keeps J m → Keeps J (Ctrl.reply_with b p m)
  unfolding Ctrl.reply_with
  replying km = do word ← km; Keeps-hbc_spi_reply closed word; Keeps-pure p.hbc_ack

  acked : {m : Action} → Keeps J m → Keeps J (Ctrl.acked b p m)
  acked km = km >> Keeps-pure p.hbc_ack

  pub Keeps-setting :
      (f : CtrlState → CtrlState)
      → ((c : CtrlState) → (f c).pkt ≡ c.pkt)
      → ((c : CtrlState) → (f c).bytes_req ≡ c.bytes_req)
      → ((c : CtrlState) → (f c).send_packet ≡ c.send_packet)
      → Keeps J (modify_ctrl f)
  Keeps-setting f x y z = Keeps-modify_ctrl f (closed.sets f (plain x y z))

  Keeps-perform : (cmd : Ctrl.Command) (arg : ℕ) → Keeps J (Ctrl.perform b p cmd arg)
  unfolding Ctrl.perform
  Keeps-perform Ctrl.irq_status_read arg = replying (Keeps-discrete_read b)
  Keeps-perform Ctrl.scrambler_read_cmd arg = replying (Keeps-scrambler_read b)
  Keeps-perform Ctrl.mem_read_cmd arg = replying (do Keeps-mem_set_rd_p arg; Keeps-mem_read b)
  Keeps-perform Ctrl.mem_rd_addr arg = acked (Keeps-hbc_spi_dump_addr closed arg)
  Keeps-perform Ctrl.mem_wr_addr arg = acked (Keeps-hbc_spi_load_addr closed arg)
  Keeps-perform Ctrl.mem_dump arg = acked (Keeps-hbc_spi_dump_bytes closed arg 0)
  Keeps-perform Ctrl.mem_load arg = acked (Keeps-hbc_spi_load_bytes closed arg 0)
  Keeps-perform Ctrl.mem_test_cmd arg = replying (Keeps-mem_test b mem_size)
  Keeps-perform Ctrl.flash_read_cmd arg =
      replying (do Keeps-flash_read b 0 flash_size 0; Keeps-pure (p.number Ctrl.flash_read_cmd))
  Keeps-perform Ctrl.flash_write_addr arg =
      acked (Keeps-setting (λ c. record c { flash_addr = arg }) (λ c. refl) (λ c. refl) (λ c. refl))
  Keeps-perform Ctrl.flash_write_cmd arg = replying (do
    c ← Keeps-get_ctrl
    Keeps-flash_write b 0 arg c.flash_addr
    Keeps-flash_verify b 0 arg c.flash_addr)
  Keeps-perform Ctrl.psoc_flash arg =
      acked
        (Keeps-setting (λ c. record c { do_psoc_flash = 1 }) (λ c. refl) (λ c. refl) (λ c. refl))
  Keeps-perform Ctrl.tx_trigger arg = acked (
      Keeps-modify_ctrl
        (λ c. record (Ctrl.set_header b p (λ h. record h { pdsu_length = u8 arg }) c) {
          send_packet = 1;
        })
        (closed.sets _ (record {
          same_pkt = λ c. refl;
          same_bytes_req = λ c. refl;
          still_asked = λ c asked. refl;
        })))
  Keeps-perform Ctrl.tx_spread_factor arg = acked (
      Keeps-setting (Ctrl.set_header b p λ h. record h { data_rate = arg }) (λ c. refl) (λ c. refl)
        (λ c. refl))
  Keeps-perform Ctrl.tx_scrambler_seed arg = acked (
      Keeps-setting (Ctrl.set_header b p λ h. record h { scrambler_seed = arg }) (λ c. refl)
        (λ c. refl) (λ c. refl))
  Keeps-perform Ctrl.tx_auto_cmd arg =
      acked (Keeps-setting (λ c. record c { tx_auto = arg }) (λ c. refl) (λ c. refl) (λ c. refl))
  Keeps-perform Ctrl.tx_addr arg = do
    Keeps-setting (λ c. record c { pkt_addr = arg }) (λ c. refl) (λ c. refl) (λ c. refl)
    acked (Keeps-hbc_spi_load_addr closed arg)
  Keeps-perform Ctrl.tx_packet arg = do
    Keeps-hbc_spi_load_bytes closed arg 1
    Keeps-setting (λ c. record c { tx_pending = u32 (c.tx_pending + 1) }) (λ c. refl) (λ c. refl)
        (λ c. refl)
    Keeps-pure p.no_ack
  Keeps-perform Ctrl.tx_loopback arg =
      acked (Keeps-setting (λ c. record c { loopback = arg }) (λ c. refl) (λ c. refl) (λ c. refl))
  Keeps-perform Ctrl.tx_filter arg =
      acked (
        branch (truth arg) (Keeps-gpo_clear Pin.hbc_data_switch)
          (Keeps-gpo_set Pin.hbc_data_switch))
  Keeps-perform Ctrl.tx_flood_cmd arg =
      acked (Keeps-setting (λ c. record c { tx_flood = arg }) (λ c. refl) (λ c. refl) (λ c. refl))
  Keeps-perform Ctrl.rx_ready arg = replying (Keeps-rx_packet_ready closed)
  Keeps-perform Ctrl.rx_length arg = replying (Keeps-rx_packet_length)
  Keeps-perform Ctrl.rx_bytes_read_cmd arg = replying (Keeps-rx_bytes_read)
  Keeps-perform Ctrl.rx_crc_ok arg = replying (Keeps-rx_check_crc_ok)
  Keeps-perform Ctrl.rx_read_cmd arg = replying (Keeps-rx_read closed)
  Keeps-perform Ctrl.rx_next arg = acked (Keeps-rx_packet_next closed)
  Keeps-perform Ctrl.rx_check arg = replying (Keeps-rx_check_packet closed)
  Keeps-perform Ctrl.rx_auto_cmd arg =
      acked (Keeps-setting (λ c. record c { rx_auto = arg }) (λ c. refl) (λ c. refl) (λ c. refl))
  Keeps-perform Ctrl.rx_get_rd_addr arg = replying (Keeps-rx_read_addr)
  Keeps-perform Ctrl.rx_get_wr_addr arg = replying (Keeps-rx_write_addr)
  Keeps-perform Ctrl.rx_flood_cmd arg =
      acked (Keeps-setting (λ c. record c { rx_flood = arg }) (λ c. refl) (λ c. refl) (λ c. refl))
  Keeps-perform Ctrl.other arg = Keeps-pure p.psoc_ack

  Keeps-run_command : Keeps J (Ctrl.run_command b p)
  unfolding Ctrl.run_command
  Keeps-run_command = do
    c ← Keeps-get_ctrl
    ack ←
        Keeps-perform (p.label (get_or c.pkt p.packet_cmd_offset 0))
          (Ctrl.buf_to_word c.pkt p.packet_arg_offset)
    only_if (not (ack == p.no_ack)) (Keeps-reply_pkt closed ack 0)
    Keeps-hbc_spi_data_trigger closed

  Keeps-finish_command : Keeps J (Ctrl.finish_command b p)
  unfolding Ctrl.finish_command
  Keeps-finish_command = do
    c ← Keeps-get_ctrl
    only_if (not (truth (crc_over crc8_init c.pkt))) Keeps-run_command

  Keeps-begun : Keeps J (modify_ctrl λ c. record c { bytes_req = p.packet_size })
  Keeps-begun = Keeps-modify_ctrl _ closed.begun

  Keeps-finish_if_whole : Keeps J (Ctrl.finish_if_whole b p)
  unfolding Ctrl.finish_if_whole
  Keeps-finish_if_whole = do
    c ← Keeps-get_ctrl
    only_if (not (truth c.bytes_req)) Keeps-finish_command

  -- The bytes of a command are collected only while some are to come.
  pub Keeps-ctrl_cmd : (byte : ℕ) → Keeps J (Ctrl.ctrl_cmd b p byte)
  unfolding Ctrl.ctrl_cmd
  Keeps-ctrl_cmd byte = record {
    at = λ s h. elim (Bool-cases (truth s.ctrl.bytes_req)) [
      | inl some_left ↦
          rw some_left
            (Keeps-finish_if_whole.at _ (closed.collected byte s.rx s.spi s.ctrl some_left h))
      | inr none_left ↦ rw none_left ((only_if (u8 byte == p.packet_header) Keeps-begun).at s h)
    ];
  }
