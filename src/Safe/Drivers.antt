-- ===== src/Safe/Drivers.antt =====
-- The drivers and the transmitter touch no variable of extract_rx.c, spi.c or main.c.
use hbc_mac_src.Base.{ℕ, inl, inr, truth, Bool-cases}
use hbc_mac_src.Machine.{Board}
use hbc_mac_src.Machine.Keeps.{
  Condition, Keeps, keeps_rules, after, Keeps-pure, Keeps-bind, Keeps-seq, Keeps-if, Keeps-stuck,
}
use hbc_mac_src.Fifo.{
  set_triggered, fifo_trigger, fifo_flush, fifo_reset, fifo_write_size, fifo_modulate_sf, fifo_wait,
  wait_for_room, fifo_write, fifo_modulate, fifo_read,
}
use hbc_mac_src.Scrambler.{scrambler_read, scrambler_reseed}
use hbc_mac_src.Mem.{mem_set_wr_p, mem_set_rd_p, mem_set_flags, mem_get_flags, mem_write, mem_read}

module _ {J : Condition} where
  Keeps-set_triggered : (v : ℕ) → Keeps J (set_triggered v)
  unfolding set_triggered
  Keeps-set_triggered v = record { at = λ s h. after h }

  pub Keeps-fifo_trigger : Keeps J fifo_trigger
  unfolding fifo_trigger
  Keeps-fifo_trigger = record {
    at = λ s h. elim (Bool-cases (truth s.triggered)) [
      | inl on ↦ rw on (after h)
      | inr off ↦ rw off (after h)
    ];
  }

  pub Keeps-fifo_flush : Keeps J (fifo_flush)
  unfolding fifo_flush
  Keeps-fifo_flush = search keeps_rules

  pub Keeps-fifo_reset : Keeps J (fifo_reset)
  unfolding fifo_reset
  Keeps-fifo_reset = Keeps-set_triggered 0

  pub Keeps-fifo_write_size : (v : ℕ) → Keeps J (fifo_write_size v)
  unfolding fifo_write_size
  Keeps-fifo_write_size v = search keeps_rules

  pub Keeps-fifo_modulate_sf : (v : ℕ) → Keeps J (fifo_modulate_sf v)
  unfolding fifo_modulate_sf
  Keeps-fifo_modulate_sf v = search keeps_rules

  pub Keeps-fifo_wait : (b : Board) → Keeps J (fifo_wait b)
  unfolding fifo_wait
  Keeps-fifo_wait b = search keeps_rules

  pub Keeps-wait_for_room : (b : Board) → Keeps J (wait_for_room b)
  unfolding wait_for_room
  Keeps-wait_for_room b = search (keeps_rules, Keeps-fifo_trigger)

  pub Keeps-fifo_write : (b : Board) (v : ℕ) → Keeps J (fifo_write b v)
  unfolding fifo_write
  Keeps-fifo_write b v = search (keeps_rules, Keeps-wait_for_room)

  pub Keeps-fifo_modulate : (b : Board) (v : ℕ) → Keeps J (fifo_modulate b v)
  unfolding fifo_modulate
  Keeps-fifo_modulate b v = search (keeps_rules, Keeps-wait_for_room)

  pub Keeps-fifo_read : (b : Board) → Keeps J (fifo_read b)
  unfolding fifo_read
  Keeps-fifo_read b = search keeps_rules

  pub Keeps-scrambler_read : (b : Board) → Keeps J (scrambler_read b)
  unfolding scrambler_read
  Keeps-scrambler_read b = search keeps_rules

  pub Keeps-scrambler_reseed : (v : ℕ) → Keeps J (scrambler_reseed v)
  unfolding scrambler_reseed
  Keeps-scrambler_reseed v = search keeps_rules

  pub Keeps-mem_set_wr_p : (v : ℕ) → Keeps J (mem_set_wr_p v)
  unfolding mem_set_wr_p
  Keeps-mem_set_wr_p v = search keeps_rules

  pub Keeps-mem_set_rd_p : (v : ℕ) → Keeps J (mem_set_rd_p v)
  unfolding mem_set_rd_p
  Keeps-mem_set_rd_p v = search keeps_rules

  pub Keeps-mem_set_flags : (v : ℕ) → Keeps J (mem_set_flags v)
  unfolding mem_set_flags
  Keeps-mem_set_flags v = search keeps_rules

  pub Keeps-mem_write : (v : ℕ) → Keeps J (mem_write v)
  unfolding mem_write
  Keeps-mem_write v = search keeps_rules

  pub Keeps-mem_get_flags : (b : Board) → Keeps J (mem_get_flags b)
  unfolding mem_get_flags
  Keeps-mem_get_flags b = search keeps_rules

  pub Keeps-mem_read : (b : Board) → Keeps J (mem_read b)
  unfolding mem_read
  Keeps-mem_read b = search keeps_rules

pub ruleset driver_rules = (
  keeps_rules, Keeps-fifo_trigger, Keeps-fifo_flush, Keeps-fifo_reset, Keeps-fifo_write_size,
  Keeps-fifo_modulate_sf, Keeps-fifo_wait, Keeps-fifo_write, Keeps-fifo_modulate, Keeps-fifo_read,
  Keeps-scrambler_read, Keeps-scrambler_reseed, Keeps-mem_set_wr_p, Keeps-mem_set_rd_p,
  Keeps-mem_set_flags, Keeps-mem_write, Keeps-mem_get_flags, Keeps-mem_read,
)
