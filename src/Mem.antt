-- ===== src/Mem.antt =====
-- src/mem.c with USE_MEM: the ports of the memory controller, and mem_test. Without USE_MEM the
-- functions are stubs, which are not modelled.
pub mod Fault
use hbc_mac_src.Base.{ℕ, zero, suc, ◌+◌, ◌/◌, ◌*◌, true, ◌==◌, ltb, u32, u8, if◌then◌else◌}
use hbc_mac_src.Machine.{
  Board, Port, Irq, M, Action, pure, ◌>>◌, ◌>>=◌, write_word, write_byte, io_read_word,
  io_read_byte, wait_while,
}
use hbc_mac_src.Scrambler.{scrambler_read, scrambler_reseed}

abbrev pub mem_size : ℕ
mem_size = 1024 * 1024 * 32

abbrev pub mem_rx_buf : ℕ
mem_rx_buf = mem_size / 2

unfoldable pub mem_set_wr_p : ℕ → Action
unfolding write_word
mem_set_wr_p word = write_word Port.mem_wr_p word

unfoldable pub mem_set_rd_p : ℕ → Action
unfolding write_word
mem_set_rd_p word = write_word Port.mem_rd_p word

unfoldable pub mem_set_flags : ℕ → Action
unfolding write_byte
mem_set_flags flags = write_byte Port.mem_flags flags

unfoldable pub mem_write : ℕ → Action
unfolding write_word
mem_write word = write_word Port.mem_rd_wr word

module _ (b : Board) where
  unfoldable pub mem_init : Action
  unfolding wait_while
  mem_init = wait_while b b.patience Irq.ram_init true (pure tt)

  unfoldable pub mem_get_wr_p : M ℕ
  unfolding io_read_word
  mem_get_wr_p = io_read_word b Port.mem_wr_p

  unfoldable pub mem_get_rd_p : M ℕ
  unfolding io_read_word
  mem_get_rd_p = io_read_word b Port.mem_rd_p

  unfoldable pub mem_get_flags : M ℕ
  unfolding io_read_byte
  mem_get_flags = io_read_byte b Port.mem_flags

  unfoldable pub mem_read : M ℕ
  unfolding io_read_word
  mem_read = io_read_word b Port.mem_rd_wr

  -- The two loops of mem_test, on the rounds left.
  unfoldable pub fill_loop : ℕ → Action
  unfolding mem_write scrambler_read
  fill_loop zero = pure tt
  fill_loop (suc n) = (do w ← scrambler_read b; mem_write w) >> fill_loop n

  unfoldable pub compare_loop : ℕ → ℕ → M ℕ
  unfolding mem_read scrambler_read
  compare_loop zero errors = pure errors
  compare_loop (suc n) errors = do
    mem ← mem_read
    scram ← scrambler_read b
    compare_loop n (if mem == scram then errors else u32 (errors + 1))

  unfoldable pub mem_test : ℕ → M ℕ
  unfolding mem_get_flags mem_set_flags mem_set_wr_p mem_set_rd_p scrambler_reseed fill_loop
      compare_loop
  mem_test bytes = do
    flags ← mem_get_flags
    mem_set_flags 0
    mem_set_wr_p 0
    scrambler_reseed 0
    fill_loop (bytes / 4)
    mem_set_rd_p 0
    mem_set_wr_p 0
    scrambler_reseed 0
    errors ← compare_loop (bytes / 4) 0
    mem_set_rd_p 0
    mem_set_wr_p 0
    scrambler_reseed 0
    mem_set_flags flags
    pure (if ltb 0xff errors then 0xff else u8 errors)
