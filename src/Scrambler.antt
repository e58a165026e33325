-- ===== src/Scrambler.antt =====
-- src/scrambler.c: the register of the scrambler, whose sequence the FPGA generates.
use hbc_mac_src.Base.{ℕ, [], ◌∷◌, truth, if◌then◌else◌}
use hbc_mac_src.Machine.{
  Board, Port, Pin, discrete_set, discrete_clear, M, Action, ◌>>◌, emit, io_read_word,
}

module _ (b : Board) where
  unfoldable pub scrambler_read : M ℕ
  unfolding io_read_word
  scrambler_read = io_read_word b Port.scrambler_port

unfoldable pub scrambler_reseed : ℕ → Action
scrambler_reseed seed =
    emit (
      discrete_set
        (if truth seed then Pin.scram_reseed ∷ Pin.scram_seed_val ∷ [] else Pin.scram_reseed ∷ []))
    >> emit (discrete_set (Pin.scram_seed_clk ∷ []))
    >> emit (discrete_clear (Pin.scram_reseed ∷ Pin.scram_seed_val ∷ Pin.scram_seed_clk ∷ []))
