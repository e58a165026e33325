-- ===== src/Rx/Ring.antt =====
-- Addresses of the receive ring.
use hbc_mac_src.Base.{ℕ, ◌+◌, ◌%◌, ◌^◌, ◌≤◌, ◌<◌, ◌≡◌, arith}
use hbc_mac_src.Mem.{mem_size, mem_rx_buf}
use hbc_mac_src.Rx.{inc_buf}

-- A word of the upper half of memory.
pub record IsInRing (addr : ℕ) : Type 0 where
  pub above : mem_rx_buf ≤ addr
  pub below : addr < mem_size
  pub aligned : addr % 4 ≡ 0

-- The place in the ring, counted from its start.
abbrev pub place : ℕ → ℕ
place addr = addr % mem_rx_buf

pub inc_buf-IsInRing : (addr : ℕ) → IsInRing addr → IsInRing (inc_buf addr)
unfolding inc_buf
inc_buf-IsInRing addr r = record {
  above = ground arith;
  below = ground arith;
  aligned = ground arith;
}

pub inc_buf-place : (addr : ℕ) → IsInRing addr → place (inc_buf addr) ≡ place (addr + 4)
unfolding inc_buf
inc_buf-place addr r = ground arith

-- Past the end there is no way back: an address at or behind the end of memory stays there.
pub inc_buf_outside : (addr : ℕ) → mem_size ≤ addr → addr + 4 < 2 ^ 32 → inc_buf addr ≡ addr + 4
unfolding inc_buf
inc_buf_outside addr h k = ground arith
