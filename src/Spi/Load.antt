-- ===== src/Spi/Load.antt =====
-- A load from the host: the bytes arrive in words, the lowest byte first.
use hbc_mac_src.Base.{
  ℕ, ◌+◌, ◌-◌, ◌*◌, ◌%◌, ◌^◌, ◌<◌, ◌≡◌, refl, u32, arith, List, [], ◌∷◌, length, truth, bit_or,
  true,
}
use hbc_mac_src.Base.Bits.Fields.{or_above}
use hbc_mac_src.Machine.{Board, Port, Event, wrote_word, SpiState, State, Action, pure, ◌>>◌}
use hbc_mac_src.Machine.Returns
use hbc_mac_src.Machine.Returns.{Returns, returns}
use hbc_mac_src.Spi.{load_byte, hbc_ctrl_irq}

-- A word of four bytes, the lowest first.
abbrev pub word_of : ℕ → ℕ → ℕ → ℕ → ℕ
word_of x y z w = x + y * 2 ^ 8 + z * 2 ^ 16 + w * 2 ^ 24

abbrev pub load_word : ℕ → ℕ → ℕ → ℕ → Action → Action
load_word x y z w k = load_byte x >> (load_byte y >> (load_byte z >> (load_byte w >> k)))

-- The state behind a word.
abbrev word_stored : ℕ → ℕ → ℕ → ℕ → State → State
word_stored x y z w s = record s {
  events =
      wrote_word Port.mem_rd_wr (word_of x y z w)
      ∷ wrote_word Port.mem_wr_p (u32 s.spi.load_addr)
      ∷ s.events;
  spi = record (s.spi) {
    load_addr = u32 (s.spi.load_addr + 4);
    loading_mem = s.spi.loading_mem - 1 - 1 - 1 - 1;
    load_index = 0;
    rd_data = 0;
  };
}

pub packed :
    (x y z w : ℕ)
    → x < 256
    → y < 256
    → z < 256
    → w < 256
    → bit_or
        (bit_or (bit_or (bit_or 0 (u32 (x * 2 ^ 0))) (u32 (y * 2 ^ 8))) (u32 (z * 2 ^ 16)))
        (u32 (w * 2 ^ 24))
      ≡ word_of x y z w
packed x y z w hx hy hz hw = ground (
  arith,
  or_above 0 0 x (omega arith),
  or_above 8 x y (omega arith),
  or_above 16 (x + y * 2 ^ 8) z (omega arith),
  or_above 24 (x + y * 2 ^ 8 + z * 2 ^ 16) w (omega arith),
)

-- Four bytes at a word's boundary are one word of memory, and the next boundary.
load_word_lem :
    (x y z w : ℕ) (k : Action) (s : State)
    → x < 256
    → y < 256
    → z < 256
    → w < 256
    → s.spi.load_index ≡ 0
    → s.spi.rd_data ≡ 0
    → load_word x y z w k s ≡ k (word_stored x y z w s)
unfolding load_byte
load_word_lem x y z w k s hx hy hz hw start empty =
    let word = packed x y z w hx hy hz hw in
    let fits : word_of x y z w % 2 ^ 32 ≡ word_of x y z w = omega arith in
    rw (start, empty, word, fits)

pub record Quad : Type 0 where
  pub b0 : ℕ
  pub b1 : ℕ
  pub b2 : ℕ
  pub b3 : ℕ

abbrev pub AreBytes : List Quad → Type 0
AreBytes [] = Unit
AreBytes (q ∷ qs) = ((q.b0 < 256) × (q.b1 < 256) × (q.b2 < 256) × (q.b3 < 256)) × AreBytes qs

-- The bytes as they arrive.
unfoldable pub load_bytes : List ℕ → Action
unfolding load_byte
load_bytes [] = pure tt
load_bytes (x ∷ xs) = load_byte x >> load_bytes xs

abbrev pub bytes_of : List Quad → List ℕ
bytes_of [] = []
bytes_of (q ∷ qs) = q.b0 ∷ q.b1 ∷ q.b2 ∷ q.b3 ∷ bytes_of qs

-- The history after the words are stored one behind the other.
unfoldable pub stored_after : ℕ → List Quad → List Event → List Event
stored_after addr [] h = h
stored_after addr (q ∷ qs) h = stored_after (u32 (addr + 4)) qs (
    wrote_word Port.mem_rd_wr (word_of q.b0 q.b1 q.b2 q.b3)
    ∷ wrote_word Port.mem_wr_p (u32 addr)
    ∷ h)

-- At a word's boundary.
pub record IsAligned (d : SpiState) : Type 0 where
  pub index : d.load_index ≡ 0
  pub empty : d.rd_data ≡ 0

-- Whole words of a load are stored one behind the other from the load address, which ends behind
-- the last of them; the load is over, at a word's boundary, and the receiver and main's variables
-- are untouched.
pub load_bytes_lem :
    (qs : List Quad) (s : State)
    → AreBytes qs
    → IsAligned s.spi
    → s.spi.loading_mem ≡ 4 * length qs
    → s.spi.load_addr < 2 ^ 32
    → Returns
        (λ a s'.
          (s'.events ≡ stored_after s.spi.load_addr qs s.events)
          × (s'.spi.load_addr ≡ u32 (s.spi.load_addr + 4 * length qs))
          × (s'.spi.loading_mem ≡ 0)
          × IsAligned s'.spi
          × (s'.rx ≡ s.rx)
          × (s'.ctrl ≡ s.ctrl))
        (load_bytes (bytes_of qs) s)
unfolding stored_after load_bytes
load_bytes_lem [] s bytes at len fits = returns (refl, omega arith, omega arith, at, refl, refl)
load_bytes_lem (q ∷ qs) s (hq, bytes) at len fits =
    let s₁ = word_stored q.b0 q.b1 q.b2 q.b3 s in
    let rest = load_bytes (bytes_of qs) in
    let aligned : IsAligned s₁.spi = record { index = refl; empty = refl } in
    rw (load_word_lem q.b0 q.b1 q.b2 q.b3 rest s hq.0 hq.1 hq.2 hq.3 at.index at.empty) (
      Returns.mono (load_bytes_lem qs s₁ bytes aligned (omega arith) (omega arith))
        λ a s' (e, addr, left, at', same, same'). (e, omega arith, left, at', same, same'))

-- While a load is on, no byte of the control channel reaches the command function.
ctrl_irq_loading :
    (b : Board) (irq irq' : ℕ → Action) (s : State)
    → truth s.spi.loading_mem ≡ true
    → hbc_ctrl_irq b irq s ≡ hbc_ctrl_irq b irq' s
unfolding hbc_ctrl_irq
ctrl_irq_loading b irq irq' s on = rw on
