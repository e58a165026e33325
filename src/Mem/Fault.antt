-- ===== src/Mem/Fault.antt =====
-- mem_test against a memory that may have bad words.
use hbc_mac_src.Base.{
  ℕ, zero, suc, ◌+◌, ◌*◌, ◌/◌, ◌%◌, ◌^◌, ◌≤◌, ◌<◌, ◌≡◌, refl, ap, ◌∙◌, ◌==◌, Bool, true, false,
  truth, bit_and, Bool-cases, inl, inr, ==_iff, ◌≢◌, ltb, u8, u32, if◌then◌else◌, List, [], ◌∷◌,
  arith,
}
use mathlib.Core.Path.{subst, ap₂}
use Prim.Native.Nat.{min}
use hbc_mac_src.Machine.{
  Board, Port, Pin, Event, Request, wrote_word, wrote_byte, read_word, discrete_set, State,
}
use hbc_mac_src.Machine.Returns
use hbc_mac_src.Machine.Returns.{Returns, returns}
use hbc_mac_src.Mem.{mem_size, fill_loop, compare_loop, mem_test}

-- The controller's pointers, the words that were last written at the byte addresses, how many words
-- the scrambler has given since it was seeded, the seed, 0 or 1, and the flags of the controller.
pub record Memory : Type 0 where
  pub cells : ℕ → ℕ
  pub write_at : ℕ
  pub read_at : ℕ
  pub drawn : ℕ
  pub seed : ℕ
  pub flags : ℕ

abbrev pub poke : (ℕ → ℕ) → ℕ → ℕ → ℕ → ℕ
poke cells a v i = if a == i then v else cells i

-- MEM_READ_WRAP_16M and MEM_WRITE_WRAP_16M
abbrev pub reads_wrap : ℕ → Bool
reads_wrap flags = truth (bit_and flags 0x02)

abbrev pub writes_wrap : ℕ → Bool
writes_wrap flags = truth (bit_and flags 0x01)

-- The pointer behind a word: it stays in its 16 MB if it wraps.
abbrev pub onward : Bool → ℕ → ℕ
onward wraps a = if wraps then a / 2 ^ 24 * 2 ^ 24 + (a + 4) % 2 ^ 24 else a + 4

-- The `n` bytes from `a` on end before the next bound of 16 MB, if the pointer wraps there.
abbrev pub Stays : Bool → ℕ → ℕ → Type 0
Stays wraps a n = wraps ≡ true → a % 2 ^ 24 + n < 2 ^ 24

pub onward-Stays :
    (wraps : Bool) (a n k : ℕ) → Stays wraps a n → k + 4 ≤ n → onward wraps (a + k) ≡ a + k + 4
onward-Stays true a n k stays fits = let room = stays refl in omega (arith, room)
onward-Stays false a n k stays fits = refl

pub onward-one : (wraps : Bool) (a n : ℕ) → Stays wraps a n → 4 ≤ n → onward wraps a ≡ a + 4
onward-one true a n stays fits = let room = stays refl in omega (arith, room)
onward-one false a n stays fits = refl

pub Stays-tail : (wraps : Bool) (a n : ℕ) → Stays wraps a (4 * suc n) → Stays wraps (a + 4) (4 * n)
Stays-tail wraps a n stays on = let room = stays on in omega (arith, room)

pub Stays-le : (wraps : Bool) (a m n : ℕ) → m ≤ n → Stays wraps a n → Stays wraps a m
Stays-le wraps a m n less stays on = let room = stays on in omega (arith, room)

-- What a call does to them.
abbrev pub after_call : Event → Memory → Memory
after_call (wrote_word Port.mem_wr_p a) m = record m { write_at = a }
after_call (wrote_word Port.mem_rd_p a) m = record m { read_at = a }
after_call (wrote_word Port.mem_rd_wr v) m = record m {
  cells = poke m.cells m.write_at v;
  write_at = onward (writes_wrap m.flags) m.write_at;
}
after_call (read_word Port.mem_rd_wr v) m = record m {
  read_at = onward (reads_wrap m.flags) m.read_at;
}
after_call (wrote_byte Port.mem_flags f) m = record m { flags = f }
after_call (read_word Port.scrambler_port v) m = record m { drawn = m.drawn + 1 }
after_call (discrete_set (Pin.scram_seed_clk ∷ ps)) m = record m { drawn = 0 }
after_call (discrete_set (Pin.scram_reseed ∷ [])) m = record m { seed = 0 }
after_call (discrete_set (Pin.scram_reseed ∷ Pin.scram_seed_val ∷ ps)) m = record m { seed = 1 }
after_call _ m = m

abbrev pub replay : List Event → Memory
replay [] = record { cells = λ a. 0; write_at = 0; read_at = 0; drawn = 0; seed = 0; flags = 0 }
replay (e ∷ h) = after_call e (replay h)

-- A read gives what the memory makes of the address and of the word that was written there last;
-- the scrambler gives the sequence of its seed each time that it is seeded.
pub record HasMemory (b : Board) (recall : ℕ → ℕ → ℕ) (sequence : ℕ → ℕ → ℕ) : Type 0 where
  pub reads :
      (h : List Event)
      → u32 (b.respond h (Request.word Port.mem_rd_wr))
        ≡ recall (replay h).read_at ((replay h).cells (replay h).read_at)
  pub draws :
      (h : List Event)
      → u32 (b.respond h (Request.word Port.scrambler_port))
        ≡ sequence (replay h).seed (replay h).drawn

-- The words from the `k`-th on, `n` of them, that do not read back as the word of the sequence.
abbrev pub bad_words : (ℕ → ℕ → ℕ) → (ℕ → ℕ) → ℕ → ℕ → ℕ
bad_words recall sequence k zero = 0
bad_words recall sequence k (suc n) =
    (if recall (4 * k) (sequence k) == sequence k then 0 else 1)
    + bad_words recall sequence (k + 1) n

-- The first `k` words hold the sequence, and the next is to be written.
pub record IsFilled (sequence : ℕ → ℕ) (k : ℕ) (m : Memory) : Type 0 where
  pub write_at : m.write_at ≡ 4 * k
  pub drawn : m.drawn ≡ k
  pub seed : m.seed ≡ 0
  pub flags : m.flags ≡ 0
  pub holds : (i : ℕ) → i < k → m.cells (4 * i) ≡ sequence i

-- All `n` words hold the sequence, and the `k`-th is to be compared.
pub record IsCompared (sequence : ℕ → ℕ) (n k : ℕ) (m : Memory) : Type 0 where
  pub read_at : m.read_at ≡ 4 * k
  pub drawn : m.drawn ≡ k
  pub seed : m.seed ≡ 0
  pub flags : m.flags ≡ 0
  pub holds : (i : ℕ) → i < n → m.cells (4 * i) ≡ sequence i

stored_next :
    (sequence cells : ℕ → ℕ) (a v k : ℕ)
    → a ≡ 4 * k
    → v ≡ sequence k
    → ((i : ℕ) → i < k → cells (4 * i) ≡ sequence i)
    → (i : ℕ) → i < k + 1
    → poke cells a v (4 * i) ≡ sequence i
stored_next sequence cells a v k at_word same held i fits = elim (Bool-cases (a == 4 * i)) [
  | inl on ↦
      let e : a ≡ 4 * i = (==_iff a (4 * i)).0 on in
      let here : k ≡ i = omega arith in rw on (same ∙ ap sequence here)
  | inr off ↦
      let apart : i ≢ k = λ e. absurd (ground (arith, e)) in rw off (held i (omega (arith, apart)))
]

module _ {b : Board} {recall : ℕ → ℕ → ℕ} {sequence : ℕ → ℕ → ℕ}
    (memory : HasMemory b recall sequence) where
  abbrev after_fill : State → State
  after_fill s =
      let w = u32 (b.respond s.events (Request.word Port.scrambler_port)) in
      record s {
        events = wrote_word Port.mem_rd_wr (u32 w) ∷ read_word Port.scrambler_port w ∷ s.events;
      }

  fill-IsFilled :
      (k : ℕ) (s : State)
      → IsFilled (sequence 0) k (replay s.events)
      → IsFilled (sequence 0) (k + 1) (replay (after_fill s).events)
  fill-IsFilled k s h =
      let draw = memory.draws s.events ∙ ap₂ sequence h.seed h.drawn in
      let kept : u32 (u32 (b.respond s.events (Request.word Port.scrambler_port)))
          ≡ u32 (b.respond s.events (Request.word Port.scrambler_port)) =
        omega arith in
      record {
        write_at =
            ap (λ f. onward (writes_wrap f) (replay s.events).write_at) h.flags
            ∙ omega (arith, h.write_at);
        drawn = omega (arith, h.drawn);
        seed = h.seed;
        flags = h.flags;
        holds =
            stored_next (sequence 0) (replay s.events).cells (replay s.events).write_at
              (u32 (u32 (b.respond s.events (Request.word Port.scrambler_port)))) k h.write_at
              (kept ∙ draw) h.holds;
      }

  fill_loop-IsFilled :
      (n k total : ℕ) (s : State)
      → k + n ≡ total
      → IsFilled (sequence 0) k (replay s.events)
      → Returns (λ a s'. IsFilled (sequence 0) total (replay s'.events)) (fill_loop b n s)
  unfolding fill_loop
  fill_loop-IsFilled zero k total s sum h =
      let same : k ≡ total = omega arith in
      returns (subst (λ t. IsFilled (sequence 0) t (replay s.events)) same h)
  fill_loop-IsFilled (suc n) k total s sum h =
      fill_loop-IsFilled n (k + 1) total (after_fill s) (omega arith) (fill-IsFilled k s h)

  compare_loop-counts :
      (left n k errors : ℕ) (s : State)
      → left + k ≤ n
      → errors + left < 2 ^ 32
      → IsCompared (sequence 0) n k (replay s.events)
      → Returns
          (λ e s'. e ≡ errors + bad_words recall (sequence 0) k left)
          (compare_loop b left errors s)
  unfolding compare_loop
  compare_loop-counts zero n k errors s fits small h = returns (omega arith)
  compare_loop-counts (suc left) n k errors s fits small h =
      let seen : u32 (b.respond s.events (Request.word Port.mem_rd_wr))
          ≡ recall (4 * k) (sequence 0 k) =
        memory.reads s.events
        ∙ ap₂ recall h.read_at (ap (replay s.events).cells h.read_at ∙ h.holds k (omega arith)) in
      let word = u32 (b.respond s.events (Request.word Port.mem_rd_wr)) in
      let drawn : u32 (
            b.respond (read_word Port.mem_rd_wr word ∷ s.events) (Request.word Port.scrambler_port))
          ≡ sequence 0 k =
        memory.draws (read_word Port.mem_rd_wr word ∷ s.events) ∙ ap₂ sequence h.seed h.drawn in
      let next : State = record s {
        events =
            read_word Port.scrambler_port (
              u32 (
                b.respond (read_word Port.mem_rd_wr word ∷ s.events)
                  (Request.word Port.scrambler_port)))
            ∷ read_word Port.mem_rd_wr word
            ∷ s.events;
      } in
      let h' : IsCompared (sequence 0) n (k + 1) (replay next.events) = record {
        read_at =
            ap (λ f. onward (reads_wrap f) (replay s.events).read_at) h.flags
            ∙ omega (arith, h.read_at);
        drawn = omega (arith, h.drawn);
        seed = h.seed;
        flags = h.flags;
        holds = h.holds;
      } in
      let tests : (word
            == u32 (
                b.respond (read_word Port.mem_rd_wr word ∷ s.events)
                  (Request.word Port.scrambler_port)))
          ≡ (recall (4 * k) (sequence 0 k) == sequence 0 k) =
        ap₂ ◌==◌ seen drawn in
      elim (Bool-cases (recall (4 * k) (sequence 0 k) == sequence 0 k)) [
        | inl good ↦
            rw (tests ∙ good, good)
              (Returns.mono
                (compare_loop-counts left n (k + 1) errors next (omega arith) (omega arith) h')
                λ e t same. omega (arith, same))
        | inr bad ↦
            rw (tests ∙ bad, bad)
              (Returns.mono
                (compare_loop-counts left n (k + 1) (u32 (errors + 1)) next (omega arith)
                  (omega arith) h')
                λ e t same. omega (arith, same))
      ]

  bad_words-le : (k n : ℕ) → bad_words recall (sequence 0) k n ≤ n
  bad_words-le k zero = omega arith
  bad_words-le k (suc n) = ground (arith, bad_words-le (k + 1) n)

  capped :
      (errors bad : ℕ)
      → errors ≡ 0 + bad
      → (if ltb 0xff errors then 0xff else u8 errors) ≡ min 255 bad
  capped errors bad same = ground arith

  -- On a memory of which each word is what its address and the word last written there make of it,
  -- and with a scrambler that repeats its sequence, mem_test returns the number of the words
  -- that do not read back as they were written, or 255 if there are more.
  pub mem_test_lem :
      (bytes : ℕ) (s : State)
      → bytes ≤ mem_size
      → Returns
          (λ e s'. e ≡ min 255 (bad_words recall (sequence 0) 0 (bytes / 4)))
          (mem_test b bytes s)
  unfolding mem_test
  mem_test_lem bytes s fits =
      Returns.bind
        (fill_loop-IsFilled (bytes / 4) 0 (bytes / 4) _ (omega arith) (record {
          write_at = refl;
          drawn = refl;
          seed = refl;
          flags = refl;
          holds = λ i below. absurd (omega arith);
        }))
        λ a t filled.
          Returns.bind
            (compare_loop-counts (bytes / 4) (bytes / 4) 0 0 _ (omega arith) (omega arith) (record {
              read_at = refl;
              drawn = refl;
              seed = refl;
              flags = filled.flags;
              holds = filled.holds;
            }))
            λ errors u count.
              returns (capped errors (bad_words recall (sequence 0) 0 (bytes / 4)) count)
