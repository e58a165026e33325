-- ===== src/Spi/Dump.antt =====
-- A dump to the host: the words of memory go out in bytes, the lowest first.
use hbc_mac_src.Base.{
  ℕ, suc, ◌+◌, ◌-◌, ◌*◌, ◌^◌, ◌<◌, ◌≡◌, refl, sym, ap, ◌∙◌, some, u32, arith, List, [], ◌∷◌, ◌++◌,
  length,
}
use mathlib.Core.Path.{subst}
use mathlib.Core.List.{append-nil}
use hbc_mac_src.Machine.{Board, Port, Event, Request, wrote_byte, wrote_word, read_word, State}
use hbc_mac_src.Machine.Returns
use hbc_mac_src.Machine.Returns.{Returns, returns}
use hbc_mac_src.Mem.Fault.{HasMemory, replay}
use hbc_mac_src.Spi.{hbc_data_irq}
use hbc_mac_src.Spi.Load.{Quad, AreBytes, bytes_of, word_of}
use hbc_mac_src.Spi.Output.{byte_at, byte_calls, data_irqs, some_left}

-- The bytes that the host was sent, in order of time.
abbrev pub received : List Event → List ℕ
received [] = []
received (wrote_byte Port.spi_data v ∷ h) = received h ++ v ∷ []
received (_ ∷ h) = received h

-- In the midst of a dump from memory: `n` bytes are left, byte `i` of the word is next.
abbrev pub dumping : ℕ → ℕ → ℕ → State → State
dumping n i word s = record s {
  spi = record (s.spi) {
    ack_bytes = 0;
    reply_bytes = 0;
    dump_hbc_rx = 0;
    dumping_mem = n;
    dump_index = i;
    wr_data = word;
  };
}

abbrev sent : ℕ → ℕ → State → State
sent word k s = record s { events = byte_calls (byte_at word k) s.events }

abbrev fetched : Board → State → ℕ
fetched b s = u32 (
    b.respond (wrote_word Port.mem_rd_p (u32 s.spi.dump_addr) ∷ s.events)
      (Request.word Port.mem_rd_wr))

abbrev asked : Board → State → State
asked b s = record s {
  events =
      read_word Port.mem_rd_wr (fetched b s)
      ∷ wrote_word Port.mem_rd_p (u32 s.spi.dump_addr)
      ∷ s.events;
}

abbrev word_done : State → State
word_done s = record s { spi = record (s.spi) { dump_addr = u32 (s.spi.dump_addr + 4) } }

module _ (b : Board) (size : ℕ) where
  first_byte :
      (n word : ℕ) (s : State)
      → hbc_data_irq b size (dumping (suc n) 0 word s)
        ≡ some (tt, dumping n 1 (fetched b s) (sent (fetched b s) 0 (asked b s)))
  unfolding hbc_data_irq
  first_byte n word s = let left : suc n - 1 ≡ n = omega arith in rw (some_left n, left)

  second_byte :
      (n word : ℕ) (s : State)
      → hbc_data_irq b size (dumping (suc n) 1 word s) ≡ some (tt, dumping n 2 word (sent word 1 s))
  unfolding hbc_data_irq
  second_byte n word s = let left : suc n - 1 ≡ n = omega arith in rw (some_left n, left)

  third_byte :
      (n word : ℕ) (s : State)
      → hbc_data_irq b size (dumping (suc n) 2 word s) ≡ some (tt, dumping n 3 word (sent word 2 s))
  unfolding hbc_data_irq
  third_byte n word s = let left : suc n - 1 ≡ n = omega arith in rw (some_left n, left)

  last_byte :
      (n word : ℕ) (s : State)
      → hbc_data_irq b size (dumping (suc n) 3 word s)
        ≡ some (tt, dumping n 0 word (word_done (sent word 3 s)))
  unfolding hbc_data_irq
  last_byte n word s = let left : suc n - 1 ≡ n = omega arith in rw (some_left n, left)

  -- The state behind a word.
  abbrev dumped : State → State
  dumped s =
      let w = fetched b s in word_done (sent w 3 (sent w 2 (sent w 1 (sent w 0 (asked b s)))))

  four_bytes :
      (n word : ℕ) (s : State)
      → data_irqs b size (suc (suc (suc (suc n)))) (dumping (suc (suc (suc (suc n)))) 0 word s)
        ≡ data_irqs b size n (dumping n 0 (fetched b s) (dumped s))
  unfolding data_irqs
  four_bytes n word s =
      let w = fetched b s in
      let s₁ = sent w 0 (asked b s) in
      rw
        (
          first_byte (suc (suc (suc n))) word s,
          second_byte (suc (suc n)) w s₁,
          third_byte (suc n) w (sent w 1 s₁),
          last_byte n w (sent w 2 (sent w 1 s₁)),
        )
        refl

-- Memory holds the words from an address on.
abbrev pub HoldsWords : (ℕ → ℕ) → ℕ → List Quad → Type 0
HoldsWords cells a [] = Unit
HoldsWords cells a (q ∷ qs) = (cells a ≡ word_of q.b0 q.b1 q.b2 q.b3) × HoldsWords cells (a + 4) qs

word-lt :
    (q : Quad)
    → (q.b0 < 256) × (q.b1 < 256) × (q.b2 < 256) × (q.b3 < 256)
    → word_of q.b0 q.b1 q.b2 q.b3 < 2 ^ 32
word-lt q (h0, h1, h2, h3) = omega arith

byte_of_word :
    (q : Quad)
    → (q.b0 < 256) × (q.b1 < 256) × (q.b2 < 256) × (q.b3 < 256)
    → (word : ℕ) → word ≡ word_of q.b0 q.b1 q.b2 q.b3
    → (byte_at word 0 ≡ q.b0)
      × (byte_at word 1 ≡ q.b1)
      × (byte_at word 2 ≡ q.b2)
      × (byte_at word 3 ≡ q.b3)
byte_of_word q (h0, h1, h2, h3) word same =
    (omega (arith, same), omega (arith, same), omega (arith, same), omega (arith, same))

four_behind :
    {a b c d a' b' c' d' : ℕ} (xs ys : List ℕ)
    → a ≡ a'
    → b ≡ b'
    → c ≡ c'
    → d ≡ d'
    → ((((xs ++ a ∷ []) ++ b ∷ []) ++ c ∷ []) ++ d ∷ []) ++ ys ≡ xs ++ (a' ∷ b' ∷ c' ∷ d' ∷ ys)
four_behind [] ys ea eb ec ed = cc
four_behind (x ∷ xs) ys ea eb ec ed = ap (λ zs. x ∷ zs) (four_behind xs ys ea eb ec ed)

-- Of a memory that reads back the words of 32 bits that were written.
abbrev pub kept : ℕ → ℕ → ℕ
kept a v = u32 v

module _ (b : Board) (size : ℕ) {sequence : ℕ → ℕ → ℕ} (memory : HasMemory b kept sequence) where
  fetched-word :
      (s : State) (v : ℕ)
      → s.spi.dump_addr < 2 ^ 32
      → (replay s.events).cells s.spi.dump_addr ≡ v
      → v < 2 ^ 32
      → fetched b s ≡ v
  fetched-word s v fits holds short =
      let place : u32 s.spi.dump_addr ≡ s.spi.dump_addr = omega arith in
      let whole : u32 v ≡ v = omega arith in
      memory.reads (wrote_word Port.mem_rd_p (u32 s.spi.dump_addr) ∷ s.events)
      ∙ ap u32 (ap (replay s.events).cells place ∙ holds)
      ∙ whole

  -- Whole words of a dump from memory go out, lowest byte first, and the dump is over.
  pub dump_lem :
      (qs : List Quad) (word : ℕ) (s : State)
      → AreBytes qs
      → s.spi.dump_addr + 4 * length qs < 2 ^ 32
      → HoldsWords (replay s.events).cells s.spi.dump_addr qs
      → Returns
          (λ a s'.
            (received s'.events ≡ received s.events ++ bytes_of qs)
            × (s'.spi.dumping_mem ≡ 0)
            × (s'.rx ≡ s.rx)
            × (s'.ctrl ≡ s.ctrl))
          (data_irqs b size (length (bytes_of qs)) (dumping (length (bytes_of qs)) 0 word s))
  unfolding data_irqs
  dump_lem [] word s bytes fits holds = returns (sym (append-nil _), refl, refl, refl)
  dump_lem (q ∷ qs) word s (hq, bytes) fits (here, holds) =
      let n = length (bytes_of qs) in
      let next : u32 (s.spi.dump_addr + 4) ≡ s.spi.dump_addr + 4 = omega arith in
      let (e0, e1, e2, e3) =
        byte_of_word q hq (fetched b s) (fetched-word s _ (omega arith) here (word-lt q hq)) in
      rw (four_bytes b size n word s) (
        Returns.mono
          (dump_lem qs (fetched b s) (dumped b size s) bytes (omega (arith, next))
            (subst (λ a. HoldsWords (replay s.events).cells a qs) (sym next) holds))
          λ a s' (out, over, same, same').
            (out ∙ four_behind (received s.events) (bytes_of qs) e0 e1 e2 e3, over, same, same'))
