-- ===== src/Tx/Spread.antt =====
-- src/build_tx.c: the loop of a payload, on a memory and a scrambler.
use hbc_mac_src.Base.{Bool, ℕ, zero, suc, ◌+◌, ◌≡◌, refl, ap, ◌∙◌, bit_xor, u32, List, [], ◌∷◌}
use mathlib.Core.Path.{ap₂, subst}
use hbc_mac_src.Machine.{Board, Port, Event, Request, read_word, wrote_word, State}
use hbc_mac_src.Machine.Returns
use hbc_mac_src.Machine.Returns.{Returns, returns}
use hbc_mac_src.Machine.Sent.{Sent, Sent-nil, Sent-emit, Sent-append, InPacket}
use hbc_mac_src.Mem.Fault.{reads_wrap, onward, Memory, HasMemory, replay}
use hbc_mac_src.Spi.Dump.{kept}
use hbc_mac_src.Fifo.Sending.{Drains, fifo_modulate-Sends}
use hbc_mac_src.Tx.{payload_loop}
use hbc_mac_src.Tx.Aside.{run, modulated, Sent-replay}

-- `n` words of memory from `a` on, as the controller's pointer goes.
abbrev pub words_at : Bool → (ℕ → ℕ) → ℕ → ℕ → List ℕ
words_at wraps cells a zero = []
words_at wraps cells a (suc n) = u32 (cells a) ∷ words_at wraps cells (onward wraps a) n

-- Words with the sequence of the scrambler added, of which the `k`-th is next.
abbrev pub scrambled : (ℕ → ℕ) → ℕ → List ℕ → List ℕ
scrambled sequence k [] = []
scrambled sequence k (w ∷ ws) = u32 (bit_xor w (sequence k)) ∷ scrambled sequence (k + 1) ws

-- The calls of the loop of a payload.
abbrev pub payload_calls : Bool → (ℕ → ℕ) → (ℕ → ℕ) → ℕ → ℕ → ℕ → List Event
payload_calls wraps sequence cells a k zero = []
payload_calls wraps sequence cells a k (suc n) =
    read_word Port.mem_rd_wr (u32 (cells a))
    ∷ read_word Port.scrambler_port (sequence k)
    ∷ wrote_word Port.modulator (u32 (bit_xor (u32 (cells a)) (sequence k)))
    ∷ payload_calls wraps sequence cells (onward wraps a) (k + 1) n

pub payload-modulated :
    (wraps : Bool) (sequence cells : ℕ → ℕ) (a k n : ℕ)
    → modulated (payload_calls wraps sequence cells a k n)
      ≡ scrambled sequence k (words_at wraps cells a n)
payload-modulated wraps sequence cells a k zero = refl
payload-modulated wraps sequence cells a k (suc n) =
    ap (λ ws. u32 (bit_xor (u32 (cells a)) (sequence k)) ∷ ws)
      (payload-modulated wraps sequence cells (onward wraps a) (k + 1) n)

module _ (b : Board) (d : Drains b) {sequence : ℕ → ℕ → ℕ}
    (memory : HasMemory b kept sequence) where
  pub payload_loop-calls :
      (wraps : Bool) (n a k g : ℕ) (cells : ℕ → ℕ) (s : State)
      → reads_wrap (replay s.events).flags ≡ wraps
      → (replay s.events).cells ≡ cells
      → (replay s.events).read_at ≡ a
      → (replay s.events).drawn ≡ k
      → (replay s.events).seed ≡ g
      → InPacket s
      → Returns
          (λ _ s'. Sent (payload_calls wraps (sequence g) cells a k n) s s' × InPacket s')
          (payload_loop b n s)
  unfolding payload_loop
  payload_loop-calls wraps zero a k g cells s wrap same at drawn seed under =
      returns (Sent-nil s, under)
  payload_loop-calls wraps (suc n) a k g cells s wrap same at drawn seed under =
      let v = u32 (b.respond s.events (Request.word Port.mem_rd_wr)) in
      let behind = read_word Port.mem_rd_wr v ∷ s.events in
      let scram = u32 (b.respond behind (Request.word Port.scrambler_port)) in
      let one : State = record s { events = behind } in
      let two : State = record s { events = read_word Port.scrambler_port scram ∷ behind } in
      let word : v ≡ u32 (cells a) = memory.reads s.events ∙ ap₂ (λ c x. u32 (c x)) same at in
      let added : scram ≡ sequence g k = memory.draws behind ∙ ap₂ sequence seed drawn in
      Returns.bind ((fifo_modulate-Sends b d (bit_xor v scram)).at two under)
        λ _ t (out, e, sent, under').
          let first = Sent-append (Sent-emit (read_word Port.mem_rd_wr v) refl refl s) (
            Sent-append (Sent-emit (read_word Port.scrambler_port scram) refl refl one)
              (subst (λ es. Sent es two t) e sent)) in
          let effect = Sent-replay first in
          Returns.mono
            (payload_loop-calls wraps n (onward wraps a) (k + 1) g cells t
              (ap {A = Memory} (λ m. reads_wrap m.flags) effect ∙ wrap)
              (ap {A = Memory} (λ m. m.cells) effect ∙ same)
              (ap {A = Memory} (λ m. m.read_at) effect ∙ ap₂ onward wrap at)
              (ap {A = Memory} (λ m. m.drawn) effect ∙ ap (λ x. x + 1) drawn)
              (ap {A = Memory} (λ m. m.seed) effect ∙ seed) under')
            λ _ s' (rest, under''). (
              subst (λ es. Sent es s s')
                  (ap₂
                    (λ x y.
                      read_word Port.mem_rd_wr x
                      ∷ read_word Port.scrambler_port y
                      ∷ wrote_word Port.modulator (u32 (bit_xor x y))
                      ∷ payload_calls wraps (sequence g) cells (onward wraps a) (k + 1) n)
                    word added)
                  (Sent-append first rest),
              under'',
            )

pub payload_calls-run :
    (wraps : Bool) (sequence cells : ℕ → ℕ) (a k n : ℕ) (m : Memory)
    → (run (payload_calls wraps sequence cells a k n) m).cells ≡ m.cells
payload_calls-run wraps sequence cells a k zero m = refl
payload_calls-run wraps sequence cells a k (suc n) m =
    payload_calls-run wraps sequence cells (onward wraps a) (k + 1) n
      (record m { read_at = onward (reads_wrap m.flags) m.read_at; drawn = m.drawn + 1 })
