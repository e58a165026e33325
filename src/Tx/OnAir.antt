-- ===== src/Tx/OnAir.antt =====
-- src/build_tx.c: the words of memory that a packet gives to the modulator.
use hbc_mac_src.Base.{
  Bool, ℕ, ◌+◌, ◌/◌, ◌<◌, ◌≡◌, refl, ap, ◌∙◌, u8, u32, truth, if◌then◌else◌, true, Bool-cases, inl,
  inr, List, [], ◌∷◌, ◌++◌,
}
use mathlib.Core.Path.{ap₂, subst}
use mathlib.Core.List.{append-nil, append_assoc}
use hbc_mac_src.Machine.{Board, Port, Event, wrote_word, wrote_byte, State, PlcpHeader, ◌>>=◌}
use hbc_mac_src.Machine.Returns
use hbc_mac_src.Machine.Returns.{Returns, returns}
use hbc_mac_src.Machine.Sent.{Sent, Sent-append, InPacket, transmitted}
use hbc_mac_src.Mem.Fault.{reads_wrap, Memory, HasMemory, replay}
use hbc_mac_src.Spi.Dump.{kept}
use hbc_mac_src.Crc.{crc8}
use hbc_mac_src.Header.{header_bits, header_word}
use hbc_mac_src.Fifo.Sending.{Drains, flush_calls, flush-ends, trigger-closes}
use hbc_mac_src.Machine.Stage.{Stage, stage}
use hbc_mac_src.Tx.{build_tx_plcp_header, build_tx_payload}
use hbc_mac_src.Tx.Packet.{header_lem, head_stream, header_rate, sfd_stream}
use hbc_mac_src.Tx.Payload.{seed_calls, seed_pins, reseed-Sends, num_words, num_words_lem}
use hbc_mac_src.Tx.Stream.{preamble}
use hbc_mac_src.Tx.Sends.{set_rate-Sends, size_at}
use hbc_mac_src.Tx.Aside.{
  run, run-append, modulated, modulated-append, Sent-replay, are_aside, aside-run, aside-modulated,
  preamble-aside, sfd_code-aside, sfd-aside, size-aside,
}
use hbc_mac_src.Tx.Spread.{
  words_at, scrambled, payload_calls, payload-modulated, payload_loop-calls, payload_calls-run,
}

-- The seed that a new one chooses.
abbrev pub chosen_seed : ℕ → ℕ
chosen_seed seed = if truth seed then 1 else 0

seed_calls-run :
    (seed : ℕ) (m : Memory)
    → run (seed_calls seed) m ≡ record m { drawn = 0; seed = chosen_seed seed }
unfolding seed_calls seed_pins
seed_calls-run seed m = elim (Bool-cases (truth seed)) [
  | inl on ↦ rw on refl
  | inr off ↦ rw off refl
]

seed_calls-modulated : (seed : ℕ) → modulated (seed_calls seed) ≡ []
unfolding seed_calls
seed_calls-modulated seed = refl

rate_aside : (rate : ℕ) → are_aside (wrote_byte Port.modulator_sf (u8 rate) ∷ size_at rate) ≡ true
rate_aside rate = size-aside rate

sfd_stream-aside : (h : PlcpHeader) → are_aside (sfd_stream h) ≡ true
sfd_stream-aside h = elim (Bool-cases (truth h.use_ri)) [
  | inl ri ↦ rw ri (sfd-aside h.data_rate)
  | inr fixed ↦ rw fixed sfd_code-aside
]

skip-modulated : (xs ys : List Event) → are_aside xs ≡ true → modulated (xs ++ ys) ≡ modulated ys
skip-modulated xs ys on =
    modulated-append xs ys ∙ ap (λ ws. ws ++ modulated ys) (aside-modulated xs on)

skip-run : (xs ys : List Event) (m : Memory) → are_aside xs ≡ true → run (xs ++ ys) m ≡ run ys m
skip-run xs ys m on = run-append xs ys m ∙ ap (run ys) (aside-run xs m on)

module _ (h : PlcpHeader) where
  abbrev word_call : List Event
  word_call = wrote_word Port.modulator (u32 (header_word h)) ∷ []

  abbrev rate_calls : List Event
  rate_calls = wrote_byte Port.modulator_sf (u8 (header_rate h)) ∷ size_at (header_rate h)

  head-modulated : modulated (head_stream h) ≡ u32 (header_word h) ∷ []
  head-modulated =
      let one = λ (es : List Event). skip-modulated preamble es preamble-aside in
      one _
      ∙ one _
      ∙ one _
      ∙ one _
      ∙ skip-modulated (sfd_stream h) (rate_calls ++ word_call) (sfd_stream-aside h)
      ∙ skip-modulated rate_calls word_call (rate_aside (header_rate h))

  head-run : (m : Memory) → run (head_stream h) m ≡ m
  head-run m =
      let one = λ (es : List Event). skip-run preamble es m preamble-aside in
      one _
      ∙ one _
      ∙ one _
      ∙ one _
      ∙ skip-run (sfd_stream h) (rate_calls ++ word_call) m (sfd_stream-aside h)
      ∙ skip-run rate_calls word_call m (rate_aside (header_rate h))

-- The calls of a payload of `n` words of memory from `a` on.
abbrev payload_out : Bool → (ℕ → ℕ → ℕ) → (ℕ → ℕ) → ℕ → ℕ → PlcpHeader → List Event
payload_out wraps sequence cells a n h =
    (wrote_byte Port.modulator_sf (u8 h.data_rate) ∷ size_at h.data_rate)
    ++ (seed_calls h.scrambler_seed
        ++ (payload_calls wraps (sequence (chosen_seed h.scrambler_seed)) cells a 0 n
            ++ (flush_calls ++ [])))

payload_out-modulated :
    (wraps : Bool) (sequence : ℕ → ℕ → ℕ) (cells : ℕ → ℕ) (a n : ℕ) (h : PlcpHeader)
    → modulated (payload_out wraps sequence cells a n h)
      ≡ scrambled (sequence (chosen_seed h.scrambler_seed)) 0 (words_at wraps cells a n)
payload_out-modulated wraps sequence cells a n h =
    let seq = sequence (chosen_seed h.scrambler_seed) in
    let calls = payload_calls wraps seq cells a 0 n in
    skip-modulated (wrote_byte Port.modulator_sf (u8 h.data_rate) ∷ size_at h.data_rate)
      (seed_calls h.scrambler_seed ++ (calls ++ (flush_calls ++ []))) (rate_aside h.data_rate)
    ∙ modulated-append (seed_calls h.scrambler_seed) (calls ++ (flush_calls ++ []))
    ∙ ap (λ ws. ws ++ modulated (calls ++ (flush_calls ++ [])))
        (seed_calls-modulated h.scrambler_seed)
    ∙ modulated-append calls (flush_calls ++ [])
    ∙ append-nil (modulated calls)
    ∙ payload-modulated wraps seq cells a 0 n

payload_out-cells :
    (wraps : Bool) (sequence : ℕ → ℕ → ℕ) (cells : ℕ → ℕ) (a n : ℕ) (h : PlcpHeader) (m : Memory)
    → (run (payload_out wraps sequence cells a n h) m).cells ≡ m.cells
payload_out-cells wraps sequence cells a n h m =
    let calls = payload_calls wraps (sequence (chosen_seed h.scrambler_seed)) cells a 0 n in
    let m' : Memory = record m { drawn = 0; seed = chosen_seed h.scrambler_seed } in
    ap {A = Memory} (λ m. m.cells)
      (skip-run (wrote_byte Port.modulator_sf (u8 h.data_rate) ∷ size_at h.data_rate)
          (seed_calls h.scrambler_seed ++ (calls ++ (flush_calls ++ []))) m (rate_aside h.data_rate)
        ∙ run-append (seed_calls h.scrambler_seed) (calls ++ (flush_calls ++ [])) m
        ∙ ap (run (calls ++ (flush_calls ++ []))) (seed_calls-run h.scrambler_seed m)
        ∙ run-append calls (flush_calls ++ []) m')
    ∙ payload_calls-run wraps (sequence (chosen_seed h.scrambler_seed)) cells a 0 n m'

-- The words of a packet as the modulator is given them.
abbrev pub on_air : (ℕ → ℕ → ℕ) → PlcpHeader → List ℕ → List ℕ
on_air sequence h ws =
    u32 (header_word h) ∷ scrambled (sequence (chosen_seed h.scrambler_seed)) 0 ws

-- From `s` to `s'` the modulator was given the words of a packet, whose payload is the words of
-- memory from the read pointer on; memory is as it was.
pub record IsOnAir (sequence : ℕ → ℕ → ℕ) (h : PlcpHeader) (s s' : State) : Type 0 where
  pub given :
      modulated (transmitted s'.events)
      ≡ modulated (transmitted s.events)
        ++ on_air sequence h (
            words_at
              (reads_wrap (replay s.events).flags)
              (replay s.events).cells
              (replay s.events).read_at
              ((h.pdsu_length + 3) / 4))
  pub cells : (replay s'.events).cells ≡ (replay s.events).cells

module _ (b : Board) (d : Drains b) {sequence : ℕ → ℕ → ℕ} (memory : HasMemory b kept sequence)
    (h : PlcpHeader) (len_fits : h.pdsu_length < 256) where
  payload-Sent :
      (s : State)
      → InPacket s
      → Returns
          (λ _ s'.
            Sent
              (payload_out
                (reads_wrap (replay s.events).flags)
                sequence
                (replay s.events).cells
                (replay s.events).read_at
                ((h.pdsu_length + 3) / 4)
                h)
              s
              s')
          (build_tx_payload b h s)
  unfolding build_tx_payload
  payload-Sent s k = Returns.bind ((set_rate-Sends h.data_rate).at s k) λ _ s₁ (o₁, e₁, t₁, k₁).
      Returns.bind ((reseed-Sends h.scrambler_seed).at s₁ k₁) λ _ s₂ (o₂, e₂, t₂, k₂).
        let seeded =
          Sent-append (subst (λ es. Sent es s s₁) e₁ t₁) (subst (λ es. Sent es s₁ s₂) e₂ t₂) in
        let effect : replay s₂.events
            ≡ record (replay s.events) { drawn = 0; seed = chosen_seed h.scrambler_seed } =
          Sent-replay seeded
          ∙ skip-run (wrote_byte Port.modulator_sf (u8 h.data_rate) ∷ size_at h.data_rate)
              (seed_calls h.scrambler_seed) (replay s.events) (rate_aside h.data_rate)
          ∙ seed_calls-run h.scrambler_seed (replay s.events) in
        Returns.bind
          (payload_loop-calls b d memory _ (num_words h.pdsu_length) _ 0 _ _ s₂
            (ap {A = Memory} (λ m. reads_wrap m.flags) effect)
            (ap {A = Memory} (λ m. m.cells) effect) (ap {A = Memory} (λ m. m.read_at) effect)
            (ap {A = Memory} (λ m. m.drawn) effect) (ap {A = Memory} (λ m. m.seed) effect) k₂)
          λ _ s₃ (t₃, k₃). Returns.bind (flush-ends s₃ k₃) λ _ s₄ (t₄, ending).
            Returns.bind (trigger-closes s₄ ending) λ _ s₅ (t₅, on, closed).
              returns {a = u8 (u8 h.pdsu_length / 4)} {s = s₅} (
                subst
                  (λ n.
                    Sent
                      (payload_out (reads_wrap (replay s.events).flags) sequence
                        (replay s.events).cells (replay s.events).read_at n h)
                      s s₅)
                  (num_words_lem h.pdsu_length len_fits)
                  (Sent-append (subst (λ es. Sent es s s₁) e₁ t₁) (
                    Sent-append (subst (λ es. Sent es s₁ s₂) e₂ t₂)
                      (Sent-append t₃ (Sent-append t₄ t₅)))))

module _ (b : Board) (d : Drains b) {sequence : ℕ → ℕ → ℕ}
    (memory : HasMemory b kept sequence) where
  -- On a board whose flags settle, between packets, with a memory that gives each word as it was
  -- last written and a scrambler that repeats its sequence: with a data rate of the enumeration and
  -- a length of a byte, build_tx_plcp_header and build_tx_payload return. The modulator is given
  -- the header word, and then as many words of memory from the read pointer on as cover the length,
  -- the pointer staying in its 16 MB if the flag for that is set, each with the next word of the
  -- sequence of the header's seed added, and nothing else; memory is as it was.
  pub packet-IsOnAir :
      (h : PlcpHeader) (s : State)
      → h.data_rate < 4
      → h.pdsu_length < 256
      → stage s.events ≡ Stage.whole
      → Returns
          (λ n s'. IsOnAir sequence h s s')
          ((build_tx_plcp_header b h >>= build_tx_payload b) s)
  packet-IsOnAir h s rate_fits len_fits at =
      Returns.bind (header_lem b d h rate_fits s at) λ h' s₁ (stored, first, k).
        let effect = Sent-replay first ∙ head-run h (replay s.events) in
        let n = (h.pdsu_length + 3) / 4 in
        let h'' = record h { crc8 = u8 (crc8 (header_bits h)) } in
        let here = replay s₁.events in
        rw stored (
          Returns.mono (payload-Sent b d memory h'' len_fits s₁ k) λ _ s₂ second. record {
            given =
                ap modulated second.wire
                ∙ modulated-append (transmitted s₁.events)
                    (payload_out (reads_wrap here.flags) sequence here.cells here.read_at n h'')
                ∙ ap₂ ◌++◌
                    (ap modulated first.wire
                      ∙ modulated-append (transmitted s.events) (head_stream h)
                      ∙ ap (λ ws. modulated (transmitted s.events) ++ ws) (head-modulated h))
                    (payload_out-modulated (reads_wrap here.flags) sequence here.cells here.read_at
                        n h''
                      ∙ ap {A = Memory}
                          (λ m.
                            scrambled (sequence (chosen_seed h.scrambler_seed)) 0
                              (words_at (reads_wrap m.flags) m.cells m.read_at n))
                          effect)
                ∙ append_assoc (modulated (transmitted s.events)) (u32 (header_word h) ∷ []) _;
            cells =
                ap {A = Memory} (λ m. m.cells) (Sent-replay second)
                ∙ payload_out-cells (reads_wrap here.flags) sequence here.cells here.read_at n h''
                    here
                ∙ ap {A = Memory} (λ m. m.cells) effect;
          })
