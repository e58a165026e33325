-- ===== src/Tx/Payload.antt =====
-- The payload, and a whole packet.
use hbc_mac_src.Base.{
  ℕ, zero, suc, ◌+◌, ◌/◌, ◌%◌, ◌^◌, ◌<◌, ◌≡◌, refl, sym, ◌∙◌, ap, List, [], ◌∷◌, ◌++◌, truth,
  if◌then◌else◌, Bool-cases, inl, inr, u8, u32, bit_xor, arith, true,
}
use hbc_mac_src.Base.Bits.Xor.{xor-lt}
use mathlib.Core.Path.{subst}
use hbc_mac_src.Machine.{
  emit, Board, Pin, Port, Event, Request, State, wrote_word, wrote_byte, read_word, discrete_set,
  discrete_clear, PlcpHeader, ◌>>=◌, io_read_word,
}
use hbc_mac_src.Machine.Returns
use hbc_mac_src.Machine.Returns.{Returns, returns}
use hbc_mac_src.Machine.Sent.{
  Sent, Sent-append, InPacket, Sends, Exactly, Sends-emit, Sends-seq, Sends-result, Sends-bind,
  Sends-mono, transmitted, pulses,
}
use hbc_mac_src.Machine.Stage.{Stage, stage}
use hbc_mac_src.Fifo.{fifo_modulate}
use hbc_mac_src.Fifo.Sending.{Drains, fifo_modulate-Sends, flush_calls, flush-ends, trigger-closes}
use hbc_mac_src.Scrambler.{scrambler_read, scrambler_reseed}
use hbc_mac_src.Mem.{mem_read}
use hbc_mac_src.Tx.{payload_loop, build_tx_payload}
use hbc_mac_src.Tx.Sends.{set_rate-Sends, size_at}

-- `n` words of memory, each sent with the next word of the scrambler added.
pub data Scrambled : ℕ → List Event → Type 0 where
  finished : Scrambled 0 []
  next :
      {n : ℕ} {rest : List Event} (word scram : ℕ)
      → Scrambled n rest
      → Scrambled (suc n) (
          read_word Port.mem_rd_wr word
          ∷ read_word Port.scrambler_port scram
          ∷ wrote_word Port.modulator (bit_xor word scram)
          ∷ rest)

-- A read of the bus is one call, and its value has 32 bits.
abbrev IsRead : Port → ℕ → List Event → Type 0
IsRead p v out = (v < 2 ^ 32) × (out ≡ read_word p v ∷ [])

IsRead-Sends : (b : Board) (p : Port) → Sends (io_read_word b p) (IsRead p)
unfolding io_read_word transmitted pulses
IsRead-Sends b p = record {
  at = λ s k. returns (
    read_word p (u32 (b.respond s.events (Request.word p))) ∷ [],
    (omega arith, refl),
    record {
      wire = refl;
      pulsed = omega arith;
      bound = λ h. h;
      rx_same = refl;
      spi_same = refl;
      ctrl_same = refl;
    },
    k,
  );
}

xor_fits : (x y : ℕ) → x < 2 ^ 32 → y < 2 ^ 32 → u32 (bit_xor x y) ≡ bit_xor x y
xor_fits x y h k = omega (arith, xor-lt 32 x y h k)

-- One round of the loop.
abbrev IsRound : Unit {0} → List Event → Type 0
IsRound a out =
    (word : ℕ) × (scram : ℕ) × (out
      ≡ read_word Port.mem_rd_wr word
        ∷ read_word Port.scrambler_port scram
        ∷ wrote_word Port.modulator (bit_xor word scram)
        ∷ [])

module _ (b : Board) (d : Drains b) where
  IsRound-Sends :
      Sends
        (do word ← mem_read b; scram ← scrambler_read b; fifo_modulate b (bit_xor word scram))
        IsRound
  unfolding mem_read scrambler_read
  IsRound-Sends =
      Sends-mono
        (Sends-bind (IsRead-Sends b Port.mem_rd_wr) λ word.
          Sends-bind (IsRead-Sends b Port.scrambler_port)
            λ scram. fifo_modulate-Sends b d (bit_xor word scram))
        λ a out (word, x, y, (fits, ex), (scram, x', y', (fits', ex'), ey', ey), e).
          (word, scram, rw (e, ex, ey, ex', ey', xor_fits word scram fits fits'))

  payload_loop-Sends : (n : ℕ) → Sends (payload_loop b n) (λ a out. Scrambled n out)
  unfolding payload_loop
  payload_loop-Sends zero = Sends-result tt finished
  payload_loop-Sends (suc n) =
      Sends-mono (Sends-bind IsRound-Sends (λ _. payload_loop-Sends n))
        λ a out (_, x, y, (word, scram, ex), rest, e).
          subst (Scrambled (suc n)) (sym (e ∙ ap (λ t. t ++ y) ex)) (next word scram rest)

unfoldable pub seed_pins : ℕ → List Pin
seed_pins seed =
    if truth seed then Pin.scram_reseed ∷ Pin.scram_seed_val ∷ [] else Pin.scram_reseed ∷ []

unfoldable pub seed_calls : ℕ → List Event
unfolding seed_pins
seed_calls seed =
    discrete_set (seed_pins seed)
    ∷ discrete_set (Pin.scram_seed_clk ∷ [])
    ∷ discrete_clear (Pin.scram_reseed ∷ Pin.scram_seed_val ∷ Pin.scram_seed_clk ∷ [])
    ∷ []

pub reseed-Sends : (seed : ℕ) → Sends (scrambler_reseed seed) (Exactly (seed_calls seed))
unfolding scrambler_reseed seed_calls
reseed-Sends seed =
    Sends-seq first
      (Sends-seq (Sends-emit _ refl refl λ t g k. k) (Sends-emit _ refl refl λ t g k. k))
  where
    first :
        Sends (emit (discrete_set (seed_pins seed))) (Exactly (discrete_set (seed_pins seed) ∷ []))
    first = elim (Bool-cases (truth seed)) [
      | inl on ↦ rw on (Sends-emit _ refl refl λ t g k. k)
      | inr off ↦ rw off (Sends-emit _ refl refl λ t g k. k)
    ]

abbrev pub num_words : ℕ → ℕ
num_words len = let whole = u8 (u8 len / 4) in if truth (u8 len % 4) then u8 (whole + 1) else whole

pub num_words_lem : (len : ℕ) → len < 256 → num_words len ≡ (len + 3) / 4
num_words_lem len h = ground arith

-- The calls of a payload: its rate, the new seed, the words and the flush.
abbrev pub payload_stream : PlcpHeader → List Event → List Event
payload_stream h words =
    (wrote_byte Port.modulator_sf (u8 h.data_rate) ∷ size_at h.data_rate)
    ++ (seed_calls h.scrambler_seed ++ (words ++ flush_calls))

joined :
    {o₁ x₁ o₂ x₂ : List Event}
    → o₁ ≡ x₁
    → o₂ ≡ x₂
    → (o₃ : List Event)
    → o₁ ++ (o₂ ++ (o₃ ++ (flush_calls ++ []))) ≡ x₁ ++ (x₂ ++ (o₃ ++ flush_calls))
joined e₁ e₂ o₃ = rw (e₁, e₂)

module _ (b : Board) (d : Drains b) (h : PlcpHeader) (len_fits : h.pdsu_length < 256) where
  -- Within a packet the payload is sent in full: as many words as cover its bytes, each scrambled.
  -- The FIFO is flushed and left triggered, the packet whole, and the result counts the whole
  -- words.
  pub payload_lem :
      (s : State)
      → InPacket s
      → Returns
          (λ n s'.
            (n ≡ h.pdsu_length / 4)
            × (truth s'.triggered ≡ true)
            × (stage s'.events ≡ Stage.whole)
            × (words : List Event) × Scrambled ((h.pdsu_length + 3) / 4) words
            × Sent (payload_stream h words) s s')
          (build_tx_payload b h s)
  unfolding build_tx_payload
  payload_lem s k = Returns.bind ((set_rate-Sends h.data_rate).at s k) λ _ s₁ (o₁, e₁, t₁, k₁).
      Returns.bind ((reseed-Sends h.scrambler_seed).at s₁ k₁) λ _ s₂ (o₂, e₂, t₂, k₂).
        Returns.bind ((payload_loop-Sends b d (num_words h.pdsu_length)).at s₂ k₂)
          λ _ s₃ (o₃, r₃, t₃, k₃). Returns.bind (flush-ends s₃ k₃) λ _ s₄ (t₄, ending).
            Returns.bind (trigger-closes s₄ ending) λ _ s₅ (t₅, on, closed).
              returns {a = u8 (u8 h.pdsu_length / 4)} {s = s₅} (
                omega arith,
                on,
                closed,
                o₃,
                subst (λ n. Scrambled n o₃) (num_words_lem h.pdsu_length len_fits) r₃,
                subst (λ t. Sent t s s₅) (joined e₁ e₂ o₃)
                    (Sent-append t₁ (Sent-append t₂ (Sent-append t₃ (Sent-append t₄ t₅)))),
              )
