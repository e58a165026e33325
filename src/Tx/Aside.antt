-- ===== src/Tx/Aside.antt =====
-- What the calls of the transmit path mean for memory, for the scrambler and for the modulator.
use hbc_mac_src.Base.{
  ℕ, ◌≡◌, refl, ap, sym, ◌∙◌, Bool, true, false, Bool-cases, inl, inr, List, [], ◌∷◌, ◌++◌, arith,
}
use hbc_mac_src.Machine.{
  Port, Pin, Event, wrote_word, wrote_byte, read_irqs, discrete_set, discrete_clear, State,
}
use hbc_mac_src.Machine.Sent.{Sent, transmitted, is_transmit}
use hbc_mac_src.Mem.Fault.{Memory, after_call, replay}
use hbc_mac_src.Tx.Stream.{preamble, sfd_code, sfd_lead, sfd_tail}
use hbc_mac_src.Tx.Sends.{size_at}

-- What calls in order of time do to a memory.
abbrev pub run : List Event → Memory → Memory
run [] m = m
run (e ∷ es) m = run es (after_call e m)

-- The words given to the modulator.
abbrev pub modulated : List Event → List ℕ
modulated [] = []
modulated (wrote_word Port.modulator w ∷ es) = w ∷ modulated es
modulated (_ ∷ es) = modulated es

pub run-append : (xs ys : List Event) (m : Memory) → run (xs ++ ys) m ≡ run ys (run xs m)
run-append [] ys m = refl
run-append (x ∷ xs) ys m = run-append xs ys (after_call x m)

pub modulated-append : (xs ys : List Event) → modulated (xs ++ ys) ≡ modulated xs ++ modulated ys
modulated-append [] ys = refl
modulated-append (wrote_word Port.modulator w ∷ xs) ys = ap (λ ws. w ∷ ws) (modulated-append xs ys)
modulated-append (_ ∷ xs) ys = modulated-append xs ys

-- Polls and trigger pulses do nothing to memory.
quiet : (e : Event) (m : Memory) → is_transmit e ≡ false → after_call e m ≡ m
quiet (read_irqs v) m off = refl
quiet (discrete_set (Pin.hbc_tx_trigger ∷ ps)) m off = refl
quiet (discrete_clear (Pin.hbc_tx_trigger ∷ ps)) m off = refl
quiet _ m off = absurd (ground (arith, off))

replay_lem : (h : List Event) → replay h ≡ run (transmitted h) (replay [])
unfolding transmitted
replay_lem [] = refl
replay_lem (e ∷ h) = elim (Bool-cases (is_transmit e)) [
  | inl on ↦
      rw on
        (ap (after_call e) (replay_lem h) ∙ sym (run-append (transmitted h) (e ∷ []) (replay [])))
  | inr off ↦ rw off (quiet e (replay h) off ∙ replay_lem h)
]

pub Sent-replay :
    {out : List Event} {s s' : State} → Sent out s s' → replay s'.events ≡ run out (replay s.events)
Sent-replay {out} {s} {s'} sent =
    replay_lem s'.events
    ∙ ap (λ es. run es (replay [])) sent.wire
    ∙ run-append (transmitted s.events) out (replay [])
    ∙ ap (run out) (sym (replay_lem s.events))

-- Calls of the transmit FIFO and of the modulator's rate alone.
abbrev pub are_aside : List Event → Bool
are_aside [] = true
are_aside (wrote_word Port.fifo_port w ∷ es) = are_aside es
are_aside (wrote_byte Port.fifo_mask n ∷ es) = are_aside es
are_aside (wrote_byte Port.modulator_sf n ∷ es) = are_aside es
are_aside (_ ∷ es) = false

pub aside-run : (es : List Event) (m : Memory) → are_aside es ≡ true → run es m ≡ m
aside-run [] m on = refl
aside-run (wrote_word Port.fifo_port w ∷ es) m on = aside-run es m on
aside-run (wrote_byte Port.fifo_mask n ∷ es) m on = aside-run es m on
aside-run (wrote_byte Port.modulator_sf n ∷ es) m on = aside-run es m on
aside-run (_ ∷ es) m on = absurd (ground (arith, on))

pub aside-modulated : (es : List Event) → are_aside es ≡ true → modulated es ≡ []
aside-modulated [] on = refl
aside-modulated (wrote_word Port.fifo_port w ∷ es) on = aside-modulated es on
aside-modulated (wrote_byte Port.fifo_mask n ∷ es) on = aside-modulated es on
aside-modulated (wrote_byte Port.modulator_sf n ∷ es) on = aside-modulated es on
aside-modulated (_ ∷ es) on = absurd (ground (arith, on))

pub aside-append :
    (xs ys : List Event) → are_aside xs ≡ true → are_aside ys ≡ true → are_aside (xs ++ ys) ≡ true
aside-append [] ys on on' = on'
aside-append (wrote_word Port.fifo_port w ∷ xs) ys on on' = aside-append xs ys on on'
aside-append (wrote_byte Port.fifo_mask n ∷ xs) ys on on' = aside-append xs ys on on'
aside-append (wrote_byte Port.modulator_sf n ∷ xs) ys on on' = aside-append xs ys on on'
aside-append (_ ∷ xs) ys on on' = absurd (ground (arith, on))

pub preamble-aside : are_aside preamble ≡ true
unfolding preamble
preamble-aside = refl

pub sfd_code-aside : are_aside sfd_code ≡ true
unfolding sfd_code
sfd_code-aside = refl

lead-aside : (rate : ℕ) → are_aside (sfd_lead rate) ≡ true
unfolding sfd_lead
lead-aside rate = ground arith

tail-aside : (rate : ℕ) → are_aside (sfd_tail rate) ≡ true
unfolding sfd_tail
tail-aside rate = ground arith

pub size-aside : (rate : ℕ) → are_aside (size_at rate) ≡ true
unfolding size_at
size-aside rate = ground arith

pub sfd-aside : (rate : ℕ) → are_aside (sfd_lead rate ++ (sfd_code ++ sfd_tail rate)) ≡ true
sfd-aside rate =
    aside-append (sfd_lead rate) (sfd_code ++ sfd_tail rate) (lead-aside rate)
      (aside-append sfd_code (sfd_tail rate) sfd_code-aside (tail-aside rate))
