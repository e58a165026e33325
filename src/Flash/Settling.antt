-- ===== src/Flash/Settling.antt =====
-- The loop on the chip's busy bit ends, and changes nothing but the work that is left.
use hbc_mac_src.Base.{
  ℕ, zero, suc, ◌<◌, ◌≡◌, refl, ◌∙◌, bit_and, truth, u8, Bool, true, false, if◌then◌else◌, List, [],
  ◌∷◌, arith, Bool-cases, inl, inr, ap,
}
use hbc_mac_src.Machine.{
  Board, Port, Pin, Event, Request, wrote_byte, read_byte, discrete_set, discrete_clear, State,
}
use hbc_mac_src.Machine.Returns
use hbc_mac_src.Machine.Returns.{Returns, returns}
use hbc_mac_src.Mem.Fault.{Memory, replay}
use hbc_mac_src.Flash.{wait_written}
use hbc_mac_src.Flash.Chip.{Chip, deselected, opened, take, give, release, Part, chip, HasChip}

-- From `s` to `s'` nothing but the history changed; the chip is at rest and holds `cells`, and the
-- memory is `m`.
pub record IsRested (p : Part) (cells : ℕ → ℕ) (m : Memory) (s s' : State) : Type 0 where
  pub holds : (x : ℕ) → (chip p s'.events).cells x ≡ cells x
  pub at_rest : (chip p s'.events).work ≡ 0
  pub memory : replay s'.events ≡ m
  pub variables : s' ≡ record s { events = s'.events }

-- The history behind a byte that is sent, behind the frame that enables writing, and behind a poll.
abbrev pub sent : Board → ℕ → List Event → List Event
sent b v h =
    read_byte Port.flash_port
      (u8 (b.respond (wrote_byte Port.flash_port (u8 v) ∷ h) (Request.byte Port.flash_port)))
    ∷ wrote_byte Port.flash_port (u8 v)
    ∷ h

abbrev pub selected : List Event → List Event
selected h = discrete_clear (Pin.flash_ss ∷ []) ∷ h

abbrev pub released : List Event → List Event
released h = discrete_set (Pin.flash_ss ∷ []) ∷ h

abbrev pub enabled : Board → List Event → List Event
enabled b h = released (sent b 0x06 (selected h))

-- At rest between two frames.
abbrev pub resting : (ℕ → ℕ) → Bool → Chip
resting cells latch = record { cells = cells; latch = latch; work = 0; phase = deselected }

-- A byte, with its answer.
abbrev pub exchange : Chip → ℕ → Chip
exchange c v = give (take c v)

pub chip-enabled :
    (b : Board) (p : Part) (h : List Event)
    → (chip p h).work ≡ 0
    → chip p (enabled b h) ≡ resting (chip p h).cells true
chip-enabled b p h rest =
    ap {A = ℕ} {B = Chip}
      (λ w.
        release (p.delay (sent b 0x06 (selected h)))
          (exchange (record (chip p h) { work = w; phase = opened }) 0x06))
      rest

module _ {b : Board} {p : Part} (has : HasChip b p) where
  -- A poll, up to its answer.
  abbrev asked : List Event → List Event
  asked h = wrote_byte Port.flash_port 0 ∷ sent b 0x05 (selected h)

  abbrev status_at : List Event → ℕ
  status_at h = u8 (b.respond (asked h) (Request.byte Port.flash_port))

  abbrev polled : State → State
  polled s = record s { events = released (sent b 0 (sent b 0x05 (selected s.events))) }

  busy_bit : (h : List Event) → bit_and (status_at h) 1 ≡ (if truth (chip p h).work then 1 else 0)
  busy_bit h = has.status (asked h) 0 refl

  pub wait_written-IsRested :
      (n : ℕ) (s : State)
      → (chip p s.events).work < n
      → Returns
          (λ a s'. IsRested p (chip p s.events).cells (replay s.events) s s')
          (wait_written b n s)
  unfolding wait_written
  wait_written-IsRested zero s h = absurd (omega arith)
  wait_written-IsRested (suc n) s h = elim (Bool-cases (truth (chip p s.events).work)) [
    | inl busy ↦
        let bit : truth (bit_and (status_at s.events) 1) ≡ true =
          ap truth (busy_bit s.events) ∙ rw busy refl in
        rw bit (
          Returns.mono (wait_written-IsRested n (polled s) (ground arith)) λ a s' r. record {
            holds = r.holds;
            at_rest = r.at_rest;
            memory = r.memory;
            variables = r.variables;
          })
    | inr idle ↦
        let bit : truth (bit_and (status_at s.events) 1) ≡ false =
          ap truth (busy_bit s.events) ∙ rw idle refl in
        rw bit (
          returns
            (record { holds = λ x. refl; at_rest = ground arith; memory = refl; variables = refl }))
  ]
