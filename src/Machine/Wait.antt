-- ===== src/Machine/Wait.antt =====
-- Loops on a hardware flag end, given that the hardware changes the flag in time while the FIFO is
-- at the stage at which it does.
use hbc_mac_src.Base.{
  ℕ, zero, suc, ◌<◌, ◌≡◌, refl, sym, some, Bool, true, List, [], ◌∷◌, inl, inr, arith, u32, truth,
  Bool-cases,
}
use hbc_mac_src.Machine.{Board, Irq, Event, Request, read_irqs, State, Action, same, wait_while}
use hbc_mac_src.Machine.Returns
use hbc_mac_src.Machine.Returns.{Returns, returns}
use hbc_mac_src.Machine.Sent.{Sent, Sent-append, transmitted, pulses}
use hbc_mac_src.Machine.Stage.{Stage, stage}
use mathlib.Core.List.{append-nil}

-- The answer of the board to a poll.
abbrev pub polled : Board → List Event → ℕ
polled b h = u32 (b.respond h Request.irqs)

-- While the FIFO is at a stage of `When`, the flag does not stay at `busy`: a measure of the work
-- that keeps it there falls with each poll that finds it busy. At any other stage it may stay for
-- ever.
pub record Settles (b : Board) (q : Irq) (busy : Bool) (When : Stage → Type 0) : Type 0 where
  pub backlog : List Event → ℕ
  pub bounded : (h : List Event) → backlog h < b.patience
  pub falls :
      (h : List Event)
      → When (stage h)
      → same (truth (b.irq_status q (polled b h))) busy ≡ true
      → backlog (read_irqs (polled b h) ∷ h) < backlog h

-- Nothing is sent, and the stage of the FIFO and the variable `triggered` stay as they are.
pub record Unmoved (s s' : State) : Type 0 where
  pub sent : Sent [] s s'
  pub same_stage : stage s'.events ≡ stage s.events
  pub same_triggered : s'.triggered ≡ s.triggered

abbrev pub after_poll : Board → State → State
after_poll b s = record s { events = read_irqs (polled b s.events) ∷ s.events }

pub poll-Sent : (b : Board) (s : State) → Sent [] s (after_poll b s)
unfolding transmitted pulses
poll-Sent b s = record {
  wire = sym (append-nil _);
  pulsed = omega arith;
  bound = λ h. h;
  rx_same = refl;
  spi_same = refl;
  ctrl_same = refl;
}

module _ {b : Board} {q : Irq} {busy : Bool} {When : Stage → Type 0}
    (settles : Settles b q busy When) where
  -- With more patience than backlog the loop ends, if its body does nothing.
  pub wait-Unmoved :
      (n : ℕ) (body : Action) (s : State)
      → ((h : List Event) → body (record s { events = h }) ≡ some (tt, record s { events = h }))
      → When (stage s.events)
      → settles.backlog s.events < n
      → Returns (λ a s'. Unmoved s s') (wait_while b n q busy body s)
  unfolding wait_while
  wait-Unmoved zero body s inert at h = absurd (omega arith)
  wait-Unmoved (suc n) body s inert at h =
      elim (Bool-cases (same (truth (b.irq_status q (polled b s.events))) busy)) [
        | inl on ↦
            rw (on, inert (read_irqs (polled b s.events) ∷ s.events))
              (Returns.mono
                (wait-Unmoved n body (after_poll b s) inert at
                  (omega (arith, settles.falls s.events at on)))
                λ a s' rest. record {
                  sent = Sent-append (poll-Sent b s) rest.sent;
                  same_stage = rest.same_stage;
                  same_triggered = rest.same_triggered;
                })
        | inr off ↦
            rw off
              (returns (record { sent = poll-Sent b s; same_stage = refl; same_triggered = refl }))
      ]
