-- ===== src/Machine/Sent.antt =====
-- What the transmit path does besides polling: the calls that are not polls of a flag or pulses of
-- the FIFO's trigger, in order, with the pulses counted beside them.
use hbc_mac_src.Base.{
  ℕ, ◌+◌, ◌≤◌, ◌≡◌, refl, sym, ◌∙◌, ap, Bool, true, false, List, [], ◌∷◌, ◌++◌, arith,
  if◌then◌else◌,
}
use mathlib.Core.Path.{subst}
use mathlib.Core.List.{append_assoc, append-nil}
use hbc_mac_src.Machine.{
  Pin, Event, discrete_set, discrete_clear, read_irqs, State, M, pure, ◌>>=◌, ◌>>◌, emit,
}
use hbc_mac_src.Machine.Stage.{Stage, stage, next_stage, IsUnderWay}
use hbc_mac_src.Machine.Returns
use hbc_mac_src.Machine.Returns.{Returns, returns}

abbrev pub is_trigger : List Pin → Bool
is_trigger (Pin.hbc_tx_trigger ∷ ps) = true
is_trigger _ = false

abbrev pub is_transmit : Event → Bool
is_transmit (read_irqs v) = false
is_transmit (discrete_set (Pin.hbc_tx_trigger ∷ ps)) = false
is_transmit (discrete_clear (Pin.hbc_tx_trigger ∷ ps)) = false
is_transmit _ = true

-- The calls in order of time.
unfoldable pub transmitted : List Event → List Event
transmitted [] = []
transmitted (e ∷ h) = if is_transmit e then transmitted h ++ e ∷ [] else transmitted h

abbrev pub is_pulse : Event → ℕ
is_pulse (discrete_set (Pin.hbc_tx_trigger ∷ ps)) = 1
is_pulse _ = 0

unfoldable pub pulses : List Event → ℕ
pulses [] = 0
pulses (e ∷ h) = is_pulse e + pulses h

-- From `s` to `s'` the calls were `out`, polls and trigger pulses aside; a pulse was given exactly
-- when `triggered` was set; and no other component was touched.
pub record Sent (out : List Event) (s s' : State) : Type 0 where
  pub wire : transmitted s'.events ≡ transmitted s.events ++ out
  pub pulsed : pulses s'.events + s.triggered ≡ pulses s.events + s'.triggered
  pub bound : s.triggered ≤ 1 → s'.triggered ≤ 1
  pub rx_same : s'.rx ≡ s.rx
  pub spi_same : s'.spi ≡ s.spi
  pub ctrl_same : s'.ctrl ≡ s.ctrl

pub Sent-nil : (s : State) → Sent [] s s
Sent-nil s = record {
  wire = sym (append-nil _);
  pulsed = refl;
  bound = λ h. h;
  rx_same = refl;
  spi_same = refl;
  ctrl_same = refl;
}

pub Sent-append :
    {out out' : List Event} {s s' s'' : State}
    → Sent out s s'
    → Sent out' s' s''
    → Sent (out ++ out') s s''
Sent-append {out} {out'} {s} p q = record {
  wire = q.wire ∙ ap (λ t. t ++ out') p.wire ∙ append_assoc (transmitted s.events) out out';
  pulsed = omega (arith, p.pulsed, q.pulsed);
  bound = λ h. q.bound (p.bound h);
  rx_same = q.rx_same ∙ p.rx_same;
  spi_same = q.spi_same ∙ p.spi_same;
  ctrl_same = q.ctrl_same ∙ p.ctrl_same;
}

abbrev pub InPacket : State → Type 0
InPacket s = IsUnderWay s.triggered (stage s.events)

-- In every state within a packet, the action returns within the packet, and it makes calls that fit
-- `R`.
pub record Sends {A : Type 0} (m : M A) (R : A → List Event → Type 0) : Type 0 where
  pub at :
      (s : State)
      → InPacket s
      → Returns (λ a s'. (out : List Event) × R a out × Sent out s s' × InPacket s') (m s)

abbrev pub Exactly : {A : Type 0} → List Event → A → List Event → Type 0
Exactly out a calls = calls ≡ out

pub Sends-pure : {A : Type 0} (a : A) → Sends (pure a) (Exactly [])
Sends-pure a = record { at = λ s k. returns ([], refl, Sent-nil s, k) }

-- One call.
pub Sent-emit :
    (e : Event)
    → is_transmit e ≡ true
    → is_pulse e ≡ 0
    → (s : State) → Sent (e ∷ []) s (record s { events = e ∷ s.events })
unfolding transmitted pulses
Sent-emit e kept quiet s = record {
  wire = rw kept;
  pulsed = rw quiet (omega arith);
  bound = λ h. h;
  rx_same = refl;
  spi_same = refl;
  ctrl_same = refl;
}

pub Sends-emit :
    (e : Event)
    → is_transmit e ≡ true
    → is_pulse e ≡ 0
    → ((t : ℕ) (g : Stage) → IsUnderWay t g → IsUnderWay t (next_stage e g))
    → Sends (emit e) (Exactly (e ∷ []))
Sends-emit e kept quiet stays = record {
  at =
      λ s k. returns (e ∷ [], refl, Sent-emit e kept quiet s, stays s.triggered (stage s.events) k);
}

module _ {A B : Type 0} where
  pub Sends-bind :
      {R : A → List Event → Type 0} {R' : A → B → List Event → Type 0} {m : M A} {f : A → M B}
      → Sends m R
      → ((a : A) → Sends (f a) (R' a))
      → Sends (m >>= f) (λ c out.
        (a : A) × (x : List Event) × (y : List Event) × R a x × R' a c y × (out ≡ x ++ y))
  Sends-bind sm sf = record {
    at = λ s k. Returns.bind (sm.at s k) λ a s' (x, r, sent, k').
        Returns.mono ((sf a).at s' k') λ c s'' (y, r', sent', k'').
          (x ++ y, (a, x, y, r, r', refl), Sent-append sent sent', k'');
  }

  pub Sends-seq :
      {x y : List Event} {m : M A} {k : M B}
      → Sends m (Exactly x)
      → Sends k (Exactly y)
      → Sends (m >> k) (Exactly (x ++ y))
  Sends-seq sm sk = record {
    at = λ s k. Returns.bind (sm.at s k) λ a s' (o, e, sent, k').
        Returns.mono (sk.at s' k')
          λ c s'' (o', e', sent', k''). (o ++ o', rw (e, e'), Sent-append sent sent', k'');
  }

module _ {A : Type 0} where
  pub Sends-mono :
      {R R' : A → List Event → Type 0} {m : M A}
      → Sends m R
      → ((a : A) (out : List Event) → R a out → R' a out)
      → Sends m R'
  Sends-mono sm weaken = record {
    at = λ s k. Returns.mono (sm.at s k) λ a s' (out, r, sent, k'). (out, weaken a out r, sent, k');
  }

  pub Sends-if :
      {x y : List Event} {m k : M A} (c : Bool)
      → Sends m (Exactly x)
      → Sends k (Exactly y)
      → Sends (if c then m else k) (Exactly (if c then x else y))
  Sends-if true sm sk = sm
  Sends-if false sm sk = sk

module _ {A B : Type 0} where
  -- A step with a known output in front of a relation for the whole.
  pub Sends-then :
      {R : B → List Event → Type 0} {m : M A} {k : M B} (x : List Event)
      → Sends m (Exactly x)
      → Sends k (λ c out. R c (x ++ out))
      → Sends (m >> k) R
  Sends-then {R} x sm sk = record {
    at = λ s k. Returns.bind (sm.at s k) λ a s' (o, e, sent, k').
        Returns.mono (sk.at s' k') λ c s'' (o', r, sent', k'').
          (o ++ o', subst (λ t. R c (t ++ o')) (sym e) r, Sent-append sent sent', k'');
  }

-- The end of a chain of `Sends-then`.
pub Sends-result : {B : Type 0} {R : B → List Event → Type 0} (c : B) → R c [] → Sends (pure c) R
Sends-result c r = record { at = λ s k. returns ([], r, Sent-nil s, k) }
