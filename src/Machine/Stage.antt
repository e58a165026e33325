-- ===== src/Machine/Stage.antt =====
-- How far the transmit FIFO is with a packet, as the calls of src/fifo.c tell it.
use mathlib.Core.Path.{subst}
use hbc_mac_src.Base.{ℕ, ◌≡◌, refl, sym, true, false, List, [], ◌∷◌, truth, arith}
use hbc_mac_src.Machine.{Pin, Port, Event, wrote_word, discrete_set}

-- Between packets, or at the end of one that is triggered and flushed; with words of a packet that
-- is not triggered; with a packet that is triggered and goes out; with one that is flushed
-- before it is triggered.
pub data Stage : Type 0 where
  whole : Stage
  filling : Stage
  going : Stage
  late : Stage

-- A word for the FIFO or the modulator.
abbrev pub filled : Stage → Stage
filled whole = filling
filled filling = filling
filled going = going
filled late = late

-- A pulse of the trigger.
abbrev pub started : Stage → Stage
started whole = going
started filling = going
started going = going
started late = whole

-- A pulse of the flush.
abbrev pub ended : Stage → Stage
ended whole = late
ended filling = late
ended going = whole
ended late = late

abbrev pub next_stage : Event → Stage → Stage
next_stage (wrote_word Port.fifo_port v) g = filled g
next_stage (wrote_word Port.modulator v) g = filled g
next_stage (discrete_set (Pin.hbc_tx_trigger ∷ ps)) g = started g
next_stage (discrete_set (Pin.hbc_tx_flush ∷ ps)) g = ended g
next_stage _ g = g

abbrev pub stage : List Event → Stage
stage [] = whole
stage (e ∷ h) = next_stage e (stage h)

-- Within a packet the variable `triggered` says whether the FIFO goes.
pub data IsUnderWay : ℕ → Stage → Type 0 where
  idle : IsUnderWay 0 whole
  loading : IsUnderWay 0 filling
  running : IsUnderWay 1 going

-- And when it has been flushed, whether it has been triggered.
pub data IsEnded : ℕ → Stage → Type 0 where
  started_before : IsEnded 1 whole
  unstarted : IsEnded 0 late

pub filled-IsUnderWay : {t : ℕ} {g : Stage} → IsUnderWay t g → IsUnderWay t (filled g)
filled-IsUnderWay idle = loading
filled-IsUnderWay loading = loading
filled-IsUnderWay running = running

pub on-going : {t : ℕ} {g : Stage} → IsUnderWay t g → truth t ≡ true → (t ≡ 1) × (g ≡ going)
on-going idle on = ground (arith, on)
on-going loading on = ground (arith, on)
on-going running on = (refl, refl)

pub off-started :
    {t : ℕ} {g : Stage} → IsUnderWay t g → truth t ≡ false → (t ≡ 0) × (started g ≡ going)
off-started idle off = (refl, refl)
off-started loading off = (refl, refl)
off-started running off = ground (arith, off)

pub ended-IsEnded : {t : ℕ} {g : Stage} → IsUnderWay t g → IsEnded t (ended g)
ended-IsEnded idle = unstarted
ended-IsEnded loading = unstarted
ended-IsEnded running = started_before

pub on-whole : {t : ℕ} {g : Stage} → IsEnded t g → truth t ≡ true → g ≡ whole
on-whole started_before on = refl
on-whole unstarted on = ground (arith, on)

pub off-whole : {t : ℕ} {g : Stage} → IsEnded t g → truth t ≡ false → (t ≡ 0) × (started g ≡ whole)
off-whole started_before off = ground (arith, off)
off-whole unstarted off = (refl, refl)

pub under_way : {t t' : ℕ} {g g' : Stage} → IsUnderWay t g → t' ≡ t → g' ≡ g → IsUnderWay t' g'
under_way {t} {t'} {g} {g'} k et eg =
    subst (λ x. IsUnderWay t' x) (sym eg) (subst (λ v. IsUnderWay v g) (sym et) k)
