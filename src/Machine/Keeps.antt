-- ===== src/Machine/Keeps.antt =====
-- Invariants of actions: what holds of the program's variables before an action holds after it, if
-- the action returns. One rule for each way to build an action.
pub mod Blocks
use hbc_mac_src.Base.{ℕ, zero, suc, Bool, true, false, Option, none, some, if◌then◌else◌}
use hbc_mac_src.Machine.{
  Board, Pin, Port, Irq, Event, RxState, SpiState, CtrlState, State, M, Action, and_then, pure,
  ◌>>=◌, ◌>>◌, when, emit, get_rx, modify_rx, get_spi, modify_spi, get_ctrl, modify_ctrl, same,
  write_word, write_half, write_byte, gpo_set, gpo_clear, io_read_word, io_read_byte, discrete_read,
  irq_flag_set, wait_while,
}

-- A condition on the variables of extract_rx.c, spi.c and main.c.
abbrev pub Condition : Type 1
Condition = RxState → SpiState → CtrlState → Type 0

abbrev pub At : Condition → State → Type 0
At J s = J s.rx s.spi s.ctrl

pub data After {A : Type 0} (J : Condition) : Option (A × State) → Type 0 where
  stuck : After J none
  after : {a : A} {s : State} → At J s → After J (some (a, s))

pub record Keeps {A : Type 0} (J : Condition) (m : M A) : Type 0 where
  pub at : (s : State) → At J s → After J (m s)

module _ {J : Condition} where
  After-bind :
      {A B : Type 0} {r : Option (A × State)} {f : A → M B}
      → After J r
      → ((a : A) → Keeps J (f a))
      → After J (and_then r f)
  After-bind stuck kf = stuck
  After-bind (after h) kf = (kf _).at _ h

  pub Keeps-pure : {A : Type 0} (a : A) → Keeps J (pure a)
  Keeps-pure a = record { at = λ s h. after h }

  pub Keeps-bind :
      {A B : Type 0} (m : M A) (f : A → M B)
      → Keeps J m
      → ((a : A) → Keeps J (f a))
      → Keeps J (m >>= f)
  Keeps-bind m f km kf = record { at = λ s h. After-bind (km.at s h) kf }

  pub Keeps-seq : {A B : Type 0} (m : M A) (k : M B) → Keeps J m → Keeps J k → Keeps J (m >> k)
  Keeps-seq m k km kk = Keeps-bind m (λ _. k) km (λ _. kk)

  pub Keeps-if :
      {A : Type 0} (c : Bool) (m k : M A) → Keeps J m → Keeps J k → Keeps J (if c then m else k)
  Keeps-if true m k km kk = km
  Keeps-if false m k km kk = kk

  pub Keeps-when : (c : Bool) (m : Action) → Keeps J m → Keeps J (when c m)
  Keeps-when true m km = km
  Keeps-when false m km = Keeps-pure tt

  pub Keeps-emit : (e : Event) → Keeps J (emit e)
  Keeps-emit e = record { at = λ s h. after h }

  pub Keeps-get_rx : Keeps J get_rx
  Keeps-get_rx = record { at = λ s h. after h }

  pub Keeps-get_spi : Keeps J get_spi
  Keeps-get_spi = record { at = λ s h. after h }

  pub Keeps-get_ctrl : Keeps J get_ctrl
  Keeps-get_ctrl = record { at = λ s h. after h }

  pub Keeps-modify_rx :
      (f : RxState → RxState)
      → ((r : RxState) (d : SpiState) (c : CtrlState) → J r d c → J (f r) d c)
      → Keeps J (modify_rx f)
  Keeps-modify_rx f k = record { at = λ s h. after (k s.rx s.spi s.ctrl h) }

  pub Keeps-modify_spi :
      (f : SpiState → SpiState)
      → ((r : RxState) (d : SpiState) (c : CtrlState) → J r d c → J r (f d) c)
      → Keeps J (modify_spi f)
  Keeps-modify_spi f k = record { at = λ s h. after (k s.rx s.spi s.ctrl h) }

  pub Keeps-modify_ctrl :
      (f : CtrlState → CtrlState)
      → ((r : RxState) (d : SpiState) (c : CtrlState) → J r d c → J r d (f c))
      → Keeps J (modify_ctrl f)
  Keeps-modify_ctrl f k = record { at = λ s h. after (k s.rx s.spi s.ctrl h) }

  pub Keeps-write_word : (p : Port) (v : ℕ) → Keeps J (write_word p v)
  unfolding write_word
  Keeps-write_word p v = Keeps-emit _

  pub Keeps-write_half : (p : Port) (v : ℕ) → Keeps J (write_half p v)
  unfolding write_half
  Keeps-write_half p v = Keeps-emit _

  pub Keeps-write_byte : (p : Port) (v : ℕ) → Keeps J (write_byte p v)
  unfolding write_byte
  Keeps-write_byte p v = Keeps-emit _

  pub Keeps-gpo_set : (p : Pin) → Keeps J (gpo_set p)
  unfolding gpo_set
  Keeps-gpo_set p = Keeps-emit _

  pub Keeps-gpo_clear : (p : Pin) → Keeps J (gpo_clear p)
  unfolding gpo_clear
  Keeps-gpo_clear p = Keeps-emit _

  pub Keeps-io_read_word : (b : Board) (p : Port) → Keeps J (io_read_word b p)
  unfolding io_read_word
  Keeps-io_read_word b p = record { at = λ s h. after h }

  pub Keeps-io_read_byte : (b : Board) (p : Port) → Keeps J (io_read_byte b p)
  unfolding io_read_byte
  Keeps-io_read_byte b p = record { at = λ s h. after h }

  pub Keeps-discrete_read : (b : Board) → Keeps J (discrete_read b)
  unfolding discrete_read
  Keeps-discrete_read b = record { at = λ s h. after h }

  pub Keeps-irq_flag_set : (b : Board) (q : Irq) → Keeps J (irq_flag_set b q)
  unfolding irq_flag_set
  Keeps-irq_flag_set b q = record { at = λ s h. after h }

  pub Keeps-stuck : {A : Type 0} → Keeps {A = A} J (λ s. none)
  Keeps-stuck = record { at = λ s h. stuck }

  pub Keeps-wait_while :
      (b : Board) (n : ℕ) (q : Irq) (busy : Bool) (body : Action)
      → Keeps J body
      → Keeps J (wait_while b n q busy body)
  unfolding wait_while
  Keeps-wait_while b zero q busy body kb = Keeps-stuck
  Keeps-wait_while b (suc n) q busy body kb = Keeps-bind _ _ (Keeps-irq_flag_set b q) λ flag.
      Keeps-if (same flag busy) _ _ (Keeps-seq body _ kb (Keeps-wait_while b n q busy body kb))
        (Keeps-pure tt)

pub ruleset keeps_rules = (
  Keeps-pure, Keeps-seq, Keeps-bind, Keeps-if, Keeps-when, Keeps-emit, Keeps-get_rx, Keeps-get_spi,
  Keeps-get_ctrl, Keeps-write_word, Keeps-write_half, Keeps-write_byte, Keeps-gpo_set,
  Keeps-gpo_clear, Keeps-io_read_word, Keeps-io_read_byte, Keeps-discrete_read, Keeps-irq_flag_set,
  Keeps-wait_while, Keeps-stuck,
)
