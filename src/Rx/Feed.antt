-- ===== src/Rx/Feed.antt =====
-- src/extract_rx.c: what the loop of rx_data_int_func makes of the words that the FIFO gives out.
use hbc_mac_src.Base.{
  Bool, ℕ, zero, suc, ◌+◌, ◌*◌, ◌^◌, ◌<◌, ◌≤◌, ◌≡◌, refl, sym, ap, ◌∙◌, ◌⊎◌, bit_xor, u32, true,
  false, List, [], ◌∷◌, ◌++◌, length, length-append, arith, Bool-cases, inl, inr,
}
use mathlib.Core.Path.{ap₂}
use mathlib.Core.List.{append_assoc}
use hbc_mac_src.Machine.{
  Board, Port, Event, Request, read_irqs, read_word, wrote_word, RxState, State,
}
use hbc_mac_src.Machine.Returns
use hbc_mac_src.Machine.Returns.{Returns, returns}
use hbc_mac_src.Machine.Wait.{polled}
use hbc_mac_src.Mem.{mem_size, mem_rx_buf}
use hbc_mac_src.Mem.Fault.{onward, writes_wrap, HasMemory, replay, poke}
use hbc_mac_src.Spi.Dump.{kept}
use hbc_mac_src.Rx.{data_loop, inc_buf}
use hbc_mac_src.Rx.Writer.{data_ready}

abbrev pub tail : List ℕ → List ℕ
tail [] = []
tail (w ∷ ws) = ws

-- Of the words that come in, those not yet taken from the FIFO.
abbrev pub left : List ℕ → List Event → List ℕ
left ws [] = ws
left ws (read_word Port.rx_fifo v ∷ h) = tail (left ws h)
left ws (_ ∷ h) = left ws h

-- The FIFO gives the words out in order, has none behind the last, and does not lose one that
-- waits.
pub record HasFeed (b : Board) (incoming : List ℕ) : Type 0 where
  pub gives :
      (h : List Event) (w : ℕ) (ws : List ℕ)
      → left incoming h ≡ w ∷ ws
      → u32 (b.respond h (Request.word Port.rx_fifo)) ≡ w
  pub ends : (h : List Event) → left incoming h ≡ [] → data_ready b h ≡ false
  pub waits_polled :
      (v : ℕ) (h : List Event) → data_ready b h ≡ true → data_ready b (read_irqs v ∷ h) ≡ true
  pub waits_pointed :
      (a : ℕ) (h : List Event)
      → data_ready b h ≡ true
      → data_ready b (wrote_word Port.mem_wr_p a ∷ h) ≡ true
  pub bounded : (h : List Event) → length (left incoming h) < b.patience

-- Words stored one behind the other from `a` on.
abbrev pub stored : ℕ → List ℕ → (ℕ → ℕ) → ℕ → ℕ
stored a [] cells = cells
stored a (w ∷ ws) cells = stored (a + 4) ws (poke cells a w)

-- Received words without the sequence of the scrambler, of which the `k`-th is next.
abbrev pub plain : (ℕ → ℕ) → ℕ → List ℕ → List ℕ
plain sequence k [] = []
plain sequence k (w ∷ ws) = u32 (bit_xor w (sequence k)) ∷ plain sequence (k + 1) ws

-- The writer's variables `n` words further.
abbrev pub further : ℕ → RxState → RxState
further n r = record r { wr_buf_addr = r.wr_buf_addr + 4 * n; wr_bytes = r.wr_bytes + 4 * n }

-- From `s` to `s'` the words `ws` were taken and stored, and nothing else changed.
pub record Took (sequence : ℕ → ℕ → ℕ) (incoming ws : List ℕ) (s s' : State) : Type 0 where
  pub took : left incoming s.events ≡ ws ++ left incoming s'.events
  pub cells :
      (replay s'.events).cells
      ≡ stored
          (replay s.events).write_at
          (plain (sequence (replay s.events).seed) (replay s.events).drawn ws)
          (replay s.events).cells
  pub write_at : (replay s'.events).write_at ≡ (replay s.events).write_at + 4 * length ws
  pub drawn : (replay s'.events).drawn ≡ (replay s.events).drawn + length ws
  pub seed : (replay s'.events).seed ≡ (replay s.events).seed
  pub variables : s' ≡ record s { events = s'.events; rx = further (length ws) s.rx }

pub stored-plain :
    (sequence : ℕ → ℕ) (xs ys : List ℕ) (a k : ℕ) (cells : ℕ → ℕ)
    → stored
        (a + 4 * length xs)
        (plain sequence (k + length xs) ys)
        (stored a (plain sequence k xs) cells)
      ≡ stored a (plain sequence k (xs ++ ys)) cells
stored-plain sequence [] ys a k cells =
    let place : a + 0 ≡ a = omega arith in
    let drawn : k + 0 ≡ k = omega arith in
    ap₂ (λ x n. stored x (plain sequence n ys) cells) place drawn
stored-plain sequence (w ∷ xs) ys a k cells =
    let place : a + 4 * suc (length xs) ≡ a + 4 + 4 * length xs = omega arith in
    let drawn : k + suc (length xs) ≡ k + 1 + length xs = omega arith in
    ap₂
      (λ x n.
        stored x (plain sequence n ys) (
          stored (a + 4) (plain sequence (k + 1) xs) (poke cells a (u32 (bit_xor w (sequence k))))))
      place drawn
    ∙ stored-plain sequence xs ys (a + 4) (k + 1) (poke cells a (u32 (bit_xor w (sequence k))))

further-further : (m n : ℕ) (r : RxState) → further n (further m r) ≡ further (m + n) r
further-further m n r =
    let a : r.wr_buf_addr + 4 * m + 4 * n ≡ r.wr_buf_addr + 4 * (m + n) = omega arith in
    let c : r.wr_bytes + 4 * m + 4 * n ≡ r.wr_bytes + 4 * (m + n) = omega arith in
    ap₂ (λ x y. record r { wr_buf_addr = x; wr_bytes = y }) a c

module _ {sequence : ℕ → ℕ → ℕ} {incoming : List ℕ} where
  pub Took-trans :
      {xs ys : List ℕ} {s t u : State}
      → Took sequence incoming xs s t
      → Took sequence incoming ys t u
      → Took sequence incoming (xs ++ ys) s u
  Took-trans {xs} {ys} {s} {t} {u} p q =
      let n = length-append xs ys in
      record {
        took =
            p.took ∙ ap (λ ws. xs ++ ws) q.took ∙ sym (append_assoc xs ys (left incoming u.events));
        cells =
            q.cells
            ∙ ap₂
                (λ a c.
                  stored a (plain (sequence (replay t.events).seed) (replay t.events).drawn ys) c)
                p.write_at p.cells
            ∙ ap₂
                (λ g k.
                  stored ((replay s.events).write_at + 4 * length xs) (plain (sequence g) k ys) (
                    stored (replay s.events).write_at
                      (plain (sequence (replay s.events).seed) (replay s.events).drawn xs)
                      (replay s.events).cells))
                p.seed p.drawn
            ∙ stored-plain (sequence (replay s.events).seed) xs ys (replay s.events).write_at
                (replay s.events).drawn (replay s.events).cells;
        write_at = omega (arith, q.write_at, p.write_at, n);
        drawn = omega (arith, q.drawn, p.drawn, n);
        seed = q.seed ∙ p.seed;
        variables =
            q.variables
            ∙ ap {A = State} (λ v. record v { events = u.events; rx = further (length ys) v.rx })
                p.variables
            ∙ ap {A = RxState} (λ r. record s { events = u.events; rx = r })
                (further-further (length xs) (length ys) s.rx ∙ ap (λ m. further m s.rx) (sym n));
      }

List-cases : (ws : List ℕ) → (ws ≡ []) ⊎ ((w : ℕ) × (rest : List ℕ) × (ws ≡ w ∷ rest))
List-cases [] = inl refl
List-cases (w ∷ ws) = inr (w, ws, refl)

pub one_on : (a : ℕ) → a + 4 < mem_size → inc_buf a ≡ a + 4 * 1
unfolding inc_buf
one_on a room = ground arith

pub ring_onward :
    (wraps : Bool) (a : ℕ) → mem_rx_buf ≤ a → a + 4 < mem_size → onward wraps a ≡ a + 4 * 1
ring_onward true a low room = omega arith
ring_onward false a low room = omega arith

further-none : (r : RxState) → r ≡ further 0 r
further-none r =
    let a : r.wr_buf_addr ≡ r.wr_buf_addr + 4 * 0 = omega arith in
    let n : r.wr_bytes ≡ r.wr_bytes + 4 * 0 = omega arith in
    ap₂ (λ x y. record r { wr_buf_addr = x; wr_bytes = y }) a n

module _ {b : Board} {incoming : List ℕ} (feed : HasFeed b incoming) {sequence : ℕ → ℕ → ℕ}
    (memory : HasMemory b kept sequence) where
  -- The state behind a round of the loop.
  abbrev word_given : List Event → ℕ
  word_given h = u32 (b.respond h (Request.word Port.rx_fifo))

  abbrev round : List Event → List Event
  round h =
      let p = read_irqs (polled b h) ∷ h in
      let v = word_given p in
      let q = read_word Port.rx_fifo v ∷ p in
      let scram = u32 (b.respond q (Request.word Port.scrambler_port)) in
      wrote_word Port.mem_rd_wr (u32 (bit_xor v scram)) ∷ read_word Port.scrambler_port scram ∷ q

  abbrev rounded : State → State
  rounded s = record s {
    events = round s.events;
    rx = record (s.rx) {
      wr_buf_addr = inc_buf s.rx.wr_buf_addr;
      wr_bytes = u32 (s.rx.wr_bytes + 4);
    };
  }

  rounded-Took :
      (s : State) (w : ℕ) (rest : List ℕ)
      → left incoming s.events ≡ w ∷ rest
      → (replay s.events).write_at ≡ s.rx.wr_buf_addr
      → mem_rx_buf ≤ s.rx.wr_buf_addr
      → s.rx.wr_buf_addr + 4 < mem_size
      → s.rx.wr_bytes + 4 < 2 ^ 32
      → Took sequence incoming (w ∷ []) s (rounded s)
  rounded-Took s w rest first at low room small =
      let given = feed.gives (read_irqs (polled b s.events) ∷ s.events) w rest first in
      record {
        took = first ∙ ap (λ ws. w ∷ tail ws) (sym first);
        cells =
            ap₂
              (λ v scram.
                poke (replay s.events).cells (replay s.events).write_at (u32 (bit_xor v scram)))
              given (memory.draws _);
        write_at =
            ring_onward (writes_wrap (replay s.events).flags) (replay s.events).write_at
              (omega (arith, at)) (omega (arith, at));
        drawn = refl;
        seed = refl;
        variables =
            ap₂
              (λ a n. record s {
                events = round s.events;
                rx = record (s.rx) { wr_buf_addr = a; wr_bytes = n };
              })
              (one_on s.rx.wr_buf_addr room) (omega arith);
      }

  -- The loop ends, and has stored what it took.
  pub data_loop-Took :
      (n : ℕ) (s : State)
      → length (left incoming s.events) < n
      → (replay s.events).write_at ≡ s.rx.wr_buf_addr
      → mem_rx_buf ≤ s.rx.wr_buf_addr
      → s.rx.wr_buf_addr + 4 * length (left incoming s.events) < mem_size
      → s.rx.wr_bytes + 4 * length (left incoming s.events) < 2 ^ 32
      → Returns (λ a s'. (ws : List ℕ) × Took sequence incoming ws s s') (data_loop b n s)
  unfolding data_loop
  data_loop-Took zero s below at low room small = absurd (omega arith)
  data_loop-Took (suc n) s below at low room small = elim (Bool-cases (data_ready b s.events)) [
    | inl on ↦ elim (List-cases (left incoming s.events)) [
      | inl none ↦ let off = feed.ends s.events none in absurd (ground (arith, on, off))
      | inr (w, rest, first) ↦
          let behind : left incoming (rounded s).events ≡ rest = ap tail first in
          let count : length (left incoming s.events) ≡ suc (length rest) = ap length first in
          let step =
            rounded-Took s w rest first at low (omega (arith, count)) (omega (arith, count)) in
          let up : (rounded s).rx.wr_buf_addr ≡ s.rx.wr_buf_addr + 4 * 1 =
            one_on s.rx.wr_buf_addr (omega (arith, count)) in
          let count' : length (left incoming (rounded s).events) ≡ length rest = ap length behind in
          rw on (
            Returns.mono
              (data_loop-Took n (rounded s) (omega (arith, count, count'))
                (omega (arith, step.write_at, at, up)) (omega (arith, up))
                (omega (arith, count, count', up)) (omega (arith, count, count')))
              λ a s' (ws, took). (w ∷ ws, Took-trans step took))
    ]
    | inr off ↦ rw off (
        returns (
          [],
          record {
            took = refl;
            cells = refl;
            write_at = omega arith;
            drawn = omega arith;
            seed = refl;
            variables =
                ap (λ r. record s { events = read_irqs (polled b s.events) ∷ s.events; rx = r })
                  (further-none s.rx);
          },
        ))
  ]
