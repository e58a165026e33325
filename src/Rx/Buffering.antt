-- ===== src/Rx/Buffering.antt =====
-- src/extract_rx.c: a packet that the data interrupts bring to memory.
use hbc_mac_src.Base.{
  ℕ, suc, ◌+◌, ◌*◌, ◌^◌, ◌<◌, ◌≤◌, ◌≡◌, refl, sym, ap, ◌∙◌, u32, truth, true, false, if◌then◌else◌,
  Bool, List, [], ◌∷◌, ◌++◌, length, length-append, arith,
}
use mathlib.Core.Path.{ap₂}
use mathlib.Core.List.{append_assoc}
use hbc_mac_src.Machine.{
  Board, Port, Pin, Event, Request, discrete_set, discrete_clear, read_irqs, read_word, wrote_word,
  RxState, packet_init, packet_reading, State,
}
use hbc_mac_src.Machine.Returns
use hbc_mac_src.Machine.Returns.{Returns, returns}
use hbc_mac_src.Machine.Wait.{polled}
use hbc_mac_src.Mem.{mem_size, mem_rx_buf}
use hbc_mac_src.Mem.Fault.{onward, writes_wrap, Memory, HasMemory, replay, poke}
use hbc_mac_src.Header.{read_ss}
use hbc_mac_src.Spi.Dump.{kept}
use hbc_mac_src.Rx.{no_marker, inc_buf, start_packet, rx_data_int_func}
use hbc_mac_src.Rx.Writer.{data_ready, header_test-init, header_test-reading}
use hbc_mac_src.Rx.Feed.{
  ring_onward, left, tail, one_on, HasFeed, stored, stored-plain, plain, further, Took,
  data_loop-Took,
}

-- The seed of the scrambler that a header asks for.
abbrev pub seed_of : ℕ → ℕ
seed_of header = if truth (read_ss header) then 1 else 0

-- The words of a packet in memory, behind a word for its marker.
abbrev pub packet_words : (ℕ → ℕ → ℕ) → ℕ → ℕ → List ℕ → List ℕ
packet_words sequence marker header ws = marker ∷ header ∷ plain (sequence (seed_of header)) 0 ws

abbrev pub in_packet : ℕ → RxState → RxState
in_packet n r = record r {
  wr_packet_addr = r.wr_buf_addr;
  wr_buf_addr = r.wr_buf_addr + 8 + 4 * n;
  wr_bytes = 8 + 4 * n;
  rx_state = packet_reading;
}

-- Since `s`, where no packet was in progress, a header and the words `ws` were taken and stored.
pub record IsBuffered (sequence : ℕ → ℕ → ℕ) (incoming : List ℕ) (header : ℕ) (ws : List ℕ)
    (s s' : State) : Type 0 where
  pub took : left incoming s.events ≡ header ∷ (ws ++ left incoming s'.events)
  pub cells :
      (replay s'.events).cells
      ≡ stored s.rx.wr_buf_addr (packet_words sequence no_marker header ws) (replay s.events).cells
  pub write_at : (replay s'.events).write_at ≡ s.rx.wr_buf_addr + 8 + 4 * length ws
  pub drawn : (replay s'.events).drawn ≡ length ws
  pub seed : (replay s'.events).seed ≡ seed_of header
  pub variables : s' ≡ record s { events = s'.events; rx = in_packet (length ws) s.rx }

in_packet-further : (m n : ℕ) (r : RxState) → further n (in_packet m r) ≡ in_packet (m + n) r
in_packet-further m n r =
    let a : r.wr_buf_addr + 8 + 4 * m + 4 * n ≡ r.wr_buf_addr + 8 + 4 * (m + n) = omega arith in
    let c : 8 + 4 * m + 4 * n ≡ 8 + 4 * (m + n) = omega arith in
    ap₂ (λ x y. record (in_packet 0 r) { wr_buf_addr = x; wr_bytes = y }) a c

module _ {sequence : ℕ → ℕ → ℕ} {incoming : List ℕ} where
  IsBuffered-Took :
      {header : ℕ} {ws vs : List ℕ} {s t u : State}
      → IsBuffered sequence incoming header ws s t
      → Took sequence incoming vs t u
      → IsBuffered sequence incoming header (ws ++ vs) s u
  IsBuffered-Took {header} {ws} {vs} {s} {t} {u} p q =
      let n = length-append ws vs in
      let here = replay t.events in
      let place : here.write_at ≡ s.rx.wr_buf_addr + 4 + 4 + 4 * length ws =
        omega (arith, p.write_at) in
      let drawn : here.drawn ≡ 0 + length ws = omega (arith, p.drawn) in
      let old =
        poke (poke (replay s.events).cells s.rx.wr_buf_addr no_marker) (s.rx.wr_buf_addr + 4)
          header in
      record {
        took =
            p.took
            ∙ ap (λ xs. header ∷ (ws ++ xs)) q.took
            ∙ ap (λ xs. header ∷ xs) (sym (append_assoc ws vs (left incoming u.events)));
        cells =
            q.cells
            ∙ ap₂ (λ a c. stored a (plain (sequence here.seed) here.drawn vs) c) place p.cells
            ∙ ap₂
                (λ g k.
                  stored (s.rx.wr_buf_addr + 4 + 4 + 4 * length ws) (plain (sequence g) k vs) (
                    stored (s.rx.wr_buf_addr + 4 + 4) (plain (sequence (seed_of header)) 0 ws) old))
                p.seed drawn
            ∙ stored-plain (sequence (seed_of header)) ws vs (s.rx.wr_buf_addr + 4 + 4) 0 old;
        write_at = omega (arith, q.write_at, p.write_at, n);
        drawn = omega (arith, q.drawn, p.drawn, n);
        seed = q.seed ∙ p.seed;
        variables =
            q.variables
            ∙ ap {A = State} (λ v. record v { events = u.events; rx = further (length vs) v.rx })
                p.variables
            ∙ ap {A = RxState} (λ r. record s { events = u.events; rx = r })
                (in_packet-further (length ws) (length vs) s.rx
                  ∙ ap (λ m. in_packet m s.rx) (sym n));
      }

seed_chosen :
    (c : Bool) (h : List Event)
    → replay (
        discrete_set
          (if c then Pin.scram_reseed ∷ Pin.scram_seed_val ∷ [] else Pin.scram_reseed ∷ [])
        ∷ h)
      ≡ record (replay h) { seed = if c then 1 else 0 }
seed_chosen true h = refl
seed_chosen false h = refl

two_on : (a : ℕ) → a + 8 < mem_size → inc_buf (inc_buf a) ≡ a + 8 + 4 * 0
two_on a room = ap inc_buf (one_on a (omega arith)) ∙ one_on (a + 4 * 1) (omega arith) ∙ omega arith

-- The writer stands in the ring, with room before its end for all that comes in.
pub record HasRoom (incoming : List ℕ) (s : State) : Type 0 where
  pub low : mem_rx_buf ≤ s.rx.wr_buf_addr
  pub fits : s.rx.wr_buf_addr + 4 + 4 * length (left incoming s.events) < mem_size

module _ {b : Board} {incoming : List ℕ} (feed : HasFeed b incoming) {sequence : ℕ → ℕ → ℕ}
    (memory : HasMemory b kept sequence) where
  start_packet-IsBuffered :
      (header : ℕ) (rest : List ℕ) (s : State)
      → left incoming s.events ≡ header ∷ rest
      → s.rx.wr_bytes ≡ 0
      → (replay s.events).write_at ≡ s.rx.wr_buf_addr
      → mem_rx_buf ≤ s.rx.wr_buf_addr
      → s.rx.wr_buf_addr + 8 < mem_size
      → Returns (λ a s'. IsBuffered sequence incoming header [] s s') (start_packet b s)
  unfolding start_packet
  start_packet-IsBuffered header rest s first idle at low room =
      let given = feed.gives s.events header rest first in
      let value = u32 (b.respond s.events (Request.word Port.rx_fifo)) in
      let header_kept : u32 value ≡ header = omega (arith, given) in
      let seeded = seed_chosen (truth (read_ss value)) (
        wrote_word Port.mem_rd_wr (u32 value)
        ∷ wrote_word Port.mem_rd_wr no_marker
        ∷ read_word Port.rx_fifo value
        ∷ s.events) in
      let wraps = writes_wrap (replay s.events).flags in
      let a₀ = (replay s.events).write_at in
      let one = ring_onward wraps a₀ (omega (arith, at)) (omega (arith, at)) in
      let two : onward wraps (onward wraps a₀) ≡ s.rx.wr_buf_addr + 8 + 4 * 0 =
        ap (onward wraps) one
        ∙ ring_onward wraps (a₀ + 4 * 1) (omega (arith, at)) (omega (arith, at))
        ∙ omega (arith, at) in
      let second : onward wraps a₀ ≡ s.rx.wr_buf_addr + 4 = one ∙ omega (arith, at) in
      returns (record {
        took = first ∙ ap (λ ws. header ∷ tail ws) (sym first);
        cells =
            ap {A = Memory} (λ m. m.cells) seeded
            ∙ ap₂ (λ a a'. poke (poke (replay s.events).cells a no_marker) a' (u32 value)) at second
            ∙ ap
                (λ v.
                  poke (poke (replay s.events).cells s.rx.wr_buf_addr no_marker)
                    (s.rx.wr_buf_addr + 4) v)
                header_kept;
        write_at = ap {A = Memory} (λ m. m.write_at) seeded ∙ two;
        drawn = refl;
        seed = ap {A = Memory} (λ m. m.seed) seeded ∙ ap seed_of given;
        variables =
            ap₂ {C = State}
              (λ a n. record s {
                events =
                    discrete_clear (Pin.scram_reseed ∷ Pin.scram_seed_val ∷ Pin.scram_seed_clk ∷ [])
                    ∷ discrete_set (Pin.scram_seed_clk ∷ [])
                    ∷ discrete_set (
                        if truth (read_ss value)
                        then Pin.scram_reseed ∷ Pin.scram_seed_val ∷ []
                        else Pin.scram_reseed ∷ [])
                    ∷ wrote_word Port.mem_rd_wr (u32 value)
                    ∷ wrote_word Port.mem_rd_wr no_marker
                    ∷ read_word Port.rx_fifo value
                    ∷ s.events;
                rx = record (in_packet 0 s.rx) { wr_buf_addr = a; wr_bytes = n };
              })
              (two_on s.rx.wr_buf_addr room) (omega (arith, idle));
      })

  -- What is in memory and on the way, for what is still to be stored.
  pub room_left :
      (header : ℕ) (ws : List ℕ) (s t : State)
      → IsBuffered sequence incoming header ws s t
      → HasRoom incoming s
      → (t.rx.wr_buf_addr + 4 * length (left incoming t.events) < mem_size)
        × (t.rx.wr_bytes + 4 * length (left incoming t.events) < 2 ^ 32)
        × (mem_rx_buf ≤ t.rx.wr_buf_addr)
  room_left header ws s t buffered room =
      let count : length (left incoming s.events)
          ≡ suc (length ws + length (left incoming t.events)) =
        ap length buffered.took ∙ ap suc (length-append ws (left incoming t.events)) in
      let place : t.rx.wr_buf_addr ≡ s.rx.wr_buf_addr + 8 + 4 * length ws =
        ap {A = State} (λ v. v.rx.wr_buf_addr) buffered.variables in
      let bytes : t.rx.wr_bytes ≡ 8 + 4 * length ws =
        ap {A = State} (λ v. v.rx.wr_bytes) buffered.variables in
      (omega (arith, count, place), omega (arith, count, bytes), omega (arith, place))

  -- The first interrupt of a packet.
  pub data_int-IsBuffered :
      (header : ℕ) (rest : List ℕ) (s : State)
      → left incoming s.events ≡ header ∷ rest
      → data_ready b s.events ≡ true
      → s.rx.rx_state ≡ packet_init
      → s.rx.wr_bytes ≡ 0
      → HasRoom incoming s
      → Returns
          (λ a s'. (ws : List ℕ) × IsBuffered sequence incoming header ws s s')
          (rx_data_int_func b s)
  unfolding rx_data_int_func
  data_int-IsBuffered header rest s first on init idle room =
      let pointed = wrote_word Port.mem_wr_p (u32 s.rx.wr_buf_addr) ∷ s.events in
      let at_address : State = record s { events = pointed } in
      let begins = feed.waits_pointed (u32 s.rx.wr_buf_addr) s.events on in
      let asked : State = record s { events = read_irqs (polled b pointed) ∷ pointed } in
      let count : length (left incoming s.events) ≡ suc (length rest) = ap length first in
      rw (header_test-init b at_address init begins) (
        Returns.bind
          (start_packet-IsBuffered header rest asked first idle (omega arith) room.low
            (omega (arith, count)))
          λ a t begun.
            let (fits, small, low) =
              room_left header [] asked t begun (record { low = room.low; fits = room.fits }) in
            Returns.mono
              (data_loop-Took feed memory b.patience t (feed.bounded t.events)
                (omega
                  (arith, begun.write_at, ap {A = State} (λ v. v.rx.wr_buf_addr) begun.variables))
                low fits small)
              λ a' u (ws, took).
                let all = IsBuffered-Took begun took in
                (
                  ws,
                  record {
                    took = all.took;
                    cells = all.cells;
                    write_at = all.write_at;
                    drawn = all.drawn;
                    seed = all.seed;
                    variables = all.variables;
                  },
                ))

  -- A further one.
  pub data_int-more :
      (header : ℕ) (ws : List ℕ) (s t : State)
      → IsBuffered sequence incoming header ws s t
      → HasRoom incoming s
      → Returns
          (λ a s'. (vs : List ℕ) × IsBuffered sequence incoming header vs s s')
          (rx_data_int_func b t)
  unfolding rx_data_int_func
  data_int-more header ws s t buffered room =
      let pointed = wrote_word Port.mem_wr_p (u32 t.rx.wr_buf_addr) ∷ t.events in
      let at_address : State = record t { events = pointed } in
      let reading : t.rx.rx_state ≡ packet_reading =
        ap {A = State} (λ v. v.rx.rx_state) buffered.variables in
      let (fits, small, low) = room_left header ws s t buffered room in
      let place : t.rx.wr_buf_addr ≡ s.rx.wr_buf_addr + 8 + 4 * length ws =
        ap {A = State} (λ v. v.rx.wr_buf_addr) buffered.variables in
      let here : IsBuffered sequence incoming header ws s at_address = record {
        took = buffered.took;
        cells = buffered.cells;
        write_at = omega (arith, place, fits);
        drawn = buffered.drawn;
        seed = buffered.seed;
        variables = ap {A = State} (λ v. record v { events = pointed }) buffered.variables;
      } in
      rw (header_test-reading b at_address reading) (
        Returns.mono
          (data_loop-Took feed memory b.patience at_address (feed.bounded pointed)
            (omega (arith, fits)) low fits small)
          λ a u (vs, took). (ws ++ vs, IsBuffered-Took here took))
