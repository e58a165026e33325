-- ===== src/Rx/Reception.antt =====
-- src/extract_rx.c: a packet from the FIFO to memory, over any number of interrupts.
use hbc_mac_src.Base.{
  ℕ, zero, suc, ◌+◌, ◌*◌, ◌≡◌, ap, ◌∙◌, u32, truth, true, List, [], ◌∷◌, ◌++◌, length, arith,
  Bool-cases, inl, inr,
}
use mathlib.Core.Path.{ap₂}
use hbc_mac_src.Machine.{
  Board, Port, Pin, discrete_set, discrete_clear, read_irqs, wrote_word, RxState, packet_init,
  State, Action, ◌>>◌,
}
use hbc_mac_src.Machine.Returns
use hbc_mac_src.Machine.Returns.{Returns, returns}
use hbc_mac_src.Machine.Wait.{polled}
use hbc_mac_src.Mem.Fault.{HasMemory, replay, poke}
use hbc_mac_src.Spi.Dump.{kept}
use hbc_mac_src.Rx.{no_marker, rx_data_int_func, rx_ready_int_func, finish_packet, acknowledge}
use hbc_mac_src.Rx.Writer.{data_ready}
use hbc_mac_src.Rx.Marker.{last_part}
use hbc_mac_src.Rx.Feed.{left, HasFeed, stored}
use hbc_mac_src.Rx.Buffering.{
  packet_words, IsBuffered, HasRoom, room_left, data_int-IsBuffered, data_int-more,
}

-- A packet is in memory: its marker leads behind its last word, and it is counted.
abbrev pub closed : ℕ → RxState → RxState
closed n r = record r {
  wr_packet_addr = r.wr_buf_addr;
  wr_buf_addr = r.wr_buf_addr + 8 + 4 * n;
  wr_bytes = 0;
  rx_state = packet_init;
  packet_ready = u32 (r.packet_ready + 1);
}

pub record IsReceived (sequence : ℕ → ℕ → ℕ) (incoming : List ℕ) (header : ℕ) (ws : List ℕ)
    (s s' : State) : Type 0 where
  pub took : left incoming s.events ≡ header ∷ (ws ++ left incoming s'.events)
  pub cells :
      (replay s'.events).cells
      ≡ poke
          (stored s.rx.wr_buf_addr
            (packet_words sequence no_marker header ws)
            (replay s.events).cells)
          s.rx.wr_buf_addr
          (8 + 4 * length ws)
  pub variables : s' ≡ record s { events = s'.events; rx = closed (length ws) s.rx }

-- `n` interrupts of data, and the one at the end of the packet.
unfoldable pub receive : Board → ℕ → Action
unfolding rx_data_int_func rx_ready_int_func
receive b zero = rx_ready_int_func b
receive b (suc n) = rx_data_int_func b >> receive b n

module _ {b : Board} {incoming : List ℕ} (feed : HasFeed b incoming) {sequence : ℕ → ℕ → ℕ}
    (memory : HasMemory b kept sequence) where
  last_part-IsReceived :
      (header : ℕ) (ws : List ℕ) (s t : State)
      → IsBuffered sequence incoming header ws s t
      → HasRoom incoming s
      → Returns (λ a s'. (vs : List ℕ) × IsReceived sequence incoming header vs s s') (last_part t)
  unfolding finish_packet acknowledge
  last_part-IsReceived header ws s t buffered room =
      let (fits, small, low) = room_left feed memory header ws s t buffered room in
      let bytes : t.rx.wr_bytes ≡ 8 + 4 * length ws =
        ap {A = State} (λ v. v.rx.wr_bytes) buffered.variables in
      let packet : t.rx.wr_packet_addr ≡ s.rx.wr_buf_addr =
        ap {A = State} (λ v. v.rx.wr_packet_addr) buffered.variables in
      let place : u32 t.rx.wr_packet_addr ≡ s.rx.wr_buf_addr = omega (arith, packet) in
      let marker : u32 t.rx.wr_bytes ≡ 8 + 4 * length ws = omega (arith, bytes) in
      let pending : truth t.rx.wr_bytes ≡ true = ground (arith, bytes) in
      rw pending (
        returns (
          ws,
          record {
            took = buffered.took;
            cells =
                ap₂ (λ a v. poke (replay t.events).cells a v) place marker
                ∙ ap (λ c. poke c s.rx.wr_buf_addr (8 + 4 * length ws)) buffered.cells;
            variables =
                ap {A = State}
                  (λ v. record v {
                    events =
                        discrete_clear (Pin.hbc_rx_pkt_ack ∷ [])
                        ∷ discrete_set (Pin.hbc_rx_pkt_ack ∷ [])
                        ∷ wrote_word Port.mem_rd_wr (u32 t.rx.wr_bytes)
                        ∷ wrote_word Port.mem_wr_p (u32 t.rx.wr_packet_addr)
                        ∷ t.events;
                    rx = record (v.rx) {
                      wr_bytes = 0;
                      packet_ready = u32 (v.rx.packet_ready + 1);
                      rx_state = packet_init;
                    };
                  })
                  buffered.variables;
          },
        ))

  -- The interrupt at the end of a packet, of which a part is in memory.
  ready_int-IsReceived :
      (header : ℕ) (ws : List ℕ) (s t : State)
      → IsBuffered sequence incoming header ws s t
      → HasRoom incoming s
      → Returns
          (λ a s'. (vs : List ℕ) × IsReceived sequence incoming header vs s s')
          (rx_ready_int_func b t)
  unfolding rx_ready_int_func
  ready_int-IsReceived header ws s t buffered room =
      let asked = read_irqs (polled b t.events) ∷ t.events in
      let polled_once : State = record t { events = asked } in
      let here : IsBuffered sequence incoming header ws s polled_once = record {
        took = buffered.took;
        cells = buffered.cells;
        write_at = buffered.write_at;
        drawn = buffered.drawn;
        seed = buffered.seed;
        variables = ap {A = State} (λ v. record v { events = asked }) buffered.variables;
      } in
      elim (Bool-cases (data_ready b t.events)) [
        | inl on ↦ rw on (
            Returns.bind (data_int-more feed memory header ws s polled_once here room)
              λ a u (vs, more). last_part-IsReceived header vs s u more room)
        | inr off ↦ rw off (last_part-IsReceived header ws s polled_once here room)
      ]

  -- The interrupt at the end of a packet that begins in it.
  ready_int-whole :
      (header : ℕ) (rest : List ℕ) (s : State)
      → left incoming s.events ≡ header ∷ rest
      → data_ready b s.events ≡ true
      → s.rx.rx_state ≡ packet_init
      → s.rx.wr_bytes ≡ 0
      → HasRoom incoming s
      → Returns
          (λ a s'. (vs : List ℕ) × IsReceived sequence incoming header vs s s')
          (rx_ready_int_func b s)
  unfolding rx_ready_int_func
  ready_int-whole header rest s first on init idle room =
      let asked = read_irqs (polled b s.events) ∷ s.events in
      let polled_once : State = record s { events = asked } in
      rw on (
        Returns.bind
          (data_int-IsBuffered feed memory header rest polled_once first
            (feed.waits_polled (polled b s.events) s.events on) init idle
            (record { low = room.low; fits = room.fits }))
          λ a t (ws, buffered).
            Returns.mono
              (last_part-IsReceived header ws polled_once t buffered
                (record { low = room.low; fits = room.fits }))
              λ a' u (vs, done).
                (vs, record { took = done.took; cells = done.cells; variables = done.variables }))

  receive-more :
      (n header : ℕ) (ws : List ℕ) (s t : State)
      → IsBuffered sequence incoming header ws s t
      → HasRoom incoming s
      → Returns
          (λ a s'. (vs : List ℕ) × IsReceived sequence incoming header vs s s')
          (receive b n t)
  unfolding receive
  receive-more zero header ws s t buffered room = ready_int-IsReceived header ws s t buffered room
  receive-more (suc n) header ws s t buffered room =
      Returns.bind (data_int-more feed memory header ws s t buffered room)
        λ a u (vs, more). receive-more n header vs s u more room

  -- A packet comes to stand in memory, with its marker.
  pub receive-IsReceived :
      (n header : ℕ) (rest : List ℕ) (s : State)
      → left incoming s.events ≡ header ∷ rest
      → data_ready b s.events ≡ true
      → s.rx.rx_state ≡ packet_init
      → s.rx.wr_bytes ≡ 0
      → HasRoom incoming s
      → Returns
          (λ a s'. (ws : List ℕ) × IsReceived sequence incoming header ws s s')
          (receive b n s)
  unfolding receive
  receive-IsReceived zero header rest s first on init idle room =
      ready_int-whole header rest s first on init idle room
  receive-IsReceived (suc n) header rest s first on init idle room =
      Returns.bind (data_int-IsBuffered feed memory header rest s first on init idle room)
        λ a t (ws, buffered). receive-more n header ws s t buffered room
