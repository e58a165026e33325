-- ===== src/Rx/ReadBack.antt =====
-- src/extract_rx.c: a packet from memory, and from the FIFO over memory.
use hbc_mac_src.Base.{
  ℕ, zero, suc, ◌+◌, ◌*◌, ◌/◌, ◌<◌, ◌≤◌, ◌≡◌, refl, sym, ap, ◌∙◌, u32, true, List, [], ◌∷◌, ◌++◌,
  length, length-append, arith,
}
use mathlib.Core.Path.{ap₂}
use hbc_mac_src.Machine.{
  Board, Port, Request, wrote_word, read_word, packet_init, State, M, pure, ◌>>=◌, ◌>>◌, get_rx,
}
use hbc_mac_src.Machine.Returns
use hbc_mac_src.Machine.Returns.{Returns, returns}
use hbc_mac_src.Mem.{mem_size, mem_rx_buf}
use hbc_mac_src.Mem.Fault.{onward, reads_wrap, HasMemory, replay}
use hbc_mac_src.Spi.Dump.{kept}
use hbc_mac_src.Rx.{no_marker, inc_buf, rx_read, rx_packet_ready}
use hbc_mac_src.Rx.Writer.{data_ready}
use hbc_mac_src.Rx.Feed.{ring_onward, left, HasFeed, plain, one_on}
use hbc_mac_src.Rx.Buffering.{packet_words, seed_of}
use hbc_mac_src.Rx.Reception.{receive, closed, receive-IsReceived}
use hbc_mac_src.Rx.Stored.{Gives, AreWords, length-plain, plain-AreWords, received-Gives}

unfoldable pub read_list : Board → ℕ → M (List ℕ)
unfolding rx_read
read_list b zero = pure []
read_list b (suc n) = do w ← rx_read b; ws ← read_list b n; pure (w ∷ ws)

-- A packet, with its marker and header: as many words as the marker counts bytes.
unfoldable pub read_packet : Board → M (List ℕ)
unfolding rx_packet_ready read_list
read_packet b = do count ← rx_packet_ready b; r ← get_rx; read_list b (r.rd_packet_marker / 4)

module _ {b : Board} {sequence : ℕ → ℕ → ℕ} (memory : HasMemory b kept sequence) where
  read_list_lem :
      (ws : List ℕ) (cells : ℕ → ℕ) (a : ℕ) (s : State)
      → (replay s.events).cells ≡ cells
      → s.rx.rd_buf_addr ≡ a
      → Gives cells a ws
      → a + 4 * length ws < mem_size
      → Returns
          (λ read s'.
            (read ≡ ws)
            × ((replay s'.events).cells ≡ cells)
            × ((incoming : List ℕ) → left incoming s'.events ≡ left incoming s.events)
            × (s' ≡ record s {
              events = s'.events;
              rx = record (s.rx) { rd_buf_addr = a + 4 * length ws };
            }))
          (read_list b (length ws) s)
  unfolding read_list
  read_list_lem [] cells a s same at gives room =
      let place : s.rx.rd_buf_addr ≡ a + 4 * 0 = omega (arith, at) in
      returns (
        refl,
        same,
        λ incoming. refl,
        ap {A = ℕ} {B = State} (λ x. record s { rx = record (s.rx) { rd_buf_addr = x } }) place,
      )
  read_list_lem (w ∷ ws) cells a s same at (first, rest) room =
      let pointed = wrote_word Port.mem_rd_p (u32 s.rx.rd_buf_addr) ∷ s.events in
      let value = u32 (b.respond pointed (Request.word Port.mem_rd_wr)) in
      let place : u32 s.rx.rd_buf_addr ≡ a = omega (arith, at) in
      let given : value ≡ w = memory.reads pointed ∙ ap₂ (λ c x. u32 (c x)) same place ∙ first in
      let up : inc_buf s.rx.rd_buf_addr ≡ a + 4 =
        one_on s.rx.rd_buf_addr (omega (arith, at)) ∙ omega (arith, at) in
      let behind : a + 4 + 4 * length ws ≡ a + 4 * suc (length ws) = omega arith in
      let next : State = record s {
        events = read_word Port.mem_rd_wr value ∷ pointed;
        rx = record (s.rx) { rd_buf_addr = inc_buf s.rx.rd_buf_addr };
      } in
      Returns.bind (read_list_lem ws cells (a + 4) next same up rest (omega arith))
        λ read s' (words, kept_cells, kept_feed, variables). returns (
          ap₂ (λ x xs. x ∷ xs) given words,
          kept_cells,
          kept_feed,
          variables
              ∙ ap {A = ℕ} {B = State}
                  (λ x. record s { events = s'.events; rx = record (s.rx) { rd_buf_addr = x } })
                  behind,
        )

  -- rx_packet_ready reads the marker and the header, and leaves the reader at the packet.
  packet_ready_lem :
      (cells : ℕ → ℕ) (a marker header : ℕ) (s : State)
      → (replay s.events).cells ≡ cells
      → s.rx.rd_packet_addr ≡ a
      → mem_rx_buf ≤ a
      → a + 4 < mem_size
      → u32 (cells a) ≡ marker
      → u32 (cells (a + 4)) ≡ header
      → Returns
          (λ ready s'.
            ((replay s'.events).cells ≡ cells)
            × ((incoming : List ℕ) → left incoming s'.events ≡ left incoming s.events)
            × (s' ≡ record s {
              events = s'.events;
              rx = record (s.rx) {
                rd_buf_addr = a;
                rd_packet_marker = marker;
                rd_packet_header = header;
              };
            }))
          (rx_packet_ready b s)
  unfolding rx_packet_ready
  packet_ready_lem cells a marker header s same at low small first second =
      let pointed = wrote_word Port.mem_rd_p (u32 s.rx.rd_packet_addr) ∷ s.events in
      let value = u32 (b.respond pointed (Request.word Port.mem_rd_wr)) in
      let behind = read_word Port.mem_rd_wr value ∷ pointed in
      let value' = u32 (b.respond behind (Request.word Port.mem_rd_wr)) in
      let place : u32 s.rx.rd_packet_addr ≡ a = omega (arith, at) in
      let next_place : onward (reads_wrap (replay s.events).flags) (u32 s.rx.rd_packet_addr)
          ≡ a + 4 =
        ring_onward (reads_wrap (replay s.events).flags) (u32 s.rx.rd_packet_addr)
          (omega (arith, place)) (omega (arith, place))
        ∙ omega (arith, place) in
      let given : value ≡ marker =
        memory.reads pointed ∙ ap₂ (λ c x. u32 (c x)) same place ∙ first in
      let given' : value' ≡ header =
        memory.reads behind ∙ ap₂ (λ c x. u32 (c x)) same next_place ∙ second in
      let end = read_word Port.mem_rd_wr value' ∷ behind in
      returns (
        same,
        λ incoming. refl,
        ap₂ {C = State}
              (λ x y. record s {
                events = end;
                rx = record (s.rx) {
                  rd_buf_addr = x;
                  rd_packet_marker = y;
                  rd_packet_header = value';
                };
              })
              at given
            ∙ ap {A = ℕ} {B = State}
                (λ y. record s {
                  events = end;
                  rx = record (s.rx) {
                    rd_buf_addr = a;
                    rd_packet_marker = marker;
                    rd_packet_header = y;
                  };
                })
                given',
      )

  -- A packet of `marker` bytes.
  read_packet_lem :
      (ws : List ℕ) (cells : ℕ → ℕ) (a marker header : ℕ) (s : State)
      → (replay s.events).cells ≡ cells
      → s.rx.rd_packet_addr ≡ a
      → Gives cells a (marker ∷ header ∷ ws)
      → marker ≡ 8 + 4 * length ws
      → mem_rx_buf ≤ a
      → a + marker < mem_size
      → Returns
          (λ read s'.
            (read ≡ marker ∷ header ∷ ws)
            × ((replay s'.events).cells ≡ cells)
            × ((incoming : List ℕ) → left incoming s'.events ≡ left incoming s.events)
            × (s' ≡ record s {
              events = s'.events;
              rx = record (s.rx) {
                rd_buf_addr = a + marker;
                rd_packet_marker = marker;
                rd_packet_header = header;
              };
            }))
          (read_packet b s)
  unfolding read_packet
  read_packet_lem ws cells a marker header s same at gives size low room =
      let end : a + 4 * length (marker ∷ header ∷ ws) ≡ a + marker = omega (arith, size) in
      Returns.bind {f = λ ready. do r ← get_rx; read_list b (r.rd_packet_marker / 4)}
        (packet_ready_lem cells a marker header s same at low (omega arith) gives.0 gives.1.0)
        λ ready t (same', feed', variables).
          let count : t.rx.rd_packet_marker / 4 ≡ length (marker ∷ header ∷ ws) =
            ap {A = State} (λ v. v.rx.rd_packet_marker / 4) variables ∙ omega (arith, size) in
          rw count (
            Returns.mono
              (read_list_lem (marker ∷ header ∷ ws) cells a t same'
                (ap {A = State} (λ v. v.rx.rd_buf_addr) variables) gives (omega (arith, end)))
              λ read s' (words, kept_cells, kept_feed, variables'). (
                words,
                kept_cells,
                λ incoming. kept_feed incoming ∙ feed' incoming,
                variables'
                    ∙ ap {A = ℕ} {B = State}
                        (λ x. record t {
                          events = s'.events;
                          rx = record (t.rx) { rd_buf_addr = x };
                        })
                        end
                    ∙ ap {A = State}
                        (λ v. record v {
                          events = s'.events;
                          rx = record (v.rx) { rd_buf_addr = a + marker };
                        })
                        variables,
              ))

-- A packet of the words `ws` came in and was read back.
pub record IsReadBack (sequence : ℕ → ℕ → ℕ) (incoming : List ℕ) (header : ℕ) (ws : List ℕ)
    (s : State) (read : List ℕ) (s' : State) : Type 0 where
  pub took : left incoming s.events ≡ header ∷ (ws ++ left incoming s'.events)
  pub words : read ≡ packet_words sequence (8 + 4 * length ws) header ws
  pub variables : s' ≡ record s {
    events = s'.events;
    rx = record (closed (length ws) s.rx) {
      rd_buf_addr = s.rx.wr_buf_addr + (8 + 4 * length ws);
      rd_packet_marker = 8 + 4 * length ws;
      rd_packet_header = header;
    };
  }

module _ {b : Board} {incoming : List ℕ} (feed : HasFeed b incoming) {sequence : ℕ → ℕ → ℕ}
    (memory : HasMemory b kept sequence) where
  -- On a board whose FIFO gives out the words that come in, with a memory that gives each word as
  -- it was last written and a scrambler that repeats its sequence: between packets, with nothing
  -- pending, a word waiting, the next packet to read at the writer's place in the ring and room for
  -- all that comes in before the end of the ring, any number of data interrupts, the interrupt at
  -- the end of the packet and a read of the packet, with nothing run between them, return. The
  -- header and the words that were taken from the FIFO are the first that came in, and what is read
  -- is the marker, which counts their bytes and its own, the header and the words without the
  -- sequence of the header's seed. One packet more is counted, the writer stands behind it, and no
  -- other variable but those of the read has changed.
  pub receive-IsReadBack :
      (n header : ℕ) (rest : List ℕ) (s : State)
      → left incoming s.events ≡ header ∷ rest
      → data_ready b s.events ≡ true
      → s.rx.rx_state ≡ packet_init
      → s.rx.wr_bytes ≡ 0
      → s.rx.rd_packet_addr ≡ s.rx.wr_buf_addr
      → mem_rx_buf ≤ s.rx.wr_buf_addr
      → s.rx.wr_buf_addr + 4 + 4 * length (left incoming s.events) < mem_size
      → Returns
          (λ read s'. (ws : List ℕ) × IsReadBack sequence incoming header ws s read s')
          ((receive b n >> read_packet b) s)
  receive-IsReadBack n header rest s first on init idle empty low room =
      let given = feed.gives s.events header rest first in
      Returns.bind
        (receive-IsReceived feed memory n header rest s first on init idle
          (record { low = low; fits = room }))
        λ a t (ws, got).
          let count : length (left incoming s.events)
              ≡ suc (length ws + length (left incoming t.events)) =
            ap length got.took ∙ ap suc (length-append ws (left incoming t.events)) in
          let bytes = plain (sequence (seed_of header)) 0 ws in
          let size : 8 + 4 * length ws ≡ 8 + 4 * length bytes =
            omega (arith, length-plain (sequence (seed_of header)) 0 ws) in
          let at : t.rx.rd_packet_addr ≡ s.rx.wr_buf_addr =
            ap {A = State} (λ v. v.rx.rd_packet_addr) got.variables ∙ empty in
          let short : AreWords ((8 + 4 * length ws) ∷ header ∷ bytes) = (
            omega (arith, count),
            (omega (arith, given), plain-AreWords (sequence (seed_of header)) 0 ws),
          ) in
          let gives =
            received-Gives bytes s.rx.wr_buf_addr (8 + 4 * length ws) header no_marker
              (replay s.events).cells short in
          Returns.mono
            (read_packet_lem memory bytes _ s.rx.wr_buf_addr (8 + 4 * length ws) header t got.cells
              at gives size low (omega (arith, count)))
            λ read s' (words, cells, feed_kept, variables). (
              ws,
              record {
                took = got.took ∙ ap (λ xs. header ∷ (ws ++ xs)) (sym (feed_kept incoming));
                words = words;
                variables =
                    variables
                    ∙ ap {A = State}
                        (λ v. record v {
                          events = s'.events;
                          rx = record (v.rx) {
                            rd_buf_addr = s.rx.wr_buf_addr + (8 + 4 * length ws);
                            rd_packet_marker = 8 + 4 * length ws;
                            rd_packet_header = header;
                          };
                        })
                        got.variables;
              },
            )
