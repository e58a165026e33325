-- ===== src/Flash/Programming.antt =====
-- The pages that flash_write programs on the chip.
use hbc_mac_src.Base.{
  ℕ, zero, suc, ◌+◌, ◌*◌, ◌/◌, ◌%◌, ◌^◌, ◌≤◌, ◌<◌, ◌≡◌, refl, sym, ◌∙◌, u8, u32, true, false,
  bit_and, List, ◌∷◌, arith, ap,
}
use mathlib.Core.Path.{subst}
use hbc_mac_src.Machine.{Board, Port, Event, Request, read_word, State, ◌>>◌}
use hbc_mac_src.Machine.Returns
use hbc_mac_src.Machine.Returns.{Returns, returns}
use hbc_mac_src.Mem.Fault.{Memory, HasMemory, replay, poke, reads_wrap, onward, Stays, onward-Stays}
use hbc_mac_src.Spi.Output.{byte_at}
use hbc_mac_src.Spi.Dump.{kept}
use hbc_mac_src.Flash.{flash_end, wait_written, program_words, program_page, program_pages}
use hbc_mac_src.Flash.Chip.{
  Chip, close, deselected, Part, chip, HasChip, programming, place_in_page, select,
}
use hbc_mac_src.Flash.Settling.{
  sent, selected, released, enabled, exchange, resting, chip-enabled, wait_written-IsRested,
}
use hbc_mac_src.Flash.Copying.{source, copied, copied_next, source_byte}

-- In a frame that programs the page at `a`, of which `n` bytes have come: the chip holds `k` bytes of
-- memory from `from` on, at `to`, over what it held before.
pub record IsCopying (p : Part) (cells : ℕ → ℕ) (from to k a n : ℕ) (old : ℕ → ℕ) (h : List Event)
    : Type 0 where
  pub phase : (chip p h).phase ≡ programming a n
  pub holds : (x : ℕ) → (chip p h).cells x ≡ copied (source cells from) to k old x
  pub next : a + n ≡ to + k
  pub page : a % 256 ≡ 0

module _ {b : Board} {p : Part} (has : HasChip b p) (cells : ℕ → ℕ) (from to : ℕ) (old : ℕ → ℕ)
    (flags : ℕ) where
  chip-sent :
      (v a n : ℕ) (h : List Event)
      → (chip p h).phase ≡ programming a n
      → chip p (sent b v h) ≡ record (chip p h) {
        cells =
            poke
              (chip p h).cells
              (place_in_page a n)
              (bit_and ((chip p h).cells (place_in_page a n)) (u8 v));
        phase = programming a (n + 1);
      }
  chip-sent v a n h at = ap {B = Chip} (λ f. exchange (record (chip p h) { phase = f }) (u8 v)) at

  byte-IsCopying :
      (v k k' a n n' : ℕ) (h : List Event)
      → k + 1 ≡ k'
      → n + 1 ≡ n'
      → IsCopying p cells from to k a n old h
      → u8 v ≡ source cells from k
      → n < 256
      → old (to + k) ≡ 255
      → IsCopying p cells from to k' a n' old (sent b v h)
  byte-IsCopying v k k' a n n' h ek en c same fits blank =
      let after = chip-sent v a n h c.phase in
      record {
        phase = ap {A = Chip} (λ d. d.phase) after ∙ ap (λ m. programming a m) en;
        holds = λ x.
            ap {A = Chip} (λ d. d.cells x) after
            ∙ copied_next (source cells from) old (chip p h).cells to k (place_in_page a n) (u8 v) x
                (omega (arith, c.next, c.page)) same (omega arith) blank c.holds
            ∙ ap (λ m. copied (source cells from) to m old x) ek;
        next = omega (arith, c.next);
        page = c.page;
      }

  chip-page_begun :
      (page : ℕ) (h : List Event)
      → (chip p h).work ≡ 0
      → chip p
          (sent b 0 (sent b page (sent b (page / 2 ^ 8) (sent b 0x02 (selected (enabled b h))))))
        ≡ record (resting (chip p h).cells true) {
          phase = programming (((0 * 256 + u8 (page / 2 ^ 8)) * 256 + u8 page) * 256 + 0) 0;
        }
  chip-page_begun page h rest =
      ap {A = Chip} {B = Chip}
        (λ c.
          exchange (exchange (exchange (exchange (select c) 0x02) (u8 (page / 2 ^ 8))) (u8 page)) 0)
        (chip-enabled b p h rest)

  chip-released :
      (h : List Event) (a n : ℕ)
      → (chip p h).phase ≡ programming a n
      → chip p (released h)
        ≡ record (chip p h) { latch = false; work = p.delay h; phase = deselected }
  chip-released h a n at = ap {B = Chip} (λ f. close (p.delay h) (chip p h) f) at

  -- In such a frame, with the memory at the word of byte `k`; only the history differs from `s`.
  record IsUnderway (k a n : ℕ) (s s' : State) : Type 0 where
    copying : IsCopying p cells from to k a n old s'.events
    memory : (replay s'.events).cells ≡ cells
    read_at : (replay s'.events).read_at ≡ from + k
    same_flags : (replay s'.events).flags ≡ flags
    variables : s' ≡ record s { events = s'.events }

  abbrev word_read : State → ℕ
  word_read s = u32 (b.respond s.events (Request.word Port.mem_rd_wr))

  abbrev word_sent : State → State
  word_sent s =
      let w = word_read s in
      record s {
        events = sent b (w / 2 ^ 24) (
            sent b (w / 2 ^ 16)
              (sent b (w / 2 ^ 8) (sent b w (read_word Port.mem_rd_wr w ∷ s.events))));
      }

  module _ {sequence : ℕ → ℕ → ℕ} (has_memory : HasMemory b kept sequence) (total : ℕ)
      (stays : Stays (reads_wrap flags) from total)
      (blank : (j : ℕ) → j < total → old (to + j) ≡ 255) where
    word-IsUnderway :
        (k a n : ℕ) (s s' : State)
        → IsUnderway k a n s s'
        → k % 4 ≡ 0
        → n + 4 ≤ 256
        → k + 4 ≤ total
        → IsUnderway (k + 4) a (n + 4) s (word_sent s')
    word-IsUnderway k a n s s' u whole fits small =
        let w = word_read s' in
        let read : w ≡ u32 (cells (from + k)) =
          has_memory.reads s'.events
          ∙ ap (λ c. u32 (c ((replay s'.events).read_at))) u.memory
          ∙ ap (λ r. u32 (cells r)) u.read_at in
        let h₀ = read_word Port.mem_rd_wr w ∷ s'.events in
        let c₀ : IsCopying p cells from to k a n old h₀ = record {
          phase = u.copying.phase;
          holds = u.copying.holds;
          next = u.copying.next;
          page = u.copying.page;
        } in
        let low : u8 w ≡ byte_at w 0 = omega arith in
        let c₁ =
          byte-IsCopying w k (k + 1) a n (n + 1) h₀ refl refl c₀
            (low ∙ source_byte cells from k 0 k w (omega arith) whole (omega arith) read)
            (omega arith) (blank k (omega arith)) in
        let c₂ =
          byte-IsCopying (w / 2 ^ 8) (k + 1) (k + 2) a (n + 1) (n + 2) _ (omega arith) (omega arith)
            c₁ (source_byte cells from k 1 (k + 1) w refl whole (omega arith) read) (omega arith)
            (blank (k + 1) (omega arith)) in
        let c₃ =
          byte-IsCopying (w / 2 ^ 16) (k + 2) (k + 3) a (n + 2) (n + 3) _ (omega arith)
            (omega arith) c₂ (source_byte cells from k 2 (k + 2) w refl whole (omega arith) read)
            (omega arith) (blank (k + 2) (omega arith)) in
        let c₄ =
          byte-IsCopying (w / 2 ^ 24) (k + 3) (k + 4) a (n + 3) (n + 4) _ (omega arith)
            (omega arith) c₃ (source_byte cells from k 3 (k + 3) w refl whole (omega arith) read)
            (omega arith) (blank (k + 3) (omega arith)) in
        record {
          copying = c₄;
          memory = u.memory;
          read_at =
              ap (λ f. onward (reads_wrap f) (replay s'.events).read_at) u.same_flags
              ∙ ap (onward (reads_wrap flags)) u.read_at
              ∙ onward-Stays (reads_wrap flags) from total k stays small
              ∙ omega arith;
          same_flags = u.same_flags;
          variables = ap {A = State} (λ t. record t { events = (word_sent s').events }) u.variables;
        }

    program_words-IsUnderway :
        (left k k' a n n' : ℕ) (s s' : State)
        → k + 4 * left ≡ k'
        → n + 4 * left ≡ n'
        → IsUnderway k a n s s'
        → k % 4 ≡ 0
        → n' ≤ 256
        → k' ≤ total
        → Returns (λ r t. IsUnderway k' a n' s t) (program_words b left s')
    unfolding program_words
    program_words-IsUnderway zero k k' a n n' s s' ek en u whole fits small =
        let kk : k ≡ k' = omega arith in
        let nn : n ≡ n' = omega arith in
        returns (subst (λ m. IsUnderway k' a m s s') nn (subst (λ m. IsUnderway m a n s s') kk u))
    program_words-IsUnderway (suc left) k k' a n n' s s' ek en u whole fits small =
        program_words-IsUnderway left (k + 4) k' a (n + 4) n' s (word_sent s') (omega arith)
          (omega arith) (word-IsUnderway k a n s s' u whole (omega arith) (omega arith))
          (omega arith) fits small

    -- Between two pages.
    pub record IsBetween (k : ℕ) (s s' : State) : Type 0 where
      pub holds : (x : ℕ) → (chip p s'.events).cells x ≡ copied (source cells from) to k old x
      pub at_rest : (chip p s'.events).work ≡ 0
      pub memory : (replay s'.events).cells ≡ cells
      pub read_at : (replay s'.events).read_at ≡ from + k
      pub same_flags : (replay s'.events).flags ≡ flags
      pub variables : s' ≡ record s { events = s'.events }

    abbrev page_begun : ℕ → State → State
    page_begun page s = record s {
      events =
          sent b 0
            (sent b page (sent b (page / 2 ^ 8) (sent b 0x02 (selected (enabled b s.events)))));
    }

    page_begun-IsUnderway :
        (k page : ℕ) (s s' : State)
        → IsBetween k s s'
        → page * 256 ≡ to + k
        → page < 65536
        → IsUnderway k (page * 256) 0 s (page_begun page s')
    page_begun-IsUnderway k page s s' t at small =
        let begun = chip-page_begun page s'.events t.at_rest in
        record {
          copying = record {
            phase = ap {A = Chip} (λ c. c.phase) begun ∙ ap (λ a. programming a 0) (omega arith);
            holds = λ x. ap {A = Chip} (λ c. c.cells x) begun ∙ t.holds x;
            next = omega arith;
            page = omega arith;
          };
          memory = t.memory;
          read_at = t.read_at;
          same_flags = t.same_flags;
          variables =
              ap {A = State} (λ u. record u { events = (page_begun page s').events }) t.variables;
        }

    program_page-IsBetween :
        (k k' page : ℕ) (s s' : State)
        → IsBetween k s s'
        → k + 256 ≡ k'
        → k' ≤ total
        → k % 4 ≡ 0
        → page * 256 ≡ to + k
        → page < 65536
        → Returns (λ r t. IsBetween k' s t) (program_page b page s')
    unfolding program_page
    program_page-IsBetween k k' page s s' t ek small whole at fits =
        Returns.bind {f = λ r. flash_end >> wait_written b b.patience}
          (program_words-IsUnderway 64 k k' (page * 256) 0 256 s (page_begun page s') (omega arith)
            (omega arith) (page_begun-IsUnderway k page s s' t at fits) whole (omega arith) small)
          λ r u done.
            let closed = chip-released u.events (page * 256) 256 done.copying.phase in
            Returns.mono
              (wait_written-IsRested has b.patience (record u { events = released u.events })
                (subst (λ c. c.work < b.patience) (sym closed) (has.brief u.events)))
              λ r' v rested. record {
                holds = λ x.
                    rested.holds x ∙ ap {A = Chip} (λ c. c.cells x) closed ∙ done.copying.holds x;
                at_rest = rested.at_rest;
                memory = ap {A = Memory} (λ m. m.cells) rested.memory ∙ done.memory;
                read_at = ap {A = Memory} (λ m. m.read_at) rested.memory ∙ done.read_at;
                same_flags = ap {A = Memory} (λ m. m.flags) rested.memory ∙ done.same_flags;
                variables =
                    rested.variables
                    ∙ ap {A = State} (λ w. record w { events = v.events }) done.variables;
              }

    -- Pages one behind the other.
    pub program_pages-IsBetween :
        (pages k k' page : ℕ) (s s' : State)
        → IsBetween k s s'
        → k + 256 * pages ≡ k'
        → k' ≤ total
        → k % 4 ≡ 0
        → page * 256 ≡ to + k
        → page + pages ≤ 65536
        → Returns (λ r t. IsBetween k' s t) (program_pages b page pages s')
    unfolding program_pages
    program_pages-IsBetween zero k k' page s s' t ek small whole at fits =
        let kk : k ≡ k' = omega arith in returns (subst (λ m. IsBetween m s s') kk t)
    program_pages-IsBetween (suc pages) k k' page s s' t ek small whole at fits =
        Returns.bind
          (program_page-IsBetween k (k + 256) page s s' t refl (omega arith) whole at (omega arith))
          λ r u next.
            program_pages-IsBetween pages (k + 256) k' (page + 1) s u next (omega arith) small
              (omega arith) (omega arith) (omega arith)
