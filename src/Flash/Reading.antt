-- ===== src/Flash/Reading.antt =====
-- src/flash.c: the words that a frame that reads gives.
use hbc_mac_src.Base.{
  ℕ, ◌+◌, ◌*◌, ◌/◌, ◌^◌, ◌≤◌, ◌<◌, ◌≡◌, refl, ◌∙◌, ◌<<<◌, bit_or, u8, Bool, true, false,
  if◌then◌else◌, List, ◌∷◌, arith, ap,
}
use hbc_mac_src.Base.Bits.Fields.{or_above}
use hbc_mac_src.Machine.{Board, Port, Event, Request, wrote_byte}
use hbc_mac_src.Spi.Load.{word_of}
use hbc_mac_src.Flash.Chip.{
  Chip, Phase, Part, chip, give, release, reading, showing, select, take, HasChip,
}
use hbc_mac_src.Flash.Settling.{sent, selected, exchange}

-- The word at an address of the chip, its lowest byte first.
abbrev pub flash_word : (ℕ → ℕ) → ℕ → ℕ
flash_word cells a =
    word_of (u8 (cells a)) (u8 (cells (a + 1))) (u8 (cells (a + 2))) (u8 (cells (a + 3)))

joined :
    {v₀ v₁ v₂ v₃ : ℕ} (x y z w : ℕ)
    → v₀ ≡ u8 x
    → v₁ ≡ u8 y
    → v₂ ≡ u8 z
    → v₃ ≡ u8 w
    → bit_or (bit_or (bit_or v₀ (v₁ <<< 8)) (v₂ <<< 16)) (v₃ <<< 24)
      ≡ word_of (u8 x) (u8 y) (u8 z) (u8 w)
joined x y z w e₀ e₁ e₂ e₃ =
    rw (e₀, e₁, e₂, e₃)
      (ground (
        arith,
        or_above 8 (u8 x) (u8 y) (omega arith),
        or_above 16 (u8 x + u8 y * 2 ^ 8) (u8 z) (omega arith),
        or_above 24 (u8 x + u8 y * 2 ^ 8 + u8 z * 2 ^ 16) (u8 w) (omega arith),
      ))

either_way : (c : Bool) (v : ℕ) → (if c then v else v) ≡ v
either_way true v = refl
either_way false v = refl

-- In a frame that reads, the next byte sent has the byte at `a` for its answer.
pub record IsReading (flash : ℕ → ℕ) (a : ℕ) (c : Chip) : Type 0 where
  pub shows : (v : ℕ) → (take c v).phase ≡ showing a
  pub holds : (v : ℕ) → (take c v).cells ≡ flash
  pub rests : (v : ℕ) → (take c v).work ≡ 0
  pub left_cells : (d : ℕ) → (release d c).cells ≡ flash
  pub left_work : (d : ℕ) → (release d c).work ≡ 0

module _ {b : Board} {p : Part} (has : HasChip b p) (flash : ℕ → ℕ) where
  abbrev answer : List Event → ℕ
  answer h = u8 (b.respond (wrote_byte Port.flash_port 0 ∷ h) (Request.byte Port.flash_port))

  answer-IsReading :
      (a : ℕ) (h : List Event) → a < p.size → IsReading flash a (chip p h) → answer h ≡ u8 (flash a)
  answer-IsReading a h fits r =
      has.output (wrote_byte Port.flash_port 0 ∷ h) a (r.shows 0) fits
      ∙ ap (λ c. u8 (c a)) (r.holds 0)

  sent-IsReading :
      (a a' : ℕ) (h : List Event)
      → a + 1 ≡ a'
      → IsReading flash a (chip p h)
      → IsReading flash a' (chip p (sent b 0 h))
  sent-IsReading a a' h e r = record {
    shows = λ v.
        ap {B = Phase} (λ f. (take (give (record (take (chip p h) 0) { phase = f })) v).phase)
          (r.shows 0)
        ∙ ap showing e;
    holds = λ v.
        ap {B = ℕ → ℕ} (λ f. (take (give (record (take (chip p h) 0) { phase = f })) v).cells)
          (r.shows 0)
        ∙ r.holds 0;
    rests = λ v.
        ap {B = ℕ} (λ f. (take (give (record (take (chip p h) 0) { phase = f })) v).work)
          (r.shows 0)
        ∙ r.rests 0;
    left_cells = λ d.
        ap {B = ℕ → ℕ} (λ f. (release d (give (record (take (chip p h) 0) { phase = f }))).cells)
          (r.shows 0)
        ∙ r.holds 0;
    left_work = λ d.
        ap {B = ℕ} (λ f. (release d (give (record (take (chip p h) 0) { phase = f }))).work)
          (r.shows 0)
        ∙ r.rests 0;
  }

  abbrev pub four_sent : List Event → List Event
  four_sent h = sent b 0 (sent b 0 (sent b 0 (sent b 0 h)))

  -- The word that read_flash_word makes of four answers.
  abbrev pub word_given : List Event → ℕ
  word_given h =
      bit_or
        (bit_or (bit_or (answer h) (answer (sent b 0 h) <<< 8))
          (answer (sent b 0 (sent b 0 h)) <<< 16))
        (answer (sent b 0 (sent b 0 (sent b 0 h))) <<< 24)

  pub word-IsReading :
      (a : ℕ) (h : List Event)
      → a + 4 ≤ p.size
      → IsReading flash a (chip p h)
      → (word_given h ≡ flash_word flash a) × IsReading flash (a + 4) (chip p (four_sent h))
  word-IsReading a h fits r =
      let r₁ = sent-IsReading a (a + 1) h refl r in
      let r₂ = sent-IsReading (a + 1) (a + 2) (sent b 0 h) (omega arith) r₁ in
      let r₃ = sent-IsReading (a + 2) (a + 3) (sent b 0 (sent b 0 h)) (omega arith) r₂ in
      let r₄ = sent-IsReading (a + 3) (a + 4) (sent b 0 (sent b 0 (sent b 0 h))) (omega arith) r₃ in
      (
        joined (flash a) (flash (a + 1)) (flash (a + 2)) (flash (a + 3))
            (answer-IsReading a h (omega arith) r) (answer-IsReading (a + 1) _ (omega arith) r₁)
            (answer-IsReading (a + 2) _ (omega arith) r₂)
            (answer-IsReading (a + 3) _ (omega arith) r₃),
        r₄,
      )

  -- The command of a read, with its address.
  abbrev pub begun : ℕ → List Event → List Event
  begun flash_addr h =
      sent b flash_addr
        (sent b (flash_addr / 2 ^ 8) (sent b (flash_addr / 2 ^ 16) (sent b 0x03 (selected h))))

  chip-begun :
      (flash_addr : ℕ) (h : List Event)
      → (chip p h).work ≡ 0
      → chip p (begun flash_addr h) ≡ record (chip p h) {
        work = 0;
        phase = reading (
            ((0 * 256 + u8 (flash_addr / 2 ^ 16)) * 256 + u8 (flash_addr / 2 ^ 8)) * 256
            + u8 flash_addr);
      }
  chip-begun flash_addr h rest =
      ap {A = ℕ} {B = Chip}
        (λ w.
          exchange
            (exchange
              (exchange (exchange (select (record (chip p h) { work = w })) 0x03)
                (u8 (flash_addr / 2 ^ 16)))
              (u8 (flash_addr / 2 ^ 8)))
            (u8 flash_addr))
        rest

  pub begun-IsReading :
      (flash_addr : ℕ) (h : List Event)
      → (chip p h).work ≡ 0
      → (chip p h).cells ≡ flash
      → flash_addr < 2 ^ 24
      → IsReading flash flash_addr (chip p (begun flash_addr h))
  begun-IsReading flash_addr h rest here fits =
      let c = chip-begun flash_addr h rest in
      record {
        shows = λ v. ap {A = Chip} (λ c. (take c v).phase) c ∙ ap showing (omega arith);
        holds = λ v. ap {A = Chip} (λ c. (take c v).cells) c ∙ here;
        rests = λ v. ap {A = Chip} (λ c. (take c v).work) c;
        left_cells = λ d. ap {A = Chip} (λ c. (release d c).cells) c ∙ here;
        left_work = λ d. ap {A = Chip} (λ c. (release d c).work) c;
      }
