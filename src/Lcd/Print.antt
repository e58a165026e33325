-- ===== src/Lcd/Print.antt =====
-- What lcd_printf shows, given that the display does not stay busy.
use hbc_mac_src.Base.{
  ℕ, zero, suc, ◌+◌, ◌*◌, ◌<◌, ◌≡◌, refl, sym, ap, ◌∙◌, ◌==◌, bit_and, truth, u8, Bool, true, false,
  List, [], ◌∷◌, ◌++◌, map, if◌then◌else◌, arith, inl, inr, Bool-cases, take, leb,
}
use mathlib.Core.Path.{subst}
use mathlib.Core.List.{append_assoc, append-nil}
use hbc_mac_src.Machine.{
  Board, Port, Event, Request, wrote_byte, read_byte, State, ◌>>◌, write_byte,
}
use hbc_mac_src.Machine.Returns
use hbc_mac_src.Machine.Returns.{Returns, returns, then-pure}
use hbc_mac_src.Lcd.{busy_loop, lcd_busy, lcd_cr, print_from, lcd_printf}

-- The busy bit of a status.
abbrev pub is_busy : ℕ → Bool
is_busy status = truth (bit_and status 0x80)

-- The answer of the display to a poll.
abbrev pub status_at : Board → List Event → ℕ
status_at b h = u8 (b.respond h (Request.byte Port.lcd_cmd))

-- A measure of the display's work falls with each poll that finds it busy.
pub record Finishes (b : Board) : Type 0 where
  pub backlog : List Event → ℕ
  pub bounded : (h : List Event) → backlog h < b.patience
  pub falls :
      (h : List Event)
      → is_busy (status_at b h) ≡ true
      → backlog (read_byte Port.lcd_cmd (status_at b h) ∷ h) < backlog h

-- The history grew from the first to the second by polls of the display and by writes of `out`, in
-- order, each of them directly behind a poll that found the display ready.
pub data Shows (h : List Event) : List (Port × ℕ) → List Event → Type 0 where
  unchanged : Shows h [] h
  waited :
      {out : List (Port × ℕ)} {t : List Event} (v : ℕ)
      → is_busy v ≡ true
      → Shows h out t
      → Shows h out (read_byte Port.lcd_cmd v ∷ t)
  shown :
      {out : List (Port × ℕ)} {t : List Event} (v : ℕ) (p : Port) (c : ℕ)
      → is_busy v ≡ false
      → Shows h out t
      → Shows h (out ++ (p, c) ∷ []) (wrote_byte p c ∷ read_byte Port.lcd_cmd v ∷ t)

Shows-append :
    {h t u : List Event} {x y : List (Port × ℕ)} → Shows h x t → Shows t y u → Shows h (x ++ y) u
Shows-append {h} {t} {x} first unchanged = subst (λ o. Shows h o t) (sym (append-nil x)) first
Shows-append first (waited v busy rest) = waited v busy (Shows-append first rest)
Shows-append {h} {x} first (shown {out} {t} v p c ready rest) =
    subst (λ o. Shows h o (wrote_byte p c ∷ read_byte Port.lcd_cmd v ∷ t))
      (append_assoc x out ((p, c) ∷ [])) (shown v p c ready (Shows-append first rest))

-- The characters of a string before its NUL.
abbrev pub up_to_nul : List ℕ → List ℕ
up_to_nul [] = []
up_to_nul (c ∷ string) = if c == 0 then [] else c ∷ up_to_nul string

-- Nothing but the history changed, and it grew by `Shows`.
pub record Displays (out : List (Port × ℕ)) (s s' : State) : Type 0 where
  pub calls : Shows s.events out s'.events
  pub rest : s' ≡ record s { events = s'.events }

Displays-nil : (s : State) → Displays [] s s
Displays-nil s = record { calls = unchanged; rest = refl }

Displays-append :
    {x y : List (Port × ℕ)} {s t u : State}
    → Displays x s t
    → Displays y t u
    → Displays (x ++ y) s u
Displays-append {s} {t} {u} first next = record {
  calls = Shows-append first.calls next.calls;
  rest = next.rest ∙ ap {A = State} (λ r. record r { events = u.events }) first.rest;
}

module _ {b : Board} (finishes : Finishes b) where
  abbrev after_poll : State → State
  after_poll s = record s { events = read_byte Port.lcd_cmd (status_at b s.events) ∷ s.events }

  write_when_ready :
      (n : ℕ) (p : Port) (c : ℕ) (s : State)
      → finishes.backlog s.events < n
      → Returns (λ a s'. Displays ((p, u8 c) ∷ []) s s') ((busy_loop b n >> write_byte p c) s)
  unfolding busy_loop write_byte
  write_when_ready zero p c s h = absurd (omega arith)
  write_when_ready (suc n) p c s h = elim (Bool-cases (is_busy (status_at b s.events))) [
    | inl busy ↦ rw busy (
        Returns.mono
          (write_when_ready n p c (after_poll s) (omega (arith, finishes.falls s.events busy)))
          λ a s' d. record {
            calls = Shows-append (waited (status_at b s.events) busy unchanged) d.calls;
            rest = d.rest;
          })
    | inr ready ↦ rw ready (
        returns
          (record { calls = shown (status_at b s.events) p (u8 c) ready unchanged; rest = refl }))
  ]

  write_byte-Displays :
      (p : Port) (c : ℕ) (s : State)
      → Returns (λ a s'. Displays ((p, u8 c) ∷ []) s s') ((lcd_busy b >> write_byte p c) s)
  unfolding lcd_busy
  write_byte-Displays p c s = write_when_ready b.patience p c s (finishes.bounded s.events)

  print_from-Displays :
      (left : ℕ) (string : List ℕ) (s : State)
      → Returns
          (λ a s'. Displays (map (λ c. (Port.lcd_data, u8 c)) (take left (up_to_nul string))) s s')
          (print_from b left string s)
  unfolding print_from
  print_from-Displays zero string s = returns (Displays-nil s)
  print_from-Displays (suc left) [] s = returns (Displays-nil s)
  print_from-Displays (suc left) (c ∷ string) s = elim (Bool-cases (c == 0)) [
    | inl ends ↦ rw ends (returns (Displays-nil s))
    | inr more ↦ rw more (
        Returns.bind (write_byte-Displays Port.lcd_data c s) λ a t first.
          Returns.mono (print_from-Displays left string t) λ a' u rest. Displays-append first rest)
  ]

  lcd_cr-Displays :
      (line : ℕ) (s : State)
      → line < 2
      → Returns (λ a s'. Displays ((Port.lcd_cmd, 0x80 + line * 0x40) ∷ []) s s') (lcd_cr b line s)
  unfolding lcd_cr
  lcd_cr-Displays zero s fits =
      Returns.bind (write_byte-Displays Port.lcd_cmd 0x80 s) λ a t d. returns d
  lcd_cr-Displays (suc zero) s fits =
      rw (then-pure (lcd_busy b s)) (write_byte-Displays Port.lcd_cmd 0xc0 s)
  lcd_cr-Displays (suc (suc line)) s fits = absurd (omega arith)

  -- On a line of the display, lcd_printf returns; it has moved to the start of the line and written
  -- the first sixteen characters of the string before its NUL, each of the writes behind a poll
  -- that found the display ready, and nothing else has changed.
  pub lcd_printf_lem :
      (line : ℕ) (string : List ℕ) (s : State)
      → line < 2
      → Returns
          (λ a s'.
            Displays
              ((Port.lcd_cmd, 0x80 + line * 0x40)
                ∷ map (λ c. (Port.lcd_data, u8 c)) (take 16 (up_to_nul string)))
              s
              s')
          (lcd_printf b line string s)
  unfolding lcd_printf
  lcd_printf_lem line string s fits =
      let inside : leb 2 line ≡ false = ground arith in
      rw inside (
        Returns.bind (lcd_cr-Displays line s fits) λ a t first.
          Returns.mono (print_from-Displays 16 string t) λ a' u rest. Displays-append first rest)
