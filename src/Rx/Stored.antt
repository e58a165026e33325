-- ===== src/Rx/Stored.antt =====
-- Words that stand in memory one behind the other.
use hbc_mac_src.Base.{
  ℕ, suc, ◌+◌, ◌<◌, ◌≡◌, refl, ap, ◌∙◌, ◌==◌, u32, true, false, List, [], ◌∷◌, length, arith,
}
use hbc_mac_src.Mem.Fault.{poke}
use hbc_mac_src.Rx.Feed.{stored, plain}

-- Memory gives these words, one behind the other from `a` on.
abbrev pub Gives : (ℕ → ℕ) → ℕ → List ℕ → Type 0
Gives cells a [] = Unit
Gives cells a (w ∷ ws) = (u32 (cells a) ≡ w) × Gives cells (a + 4) ws

abbrev pub AreWords : List ℕ → Type 0
AreWords [] = Unit
AreWords (w ∷ ws) = (u32 w ≡ w) × AreWords ws

pub plain-AreWords : (sequence : ℕ → ℕ) (k : ℕ) (ws : List ℕ) → AreWords (plain sequence k ws)
plain-AreWords sequence k [] = tt
plain-AreWords sequence k (w ∷ ws) = (omega arith, plain-AreWords sequence (k + 1) ws)

pub length-plain :
    (sequence : ℕ → ℕ) (k : ℕ) (ws : List ℕ) → length (plain sequence k ws) ≡ length ws
length-plain sequence k [] = refl
length-plain sequence k (w ∷ ws) = ap suc (length-plain sequence (k + 1) ws)

stored-below : (ws : List ℕ) (a x : ℕ) (cells : ℕ → ℕ) → x < a → stored a ws cells x ≡ cells x
stored-below [] a x cells below = refl
stored-below (w ∷ ws) a x cells below =
    let off : (a == x) ≡ false = ground arith in
    stored-below ws (a + 4) x (poke cells a w) (omega arith) ∙ rw off refl

stored-Gives : (ws : List ℕ) (a : ℕ) (cells : ℕ → ℕ) → AreWords ws → Gives (stored a ws cells) a ws
stored-Gives [] a cells short = tt
stored-Gives (w ∷ ws) a cells (first, short) =
    let on : (a == a) ≡ true = ground arith in
    (
      ap u32 (stored-below ws (a + 4) a (poke cells a w) (omega arith) ∙ rw on refl) ∙ first,
      stored-Gives ws (a + 4) (poke cells a w) short,
    )

Gives-poke :
    (ws : List ℕ) (a x v : ℕ) (cells : ℕ → ℕ)
    → x < a
    → Gives cells a ws
    → Gives (poke cells x v) a ws
Gives-poke [] a x v cells below gives = tt
Gives-poke (w ∷ ws) a x v cells below (first, rest) =
    let off : (x == a) ≡ false = ground arith in
    (rw off first, Gives-poke ws (a + 4) x v cells (omega arith) rest)

-- What a packet in memory gives.
pub received-Gives :
    (ws : List ℕ) (a marker header v : ℕ) (cells : ℕ → ℕ)
    → AreWords (marker ∷ header ∷ ws)
    → Gives (poke (stored a (v ∷ header ∷ ws) cells) a marker) a (marker ∷ header ∷ ws)
received-Gives ws a marker header v cells (small, rest) =
    let on : (a == a) ≡ true = ground arith in
    (
      rw on small,
      Gives-poke (header ∷ ws) (a + 4) a marker (stored a (v ∷ header ∷ ws) cells) (omega arith)
          (stored-Gives (header ∷ ws) (a + 4) (poke cells a v) rest),
    )

-- The words of `n` calls of rx_read.
