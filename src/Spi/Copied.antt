-- ===== src/Spi/Copied.antt =====
-- What the host loads and then dumps again.
use hbc_mac_src.Base.{
  ℕ, ◌+◌, ◌*◌, ◌^◌, ◌<◌, ◌≡◌, refl, sym, ap, ◌∙◌, ◌==◌, u32, arith, List, [], ◌∷◌, ◌++◌, length,
  true, false, Option, some, Bool-cases, inl, inr,
}
use mathlib.Core.Path.{subst, ap₂}
use hbc_mac_src.Machine.Keeps.{Condition, At, After, stuck, after, Keeps, Keeps-pure, Keeps-seq}
use hbc_mac_src.Machine.{Board, Port, Event, wrote_word, State, Action, ◌>>◌}
use hbc_mac_src.Machine.Returns
use hbc_mac_src.Machine.Returns.{Returns, returns}
use hbc_mac_src.Mem.Fault.{HasMemory, replay}
use hbc_mac_src.Spi.{
  load_byte, hbc_spi_load_addr, hbc_spi_load_bytes, hbc_spi_dump_addr, hbc_spi_dump_bytes,
}
use hbc_mac_src.Spi.Load.{
  Quad, AreBytes, bytes_of, word_of, load_bytes, stored_after, load_bytes_lem,
}
use hbc_mac_src.Spi.Output.{data_irqs}
use hbc_mac_src.Spi.Dump.{HoldsWords, kept, received, dumping, dump_lem}

abbrev one_stored : ℕ → Quad → List Event → List Event
one_stored a q h =
    wrote_word Port.mem_rd_wr (word_of q.b0 q.b1 q.b2 q.b3) ∷ wrote_word Port.mem_wr_p (u32 a) ∷ h

-- A load does not touch what lies below its address.
pub stored-below :
    (qs : List Quad) (a x : ℕ) (h : List Event)
    → a + 4 * length qs < 2 ^ 32
    → x < a
    → (replay (stored_after a qs h)).cells x ≡ (replay h).cells x
unfolding stored_after
stored-below [] a x h fits below = refl
stored-below (q ∷ qs) a x h fits below =
    let up : u32 (a + 4) ≡ a + 4 = omega arith in
    let off : (u32 a == x) ≡ false = ground arith in
    stored-below qs (u32 (a + 4)) x (one_stored a q h) (omega (arith, up)) (omega (arith, up))
    ∙ rw off refl

-- Memory holds what was loaded.
stored-HoldsWords :
    (qs : List Quad) (a : ℕ) (h : List Event)
    → a + 4 * length qs < 2 ^ 32
    → HoldsWords (replay (stored_after a qs h)).cells a qs
unfolding stored_after
stored-HoldsWords [] a h fits = tt
stored-HoldsWords (q ∷ qs) a h fits =
    let up : u32 (a + 4) ≡ a + 4 = omega arith in
    let on : (u32 a == a) ≡ true = ground arith in
    let cells = (replay (stored_after a (q ∷ qs) h)).cells in
    (
      stored-below qs (u32 (a + 4)) a (one_stored a q h) (omega (arith, up)) (omega (arith, up))
          ∙ rw on refl,
      subst (λ next. HoldsWords cells next qs) up
          (stored-HoldsWords qs (u32 (a + 4)) (one_stored a q h) (omega (arith, up))),
    )

-- A load sends the host nothing.
received-stored :
    (qs : List Quad) (a : ℕ) (h : List Event) → received (stored_after a qs h) ≡ received h
unfolding stored_after
received-stored [] a h = refl
received-stored (q ∷ qs) a h = received-stored qs (u32 (a + 4)) _

length-bytes_of : (qs : List Quad) → length (bytes_of qs) ≡ 4 * length qs
length-bytes_of [] = omega arith
length-bytes_of (q ∷ qs) = omega (arith, length-bytes_of qs)

-- Neither an acknowledgement nor a reply is owed.
abbrev IsIdle : Condition
IsIdle r d c = (d.ack_bytes ≡ 0) × (d.reply_bytes ≡ 0)

loads-IsIdle : (byte : ℕ) → Keeps IsIdle (load_byte byte)
unfolding load_byte
loads-IsIdle byte = record {
  at = λ s h. elim (Bool-cases (s.spi.load_index + 1 == 4)) [
    | inl full ↦ rw full (after h)
    | inr room ↦ rw room (after h)
  ];
}

load_bytes-IsIdle : (xs : List ℕ) → Keeps IsIdle (load_bytes xs)
unfolding load_bytes
load_bytes-IsIdle [] = Keeps-pure tt
load_bytes-IsIdle (x ∷ xs) =
    Keeps-seq (load_byte x) (load_bytes xs) (loads-IsIdle x) (load_bytes-IsIdle xs)

at_result :
    {J : Condition} {s' : State} {r : Option (Unit {0} × State)}
    → After J r
    → r ≡ some (tt, s')
    → At J s'
at_result stuck e = cc
at_result {J} {s'} (after {a} {s} h) e = let same : s ≡ s' = cc in subst (λ t. At J t) same h

module _ (b : Board) (size : ℕ) where
  -- The host loads bytes, asks for as many from the same address, and takes them.
  unfoldable pub load_and_dump : ℕ → List ℕ → Action
  unfolding hbc_spi_load_addr hbc_spi_load_bytes load_bytes hbc_spi_dump_addr hbc_spi_dump_bytes
      data_irqs
  load_and_dump addr bytes = do
    hbc_spi_load_addr addr
    hbc_spi_load_bytes (length bytes) 0
    load_bytes bytes
    hbc_spi_dump_addr addr
    hbc_spi_dump_bytes (length bytes) 0
    data_irqs b size (length bytes)

module _ (b : Board) (size : ℕ) {sequence : ℕ → ℕ → ℕ} (memory : HasMemory b kept sequence) where
  abbrev loading : ℕ → ℕ → State → State
  loading addr n s = record s {
    spi = record (s.spi) { load_addr = addr; load_index = 0; loading_mem = n };
  }

  abbrev due : ℕ → ℕ → State → State
  due addr n s = record s {
    spi = record (s.spi) { dump_addr = addr; dump_index = 0; dump_hbc_rx = 0; dumping_mem = n };
  }

  due-dumping :
      (addr n : ℕ) (s : State)
      → At IsIdle s
      → due addr n s
        ≡ dumping n 0 s.spi.wr_data (record s { spi = record (s.spi) { dump_addr = addr } })
  due-dumping addr n s (no_ack, no_reply) =
      ap₂ {A = ℕ} {B = ℕ} {C = State}
        (λ a r. record s {
          spi = record (s.spi) {
            ack_bytes = a;
            reply_bytes = r;
            dump_addr = addr;
            dump_index = 0;
            dump_hbc_rx = 0;
            dumping_mem = n;
          };
        })
        no_ack no_reply

  dump_due :
      (qs : List Quad) (addr : ℕ) (s : State)
      → AreBytes qs
      → At IsIdle s
      → addr + 4 * length qs < 2 ^ 32
      → HoldsWords (replay s.events).cells addr qs
      → Returns
          (λ a s'.
            (received s'.events ≡ received s.events ++ bytes_of qs)
            × (s'.spi.dumping_mem ≡ 0)
            × (s'.rx ≡ s.rx)
            × (s'.ctrl ≡ s.ctrl))
          (data_irqs b size (length (bytes_of qs)) (due addr (length (bytes_of qs)) s))
  dump_due qs addr s bytes idle fits holds =
      let at : State = record s { spi = record (s.spi) { dump_addr = addr } } in
      subst
        (λ t.
          Returns
            (λ a s'.
              (received s'.events ≡ received s.events ++ bytes_of qs)
              × (s'.spi.dumping_mem ≡ 0)
              × (s'.rx ≡ s.rx)
              × (s'.ctrl ≡ s.ctrl))
            (data_irqs b size (length (bytes_of qs)) t))
        (sym (due-dumping addr (length (bytes_of qs)) s idle))
        (dump_lem b size memory qs s.spi.wr_data at bytes fits holds)

  -- What the host loads at an address and then dumps from it comes back byte for byte, in order,
  -- and nothing else is sent to it in between. The bytes are whole words, memory reads back what
  -- was written, no byte of an earlier load is left over, and nothing else is owed to the host.
  pub load_and_dump_lem :
      (qs : List Quad) (addr : ℕ) (s : State)
      → AreBytes qs
      → s.spi.rd_data ≡ 0
      → (s.spi.ack_bytes ≡ 0) × (s.spi.reply_bytes ≡ 0)
      → addr + 4 * length qs < 2 ^ 32
      → Returns
          (λ a s'.
            (received s'.events ≡ received s.events ++ bytes_of qs)
            × (s'.spi.dumping_mem ≡ 0)
            × (s'.rx ≡ s.rx)
            × (s'.ctrl ≡ s.ctrl))
          (load_and_dump b size addr (bytes_of qs) s)
  unfolding load_and_dump
  load_and_dump_lem qs addr s bytes empty idle fits =
      let n = length (bytes_of qs) in
      let s₀ = loading addr n s in
      let (a, s₁, ran, (calls, at, done, aligned, same_rx, same_ctrl)) = Returns.found (
        load_bytes_lem qs s₀ bytes (record { index = refl; empty = empty }) (length-bytes_of qs)
          (omega arith)) in
      let idle₁ : At IsIdle s₁ = at_result ((load_bytes-IsIdle (bytes_of qs)).at s₀ idle) ran in
      let holds : HoldsWords (replay s₁.events).cells addr qs =
        subst (λ h. HoldsWords (replay h).cells addr qs) (sym calls)
          (stored-HoldsWords qs addr s.events fits) in
      let silent : received s₁.events ≡ received s.events =
        ap received calls ∙ received-stored qs addr s.events in
      rw ran (
        Returns.mono (dump_due qs addr s₁ bytes idle₁ fits holds) λ a' s' (out, over, rx₂, ctrl₂).
          (out ∙ ap (λ r. r ++ bytes_of qs) silent, over, rx₂ ∙ same_rx, ctrl₂ ∙ same_ctrl))
