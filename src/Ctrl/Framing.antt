-- ===== src/Ctrl/Framing.antt =====
-- How ctrl_cmd collects a command from the bytes of the control channel.
use hbc_mac_src.Base.{
  ℕ, zero, suc, ◌+◌, ◌-◌, ◌==◌, ◌<◌, ◌≡◌, ◌≢◌, refl, sym, ap, arith, u8, truth, true, false, List,
  [], ◌∷◌, ◌++◌, length, length-append, set, not, ◌%◌, ◌^◌, some, ==_iff,
}
use mathlib.Core.List.{append_assoc}
use hbc_mac_src.Machine.{Board, State, Action, pure, ◌>>◌, when}
use hbc_mac_src.Crc.{crc_over, crc8_init}
use hbc_mac_src.Crc.Laws.{single_byte_detected}
use hbc_mac_src.Ctrl.{Protocol, ctrl_cmd, finish_command}

unfoldable pub ctrl_cmds : Board → Protocol → List ℕ → Action
unfolding ctrl_cmd
ctrl_cmds b p [] = pure tt
ctrl_cmds b p (x ∷ xs) = ctrl_cmd b p x >> ctrl_cmds b p xs

abbrev pub AreBytes : List ℕ → Type 0
AreBytes [] = Unit
AreBytes (x ∷ xs) = (x < 256) × AreBytes xs

-- No byte is the header of a command.
abbrev pub AreNoise : Protocol → List ℕ → Type 0
AreNoise p [] = Unit
AreNoise p (x ∷ xs) = ((u8 x == p.packet_header) ≡ false) × AreNoise p xs

-- With `n` bytes still to come for a command of which `pkt` has been filled.
abbrev pub collecting : ℕ → List ℕ → State → State
collecting n pkt s = record s { ctrl = record (s.ctrl) { bytes_req = n; pkt = pkt } }

set_behind :
    (done old : List ℕ) (x y i : ℕ) → length done ≡ i → set (done ++ x ∷ old) i y ≡ done ++ y ∷ old
set_behind [] old x y zero e = refl
set_behind [] old x y (suc i) e = absurd (omega (arith, e))
set_behind (d ∷ done) old x y zero e = absurd (omega (arith, e))
set_behind (d ∷ done) old x y (suc i) e =
    ap (λ t. d ∷ t) (set_behind done old x y i (omega (arith, e)))

nil_of_length : (xs : List ℕ) → length xs ≡ 0 → xs ≡ []
nil_of_length [] e = refl
nil_of_length (x ∷ xs) e = absurd (omega (arith, e))

module _ (b : Board) (p : Protocol) where
  skip_noise :
      (noise rest : List ℕ) (pkt : List ℕ) (s : State)
      → AreNoise p noise
      → ctrl_cmds b p (noise ++ rest) (collecting 0 pkt s) ≡ ctrl_cmds b p rest (collecting 0 pkt s)
  unfolding ctrl_cmds ctrl_cmd
  skip_noise [] rest pkt s quiet = refl
  skip_noise (x ∷ xs) rest pkt s (differs, quiet) = rw differs (skip_noise xs rest pkt s quiet)

  some_left : (n : ℕ) → truth (suc n) ≡ true
  some_left n = ground arith

  -- A byte of a command goes behind those before it.
  collect_step :
      (done old : List ℕ) (o x n : ℕ) (s : State)
      → x < 256
      → length done + suc n ≡ p.packet_size
      → ctrl_cmd b p x (collecting (suc n) (done ++ o ∷ old) s)
        ≡ when (not (truth n)) (finish_command b p) (collecting n (done ++ x ∷ old) s)
  unfolding ctrl_cmd
  collect_step done old o x n s small size =
      let left : suc n - 1 ≡ n = omega arith in
      let byte : x % 2 ^ 8 ≡ x = omega arith in
      let place = set_behind done old o x (p.packet_size - suc n) (omega arith) in
      rw (some_left n, left, byte, place)

  collect :
      (done old body rest : List ℕ) (x : ℕ) (s : State)
      → AreBytes (x ∷ body)
      → length old ≡ length (x ∷ body)
      → length done + length (x ∷ body) ≡ p.packet_size
      → ctrl_cmds b p (x ∷ body ++ rest) (collecting (length (x ∷ body)) (done ++ old) s)
        ≡ (finish_command b p >> ctrl_cmds b p rest) (collecting 0 (done ++ x ∷ body) s)
  unfolding ctrl_cmds
  collect done [] body rest x s bytes same size = absurd (omega (arith, same))
  collect done (o ∷ old) [] rest x s (small, bytes) same size =
      let empty = nil_of_length old (omega (arith, same)) in
      rw (empty, collect_step done [] o x 0 s small size) refl
  collect done (o ∷ old) (y ∷ body) rest x s (small, bytes) same size =
      let joined_old = append_assoc done (x ∷ []) old in
      let joined = append_assoc done (x ∷ []) (y ∷ body) in
      let longer = length-append done (x ∷ []) in
      let later =
        collect (done ++ x ∷ []) old body rest y s bytes (omega (arith, same))
          (omega (arith, longer, size)) in
      rw (collect_step done old o x (suc (length body)) s small size, some_left (length body))
        (rw (sym joined_old, sym joined) later)

  header_step :
      (pkt : List ℕ) (header n : ℕ) (s : State)
      → u8 header ≡ p.packet_header
      → n ≡ p.packet_size
      → ctrl_cmd b p header (collecting 0 pkt s) ≡ some (tt, collecting n pkt s)
  unfolding ctrl_cmd
  header_step pkt header n s starts size =
      rw ((==_iff _ _).1 starts) (ap (λ t. some (tt, collecting t pkt s)) (sym size))

  -- Waiting for a header, after bytes that are none, a header and PACKET_SIZE more bytes are one
  -- command, of exactly these bytes; it is run if its sum is right, and the bytes behind it are
  -- read on from the state that this leaves.
  pub ctrl_cmds_lem :
      (noise old body rest : List ℕ) (header : ℕ) (s : State)
      → AreNoise p noise
      → AreBytes body
      → 0 < p.packet_size
      → length body ≡ p.packet_size
      → length old ≡ p.packet_size
      → u8 header ≡ p.packet_header
      → ctrl_cmds b p (noise ++ (header ∷ body ++ rest)) (collecting 0 old s)
        ≡ (finish_command b p >> ctrl_cmds b p rest) (collecting 0 body s)
  unfolding ctrl_cmds
  ctrl_cmds_lem noise old [] rest header s quiet bytes some_size len same starts =
      absurd (omega (arith, some_size, len))
  ctrl_cmds_lem noise old (x ∷ body) rest header s quiet bytes some_size len same starts =
      let command =
        collect [] old body rest x s bytes (omega (arith, same, len)) (omega (arith, len)) in
      rw
        (
          skip_noise noise (header ∷ x ∷ body ++ rest) old s quiet,
          header_step old header (length (x ∷ body)) s starts len,
        )
        command

  -- Waiting for a header, a command whose sum is wrong is passed over: what follows it is read on
  -- as if it had not come, but for the bytes left in `pkt`.
  corrupt_command :
      (noise old body rest : List ℕ) (header : ℕ) (s : State)
      → AreNoise p noise
      → AreBytes body
      → 0 < p.packet_size
      → length body ≡ p.packet_size
      → length old ≡ p.packet_size
      → u8 header ≡ p.packet_header
      → 0 < crc_over crc8_init body
      → ctrl_cmds b p (noise ++ (header ∷ body ++ rest)) (collecting 0 old s)
        ≡ ctrl_cmds b p rest (collecting 0 body s)
  unfolding finish_command
  corrupt_command noise old body rest header s quiet bytes some_size len same starts wrong =
      let nonzero : truth (crc_over crc8_init body) ≡ true = ground (arith, wrong) in
      rw (ctrl_cmds_lem noise old body rest header s quiet bytes some_size len same starts, nonzero)
        refl

  -- A command whose sum is right, with one of its bytes changed on the way, is not run: what
  -- follows it is read on as if it had not come, but for the bytes left in `pkt`.
  pub damaged_command_dropped :
      (front back old rest : List ℕ) (sent received header : ℕ) (s : State)
      → AreBytes (front ++ received ∷ back)
      → 0 < p.packet_size
      → length (front ++ received ∷ back) ≡ p.packet_size
      → length old ≡ p.packet_size
      → u8 header ≡ p.packet_header
      → crc_over crc8_init (front ++ sent ∷ back) ≡ 0
      → sent % 256 ≢ received % 256
      → ctrl_cmds b p (header ∷ (front ++ received ∷ back) ++ rest) (collecting 0 old s)
        ≡ ctrl_cmds b p rest (collecting 0 (front ++ received ∷ back) s)
  damaged_command_dropped front back old rest sent received header s bytes some_size len same starts
        right differ =
      let detected = single_byte_detected front back sent received differ in
      corrupt_command [] old (front ++ received ∷ back) rest header s tt bytes some_size len same
        starts (ground (arith, right, detected))
