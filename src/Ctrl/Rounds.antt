-- ===== src/Ctrl/Rounds.antt =====
-- A round of the main loop, as src/main.c writes it, is a run of the steps of Ctrl.Steps.
use hbc_mac_src.Base.{
  ◌≡◌, ◌≢◌, refl, ◌∙◌, ◌&&◌, ◌||◌, ◌==◌, Bool, Option, none, some, inl, inr, not, truth,
  if◌then◌else◌, Bool-cases,
}
use mathlib.Core.Path.{subst}
use hbc_mac_src.Machine.{Board, Action, State, and_then, pure, ◌>>◌, when, modify_ctrl}
use hbc_mac_src.Ctrl.{Protocol}
use hbc_mac_src.Ctrl.Loop.{
  blink, toggle_seed, listen, count_flood, withdraw, mask_addr, count_pending, one_less, led_toggle,
  receiver_off, send_locked, send_single, send_next_locked, send_next, several, hbc_to_spi,
  psoc_locked, flash_psoc, main_round,
}
use hbc_mac_src.Ctrl.Steps

module _ (b : Board) (p : Protocol) where
  abbrev pub stands : Steps.Pc → State → Steps.System b p
  stands pc s = record { pc = pc; now = s }

  -- What the steps from `x` on come to when an action of main gives `r`: if it returns, main runs
  -- to `y` with the state that it returns, and if not, main sticks.
  pub data Outcome (x : Steps.System b p) (y : Steps.Pc) : Option (Unit {0} × State) → Type 0 where
    runs : {s : State} → Steps.Runs b p x (stands y s) → Outcome x y (some (tt, s))
    sticks : Steps.Sticks b p x → Outcome x y none

  -- From `x` on, main does `m`, and then stands at `y`.
  pub record Follows (x : Steps.Pc) (m : Action) (y : Steps.Pc) : Type 0 where
    pub at : (s : State) → Outcome (stands x s) y (m s)

  pub run_back :
      {x : Steps.System b p} {y : Steps.Pc} {s' : State} {r : Option (Unit {0} × State)}
      → Outcome x y r
      → r ≡ some (tt, s')
      → Steps.Runs b p x (stands y s')
  run_back {x} {y} {s'} (runs {s} run) e =
      let same : s ≡ s' = cc in subst (λ t. Steps.Runs b p x (stands y t)) same run
  run_back (sticks st) e = absurd cc

  step_first :
      {x : Steps.System b p} {pc z : Steps.Pc} {s : State} {r : Option (Unit {0} × State)}
      → Steps.main_step b p x.pc x.now ≡ some (pc, s)
      → pc ≢ Steps.test_single
      → Outcome (stands pc s) z r
      → Outcome x z r
  step_first e apart (runs run) = runs (Steps.go e apart run)
  step_first e apart (sticks st) = sticks (Steps.behind e apart st)

  run_first :
      {x y : Steps.System b p} {z : Steps.Pc} {r : Option (Unit {0} × State)}
      → y.pc ≢ Steps.test_single
      → Steps.Runs b p x y
      → Outcome y z r
      → Outcome x z r
  run_first apart (Steps.last e) out = step_first e apart out
  run_first apart (Steps.go e apart' run) out = step_first e apart' (run_first apart run out)

  both :
      {x : Steps.System b p} {y z : Steps.Pc} {r : Option (Unit {0} × State)} {k : Action}
      → y ≢ Steps.test_single
      → Outcome x y r
      → ((s : State) → Outcome (stands y s) z (k s))
      → Outcome x z (and_then r (λ _. k))
  both apart (runs {s} run) next = run_first apart run (next s)
  both apart (sticks st) next = sticks st

  step_alone :
      {x : Steps.System b p} {y : Steps.Pc} (r : Option (Unit {0} × State))
      → Steps.main_step b p x.pc x.now ≡ and_then r (λ _. pure y)
      → Outcome x y r
  step_alone none e = sticks (Steps.at_once e)
  step_alone (some (tt, s)) e = runs (Steps.last e)

  one_step :
      (x y : Steps.Pc) (m : Action)
      → ((s : State) → Steps.main_step b p x s ≡ Steps.then_at y m s)
      → Follows x m y
  one_step x y m same = record { at = λ s. step_alone (m s) (same s) }

  in_order :
      {x y z : Steps.Pc} {m k : Action}
      → y ≢ Steps.test_single
      → Follows x m y
      → Follows y k z
      → Follows x (m >> k) z
  in_order apart fm fk = record { at = λ s. both apart (fm.at s) fk.at }

  -- What main does if a test on the variables holds.
  abbrev phase : (State → Bool) → (State → Action) → Action
  phase test m s = when (test s) (m s) s

  tested :
      (x z : Steps.Pc) (y : State → Steps.Pc) (test : State → Bool) (m : State → Action)
      → ((s : State) → Steps.main_step b p x s ≡ some (if test s then y s else z, s))
      → ((s : State) → y s ≢ Steps.test_single)
      → ((s : State) → Follows (y s) (m s) z)
      → Follows x (phase test m) z
  tested x z y test m step apart done = record {
    at = λ s. elim (Bool-cases (test s)) [
      | inl on ↦ rw on (step_first (step s ∙ rw on refl) (apart s) ((done s).at s))
      | inr off ↦ rw off (runs (Steps.last (step s ∙ rw off refl)))
    ];
  }

  abbrev one_flood_less : Action
  one_flood_less = modify_ctrl λ c. record c { tx_flood = one_less c.tx_flood }

  abbrev one_pending_less : Action
  one_pending_less = modify_ctrl λ c. record c { tx_pending = one_less c.tx_pending }

  flood_stored : Follows Steps.load_flood one_flood_less Steps.withdraw_single
  unfolding Steps.main_step
  flood_stored = record { at = λ s. step_first refl (λ e. cc) (step_alone (one_flood_less s) refl) }

  pending_stored : Follows Steps.load_pending count_pending Steps.test_forward
  unfolding Steps.main_step count_pending
  pending_stored = record {
    at = λ s. step_first refl (λ e. cc) (step_alone (count_pending s) refl);
  }

  single_seeded : Follows Steps.seed_single toggle_seed Steps.listen_single
  unfolding Steps.main_step toggle_seed
  single_seeded = record { at = λ s. step_first refl (λ e. cc) (step_alone (toggle_seed s) refl) }

  next_seeded : Follows Steps.seed_next toggle_seed Steps.listen_next
  unfolding Steps.main_step toggle_seed
  next_seeded = record { at = λ s. step_first refl (λ e. cc) (step_alone (toggle_seed s) refl) }

  addr_masked : Follows Steps.mask_next mask_addr Steps.seed_next
  unfolding Steps.main_step mask_addr
  addr_masked = record { at = λ s. step_first refl (λ e. cc) (step_alone (mask_addr s) refl) }

  single_blinked : Follows Steps.blink_single blink Steps.lock_single
  unfolding Steps.main_step blink
  single_blinked =
      in_order (λ e. cc) (one_step Steps.blink_single Steps.disable_single led_toggle (λ s. refl))
        (one_step Steps.disable_single Steps.lock_single receiver_off (λ s. refl))

  next_blinked : Follows Steps.blink_next blink Steps.lock_next
  unfolding Steps.main_step blink
  next_blinked =
      in_order (λ e. cc) (one_step Steps.blink_next Steps.disable_next led_toggle (λ s. refl))
        (one_step Steps.disable_next Steps.lock_next receiver_off (λ s. refl))

  flood_counted : Follows Steps.test_flood count_flood Steps.withdraw_single
  unfolding Steps.main_step count_flood
  flood_counted =
      tested Steps.test_flood Steps.withdraw_single (λ s. Steps.load_flood)
        (λ s. truth s.ctrl.tx_flood) (λ s. one_flood_less) (λ s. refl) (λ s e. cc)
        (λ s. flood_stored)

  -- What main does behind the packet of the first branch, with interrupts on again.
  abbrev pub single_done : Action
  single_done = toggle_seed >> (listen >> (count_flood >> withdraw))

  pub single_done-Follows : Follows Steps.seed_single single_done Steps.test_next
  unfolding Steps.main_step
  single_done-Follows =
      in_order (λ e. cc) single_seeded
        (in_order (λ e. cc) (one_step Steps.listen_single Steps.test_flood listen (λ s. refl))
          (in_order (λ e. cc) flood_counted
            (one_step Steps.withdraw_single Steps.test_next withdraw (λ s. refl))))

  single_sent : Follows Steps.blink_single (send_single b) Steps.test_next
  unfolding Steps.main_step send_single
  single_sent =
      in_order (λ e. cc) single_blinked
        (in_order (λ e. cc)
          (one_step Steps.lock_single Steps.seed_single (send_locked b) (λ s. refl))
          single_done-Follows)

  next_sent : Follows Steps.blink_next (send_next b) Steps.test_forward
  unfolding Steps.main_step send_next
  next_sent =
      in_order (λ e. cc) next_blinked
        (in_order (λ e. cc)
          (one_step Steps.lock_next Steps.mask_next (send_next_locked b) (λ s. refl))
          (in_order (λ e. cc) addr_masked
            (in_order (λ e. cc) next_seeded
              (in_order (λ e. cc) (one_step Steps.listen_next Steps.load_pending listen (λ s. refl))
                pending_stored))))

  psoc_flashed_lem : Follows Steps.lock_psoc (flash_psoc b) Steps.test_single
  unfolding Steps.main_step flash_psoc
  psoc_flashed_lem =
      in_order (λ e. cc) (one_step Steps.lock_psoc Steps.clear_psoc psoc_locked (λ s. refl))
        (one_step Steps.clear_psoc Steps.test_single
          (modify_ctrl λ c. record c { do_psoc_flash = 0 }) (λ s. refl))

  -- A round of the main loop is what main's steps do from the top of the loop on: if the round
  -- returns, they come back to the top, not before its end, with the state that it returns; if not,
  -- they come to a step that gives nothing.
  pub main_round-Outcome :
      (s : State) → Outcome (stands Steps.test_single s) Steps.test_single (main_round b p s)
  unfolding Steps.main_step main_round
  main_round-Outcome s =
      let round =
        in_order (λ e. cc)
          (tested Steps.test_single Steps.test_next (λ s. Steps.blink_single)
            (λ s. truth s.ctrl.send_packet || truth s.ctrl.tx_flood) (λ s. send_single b)
            (λ s. refl) (λ s e. cc) (λ s. single_sent))
          (in_order (λ e. cc)
            (tested Steps.test_next Steps.test_forward (λ s. Steps.blink_next)
              (λ s.
                truth s.ctrl.tx_auto
                && (several b s.ctrl.tx_pending
                    || ((s.ctrl.tx_pending == 1)
                        && not (truth (if truth s.spi.loading_mem then 1 else 0)))))
              (λ s. send_next b) (λ s. refl) (λ s e. cc) (λ s. next_sent))
            (in_order (λ e. cc)
              (tested Steps.test_forward Steps.test_psoc
                (λ s. Steps.lock_forward (not (truth s.ctrl.rx_flood)))
                (λ s.
                  truth s.ctrl.rx_flood
                  || (truth s.ctrl.rx_auto
                      && not (truth (if truth s.spi.dumping_mem then 1 else 0))))
                (λ s. hbc_to_spi b p (not (truth s.ctrl.rx_flood))) (λ s. refl) (λ s e. cc)
                (λ s.
                  one_step (Steps.lock_forward (not (truth s.ctrl.rx_flood))) Steps.test_psoc
                    (hbc_to_spi b p (not (truth s.ctrl.rx_flood))) (λ t. refl)))
              (tested Steps.test_psoc Steps.test_single (λ s. Steps.lock_psoc)
                (λ s. truth s.ctrl.do_psoc_flash) (λ s. flash_psoc b) (λ s. refl) (λ s e. cc)
                (λ s. psoc_flashed_lem)))) in
      round.at s
