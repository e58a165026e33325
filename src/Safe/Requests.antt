-- ===== src/Safe/Requests.antt =====
-- What becomes of a request for a packet that a command makes while main is at work.
use hbc_mac_src.Base.{ℕ, ◌+◌, ◌≡◌, ◌≢◌, refl, ◌==◌, inl, inr, some, truth, u8, u32, Bool-cases}
use hbc_mac_src.Machine.{Board, CtrlState, State, ◌>>=◌, ◌>>◌}
use hbc_mac_src.Machine.Returns
use hbc_mac_src.Machine.Returns.{Returns, returns}
use hbc_mac_src.Machine.Keeps.{Condition, At, Keeps, after, Keeps-get_spi}
use hbc_mac_src.Machine.Keeps.Blocks
use hbc_mac_src.Spi.{load_byte, ack_byte, reply_byte, fetch_word, dump_fetched, dump_byte}
use hbc_mac_src.Ctrl.{Protocol, perform, tx_trigger, tx_packet}
use hbc_mac_src.Ctrl.Loop.{one_less, toggle_seed, listen, count_flood, withdraw}
use hbc_mac_src.Ctrl.Rounds.{stands, single_done, single_done-Follows, run_back}
use hbc_mac_src.Ctrl.Steps
use hbc_mac_src.Safe.{Closed}
use hbc_mac_src.Safe.Main.{Step-keeps}

-- A packet is asked for.
abbrev pub IsAsked : Condition
IsAsked r d c = c.send_packet ≡ 1

loads-IsAsked : (byte : ℕ) → Keeps IsAsked (load_byte byte)
unfolding load_byte
loads-IsAsked byte = record {
  at = λ s h. elim (Bool-cases (s.spi.load_index + 1 == 4)) [
    | inl full ↦ rw full (after h)
    | inr room ↦ rw room (after h)
  ];
}

fetch_word-IsAsked : (b : Board) → Keeps IsAsked (fetch_word b)
unfolding fetch_word
fetch_word-IsAsked b = record {
  at = λ s h. elim (Bool-cases (truth s.spi.dump_hbc_rx)) [
    | inl rx ↦ rw rx (after h)
    | inr own ↦ rw own (after h)
  ];
}

sent-IsAsked : Keeps IsAsked dump_fetched
unfolding dump_fetched
sent-IsAsked = record {
  at = λ s h. elim (Bool-cases (s.spi.dump_index + 1 == 4)) [
    | inl full ↦ rw full (after h)
    | inr room ↦ rw room (after h)
  ];
}

dumps-IsAsked : (b : Board) → Keeps IsAsked (dump_byte b)
unfolding dump_byte
dumps-IsAsked b =
    Blocks.◌>>=◌ Keeps-get_spi
      λ d. Blocks.◌>>◌ (Blocks.only_if (d.dump_index == 0) (fetch_word-IsAsked b)) sent-IsAsked

Closed-IsAsked : (b : Board) (p : Protocol) → Closed b p IsAsked
unfolding ack_byte reply_byte
Closed-IsAsked b p = record {
  reading = λ f same r d c h. h;
  writing = λ r d c h. h;
  acked = λ w r d c h. h;
  replied = λ w r d c h. h;
  load_from = λ a r d c h. h;
  dump_from = λ a r d c h. h;
  loading = λ n r d c h. h;
  dumping = λ n from_rx r d c h. h;
  loads = loads-IsAsked;
  acks = record { at = λ s h. after h };
  replies = record { at = λ s h. after h };
  dumps = dumps-IsAsked b;
  sets = λ f setting r d c h. setting.still_asked c h;
  begun = λ r d c h. h;
  collected = λ byte r d c some_left h. h;
}

abbrev triggered : ℕ → CtrlState → CtrlState
triggered arg c = record c {
  send_packet = 1;
  header_info = record (c.header_info) { pdsu_length = u8 arg };
}

module _ (b : Board) (p : Protocol) where
  single_done-withdraws :
      (s : State)
      → Returns
          (λ a s'.
            (s'.ctrl.send_packet ≡ 0)
            × (s'.ctrl.header_info.pdsu_length ≡ s.ctrl.header_info.pdsu_length))
          (single_done b p s)
  unfolding toggle_seed listen count_flood withdraw
  single_done-withdraws s = elim (Bool-cases (truth s.ctrl.loopback)) [
    | inl back ↦ elim (Bool-cases (truth s.ctrl.tx_flood)) [
      | inl flood ↦ rw (back, flood) (returns (refl, refl))
      | inr calm ↦ rw (back, calm) (returns (refl, refl))
    ]
    | inr air ↦ elim (Bool-cases (truth s.ctrl.tx_flood)) [
      | inl flood ↦ rw (air, flood) (returns (refl, refl))
      | inr calm ↦ rw (air, calm) (returns (refl, refl))
    ]
  ]

  -- Steps of main and of the handlers in any order, none of which takes the request back.
  pub data Calm (x : Steps.System b p) : Steps.System b p → Type 0 where
    still : Calm x x
    next :
        {y z : Steps.System b p}
        → Calm x y
        → y.pc ≢ Steps.withdraw_single
        → Steps.Step b p y z
        → Calm x z

  Calm-IsAsked : {x y : Steps.System b p} → At IsAsked x.now → Calm x y → At IsAsked y.now
  Calm-IsAsked h still = h
  Calm-IsAsked h (next calm other step) =
      Step-keeps (Closed-IsAsked b p) step (λ e. absurd (other e)) (Calm-IsAsked h calm)

  -- A request stands, whatever main and the handlers do in any order, until main takes requests
  -- back; and a request that stands as main tests for one is served.
  pub request_stands :
      {x y : Steps.System b p}
      → At IsAsked x.now
      → Calm x y
      → At IsAsked y.now
        × (Steps.main_step b p Steps.test_single y.now ≡ some (Steps.blink_single, y.now))
  unfolding Steps.main_step
  request_stands {y} h calm = let asked = Calm-IsAsked h calm in (asked, rw asked refl)

  -- A packet that CMD_HBC_TX_TRIGGER asks for as main stands right behind another packet, where
  -- interrupts are on again, is not sent: main goes on to withdraw the request, whose length stays.
  pub trigger_lost :
      (s : State) (arg : ℕ)
      → Returns
          (λ ack s₁.
            (s₂ : State) × Steps.Runs b p
              (stands b p Steps.seed_single s₁)
              (stands b p Steps.test_next s₂)
            × (s₁.ctrl.send_packet ≡ 1)
            × (s₂.ctrl.send_packet ≡ 0)
            × (s₂.ctrl.header_info.pdsu_length ≡ u8 arg))
          (perform b p tx_trigger arg s)
  unfolding perform Steps.main_step
  trigger_lost s arg =
      let (done, s₂, run, (none_asked, same_length)) =
        Returns.found (single_done-withdraws (record s { ctrl = triggered arg s.ctrl })) in
      returns (s₂, run_back b p ((single_done-Follows b p).at _) run, refl, none_asked, same_length)

  -- A packet that CMD_HBC_TX_PACKET announces between the load and the store of `tx_pending--` is
  -- not counted; announced behind the store, it is.
  pub announcement_lost :
      (s : State) (arg : ℕ)
      → Returns
          (λ pc s'. s'.ctrl.tx_pending ≡ one_less s.ctrl.tx_pending)
          ((Steps.main_step b p Steps.load_pending >>= λ pc.
              perform b p tx_packet arg >> Steps.main_step b p pc)
            s)
        × Returns
            (λ ack s'. s'.ctrl.tx_pending ≡ u32 (one_less s.ctrl.tx_pending + 1))
            ((Steps.main_step b p Steps.load_pending >>= λ pc.
                Steps.main_step b p pc >> perform b p tx_packet arg)
              s)
  unfolding perform Steps.main_step
  announcement_lost s arg = (returns refl, returns refl)
