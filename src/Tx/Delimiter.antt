-- ===== src/Tx/Delimiter.antt =====
-- The start frame delimiter: its place tells the rate, and its length does not depend on it.
use hbc_mac_src.Base.{ℕ, zero, suc, ◌*◌, ◌<◌, ◌≡◌, ◌∙◌, refl, List, ◌++◌, truth, arith, true}
use hbc_mac_src.Machine.{Board, Event, PlcpHeader, State}
use hbc_mac_src.Machine.Returns
use hbc_mac_src.Machine.Returns.{Returns}
use hbc_mac_src.Machine.Sent.{Sent, InPacket}
use hbc_mac_src.Fifo.Sending.{Drains}
use hbc_mac_src.Tx.{build_tx_sfd}
use hbc_mac_src.Tx.Stream.{chips, sfd_code, sfd_lead, sfd_tail}
use hbc_mac_src.Tx.Packet.{sfd-Sends}

-- The delimiter's code stands `16 * rate` chips into a field of 608 chips, whatever size the FIFO
-- was left at.
pub record IsPlaced (rate : ℕ) (out : List Event) : Type 0 where
  pub lead : List Event
  pub tail : List Event
  pub parts : out ≡ lead ++ (sfd_code ++ tail)
  pub place : (size : ℕ) → chips size lead ≡ 16 * rate
  pub whole : (size : ℕ) → chips size out ≡ 608

lead_chips : (rate size : ℕ) → rate < 4 → chips size (sfd_lead rate) ≡ 16 * rate
unfolding chips sfd_lead
lead_chips zero size h = refl
lead_chips (suc zero) size h = refl
lead_chips (suc (suc zero)) size h = refl
lead_chips (suc (suc (suc zero))) size h = refl
lead_chips (suc (suc (suc (suc n)))) size h = absurd (omega arith)

all_chips :
    (rate size : ℕ) → rate < 4 → chips size (sfd_lead rate ++ (sfd_code ++ sfd_tail rate)) ≡ 608
unfolding chips sfd_lead sfd_tail sfd_code
all_chips zero size h = refl
all_chips (suc zero) size h = refl
all_chips (suc (suc zero)) size h = refl
all_chips (suc (suc (suc zero))) size h = refl
all_chips (suc (suc (suc (suc n)))) size h = absurd (omega arith)

-- Within a packet, with FIFO flags that settle, rate indication on and a rate of the enumeration,
-- build_tx_sfd returns within the packet. Besides polls and a trigger pulse, it places its code at
-- 16 chips for each step of the rate, in a field whose length is the same for every rate.
pub build_tx_sfd-IsPlaced :
    (b : Board) (h : PlcpHeader)
    → Drains b
    → h.data_rate < 4
    → truth h.use_ri ≡ true
    → (s : State) → InPacket s
    → Returns
        (λ a s'. (out : List Event) × IsPlaced h.data_rate out × Sent out s s' × InPacket s')
        (build_tx_sfd b h s)
build_tx_sfd-IsPlaced b h d fits ri s k =
    let rate = h.data_rate in
    Returns.mono ((sfd-Sends b d h fits).at s k) λ a s' (out, e, sent, k').
      let stream : out ≡ sfd_lead rate ++ (sfd_code ++ sfd_tail rate) = e ∙ rw ri in
      (
        out,
        record {
          lead = sfd_lead rate;
          tail = sfd_tail rate;
          parts = stream;
          place = λ size. lead_chips rate size fits;
          whole = λ size. rw stream (all_chips rate size fits);
        },
        sent,
        k',
      )
