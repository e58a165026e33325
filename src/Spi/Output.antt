-- ===== src/Spi/Output.antt =====
-- The data channel: an acknowledgement goes out before a reply, each lowest byte first.
use hbc_mac_src.Base.{
  ℕ, zero, suc, ◌+◌, ◌-◌, ◌*◌, ◌/◌, ◌^◌, ◌<◌, ◌≡◌, refl, ◌∙◌, some, u8, u32, arith, List, [], ◌∷◌,
  truth, true,
}
use hbc_mac_src.Machine.{
  Board, Pin, Port, Event, wrote_byte, discrete_set, discrete_clear, State, Action, pure, ◌>>◌,
}
use hbc_mac_src.Spi.{hbc_data_irq, hbc_spi_ack, hbc_spi_reply}

-- Byte `k` of a word.
abbrev pub byte_at : ℕ → ℕ → ℕ
byte_at word k = u8 (word / 2 ^ (k * 8))

-- The calls for one byte: it is written, and the host is told.
abbrev pub byte_calls : ℕ → List Event → List Event
byte_calls byte h =
    discrete_clear (Pin.hbc_data_int ∷ [])
    ∷ discrete_set (Pin.hbc_data_int ∷ [])
    ∷ wrote_byte Port.spi_data byte
    ∷ h

-- The history after `n` bytes from byte `k` on.
unfoldable pub sent_after : ℕ → ℕ → ℕ → List Event → List Event
sent_after word k zero h = h
sent_after word k (suc n) h = sent_after word (k + 1) n (byte_calls (byte_at word k) h)

-- `n` requests of the host.
unfoldable pub data_irqs : Board → ℕ → ℕ → Action
unfolding hbc_data_irq
data_irqs b size zero = pure tt
data_irqs b size (suc n) = hbc_data_irq b size >> data_irqs b size n

abbrev acking : ℕ → State → State
acking n s = record s { spi = record (s.spi) { ack_bytes = n } }

abbrev replying : ℕ → State → State
replying n s = record s { spi = record (s.spi) { ack_bytes = 0; reply_bytes = n } }

abbrev with_byte : ℕ → ℕ → State → State
with_byte word k s = record s { events = byte_calls (byte_at word k) s.events }

pub some_left : (n : ℕ) → truth (suc n) ≡ true
some_left n = ground arith

ack_step :
    (b : Board) (size n k : ℕ) (s : State)
    → k + suc n ≡ size
    → hbc_data_irq b size (acking (suc n) s) ≡ some (tt, with_byte s.spi.ack_data k (acking n s))
unfolding hbc_data_irq
ack_step b size n k s at =
    let left : suc n - 1 ≡ n = omega arith in
    let index : size - suc n ≡ k = omega arith in rw (some_left n, left, index)

reply_step :
    (b : Board) (size n k : ℕ) (s : State)
    → k + suc n ≡ s.spi.reply_size
    → hbc_data_irq b size (replying (suc n) s)
      ≡ some (tt, with_byte s.spi.reply_data k (replying n s))
unfolding hbc_data_irq
reply_step b size n k s at =
    let left : suc n - 1 ≡ n = omega arith in
    let index : s.spi.reply_size - suc n ≡ k = omega arith in rw (some_left n, left, index)

-- What is left of an acknowledgement of `size` bytes goes out.
acks_lem :
    (b : Board) (size more n k : ℕ) (s : State)
    → k + n ≡ size
    → data_irqs b size (n + more) (acking n s)
      ≡ data_irqs b size more
          (record (acking 0 s) { events = sent_after s.spi.ack_data k n s.events })
unfolding data_irqs sent_after
acks_lem b size more zero k s at = let none_left : 0 + more ≡ more = omega arith in rw none_left
acks_lem b size more (suc n) k s at =
    let one_more : suc n + more ≡ suc (n + more) = omega arith in
    rw (one_more, ack_step b size n k s at)
      (acks_lem b size more n (k + 1) (with_byte s.spi.ack_data k s) (omega arith))

-- What is left of a reply goes out.
replies_lem :
    (b : Board) (size n k : ℕ) (s : State)
    → k + n ≡ s.spi.reply_size
    → data_irqs b size n (replying n s)
      ≡ some (tt, record (replying 0 s) { events = sent_after s.spi.reply_data k n s.events })
unfolding data_irqs sent_after
replies_lem b size zero k s at = refl
replies_lem b size (suc n) k s at =
    rw (reply_step b size n k s at)
      (replies_lem b size n (k + 1) (with_byte s.spi.reply_data k s) (omega arith))

-- After a reply and an acknowledgement were set up, as many requests of the host as they have
-- bytes send the acknowledgement first and then the reply, each from its lowest byte on. Nothing
-- of either is left, and no other state is changed: a dump goes on where it was.
pub ack_before_reply :
    (b : Board) (reply_size size ack reply : ℕ) (s : State)
    → (hbc_spi_reply reply size
          >> (hbc_spi_ack reply_size ack >> data_irqs b reply_size (reply_size + size)))
        s
      ≡ some (
        tt,
        record s {
          events = sent_after (u32 reply) 0 size (sent_after ack 0 reply_size s.events);
          spi = record (s.spi) {
            ack_bytes = 0;
            ack_data = ack;
            reply_bytes = 0;
            reply_size = size;
            reply_data = u32 reply;
          };
        },
      )
unfolding hbc_spi_reply hbc_spi_ack
ack_before_reply b reply_size size ack reply s =
    acks_lem b reply_size size reply_size 0 ready (omega arith)
    ∙ replies_lem b reply_size size 0 acknowledged (omega arith)
  where
    ready : State
    ready = record s {
      spi = record (s.spi) {
        ack_data = ack;
        reply_bytes = size;
        reply_size = size;
        reply_data = u32 reply;
      };
    }

    acknowledged : State
    acknowledged = record ready { events = sent_after ack 0 reply_size s.events }

-- Four bytes, lowest first, are the word.
pub bytes_of_word :
    (word : ℕ)
    → word < 2 ^ 32
    → byte_at word 0 + byte_at word 1 * 2 ^ 8 + byte_at word 2 * 2 ^ 16 + byte_at word 3 * 2 ^ 24
      ≡ word
bytes_of_word word h = omega arith
