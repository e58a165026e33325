-- ===== src/Safe.antt =====
-- What the functions of the program keep, whatever the hardware answers: a condition on the
-- variables that is closed under the updates that the program makes is kept by each function.
pub mod Drivers
pub mod Transmit
pub mod Chip
pub mod Receiver
pub mod Channels
pub mod Commands
pub mod Dispatch
pub mod Main
pub mod Bounds
pub mod Requests
use hbc_mac_src.Base.{ℕ, ◌-◌, ◌≡◌, true, truth, u8, set}
use hbc_mac_src.Machine.{Board, RxState, SpiState, CtrlState}
use hbc_mac_src.Machine.Keeps.{Condition, Keeps}
use hbc_mac_src.Rx.{inc_buf}
use hbc_mac_src.Spi.{load_byte, ack_byte, reply_byte, dump_byte}
use hbc_mac_src.Ctrl.{Protocol}

-- An update of the settings of main.c: it takes no part in collecting a command, and it does not
-- withdraw a packet that is asked for.
pub record IsSetting (f : CtrlState → CtrlState) : Type 0 where
  pub same_pkt : (c : CtrlState) → (f c).pkt ≡ c.pkt
  pub same_bytes_req : (c : CtrlState) → (f c).bytes_req ≡ c.bytes_req
  pub still_asked : (c : CtrlState) → c.send_packet ≡ 1 → (f c).send_packet ≡ 1

-- The condition is closed under the updates of the program, but for those that main makes as it
-- takes a request back.
pub record Closed (b : Board) (p : Protocol) (J : Condition) : Type 0 where
  pub reading :
      (f : RxState → RxState)
      → ((r : RxState) → (f r).wr_buf_addr ≡ r.wr_buf_addr)
      → (r : RxState) (d : SpiState) (c : CtrlState) → J r d c
      → J (f r) d c
  pub writing :
      (r : RxState) (d : SpiState) (c : CtrlState)
      → J r d c
      → J (record r { wr_buf_addr = inc_buf r.wr_buf_addr }) d c
  pub acked :
      (w : ℕ) (r : RxState) (d : SpiState) (c : CtrlState)
      → J r d c
      → J r (record d { ack_bytes = p.reply_size; ack_data = w }) c
  pub replied :
      (w : ℕ) (r : RxState) (d : SpiState) (c : CtrlState)
      → J r d c
      → J r (record d { reply_bytes = 4; reply_size = 4; reply_data = w }) c
  pub load_from :
      (a : ℕ) (r : RxState) (d : SpiState) (c : CtrlState)
      → J r d c
      → J r (record d { load_addr = a }) c
  pub dump_from :
      (a : ℕ) (r : RxState) (d : SpiState) (c : CtrlState)
      → J r d c
      → J r (record d { dump_addr = a }) c
  pub loading :
      (n : ℕ) (r : RxState) (d : SpiState) (c : CtrlState)
      → J r d c
      → J r (record d { load_index = 0; loading_mem = n }) c
  pub dumping :
      (n from_rx : ℕ) (r : RxState) (d : SpiState) (c : CtrlState)
      → J r d c
      → J r (record d { dump_index = 0; dump_hbc_rx = from_rx; dumping_mem = n }) c
  pub loads : (byte : ℕ) → Keeps J (load_byte byte)
  pub acks : Keeps J (ack_byte p.reply_size)
  pub replies : Keeps J reply_byte
  pub dumps : Keeps J (dump_byte b)
  pub sets :
      (f : CtrlState → CtrlState)
      → IsSetting f
      → (r : RxState) (d : SpiState) (c : CtrlState) → J r d c
      → J r d (f c)
  pub begun :
      (r : RxState) (d : SpiState) (c : CtrlState)
      → J r d c
      → J r d (record c { bytes_req = p.packet_size })
  pub collected :
      (byte : ℕ) (r : RxState) (d : SpiState) (c : CtrlState)
      → truth c.bytes_req ≡ true
      → J r d c
      → J r d (record c {
        pkt = set c.pkt (p.packet_size - c.bytes_req) (u8 byte);
        bytes_req = c.bytes_req - 1;
      })
