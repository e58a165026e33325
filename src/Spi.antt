-- ===== src/Spi.antt =====
-- src/spi.c: the two serial channels to the host. The control channel brings commands, or the bytes
-- of a load; the data channel takes acknowledgements, replies and dumps. hbc_spi_init, which only
-- registers the handlers and sets the two request lines, is not modelled.
pub mod Load
pub mod Output
pub mod Dump
pub mod Copied
pub mod Leftover
use hbc_mac_src.Base.{
  ℕ, ◌+◌, ◌-◌, ◌*◌, ◌%◌, ◌/◌, ◌^◌, ◌==◌, ◌<<<◌, ◌>>>◌, bit_or, bit_and, truth, u8, u32, Bool, true,
  false, if◌then◌else◌,
}
use hbc_mac_src.Machine.{
  Board, Port, Pin, SpiState, State, M, Action, pure, ◌>>=◌, ◌>>◌, get_spi, modify_spi, when,
  write_byte, write_half, io_read_byte, gpo_set, gpo_clear,
}
use hbc_mac_src.Mem.{mem_set_wr_p, mem_write, mem_set_rd_p, mem_read}
use hbc_mac_src.Rx.{rx_read}

unfoldable pub hbc_ctrl_write : ℕ → ℕ → Action
unfolding write_half
hbc_ctrl_write status byte =
    write_half Port.spi_ctrl (bit_or (bit_and status 0xff <<< 8) (bit_and byte 0xff))

unfoldable pub hbc_data_write : ℕ → Action
unfolding write_byte
hbc_data_write byte = write_byte Port.spi_data byte

unfoldable pub data_req_next : Action
unfolding gpo_set gpo_clear
data_req_next = gpo_set Pin.hbc_data_int >> gpo_clear Pin.hbc_data_int

unfoldable pub ctrl_req_next : Action
unfolding gpo_set gpo_clear
ctrl_req_next = gpo_set Pin.hbc_ctrl_int >> gpo_clear Pin.hbc_ctrl_int

unfoldable pub hbc_spi_ack : ℕ → ℕ → Action
hbc_spi_ack reply_size ack_cmd =
    modify_spi λ d. record d { ack_bytes = reply_size; ack_data = ack_cmd }

unfoldable pub hbc_spi_reply : ℕ → ℕ → Action
hbc_spi_reply word size =
    modify_spi λ d. record d { reply_bytes = size; reply_size = size; reply_data = u32 word }

unfoldable pub hbc_spi_dump_addr : ℕ → Action
hbc_spi_dump_addr addr = modify_spi λ d. record d { dump_addr = addr }

unfoldable pub hbc_spi_load_addr : ℕ → Action
hbc_spi_load_addr addr = modify_spi λ d. record d { load_addr = addr }

unfoldable pub hbc_spi_dump_bytes : ℕ → ℕ → Action
hbc_spi_dump_bytes bytes from_rx =
    modify_spi λ d. record d { dump_index = 0; dump_hbc_rx = from_rx; dumping_mem = bytes }

-- The length of a packet to send goes in front of it.
unfoldable pub write_length : ℕ → Action
unfolding mem_set_wr_p mem_write
write_length bytes = do
  d ← get_spi
  mem_set_wr_p d.load_addr
  modify_spi λ d. record d { load_addr = u32 (d.load_addr + 4) }
  mem_write bytes

unfoldable pub hbc_spi_load_bytes : ℕ → ℕ → Action
unfolding write_length
hbc_spi_load_bytes bytes for_tx = do
  modify_spi λ d. record d { load_index = 0; loading_mem = bytes }
  when (truth for_tx) (write_length bytes)

unfoldable pub hbc_spi_load_busy : M ℕ
hbc_spi_load_busy = do d ← get_spi; pure (if truth d.loading_mem then 1 else 0)

unfoldable pub hbc_spi_dump_busy : M ℕ
hbc_spi_dump_busy = do d ← get_spi; pure (if truth d.dumping_mem then 1 else 0)

-- A full word goes to memory.
unfoldable pub store_loaded : Action
unfolding mem_set_wr_p mem_write
store_loaded = do
  d ← get_spi
  mem_set_wr_p d.load_addr
  mem_write d.rd_data
  modify_spi λ d. record d { load_addr = u32 (d.load_addr + 4); load_index = 0; rd_data = 0 }

-- The branch of hbc_ctrl_irq for a byte of a load.
unfoldable pub load_byte : ℕ → Action
unfolding store_loaded
load_byte byte = do
  modify_spi λ d. record d {
    rd_data = bit_or d.rd_data (u32 (byte <<< (d.load_index * 8)));
    load_index = d.load_index + 1;
    loading_mem = d.loading_mem - 1;
  }
  d ← get_spi
  when (d.load_index == 4) store_loaded

unfoldable pub ack_byte : ℕ → Action
unfolding hbc_data_write data_req_next
ack_byte reply_size = do
  d ← get_spi
  hbc_data_write (d.ack_data >>> ((reply_size - d.ack_bytes) * 8))
  modify_spi λ d. record d { ack_bytes = d.ack_bytes - 1 }
  data_req_next

unfoldable pub reply_byte : Action
unfolding hbc_data_write data_req_next
reply_byte = do
  d ← get_spi
  hbc_data_write (d.reply_data >>> ((d.reply_size - d.reply_bytes) * 8))
  modify_spi λ d. record d { reply_bytes = d.reply_bytes - 1 }
  data_req_next

-- A byte of a dump goes out; behind the fourth the next word is due.
unfoldable pub dump_fetched : Action
unfolding hbc_data_write data_req_next
dump_fetched = do
  d ← get_spi
  hbc_data_write (d.wr_data >>> (d.dump_index * 8))
  modify_spi λ d. record d { dump_index = d.dump_index + 1; dumping_mem = d.dumping_mem - 1 }
  data_req_next
  d ← get_spi
  when (d.dump_index == 4)
      (modify_spi λ d. record d { dump_addr = u32 (d.dump_addr + 4); dump_index = 0 })

-- The handler takes the command function that hbc_spi_init was given.
module _ (b : Board) where
  unfoldable pub hbc_ctrl_read : M ℕ
  unfolding io_read_byte
  hbc_ctrl_read = io_read_byte b Port.spi_ctrl

  unfoldable pub hbc_ctrl_irq : (ℕ → Action) → Action
  unfolding hbc_ctrl_read load_byte ctrl_req_next
  hbc_ctrl_irq irq = do
    byte ← hbc_ctrl_read
    d ← get_spi
    if truth d.loading_mem then load_byte byte else irq byte
    ctrl_req_next

  -- The next word of a dump.
  unfoldable pub fetch_word : Action
  unfolding rx_read mem_set_rd_p mem_read
  fetch_word = do
    d ← get_spi
    word ← (if truth d.dump_hbc_rx then rx_read b else (mem_set_rd_p d.dump_addr >> mem_read b))
    modify_spi λ d. record d { wr_data = word }

  unfoldable pub dump_byte : Action
  unfolding fetch_word dump_fetched
  dump_byte = do d ← get_spi; when (d.dump_index == 0) fetch_word; dump_fetched

  -- REPLY_SIZE of host_protocol.h is a parameter.
  unfoldable pub hbc_data_irq : ℕ → Action
  unfolding ack_byte reply_byte dump_byte
  hbc_data_irq reply_size = do
    d ← get_spi
    (if truth d.ack_bytes
        then ack_byte reply_size
        else if truth d.reply_bytes
        then reply_byte
        else if truth d.dumping_mem
        then dump_byte
        else pure tt)

  unfoldable pub hbc_spi_data_trigger : ℕ → Action
  unfolding hbc_data_irq
  hbc_spi_data_trigger reply_size = hbc_data_irq reply_size
