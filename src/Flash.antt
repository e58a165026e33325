-- ===== src/Flash.antt =====
-- src/flash.c and src/flash.h: the flash chip behind its serial port. Words go in and out lowest
-- byte first. A loop on the chip's busy bit takes as many rounds as the board's patience.
pub mod Chip
pub mod Settling
pub mod Erasing
pub mod Copying
pub mod Programming
pub mod Writing
pub mod Reading
pub mod Verifying
pub mod Fetching
pub mod RoundTrip
use hbc_mac_src.Base.{
  ℕ, zero, suc, ◌+◌, ◌-◌, ◌*◌, ◌/◌, ◌%◌, ◌^◌, ◌==◌, ◌<<<◌, ◌>>>◌, bit_and, bit_or, truth, u8, u32,
  if◌then◌else◌, none,
}
use hbc_mac_src.Machine.{
  Board, Port, Pin, M, Action, pure, ◌>>=◌, ◌>>◌, write_byte, io_read_byte, gpo_set, gpo_clear,
}
use hbc_mac_src.Mem.{mem_set_wr_p, mem_set_rd_p, mem_write, mem_read}

abbrev pub flash_size : ℕ
flash_size = 512 * 1024

abbrev pub page_size : ℕ
page_size = 256

abbrev pub sector_size : ℕ
sector_size = 256 * 256

abbrev pub flash_write_enable_cmd : ℕ
flash_write_enable_cmd = 0x06

abbrev pub flash_read_id_cmd : ℕ
flash_read_id_cmd = 0x9F

abbrev pub flash_read_status_cmd : ℕ
flash_read_status_cmd = 0x05

abbrev pub flash_read_data_cmd : ℕ
flash_read_data_cmd = 0x03

abbrev pub flash_page_program_cmd : ℕ
flash_page_program_cmd = 0x02

abbrev pub flash_sector_erase_cmd : ℕ
flash_sector_erase_cmd = 0xD8

abbrev pub flash_bulk_erase_cmd : ℕ
flash_bulk_erase_cmd = 0xC7

abbrev pub flash_status_wip : ℕ
flash_status_wip = 0x01

unfoldable pub flash_mem_to_page : ℕ → ℕ
flash_mem_to_page flash_addr = flash_addr / page_size

unfoldable pub flash_mem_to_sector : ℕ → ℕ
flash_mem_to_sector flash_addr = flash_addr / sector_size

unfoldable pub flash_num_pages : ℕ → ℕ
flash_num_pages size =
    let pages = size / page_size in if truth (size % page_size) then u32 (pages + 1) else pages

unfoldable pub flash_num_sectors : ℕ → ℕ
flash_num_sectors size =
    let sectors = size / sector_size in
    if truth (size % sector_size) then u32 (sectors + 1) else sectors

unfoldable pub flash_init : Action
unfolding gpo_set
flash_init = gpo_set Pin.flash_ss

unfoldable pub flash_start : Action
unfolding gpo_clear
flash_start = gpo_clear Pin.flash_ss

unfoldable pub flash_end : Action
unfolding gpo_set
flash_end = gpo_set Pin.flash_ss

module _ (b : Board) where
  unfoldable pub flash_transfer : ℕ → M ℕ
  unfolding write_byte io_read_byte
  flash_transfer byte = do write_byte Port.flash_port byte; io_read_byte b Port.flash_port

  -- A transfer whose answer is not used.
  unfoldable pub flash_send : ℕ → Action
  unfolding flash_transfer
  flash_send byte = do answer ← flash_transfer byte; pure tt

  unfoldable pub flash_write_enable : Action
  unfolding flash_start flash_send flash_end
  flash_write_enable = do flash_start; flash_send flash_write_enable_cmd; flash_end

  unfoldable pub flash_read_status : M ℕ
  unfolding flash_start flash_send flash_transfer flash_end
  flash_read_status = do
    flash_start
    flash_send flash_read_status_cmd
    answer ← flash_transfer 0
    flash_end
    pure answer

  -- `while (flash_read_status() & FLASH_STATUS_WIP) {}`
  unfoldable pub wait_written : ℕ → Action
  unfolding flash_read_status
  wait_written zero = λ s. none
  wait_written (suc n) =
      let again = wait_written n in
      do
        status ← flash_read_status
        if truth (bit_and status flash_status_wip) then again else pure tt

  unfoldable pub flash_bulk_erase : Action
  unfolding flash_write_enable flash_start flash_send flash_end wait_written
  flash_bulk_erase = do
    flash_write_enable
    flash_start
    flash_send flash_bulk_erase_cmd
    flash_end
    wait_written b.patience

  -- On the sectors left.
  unfoldable pub flash_sector_erase : ℕ → ℕ → Action
  unfolding flash_write_enable flash_start flash_send flash_end wait_written
  flash_sector_erase sector zero = pure tt
  flash_sector_erase sector (suc num) =
      (do
        flash_write_enable
        flash_start
        flash_send flash_sector_erase_cmd
        flash_send sector
        flash_send 0
        flash_send 0
        flash_end
        wait_written b.patience)
      >> flash_sector_erase (sector + 1) num

  unfoldable pub flash_get_id : M ℕ
  unfolding flash_start flash_send flash_transfer flash_end
  flash_get_id = do
    flash_start
    flash_send flash_read_id_cmd
    one ← flash_transfer 0
    two ← flash_transfer 0
    three ← flash_transfer 0
    four ← flash_transfer 0
    flash_end
    pure (
        let twice = u32 (bit_or (u32 (one <<< 8)) two <<< 8) in
        bit_or (u32 (bit_or twice three <<< 8)) four)

  -- READ_DATA and the address, as flash_read and flash_verify begin.
  unfoldable pub begin_read : ℕ → Action
  unfolding flash_start flash_send
  begin_read flash_addr = do
    flash_start
    flash_send flash_read_data_cmd
    flash_send (flash_addr >>> 16)
    flash_send (flash_addr >>> 8)
    flash_send flash_addr

  unfoldable pub read_flash_word : M ℕ
  unfolding flash_transfer
  read_flash_word = do
    one ← flash_transfer 0
    two ← flash_transfer 0
    three ← flash_transfer 0
    four ← flash_transfer 0
    pure (bit_or (bit_or (bit_or one (two <<< 8)) (three <<< 16)) (four <<< 24))

  unfoldable pub read_words : ℕ → Action
  unfolding read_flash_word mem_write
  read_words zero = pure tt
  read_words (suc n) = (do word ← read_flash_word; mem_write word) >> read_words n

  unfoldable pub flash_read : ℕ → ℕ → ℕ → Action
  unfolding mem_set_wr_p begin_read read_words flash_end
  flash_read mem_addr size flash_addr = do
    mem_set_wr_p mem_addr
    begin_read flash_addr
    read_words (size / 4)
    flash_end

  -- The result is an `int`, kept as its 32-bit pattern.
  unfoldable pub verify_words : ℕ → ℕ → M ℕ
  unfolding read_flash_word mem_read
  verify_words zero retval = pure retval
  verify_words (suc n) retval = do
    word ← read_flash_word
    mem ← mem_read b
    verify_words n (if word == mem then retval else 2 ^ 32 - 1)

  unfoldable pub flash_verify : ℕ → ℕ → ℕ → M ℕ
  unfolding mem_set_rd_p begin_read verify_words flash_end
  flash_verify mem_addr size flash_addr = do
    mem_set_rd_p mem_addr
    begin_read flash_addr
    retval ← verify_words (size / 4) 0
    flash_end
    pure retval

  unfoldable pub program_words : ℕ → Action
  unfolding mem_read flash_send
  program_words zero = pure tt
  program_words (suc n) =
      (do
        word ← mem_read b
        flash_send word
        flash_send (word >>> 8)
        flash_send (word >>> 16)
        flash_send (word >>> 24))
      >> program_words n

  unfoldable pub program_page : ℕ → Action
  unfolding flash_write_enable flash_start flash_send program_words flash_end wait_written
  program_page page = do
    flash_write_enable
    flash_start
    flash_send flash_page_program_cmd
    flash_send (page >>> 8)
    flash_send page
    flash_send 0
    program_words (page_size / 4)
    flash_end
    wait_written b.patience

  -- On the pages left.
  unfoldable pub program_pages : ℕ → ℕ → Action
  unfolding program_page
  program_pages page zero = pure tt
  program_pages page (suc pages) = program_page page >> program_pages (page + 1) pages

  unfoldable pub flash_write : ℕ → ℕ → ℕ → Action
  unfolding flash_sector_erase flash_mem_to_sector flash_num_sectors flash_num_pages
      flash_mem_to_page mem_set_rd_p program_pages
  flash_write mem_addr size flash_addr = do
    flash_sector_erase (flash_mem_to_sector flash_addr) (flash_num_sectors size)
    mem_set_rd_p mem_addr
    program_pages (flash_mem_to_page flash_addr) (flash_num_pages size)
