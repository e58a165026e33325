-- ===== src/Safe/Chip.antt =====
-- The flash driver touches no variable of extract_rx.c, spi.c or main.c.
use hbc_mac_src.Base.{
  ℕ, zero, suc, ◌+◌, ◌-◌, ◌^◌, ◌/◌, ◌==◌, ◌<<<◌, ◌>>>◌, bit_or, bit_and, truth, if◌then◌else◌,
}
use hbc_mac_src.Machine.{Board}
use hbc_mac_src.Machine.Keeps.{Condition, Keeps, Keeps-pure, Keeps-stuck}
use hbc_mac_src.Machine.Keeps.Blocks.{◌>>=◌, ◌>>◌, branch}
use hbc_mac_src.Safe.Drivers.{
  Keeps-mem_set_wr_p, Keeps-mem_set_rd_p, Keeps-mem_write, Keeps-mem_read,
}
use hbc_mac_src.Machine.Keeps.{Keeps-gpo_set, Keeps-gpo_clear, Keeps-write_byte, Keeps-io_read_byte}
use hbc_mac_src.Machine.{Port, Pin}
use hbc_mac_src.Flash.{
  flash_start, flash_end, flash_transfer, flash_send, flash_write_enable, flash_read_status,
  wait_written, flash_sector_erase, begin_read, read_flash_word, read_words, flash_read,
  verify_words, flash_verify, program_words, program_page, program_pages, flash_write,
  flash_write_enable_cmd, flash_read_status_cmd, flash_read_data_cmd, flash_page_program_cmd,
  flash_sector_erase_cmd, flash_status_wip, page_size, flash_mem_to_sector, flash_num_sectors,
  flash_mem_to_page, flash_num_pages,
}

module _ {J : Condition} where
  Keeps-flash_start : Keeps J flash_start
  unfolding flash_start
  Keeps-flash_start = Keeps-gpo_clear Pin.flash_ss

  Keeps-flash_end : Keeps J flash_end
  unfolding flash_end
  Keeps-flash_end = Keeps-gpo_set Pin.flash_ss

module _ {J : Condition} (b : Board) where
  Keeps-flash_transfer : (v : ℕ) → Keeps J (flash_transfer b v)
  unfolding flash_transfer
  Keeps-flash_transfer v =
      Keeps-write_byte Port.flash_port v >> Keeps-io_read_byte b Port.flash_port

  Keeps-flash_send : (v : ℕ) → Keeps J (flash_send b v)
  unfolding flash_send
  Keeps-flash_send v = do answer ← Keeps-flash_transfer v; Keeps-pure tt

  Keeps-flash_write_enable : Keeps J (flash_write_enable b)
  unfolding flash_write_enable
  Keeps-flash_write_enable = do
    Keeps-flash_start
    Keeps-flash_send flash_write_enable_cmd
    Keeps-flash_end

  Keeps-flash_read_status : Keeps J (flash_read_status b)
  unfolding flash_read_status
  Keeps-flash_read_status = do
    Keeps-flash_start
    Keeps-flash_send flash_read_status_cmd
    answer ← Keeps-flash_transfer 0
    Keeps-flash_end
    Keeps-pure answer

  Keeps-wait_written : (n : ℕ) → Keeps J (wait_written b n)
  unfolding wait_written
  Keeps-wait_written zero = Keeps-stuck
  Keeps-wait_written (suc n) = do
    status ← Keeps-flash_read_status
    branch (truth (bit_and status flash_status_wip)) (Keeps-wait_written n) (Keeps-pure tt)

  Keeps-flash_sector_erase : (sector n : ℕ) → Keeps J (flash_sector_erase b sector n)
  unfolding flash_sector_erase
  Keeps-flash_sector_erase sector zero = Keeps-pure tt
  Keeps-flash_sector_erase sector (suc n) =
      (do
        Keeps-flash_write_enable
        Keeps-flash_start
        Keeps-flash_send flash_sector_erase_cmd
        Keeps-flash_send sector
        Keeps-flash_send 0
        Keeps-flash_send 0
        Keeps-flash_end
        Keeps-wait_written b.patience)
      >> Keeps-flash_sector_erase (sector + 1) n

  Keeps-begin_read : (addr : ℕ) → Keeps J (begin_read b addr)
  unfolding begin_read
  Keeps-begin_read addr = do
    Keeps-flash_start
    Keeps-flash_send flash_read_data_cmd
    Keeps-flash_send (addr >>> 16)
    Keeps-flash_send (addr >>> 8)
    Keeps-flash_send addr

  Keeps-read_flash_word : Keeps J (read_flash_word b)
  unfolding read_flash_word
  Keeps-read_flash_word = do
    one ← Keeps-flash_transfer 0
    two ← Keeps-flash_transfer 0
    three ← Keeps-flash_transfer 0
    four ← Keeps-flash_transfer 0
    Keeps-pure (bit_or (bit_or (bit_or one (two <<< 8)) (three <<< 16)) (four <<< 24))

  Keeps-read_words : (n : ℕ) → Keeps J (read_words b n)
  unfolding read_words
  Keeps-read_words zero = Keeps-pure tt
  Keeps-read_words (suc n) =
      (do word ← Keeps-read_flash_word; Keeps-mem_write word) >> Keeps-read_words n

  pub Keeps-flash_read : (mem_addr size addr : ℕ) → Keeps J (flash_read b mem_addr size addr)
  unfolding flash_read
  Keeps-flash_read mem_addr size addr = do
    Keeps-mem_set_wr_p mem_addr
    Keeps-begin_read addr
    Keeps-read_words (size / 4)
    Keeps-flash_end

  Keeps-verify_words : (n retval : ℕ) → Keeps J (verify_words b n retval)
  unfolding verify_words
  Keeps-verify_words zero retval = Keeps-pure retval
  Keeps-verify_words (suc n) retval = do
    word ← Keeps-read_flash_word
    mem ← Keeps-mem_read b
    Keeps-verify_words n (if word == mem then retval else 2 ^ 32 - 1)

  pub Keeps-flash_verify : (mem_addr size addr : ℕ) → Keeps J (flash_verify b mem_addr size addr)
  unfolding flash_verify
  Keeps-flash_verify mem_addr size addr = do
    Keeps-mem_set_rd_p mem_addr
    Keeps-begin_read addr
    retval ← Keeps-verify_words (size / 4) 0
    Keeps-flash_end
    Keeps-pure retval

  Keeps-program_words : (n : ℕ) → Keeps J (program_words b n)
  unfolding program_words
  Keeps-program_words zero = Keeps-pure tt
  Keeps-program_words (suc n) =
      (do
        word ← Keeps-mem_read b
        Keeps-flash_send word
        Keeps-flash_send (word >>> 8)
        Keeps-flash_send (word >>> 16)
        Keeps-flash_send (word >>> 24))
      >> Keeps-program_words n

  Keeps-program_page : (page : ℕ) → Keeps J (program_page b page)
  unfolding program_page
  Keeps-program_page page = do
    Keeps-flash_write_enable
    Keeps-flash_start
    Keeps-flash_send flash_page_program_cmd
    Keeps-flash_send (page >>> 8)
    Keeps-flash_send page
    Keeps-flash_send 0
    Keeps-program_words (page_size / 4)
    Keeps-flash_end
    Keeps-wait_written b.patience

  Keeps-program_pages : (page n : ℕ) → Keeps J (program_pages b page n)
  unfolding program_pages
  Keeps-program_pages page zero = Keeps-pure tt
  Keeps-program_pages page (suc n) = Keeps-program_page page >> Keeps-program_pages (page + 1) n

  pub Keeps-flash_write : (mem_addr size addr : ℕ) → Keeps J (flash_write b mem_addr size addr)
  unfolding flash_write
  Keeps-flash_write mem_addr size addr = do
    Keeps-flash_sector_erase (flash_mem_to_sector addr) (flash_num_sectors size)
    Keeps-mem_set_rd_p mem_addr
    Keeps-program_pages (flash_mem_to_page addr) (flash_num_pages size)
