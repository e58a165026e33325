-- ===== src/Lib.antt =====
-- The firmware of a human body communication modem (src/ of the repository, C for a MicroBlaze in an
-- FPGA), as a verification library.
--
-- The program. A host drives the modem over two serial channels (src/spi.c): commands and packets to
-- send come in on one, acknowledgements, replies and received packets go out on the other. Packets lie
-- in an external memory (src/mem.c), whose lower half holds what is to be sent and whose upper half is
-- a ring of what was received. The transmitter (src/build_tx.c) frames a packet, with a header under a
-- CRC-8, scrambles it (src/scrambler.c) and writes it to the transmit FIFO and modulator (src/fifo.c).
-- The receiver (src/extract_rx.c) is two interrupt handlers that unscramble what the FPGA decoded into
-- the ring, and functions that read packets back. src/main.c runs commands and the main loop.
--
-- The files.
--   Base           shared names; Base.Bits: laws of the bit operations of C
--   Machine        the board, the static variables of all files, the state monad
--   Machine.Sent   the calls of the transmit path; Machine.Wait: loops on a hardware flag;
--                  Machine.Stage: how far the transmit FIFO is with a packet;
--                  Machine.Keeps: conditions on the static variables that an action keeps
--   Crc            crc8_update and crc8 of src/build_tx.c; the sum over a buffer
--   Header         plcp_header_t, HDR_READ and the packing of src/build_tx.h and src/build_tx.c
--   Fifo, Scrambler, Mem   src/fifo.c, src/scrambler.c, src/mem.c; Mem.Fault: mem_test against a memory
--                  with bad words, given by Mem.Fault.HasMemory
--   Interrupt      src/interrupt.c; Interrupt.Chain: the linked list of handlers; Interrupt.Pending,
--                  Interrupt.Dispatch: which of them run; Interrupt.Mask: the lines enabled
--   Lcd, Usb       src/lcd.c, src/usb.c; Lcd.Print: a line of text; Lcd.Hex: a number
--   Tx             src/build_tx.c; Tx.Whole: a whole packet; Tx.Delimiter: the start frame delimiter;
--                  Tx.Aside, Tx.Spread, Tx.OnAir: the words of memory that the modulator is given
--   Rx             src/extract_rx.c; Rx.Writer, Rx.Marker: its handlers; Rx.Reader: reading back;
--                  Rx.Feed, Rx.Buffering, Rx.Reception: a packet from the FIFO to memory;
--                  Rx.Stored, Rx.ReadBack: and back;
--                  Rx.Delivery: a packet of a transmitter
--   Spi            src/spi.c; Spi.Load, Spi.Leftover: loads; Spi.Output: acknowledgements and replies;
--                  Spi.Dump: dumps from memory; Spi.Copied: a load and then a dump
--   Flash          src/flash.c and src/flash.h; Flash.Chip: what the
--                  firmware relies on of the chip; Flash.Settling, Flash.Erasing, Flash.Copying,
--                  Flash.Programming, Flash.Writing: flash_write on it; Flash.Reading,
--                  Flash.Verifying, Flash.Fetching: flash_verify and flash_read;
--                  Flash.RoundTrip: one behind the other
--   Ctrl           src/main.c: ctrl_cmd; Ctrl.Framing: how it collects a command; Ctrl.Reply: its
--                  acknowledgement; Ctrl.Check: rx_check_packet; Ctrl.Loop: the main loop;
--                  Ctrl.Stepping: its way through the transmit buffer; Ctrl.Steps: main and the
--                  handlers as steps; Ctrl.Rounds: a round of the loop as a run of steps; Ctrl.Start:
--                  the start of main, with rx_init and hbc_spi_init of src/extract_rx.c and src/spi.c
--   Safe           what each action keeps, down to the steps (Safe.Main); Safe.Bounds: indices in
--                  bounds; Safe.Requests: requests for a packet under interleaving
--   Examples       the theorems at concrete inputs, and runs
-- A function keeps its name of the source. A handler's branches are functions of their own where a
-- proof speaks of them.
--
-- The model. Each function is an action on a state that holds every static variable and the history
-- of the calls of the I/O library. A board, a parameter, answers each read from that history;
-- nothing is assumed of it but what a theorem names (Machine.Wait.Settles, Fifo.Sending.Drains,
-- Rx.Writer.Supplies, Rx.Feed.HasFeed, Mem.Fault.HasMemory, Flash.Chip.HasChip,
-- Lcd.Print.Finishes). Numbers are natural numbers; each cast or store to a fixed width is a
-- remainder by a power of two, and an int is kept as its 32-bit pattern. A loop on a hardware flag
-- takes as many rounds as the board's patience says and gives none when that runs out; the theorems
-- on sending and receiving show that it does not run out, from a measure of the board's outstanding
-- work below the patience, from the words left in the receive FIFO, or from the polls that a command
-- keeps the flash chip at work. The walk along the list of handlers takes fuel, of which their
-- number is enough. All other loops recur on the rounds that are left. Interrupt handlers run to
-- their end, as on the device, where they run with interrupts off. Ctrl.Steps cuts the main loop
-- into steps between which a handler may run: where main changes a variable that a handler changes too,
-- the load and the store are two steps, and a stretch with interrupts off is one. A condition of
-- several volatile variables is one step, which is coarser than the machine.
-- The memory is Mem.Fault.Memory: a pointer counts up behind each word, and stays in its 16 MB if its
-- flag in mem_flags is set. The transmit FIFO makes room only while a triggered packet goes out, and
-- runs empty only behind one that is triggered and flushed (Fifo.Sending.Drains).
--
-- Not modelled: the numbers in constants.vhh and host_protocol.h (generated or outside the repository;
-- addresses and lines are names, and the constants of the protocol are a parameter, Ctrl.Protocol);
-- the stubs of src/mem.c without USE_MEM; src/md5.c (a copy of GNU code that is not called);
-- src/lcd_debug.c, which is compiled out; src/test_tx.c; cypress/hssp.patch; the build files.
pub mod Base
pub mod Machine
pub mod Fifo
pub mod Scrambler
pub mod Mem
pub mod Interrupt
pub mod Lcd
pub mod Usb
pub mod Crc
pub mod Header
pub mod Tx
pub mod Rx
pub mod Spi
pub mod Flash
pub mod Ctrl
pub mod Safe
mod Examples
