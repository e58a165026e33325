-- ===== src/Examples/Start.antt =====
-- The start of main on a board whose memory is ready at once and whose line 2 is pending.
use hbc_mac_src.Base.{ℕ, ◌≡◌, ◌<◌, sym, ap, ◌∙◌, ◌==◌, if◌then◌else◌, true, refl, arith, List}
use hbc_mac_src.Machine.{Board, Port, Irq, Event, Request}
use hbc_mac_src.Machine.Returns.{Returns}
use hbc_mac_src.Machine.Wait.{Settles}
use hbc_mac_src.Interrupt.{int_handler, pending_line}
use hbc_mac_src.Ctrl.Steps.{Handler, rx_data, rx_ready, spi_ctrl, spi_data}
use hbc_mac_src.Ctrl.Start.{start}
use hbc_mac_src.Ctrl.Start.Served.{AreLines, answer, start-serves}
use hbc_mac_src.Examples.Boards.{boot}
use hbc_mac_src.Examples.Commands.{protocol}

abbrev ready_answer : List Event → Request → ℕ
ready_answer h (Request.word Port.intr_status) = 0x40000
ready_answer h _ = 0

abbrev ready_board : Board
ready_board = record { respond = ready_answer; irq_status = λ q v. v; patience = 1 }

ready-Settles : Settles ready_board Irq.ram_init true (λ g. Unit)
ready-Settles = record { backlog = λ h. 0; bounded = λ h. omega arith; falls = λ h at busy. cc }

abbrev lines : Handler → ℕ
lines rx_data = 0
lines rx_ready = 1
lines spi_ctrl = 2
lines spi_data = 3

lines-fit : (h : Handler) → lines h < 16
lines-fit rx_data = omega arith
lines-fit rx_ready = omega arith
lines-fit spi_ctrl = omega arith
lines-fit spi_data = omega arith

abbrev handler_of : ℕ → Handler
handler_of n =
    if n == 0 then rx_data else if n == 1 then rx_ready else if n == 2 then spi_ctrl else spi_data

handler_of-lines : (h : Handler) → handler_of (lines h) ≡ h
handler_of-lines rx_data = refl
handler_of-lines rx_ready = refl
handler_of-lines spi_ctrl = refl
handler_of-lines spi_data = refl

lines-AreLines : AreLines lines
lines-AreLines = record {
  fits = lines-fit;
  apart = λ h k differ same.
      differ (sym (handler_of-lines h) ∙ ap handler_of same ∙ handler_of-lines k);
}

start-serves_example :
    Returns
      (λ r s''.
        int_handler ready_board 4 r boot ≡ answer ready_board protocol lines spi_ctrl r boot)
      (start ready_board protocol lines boot)
unfolding pending_line
start-serves_example =
    start-serves ready_board protocol lines spi_ctrl boot boot ready-Settles lines-AreLines refl
