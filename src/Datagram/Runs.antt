-- ===== src/Datagram/Runs.antt =====
-- A message that needs a receipt, and a datagram that waits, with the archive of the codec.
use srpg.Base.{◌≡◌, some, arith}
use srpg.Datagram.{MessageHeader, Datagram, timer_reports}
use srpg.Datagram.Laws.{expirations, timer_reports-expired}

abbrev receipt_head : MessageHeader
receipt_head = record { flag = 2; seq = 0; channel = 0; receipt = 300 }

abbrev blank_head : MessageHeader
blank_head = record { flag = 0; seq = 5; channel = 6; receipt = 7 }

abbrev waiting_datagram : Datagram
waiting_datagram = record { retry_cnt = 2; sends = 1; waits = 1; cancelled = 0 }

timer_reports-expired_example :
    timer_reports waiting_datagram (expirations 4) ≡ some (record waiting_datagram { sends = 5 })
timer_reports-expired_example = timer_reports-expired 4 waiting_datagram (omega arith)
