-- ===== src/Datagram.antt =====
-- common/rrpc/session.hpp: the headers of messages and datagrams, and the retry of a datagram.
-- The socket and the timer are outside: what is asked of them is part of the state, and what they
-- report is a call of a handler. A bit field is a bit of its byte, from the lowest on.
pub mod Laws
mod Runs
use srpg.Base.{
  ℕ, none, some, [], Bool, ◌+◌, Option, List, ◌%◌, ◌/◌, if◌then◌else◌, ◌++◌, ◌∷◌, ◌==◌, ltb, ◌-◌,
}
use srpg.Base.Fallible.{◌>>=◌}
use srpg.Archive.{Archive}

-- `message_header`
pub record MessageHeader : Type 0 where
  pub flag : ℕ
  pub seq : ℕ
  pub channel : ℕ
  pub receipt : ℕ

pub is_reliable : MessageHeader → Bool
is_reliable h = h.flag % 2 == 1

pub need_receipt : MessageHeader → Bool
need_receipt h = h.flag / 2 % 2 == 1

-- `datagram_header`
pub record DatagramHeader : Type 0 where
  pub flag : ℕ
  pub timestamp : ℕ
  pub seq : ℕ

module _ (ar : Archive) where
  open ar use {save, load}

  -- `message_header::serialize` on an output archive; an `int` is its bit pattern.
  pub save_message_header : MessageHeader → List ℕ
  unfolding is_reliable need_receipt
  save_message_header h =
      let numbers = if is_reliable h then save 32 h.seq ++ save 32 h.channel else [] in
      let receipt = if need_receipt h then save 32 h.receipt else [] in
      save 8 h.flag ++ (numbers ++ receipt)

  -- The same on an input archive, in its three steps: a field that is not there keeps its value.
  load_numbers : MessageHeader → List ℕ → Option (MessageHeader × List ℕ)
  load_numbers h s = do
    (n, s) ← load 32 s
    (c, s) ← load 32 s
    some (record h { seq = n; channel = c }, s)

  load_receipt : MessageHeader → List ℕ → Option (MessageHeader × List ℕ)
  load_receipt h s = do (r, s) ← load 32 s; some (record h { receipt = r }, s)

  pub load_message_header : MessageHeader → List ℕ → Option (MessageHeader × List ℕ)
  unfolding load_numbers load_receipt is_reliable need_receipt
  load_message_header h s = do
    (f, s) ← load 8 s
    let flagged : MessageHeader = record h { flag = f }
    (h, s) ← if is_reliable flagged then load_numbers flagged s else some (flagged, s)
    if need_receipt h then load_receipt h s else some (h, s)

  -- `datagram_header::serialize`
  pub save_datagram_header : DatagramHeader → List ℕ
  save_datagram_header h = save 8 h.flag ++ (save 32 h.timestamp ++ save 32 h.seq)

  pub load_datagram_header : List ℕ → Option (DatagramHeader × List ℕ)
  load_datagram_header s = do
    (f, s) ← load 8 s
    (t, s) ← load 32 s
    (n, s) ← load 32 s
    some (record { flag = f; timestamp = t; seq = n }, s)

-- `datagram`: the sends that were started, the waits of the timer, and those that were cancelled and
-- are still to be told so.
pub record Datagram : Type 0 where
  pub retry_cnt : ℕ
  pub sends : ℕ
  pub waits : ℕ
  pub cancelled : ℕ

-- `send()`
pub send : Datagram → Datagram
send d = record d { sends = d.sends + 1; waits = d.waits + 1 }

-- `handle_send(ec, size)`: the timer is cancelled whatever `ec` is.
pub handle_send : Datagram → Datagram
handle_send d = record d { waits = 0; cancelled = d.cancelled + d.waits }

-- What the timer reports: a wait is over, or one was cancelled (`operation_aborted`).
pub data TimerEvent : Type 0 where
  expired : TimerEvent
  operation_aborted : TimerEvent

-- `handle_time_out(ec)`, where the timer has such a wait.
pub handle_time_out : Datagram → TimerEvent → Option Datagram
unfolding send
handle_time_out d expired =
    if ltb 0 d.waits then some (send (record d { waits = d.waits - 1 })) else none
handle_time_out d operation_aborted =
    if ltb 0 d.cancelled then some (record d { cancelled = d.cancelled - 1 }) else none

-- One report of the timer after the other.
pub timer_reports : Datagram → List TimerEvent → Option Datagram
unfolding handle_time_out
timer_reports d [] = some d
timer_reports d (e ∷ es) = do d' ← handle_time_out d e; timer_reports d' es
