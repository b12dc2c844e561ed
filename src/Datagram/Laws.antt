-- ===== src/Datagram/Laws.antt =====
-- The round trip of the headers, and when a datagram is sent again.
use srpg.Base.{
  ℕ, zero, suc, none, some, [], ◌<◌, List, if◌then◌else◌, ◌^◌, ◌≡◌, ◌++◌, ◌+◌, arith, ◌∷◌,
  Bool-cases, Option, ◌∙◌, ap, ◌%◌, refl, Bool, ◌==◌, inl, ◌-◌, ltb-true, ◌/◌, append_assoc, inr,
}
use srpg.Datagram.{
  MessageHeader, send, timer_reports, Datagram, is_reliable, load_message_header, TimerEvent,
  handle_time_out, need_receipt, save_message_header, expired, operation_aborted, handle_send,
  load_numbers, load_receipt,
}
use srpg.Archive.{Archive}
use srpg.Base.Fallible.{◌>>=◌}

-- The fields of a message header fit their types.
pub record IsMessageHeader (h : MessageHeader) : Type 0 where
  pub flag_byte : h.flag < 256
  pub seq_word : h.seq < 2 ^ 32
  pub channel_word : h.channel < 2 ^ 32
  pub receipt_word : h.receipt < 2 ^ 32

-- What is loaded over `old`: the numbers of a reliable message, and the receipt where one is needed.
abbrev pub received : MessageHeader → MessageHeader → MessageHeader
received old h = record {
  flag = h.flag;
  seq = if is_reliable h then h.seq else old.seq;
  channel = if is_reliable h then h.channel else old.channel;
  receipt = if need_receipt h then h.receipt else old.receipt;
}

module _ (ar : Archive) where
  open ar use {save, load, load-save}

  word : (v : ℕ) (r : List ℕ) → v < 2 ^ 32 → load 32 (save 32 v ++ r) ≡ some (v, r)
  word v r h = load-save 32 v r (omega arith) (omega arith) h

  -- A message header is loaded as it was saved, for every flag; a field that the flag leaves out
  -- keeps the value of the target.
  pub load_message_header-save_message_header :
      (old h : MessageHeader) (rest : List ℕ)
      → IsMessageHeader h
      → load_message_header ar old (save_message_header ar h ++ rest) ≡ some (received old h, rest)
  unfolding load_message_header save_message_header load_numbers load_receipt is_reliable
      need_receipt
  load_message_header-save_message_header old h rest v = elim (Bool-cases (h.flag % 2 == 1)) [
    | inl q ↦ elim (Bool-cases (h.flag / 2 % 2 == 1)) [
      | inl r ↦ simp (append_assoc, flag, seq, channel, receipt, q, r)
      | inr r ↦ simp (append_assoc, flag, seq, channel, q, r)
    ]
    | inr q ↦ elim (Bool-cases (h.flag / 2 % 2 == 1)) [
      | inl r ↦ simp (append_assoc, flag, receipt, q, r)
      | inr r ↦ simp (append_assoc, flag, q, r)
    ]
  ]
    where
      flag : (r : List ℕ) → load 8 (save 8 h.flag ++ r) ≡ some (h.flag, r)
      flag r = load-save 8 h.flag r (omega arith) (omega arith) v.flag_byte

      seq : (r : List ℕ) → load 32 (save 32 h.seq ++ r) ≡ some (h.seq, r)
      seq r = word h.seq r v.seq_word

      channel : (r : List ℕ) → load 32 (save 32 h.channel ++ r) ≡ some (h.channel, r)
      channel r = word h.channel r v.channel_word

      receipt : (r : List ℕ) → load 32 (save 32 h.receipt ++ r) ≡ some (h.receipt, r)
      receipt r = word h.receipt r v.receipt_word

-- The timer's reports of `n` waits that are over.
abbrev pub expirations : ℕ → List TimerEvent
expirations zero = []
expirations (suc n) = expired ∷ expirations n

abbrev pub cancellations : ℕ → List TimerEvent
cancellations zero = []
cancellations (suc n) = operation_aborted ∷ cancellations n

time_out-waiting :
    (d : Datagram) (h : 0 < d.waits) (f : Datagram → Option Datagram)
    → ◌>>=◌ {B = Datagram} (handle_time_out d expired) f ≡ f (record d { sends = d.sends + 1 })
unfolding handle_time_out send
time_out-waiting d h f =
    ap
      (λ (b : Bool).
        ◌>>=◌ {B = Datagram} (if b then some (send (record d { waits = d.waits - 1 })) else none) f)
      (ltb-true 0 d.waits h)
    ∙ ap (λ (k : ℕ). f (record d { sends = d.sends + 1; waits = k })) (omega arith)

cancel-one :
    (d : Datagram) (n : ℕ) (f : Datagram → Option Datagram)
    → ◌>>=◌ {B = Datagram} (handle_time_out (record d { cancelled = suc n }) operation_aborted) f
      ≡ f (record d { cancelled = n })
unfolding handle_time_out
cancel-one d n f =
    ap
      (λ (b : Bool).
        ◌>>=◌ {B = Datagram} (if b then some (record d { cancelled = suc n - 1 }) else none) f)
      (ltb-true 0 (suc n) (omega arith))
    ∙ ap (λ (k : ℕ). f (record d { cancelled = k })) (omega arith)

cancel-all :
    (n : ℕ) (d : Datagram)
    → timer_reports (record d { cancelled = n }) (cancellations n)
      ≡ some (record d { cancelled = 0 })
unfolding timer_reports
cancel-all zero d = refl
cancel-all (suc n) d = cancel-one d n (λ d'. timer_reports d' (cancellations n)) ∙ cancel-all n d

-- A datagram that no send is reported of is sent again at each time-out, however many there are: the
-- number of retries that it holds bounds nothing, and is not changed.
pub timer_reports-expired :
    (n : ℕ) (d : Datagram)
    → 0 < d.waits
    → timer_reports d (expirations n) ≡ some (record d { sends = d.sends + n })
unfolding timer_reports handle_time_out send
timer_reports-expired zero d h = ap (λ (k : ℕ). some (record d { sends = k })) (omega arith)
timer_reports-expired (suc n) d h =
    let next : Datagram = record d { sends = d.sends + 1 } in
    time_out-waiting d h (λ d'. timer_reports d' (expirations n))
    ∙ timer_reports-expired n next h
    ∙ ap (λ (k : ℕ). some (record d { sends = k })) (omega arith)

-- Once a send is reported, with an error or without, the waits that were open are told that they
-- were cancelled, and nothing is sent again; no wait is left.
pub timer_reports-cancelled :
    (d : Datagram)
    → d.cancelled ≡ 0
    → timer_reports (handle_send d) (cancellations d.waits)
      ≡ some (record d { waits = 0; cancelled = 0 })
unfolding handle_send
timer_reports-cancelled d h =
    ap (λ (k : ℕ). timer_reports (record d { waits = 0; cancelled = k }) (cancellations d.waits))
      (omega (arith, h))
    ∙ cancel-all d.waits (record d { waits = 0 })
