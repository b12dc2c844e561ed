-- ===== src/Session/Lifetime.antt =====
-- The promises of a session, over any sequence of its operations.
use srpg.Base.{ℕ, ◌+◌, ◌≤◌, ◌≡◌, Option, some, List, arith, length, flatten, ◌<◌}
use srpg.Session.{
  Session, request, request_void, wait, response, invoke, bind, begin_batch, end_batch, send,
  begin_packet, write_args, end_packet, new_session, Called,
}
use srpg.Session.Calls.{Call}
use srpg.Session.Ids.{IsSortedFrom}
use srpg.Archive.{Archive}
use srpg.Header.{Header}
use srpg.Package.{Package}
use srpg.Session.Waiting.{times, firsts, seconds, nothing_yet}
use srpg.Session.Kept.{
  Kept, request-Kept, request_void-Kept, response-Kept, invoke-Kept, end_batch-Kept, wait-Kept,
  send-Kept, write_args-Kept, end_packet-Kept,
}

module _ {Invoker : Type 0} (ar : Archive) where
  -- The sessions that any sequence of their operations makes.
  pub data Reached : Session Invoker → Type 0 where
    makes : (id : ℕ) → Reached (new_session Invoker id)
    requests :
        {s s' : Session Invoker} {p : ℕ} (c : Call)
        → Reached s
        → request Invoker ar s c.0 c.1 (length c.2) (flatten c.2) ≡ some (p, s')
        → Reached s'
    posts :
        {s s' : Session Invoker} (c : Call)
        → Reached s
        → request_void Invoker ar s c.0 c.1 (length c.2) (flatten c.2) ≡ some s'
        → Reached s'
    is_answered :
        {s : Session Invoker} (read : List ℕ → List ℕ × List ℕ) (h : Header) (stream : List ℕ)
        → Reached s
        → Reached (response Invoker read s h stream).0
    is_called :
        {s : Session Invoker} (call : Invoker → Header → Package → List ℕ → Option (Called Invoker))
        (h : Header) (op : Package) (stream : List ℕ) {s' : Session Invoker} {h' : Header}
        {op' : Package} {stream' : List ℕ}
        → Reached s
        → invoke Invoker call s h op stream ≡ some (s', h', op', stream')
        → Reached s'
    binds : {s : Session Invoker} (id : ℕ) (f : Invoker) → Reached s → Reached (bind Invoker s id f)
    begins : {s : Session Invoker} → Reached s → Reached (begin_batch Invoker s)
    ends : {s s' : Session Invoker} → Reached s → end_batch Invoker s ≡ some s' → Reached s'
    waits : {s : Session Invoker} (oid : ℕ) → Reached s → oid < 256 → Reached (wait Invoker s oid).1
    sends :
        {s s' : Session Invoker} {oid : ℕ} (c : Call)
        → Reached s
        → send Invoker ar s c.0 c.1 (length c.2) (flatten c.2) ≡ some (oid, s')
        → Reached s'
    begins_packet :
        {s : Session Invoker} (interface_id method_id arity : ℕ)
        → Reached s
        → Reached (begin_packet Invoker ar s interface_id method_id arity).1
    writes :
        {s s' : Session Invoker} (bytes : List ℕ)
        → Reached s
        → write_args Invoker ar s bytes ≡ some s'
        → Reached s'
    ends_packet :
        {s s' : Session Invoker} → Reached s → end_packet Invoker ar s ≡ some s' → Reached s'

  Reached-Kept : (s : Session Invoker) → Reached s → Kept s
  unfolding new_session bind begin_batch begin_packet
  Reached-Kept _ (makes id) = nothing_yet
  Reached-Kept s' (requests {s} {p = p} c r e) = request-Kept ar s s' p c e (Reached-Kept s r)
  Reached-Kept s' (posts {s} c r e) = request_void-Kept ar s s' c e (Reached-Kept s r)
  Reached-Kept _ (is_answered {s} read h stream r) =
      response-Kept ar s read h stream (Reached-Kept s r)
  Reached-Kept s' (is_called {s} call h op stream {h' = h'} {op' = op'} {stream' = stream'} r e) =
      invoke-Kept ar call s s' h op stream (h', op', stream') e (Reached-Kept s r)
  Reached-Kept _ (binds {s} id f r) = Reached-Kept s r
  Reached-Kept _ (begins {s} r) = Reached-Kept s r
  Reached-Kept s' (ends {s} r e) = end_batch-Kept ar s s' e (Reached-Kept s r)
  Reached-Kept _ (waits {s} oid r small) = wait-Kept ar s oid small (Reached-Kept s r)
  Reached-Kept s' (sends {s} {oid = oid} c r e) = send-Kept ar s s' oid c e (Reached-Kept s r)
  Reached-Kept _ (begins_packet {s} interface_id method_id arity r) = Reached-Kept s r
  Reached-Kept s' (writes {s} bytes r e) = write_args-Kept ar s s' bytes e (Reached-Kept s r)
  Reached-Kept s' (ends_packet {s} r e) = end_packet-Kept ar s s' e (Reached-Kept s r)

  -- Whatever operations of a session are called, in any order, from its construction on, `wait`
  -- with any operation id and the steps of `send` one by one included: the map of waiting calls stays in the order of its keys, each promise that `wait` made was given a value at
  -- most once, one that was given a value does not wait any more, one that waits is in the map once,
  -- and nothing is given to, or waits for, a promise that was not made.
  pub promise_once :
      (s : Session Invoker) (p : ℕ)
      → Reached s
      → IsSortedFrom 0 s.wait_map
        × (times p (firsts s.resolved) + times p (seconds s.wait_map) ≤ 1)
        × (s.next_promise ≤ p → times p (firsts s.resolved) + times p (seconds s.wait_map) ≡ 0)
  promise_once s p r =
      let k = Reached-Kept s r in
      (k.sorted, ground (arith, k.once p), λ h. ground (arith, h, k.once p))
