-- ===== src/Dispatch/Loop.antt =====
-- The packets of one package, served in their order.
use srpg.Base.{
  ◌%◌, ◌^◌, ◌<◌, ℕ, ap, ◌≤◌, if◌then◌else◌, List, ltb, ◌==◌, ◌≡◌, arith, ◌++◌, length, get_elem?,
  none, ◌-◌, ◌∷◌, some, length-append, set, ◌∙◌, [], refl, Option,
}
use srpg.Session.{Called, invoke, Session, response, find, erase}
use srpg.Header.{Header, save_header, direction_response, direction_request}
use srpg.Package.{in_avail, ignore, read_header, Package}
use srpg.Archive.{Archive}
use srpg.Dispatch.{bytes_left, Served, serve_packets, dispatch}
use srpg.Header.Laws.{received, IsHeader, load_header-save_header}
use srpg.Session.Responses.{response-found}

bytes_left_lem :
    (n avail left : ℕ)
    → avail < 2 ^ 32
    → n ≤ avail
    → left ≤ avail
    → avail - left ≤ n
    → bytes_left n (avail % 2 ^ 32) (left % 2 ^ 32) ≡ n - (avail - left)
unfolding bytes_left
bytes_left_lem n avail left ha hn hl hu = omega (arith, ha, hn, hl, hu)

within_tests :
    {A : Type 0} (avail left n : ℕ) (x y z : A)
    → n ≤ avail
    → left < 2 ^ 31
    → (if ltb avail n then y else (if left == 0 then x else (if ltb left (2 ^ 31) then x else z)))
      ≡ x
within_tests avail left n x y z h k = ground arith

-- The three-way test of the loop, where the packet is there, at most its bytes were used, and those
-- that are left are in the range of an `int`.
within :
    {A : Type 0} (avail left n : ℕ) (x y z : A)
    → avail < 2 ^ 32
    → n ≤ avail
    → left ≤ avail
    → avail - left ≤ n
    → n - (avail - left) < 2 ^ 31
    → (if ltb (avail % 2 ^ 32) n
        then y
        else (if bytes_left n (avail % 2 ^ 32) (left % 2 ^ 32) == 0
            then x
            else (if ltb (bytes_left n (avail % 2 ^ 32) (left % 2 ^ 32)) (2 ^ 31) then x else z)))
      ≡ x
within avail left n x y z ha hn hl hu hs =
    within_tests (avail % 2 ^ 32) (bytes_left n (avail % 2 ^ 32) (left % 2 ^ 32)) n x y z
      (omega (arith, ha, hn)) (omega (arith, hs, bytes_left_lem n avail left ha hn hl hu))

module _ {Invoker : Type 0} (call : Invoker → Header → Package → List ℕ → Option (Called Invoker))
    (read : List ℕ → List ℕ × List ℕ) (ar : Archive) where
  abbrev pub after_header : Served Invoker → Header → List ℕ → Served Invoker
  after_header v h s = record v {
    ip = record v.ip { stream_buf = s };
    header = received ar v.header h;
  }

  received_lem :
      (v : Served Invoker) (h : Header) (s : List ℕ)
      → IsHeader h
      → v.ip.stream_buf ≡ save_header ar h ++ s
      → read_header ar v.ip v.header ≡ some (received ar v.header h, record v.ip { stream_buf = s })
  unfolding read_header
  received_lem v h s hv e = rw (read_header, e, load_header-save_header ar v.header h s hv) refl

  pub serve-step :
      (v u : Served Invoker) (h : Header) (s : List ℕ) (n : ℕ) (ps : List ℕ)
      → IsHeader h
      → v.ip.stream_buf ≡ save_header ar h ++ s
      → n ≤ length (save_header ar h ++ s)
      → dispatch Invoker call read (after_header v h s) ≡ some u
      → length (save_header ar h ++ s) - length u.ip.stream_buf ≤ n
      → length (save_header ar h ++ s) < 2 ^ 32
      → length u.ip.stream_buf ≤ length (save_header ar h ++ s)
      → n - (length (save_header ar h ++ s) - length u.ip.stream_buf) < 2 ^ 31
      → serve_packets Invoker call read ar v (n ∷ ps) ≡ serve_packets Invoker call read ar u ps
  unfolding in_avail ignore serve_packets
  serve-step v u h s n ps hv e hn d hu small less_left unread =
      let w = received_lem v h s hv e in
      let size = ap length e in
      rw (serve_packets, w, d)
        (within (length v.ip.stream_buf) (length u.ip.stream_buf) n _ (some v) _
          (omega (arith, size, small)) (omega (arith, size, hn)) (omega (arith, size, less_left))
          (omega (arith, size, hu)) (omega (arith, size, unread)))

  pub serve_packets-nil : (v : Served Invoker) → serve_packets Invoker call read ar v [] ≡ some v
  unfolding serve_packets
  serve_packets-nil v = refl

  pub fits : (x b rest : List ℕ) → length (x ++ b) ≤ length (x ++ (b ++ rest))
  fits x b rest =
      omega (arith, length-append x b, length-append x (b ++ rest), length-append b rest)

  pub used :
      (x b rest : List ℕ) (m : ℕ)
      → length rest ≤ m
      → length (x ++ (b ++ rest)) - m ≤ length (x ++ b)
  used x b rest m h =
      omega (arith, length-append x b, length-append x (b ++ rest), length-append b rest)

  -- The stream is no longer after a packet of which all, or all but `b`, was read.
  pub shorter : (x b rest : List ℕ) → length rest ≤ length (x ++ (b ++ rest))
  shorter x b rest = omega (arith, length-append x (b ++ rest), length-append b rest)

  pub all_read :
      (x b rest : List ℕ) → length (x ++ b) - (length (x ++ (b ++ rest)) - length rest) < 2 ^ 31
  all_read x b rest =
      omega (arith, length-append x b, length-append x (b ++ rest), length-append b rest)

  pub body_unread :
      (x b rest : List ℕ)
      → length b < 2 ^ 31
      → length (x ++ b) - (length (x ++ (b ++ rest)) - length (b ++ rest)) < 2 ^ 31
  body_unread x b rest h =
      omega (arith, h, length-append x b, length-append x (b ++ rest), length-append b rest)

  dispatch-no_session :
      (v : Served Invoker)
      → get_elem? v.sessions v.header.session_id ≡ none
      → dispatch Invoker call read v ≡ some v
  unfolding dispatch
  dispatch-no_session v e = rw (dispatch, e) refl

  -- A packet for a session that does not exist is read up to its header only: what is left of it is
  -- not discarded, and the packets after it are read from there. The stream has less than 2^32
  -- bytes, and fewer than 2^31 of the packet are left.
  pub unknown_session_keeps_body :
      (v : Served Invoker) (h : Header) (b rest : List ℕ) (ps : List ℕ)
      → IsHeader h
      → v.ip.stream_buf ≡ save_header ar h ++ (b ++ rest)
      → length v.ip.stream_buf < 2 ^ 32
      → length b < 2 ^ 31
      → get_elem? v.sessions (received ar v.header h).session_id ≡ none
      → serve_packets Invoker call read ar v (length (save_header ar h ++ b) ∷ ps)
        ≡ serve_packets Invoker call read ar (after_header v h (b ++ rest)) ps
  unknown_session_keeps_body v h b rest ps hv e small unread none_there =
      let h0 = save_header ar h in
      let next = after_header v h (b ++ rest) in
      serve-step v next h (b ++ rest) (length (h0 ++ b)) ps hv e (fits h0 b rest)
        (dispatch-no_session next none_there)
        (used h0 b rest _ (omega (arith, length-append b rest))) (omega (arith, ap length e, small))
        (omega (arith, length-append h0 (b ++ rest))) (body_unread h0 b rest unread)

  dispatch-response :
      (v : Served Invoker) (s : Session Invoker)
      → get_elem? v.sessions v.header.session_id ≡ some s
      → v.header.dir ≡ direction_response
      → dispatch Invoker call read v
        ≡ some (record v {
          sessions =
              set v.sessions v.header.session_id
                (response Invoker read s v.header v.ip.stream_buf).0;
          ip = record v.ip { stream_buf = (response Invoker read s v.header v.ip.stream_buf).1 };
        })
  unfolding dispatch
  dispatch-response v s e d = rw (dispatch, e, d) refl

  abbrev pub answer_header : Header → Header → Header
  answer_header old h = record old {
    dir = h.dir;
    session_id = h.session_id;
    operation_id = h.operation_id;
  }

  received-answer :
      (old h : Header) → h.dir ≡ direction_response → received ar old h ≡ answer_header old h
  received-answer old h d =
      ap (λ (n : ℕ). if n == direction_request then h else answer_header old h) d

  pub received-request : (old h : Header) → h.dir ≡ direction_request → received ar old h ≡ h
  received-request old h d =
      ap (λ (n : ℕ). if n == direction_request then h else answer_header old h) d

  -- What an answer leaves of the calls that wait in its session.
  abbrev pub answered : Session Invoker → Header → ℕ → List ℕ → Session Invoker
  answered s h p value = record s {
    wait_map = erase h.operation_id s.wait_map;
    resolved = s.resolved ++ ((p, value) ∷ []);
  }

  dispatch-answer :
      (v : Served Invoker) (s : Session Invoker) (h : Header) (p : ℕ) (bytes : List ℕ)
      → h.dir ≡ direction_response
      → get_elem? v.sessions h.session_id ≡ some s
      → find h.operation_id s.wait_map ≡ some p
      → dispatch Invoker call read (after_header v h bytes)
        ≡ some (record v {
          sessions = set v.sessions h.session_id (answered s h p (read bytes).0);
          ip = record v.ip { stream_buf = (read bytes).1 };
          header = answer_header v.header h;
        })
  dispatch-answer v s h p bytes d there waits =
      let hd = answer_header v.header h in
      let back : Session Invoker × List ℕ → Served Invoker = λ r. record v {
        sessions = set v.sessions h.session_id r.0;
        ip = record v.ip { stream_buf = r.1 };
        header = hd;
      } in
      ap
        (λ (x : Header).
          dispatch Invoker call read
            (record v { ip = record v.ip { stream_buf = bytes }; header = x }))
        (received-answer v.header h d)
      ∙ dispatch-response (record v { ip = record v.ip { stream_buf = bytes }; header = hd }) s
          there d
      ∙ ap (λ r. some (back r)) (response-found ar s read hd bytes p waits)

  -- A packet that answers a waiting call of its session, in a stream of less than 2^32 bytes,
  -- resolves the promise of this call with the value that is read from the packet, ends the wait, and
  -- leaves the stream at the next packet.
  pub response_served :
      (v : Served Invoker) (s : Session Invoker) (h : Header) (p : ℕ) (b value rest ps : List ℕ)
      → IsHeader h
      → h.dir ≡ direction_response
      → v.ip.stream_buf ≡ save_header ar h ++ (b ++ rest)
      → length v.ip.stream_buf < 2 ^ 32
      → get_elem? v.sessions h.session_id ≡ some s
      → find h.operation_id s.wait_map ≡ some p
      → read (b ++ rest) ≡ (value, rest)
      → serve_packets Invoker call read ar v (length (save_header ar h ++ b) ∷ ps)
        ≡ serve_packets Invoker call read ar
            (record v {
              sessions = set v.sessions h.session_id (answered s h p value);
              ip = record v.ip { stream_buf = rest };
              header = answer_header v.header h;
            })
            ps
  response_served v s h p b value rest ps hv d e small there waits r =
      let whole = dispatch-answer v s h p (b ++ rest) d there waits in
      let split : List ℕ × List ℕ → Served Invoker = λ t. record v {
        sessions = set v.sessions h.session_id (answered s h p t.0);
        ip = record v.ip { stream_buf = t.1 };
        header = answer_header v.header h;
      } in
      let h0 = save_header ar h in
      serve-step v (split (value, rest)) h (b ++ rest) (length (h0 ++ b)) ps hv e (fits h0 b rest)
        (whole ∙ ap (λ t. some (split t)) r) (used h0 b rest (length rest) (omega arith))
        (omega (arith, ap length e, small)) (shorter h0 b rest) (all_read h0 b rest)

  -- A request for an interface that its session has.
  pub dispatch-request :
      (v : Served Invoker) (s : Session Invoker) (r : Session Invoker × Header × Package × List ℕ)
      → get_elem? v.sessions v.header.session_id ≡ some s
      → v.header.dir ≡ direction_request
      → invoke Invoker call s v.header v.op v.ip.stream_buf ≡ some r
      → dispatch Invoker call read v
        ≡ some (record v {
          sessions = set v.sessions v.header.session_id r.0;
          ip = record v.ip { stream_buf = r.3 };
          op = r.2;
          header = r.1;
        })
  unfolding dispatch
  dispatch-request v s r e d i = rw (dispatch, e, i, d) refl
