-- ===== src/Remote/Answer.antt =====
-- The server's side: a request that arrives alone is answered by one packet.
use srpg.Base.{
  ℕ, some, [], false, ap, ◌∙◌, List, ◌<◌, Option, ◌≡◌, length, ◌++◌, arith, ◌∷◌, ◌^◌, get_elem?,
  set, append_assoc, true,
}
use srpg.Session.{Session, Called, find, invoke}
use srpg.Header.{Header, save_header, direction_request}
use srpg.Header.Laws.{IsHeader}
use srpg.Package.{Package, new_package}
use srpg.Package.Sizes.{write_packets}
use srpg.Package.Transfer.{length-flatten_lt, packed, body_of, wire_of}
use srpg.Dispatch.{BasicConnection, Served, serve_packets, dispatch, size_word}
use srpg.Dispatch.Reads.{starting, concluded-answered, concluded-silent}
use srpg.Idl.{
  Method, InterfaceInvoker, invoke_interface, save_tuple, find_method, is_void, ret_helper,
}
use srpg.Idl.Tuples.{Fit}
use srpg.Idl.Serving.{called, answer_packet, answer_to}
use srpg.Remote.{deliver}
use srpg.Remote.Delivery.{one_packet, deliver-packed}
use srpg.Archive.{Archive}
use srpg.Dispatch.Loop.{
  serve-step, shorter, all_read, serve_packets-nil, fits, dispatch-request, used, received-request,
}
use srpg.Remote.Invoked.{size-packet, size-new_package, invoke-answer, invoke-silent, after_call}
use srpg.Header.Laws.{length-front_pos}
use srpg.Header.Laws.{length-save_header_pos}

module _ {Impl : Type 0} (read : List ℕ → List ℕ × List ℕ) (ar : Archive) where
  abbrev call :
      InterfaceInvoker Impl → Header → Package → List ℕ → Option (Called (InterfaceInvoker Impl))
  call = invoke_interface Impl ar

  -- A request that arrives alone, by what its session does with it: the session afterwards, the
  -- header and the answer package.
  module _ (c : BasicConnection (InterfaceInvoker Impl)) (s s' : Session (InterfaceInvoker Impl))
      (h old h' : Header) (args : List ℕ) (op : Package)
      (there : get_elem? c.sessions h.session_id ≡ some s) (hh : IsHeader h)
      (request : h.dir ≡ direction_request)
      (invoked : invoke (InterfaceInvoker Impl) call s h new_package (args ++ [])
        ≡ some (s', h', op, []))
      (small : length ((save_header ar h ++ args) ++ []) < 2 ^ 32) where
    abbrev pub served_request : Served (InterfaceInvoker Impl)
    served_request =
        record (starting call read ar c old
          (one_packet call read ar c.ipackage (save_header ar h ++ args))) {
            sessions = set c.sessions h.session_id s';
            ip = record (one_packet call read ar c.ipackage (save_header ar h ++ args)) {
              stream_buf = [];
            };
            op = op;
            header = h';
          }

    pub serve-request :
        serve_packets
          (InterfaceInvoker Impl)
          call
          read
          ar
          (starting call read ar c old
            (one_packet call read ar c.ipackage (save_header ar h ++ args)))
          (length (save_header ar h ++ args) ∷ [])
        ≡ some served_request
    serve-request =
        let h0 = save_header ar h in
        let start = starting call read ar c old (one_packet call read ar c.ipackage (h0 ++ args)) in
        let headed : Header → Served (InterfaceInvoker Impl) =
          λ x. record start { ip = record start.ip { stream_buf = args ++ [] }; header = x } in
        serve-step call read ar start served_request h (args ++ []) (length (h0 ++ args)) [] hh
          (append_assoc h0 args []) (fits call read ar h0 args [])
          (ap (λ x. dispatch (InterfaceInvoker Impl) call read (headed x))
              (received-request call read ar old h request)
            ∙ dispatch-request call read ar (headed h) s (s', h', op, []) there request invoked)
          (used call read ar h0 args [] 0 (omega arith))
          (omega (arith, small, ap (λ (l : List ℕ). length l) (append_assoc h0 args [])))
          (shorter call read ar h0 args []) (all_read call read ar h0 args [])
        ∙ serve_packets-nil call read ar served_request

  -- A request for a method that returns a value, on a session that is bound to its interface: the
  -- implementation is called as a local call would be, its state is kept, and one package goes back,
  -- with the answer alone in it. For a method that returns none, nothing goes back.
  module _ (c : BasicConnection (InterfaceInvoker Impl)) (s : Session (InterfaceInvoker Impl))
      (m : Method Impl) (f : InterfaceInvoker Impl) (h old : Header) (values : List ℕ) (fuel : ℕ)
      (there : get_elem? c.sessions h.session_id ≡ some s)
      (bound : find h.interface_id s.invoke_map ≡ some f)
      (found : find_method Impl h.method_id f.methods ≡ some m) (fit : Fit m.args values)
      (hh : IsHeader h) (request : h.dir ≡ direction_request) where
    abbrev args : List ℕ
    args = save_tuple ar m.args values

    abbrev pub reply : List ℕ
    reply = answer_packet ar m f h new_package values []

    abbrev pub bound_after : InterfaceInvoker Impl
    bound_after = (called ar m f h new_package values []).invoker

    pub deliver-request :
        m.impl_void ≡ false
        → is_void (ret_helper m.rets) ≡ false
        → c.ipackage.stream_buf ≡ []
        → length (body_of ar ((save_header ar h ++ args) ∷ [])) < 2 ^ 32
        → length (body_of ar (reply ∷ [])) < 2 ^ 32
        → 1 < fuel
        → IsHeader (answer_to ar m f h new_package values [])
        → deliver call read ar fuel old c (wire_of (packed ar ((save_header ar h ++ args) ∷ [])))
          ≡ some (record c {
            ipackage = record (one_packet call read ar c.ipackage (save_header ar h ++ args)) {
              stream_buf = [];
            };
            sessions =
                set c.sessions h.session_id (after_call read ar s h.interface_id bound_after);
            reading = size_word;
            written = c.written ++ (packed ar (reply ∷ []) ∷ []);
          })
    unfolding packed write_packets
    deliver-request v r e hs hr hf ha =
        let h0 = save_header ar h in
        let s' = after_call read ar s h.interface_id bound_after in
        let h' = answer_to ar m f h new_package values [] in
        let op = write_packets ar new_package (reply ∷ []) in
        let small = length-flatten_lt ar ((h0 ++ args) ∷ []) hs in
        let invoked = invoke-answer read ar m f s h new_package values [] bound found v r fit in
        let done = served_request c s s' h old h' args op there hh request invoked small in
        let some_reply =
          length-front_pos (save_header ar (answer_to ar m f h new_package values [])) _
            (length-save_header_pos ar _ ha) in
        deliver-packed call read ar c old (h0 ++ args) fuel done
          (length-front_pos h0 args (length-save_header_pos ar h hh)) hs e hf
          (serve-request c s s' h old h' args op there hh request invoked small)
        ∙ ap some (concluded-answered call read ar c done (size-packet ar reply some_reply hr))

    pub deliver-request_silent :
        m.impl_void ≡ true
        → is_void (ret_helper m.rets) ≡ true
        → c.ipackage.stream_buf ≡ []
        → length (body_of ar ((save_header ar h ++ args) ∷ [])) < 2 ^ 32
        → 1 < fuel
        → deliver call read ar fuel old c (wire_of (packed ar ((save_header ar h ++ args) ∷ [])))
          ≡ some (record c {
            ipackage = record (one_packet call read ar c.ipackage (save_header ar h ++ args)) {
              stream_buf = [];
            };
            sessions =
                set c.sessions h.session_id (after_call read ar s h.interface_id bound_after);
            reading = size_word;
          })
    deliver-request_silent v r e hs hf =
        let h0 = save_header ar h in
        let s' = after_call read ar s h.interface_id bound_after in
        let small = length-flatten_lt ar ((h0 ++ args) ∷ []) hs in
        let invoked = invoke-silent read ar m f s h new_package values [] bound found v r fit in
        let done = served_request c s s' h old h args new_package there hh request invoked small in
        deliver-packed call read ar c old (h0 ++ args) fuel done
          (length-front_pos h0 args (length-save_header_pos ar h hh)) hs e hf
          (serve-request c s s' h old h args new_package there hh request invoked small)
        ∙ ap some (concluded-silent call read ar c done size-new_package)
