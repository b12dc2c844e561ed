-- ===== src/Remote/Reply.antt =====
-- The client's side: a package that is the answer to a waiting call.
use srpg.Base.{
  ℕ, some, [], refl, ap, ◌∙◌, List, ◌<◌, ◌≡◌, length, ◌++◌, ◌∷◌, ◌^◌, get_elem?, set, append_assoc,
}
use srpg.Session.{Session, find}
use srpg.Header.{Header, save_header, direction_response}
use srpg.Header.Laws.{IsHeader}
use srpg.Package.Transfer.{length-flatten_lt, packed, body_of, wire_of}
use srpg.Dispatch.{BasicConnection, Served, size_word}
use srpg.Dispatch.Reads.{starting, concluded-silent}
use srpg.Dispatch.Loop.{response_served, serve_packets-nil, answered, answer_header}
use srpg.Idl.{InterfaceInvoker, save_ret, ret_helper, invoke_interface}
use srpg.Idl.Tuples.{Fit, load_ret-save_ret}
use srpg.Remote.{deliver, read_result}
use srpg.Remote.Delivery.{one_packet, deliver-packed}
use srpg.Remote.Invoked.{size-new_package}
use srpg.Header.Laws.{length-front_pos}
use srpg.Header.Laws.{length-save_header_pos}
use srpg.Archive.{Archive}

pub read_result-loaded :
    (ar : Archive) (rets values rest : List ℕ) (s : List ℕ)
    → Fit rets values
    → s ≡ save_ret ar (ret_helper rets) values ++ rest
    → read_result ar rets s ≡ (values, rest)
unfolding read_result
read_result-loaded ar rets values rest s fit e =
    rw (e, read_result, load_ret-save_ret ar rets values rest fit) refl

module _ {Impl : Type 0} (ar : Archive) where
  -- A package that is the answer to a waiting call, alone.
  module _ (read : List ℕ → List ℕ × List ℕ) (c : BasicConnection (InterfaceInvoker Impl))
      (s : Session (InterfaceInvoker Impl)) (h old : Header) (p : ℕ) (b value : List ℕ)
      (fuel : ℕ) where
    abbrev pub after_answer : BasicConnection (InterfaceInvoker Impl)
    after_answer = record c {
      ipackage =
          record (one_packet (invoke_interface Impl ar) read ar c.ipackage
            (save_header ar h ++ b)) { stream_buf = [] };
      sessions =
          set c.sessions h.session_id (answered (invoke_interface Impl ar) read ar s h p value);
      reading = size_word;
    }

    pub deliver-answer :
        IsHeader h
        → h.dir ≡ direction_response
        → get_elem? c.sessions h.session_id ≡ some s
        → find h.operation_id s.wait_map ≡ some p
        → read (b ++ []) ≡ (value, [])
        → c.ipackage.stream_buf ≡ []
        → length (body_of ar ((save_header ar h ++ b) ∷ [])) < 2 ^ 32
        → 1 < fuel
        → deliver
            (invoke_interface Impl ar)
            read
            ar
            fuel
            old
            c
            (wire_of (packed ar ((save_header ar h ++ b) ∷ [])))
          ≡ some after_answer
    deliver-answer hh d there waits r e hs hf =
        let call = invoke_interface Impl ar in
        let h0 = save_header ar h in
        let start = starting call read ar c old (one_packet call read ar c.ipackage (h0 ++ b)) in
        let done : Served (InterfaceInvoker Impl) = record start {
          sessions = set c.sessions h.session_id (answered call read ar s h p value);
          ip = record start.ip { stream_buf = [] };
          header = answer_header call read ar old h;
        } in
        deliver-packed call read ar c old (h0 ++ b) fuel done
          (length-front_pos h0 b (length-save_header_pos ar h hh)) hs e hf
          (response_served call read ar start s h p b value [] [] hh d (append_assoc h0 b [])
              (length-flatten_lt ar ((h0 ++ b) ∷ []) hs) there waits r
            ∙ serve_packets-nil call read ar done)
        ∙ ap some (concluded-silent call read ar c done size-new_package)
