-- ===== src/Remote/Call.antt =====
-- A call from one side of a connection to an implementation on the other side, and its answer.
use srpg.Base.{
  ℕ, some, [], refl, ap, ◌∙◌, List, ◌<◌, ◌≡◌, length, ◌++◌, arith, ◌∷◌, ◌^◌, get_elem?, set, false,
  none, get_elem?-set, Option, flatten,
}
use srpg.Session.{Session, find, get_free_operation_id, package_or_new}
use srpg.Session.Ids.{IsSortedFrom}
use srpg.Session.Requests.{
  get_free_operation_id-lt, requested, find-requested, find-assign, find-answered,
}
use srpg.Header.{Header, save_header, direction_request, direction_response}
use srpg.Header.Laws.{IsHeader}
use srpg.Package.{Package, pack, write}
use srpg.Package.{begin_packet as begin_package_packet, end_packet as end_package_packet}
use srpg.Package.Transfer.{packed, body_of, wire_of}
use srpg.Dispatch.{BasicConnection}
use srpg.Idl.{
  Method, InterfaceInvoker, save_tuple, save_ret, ret_helper, invoke_interface, local_request,
  find_method, is_void, call_method,
}
use srpg.Idl.Tuples.{Fit, saved_args, length-saved_args, flatten-saved_args}
use srpg.Idl.Asking.{call_of, call_method-requested}
use srpg.Remote.{deliver, read_result}
use srpg.Remote.Answer.{deliver-request}
use srpg.Archive.{Archive}
use srpg.Package.Sizes.{write_packets}
use srpg.Session.Calls.{package_with}
use srpg.Remote.Reply.{read_result-loaded, deliver-answer}

module _ {Impl : Type 0} (ar : Archive) where
  module _ (s : Session (InterfaceInvoker Impl)) (iid k : ℕ) (m : Method Impl)
      (f : InterfaceInvoker Impl) (values : List ℕ) where
    abbrev pub request_header : Header
    request_header = record {
      dir = direction_request;
      session_id = s.session_id;
      operation_id = get_free_operation_id (InterfaceInvoker Impl) s;
      interface_id = iid;
      method_id = k;
      arity = length (saved_args ar m.args values);
    }

    abbrev pub result : List ℕ × Impl
    result = local_request Impl f.impl m values

    -- The packets of the call and of its answer.
    abbrev pub request_packet : List ℕ
    request_packet = save_header ar request_header ++ save_tuple ar m.args values

    abbrev pub reply_packet : List ℕ
    reply_packet =
        save_header ar (record request_header { dir = direction_response })
        ++ save_ret ar (ret_helper m.rets) result.0

    pub IsHeader-request_header :
        IsSortedFrom 0 s.wait_map
        → length s.wait_map < 256
        → Fit m.args values
        → s.session_id < 256
        → iid < 256
        → k < 256
        → length m.args < 256
        → IsHeader request_header
    IsHeader-request_header so hw fit h1 h2 h3 h4 = record {
      dir_byte = omega arith;
      session_byte = h1;
      operation_byte = get_free_operation_id-lt ar s (call_of ar s iid k m values) so hw;
      interface_byte = h2;
      method_byte = h3;
      arity_byte = omega (arith, length-saved_args ar m.args values fit);
    }

    pub package_with-packed :
        s.package_ptr ≡ none
        → pack ar (package_with ar s (call_of ar s iid k m values))
          ≡ packed ar (request_packet ∷ [])
    unfolding packed package_or_new write_packets begin_package_packet
    package_with-packed e =
        let with : Option Package → List ℕ → Package = λ o b.
          pack ar (
            end_package_packet ar
              (write (package_or_new o) (save_header ar request_header ++ b))) in
        ap (λ o. with o (flatten (saved_args ar m.args values))) e
        ∙ ap (λ b. with none b) (flatten-saved_args ar m.args values)

    -- A call outside of a batch, of a method that returns a value, over a connection: the client
    -- sends one package; the server that reads it has the implementation do what a local call does,
    -- keeps its changed state in the interface, and sends one package back; and the client that
    -- reads that one resolves the promise of the call with the result of the local call, and its
    -- other calls wait as before. The session has the same place and number on both sides; the
    -- server's one is bound to the interface, which has the method; arguments and results fit their
    -- types; numbers are bytes; the waiting calls are in order and fewer than 256; no part of a
    -- package is left over on either side; and each package has less than 2^32 bytes.
    pub deliver-call_method :
        (client server : BasicConnection (InterfaceInvoker Impl))
        (t : Session (InterfaceInvoker Impl)) (read : List ℕ → List ℕ × List ℕ) (old old' : Header)
        (fuel : ℕ)
        → s.enable_batch ≡ false
        → s.package_ptr ≡ none
        → IsSortedFrom 0 s.wait_map
        → length s.wait_map < 256
        → get_elem? client.sessions s.session_id ≡ some s
        → get_elem? server.sessions s.session_id ≡ some t
        → find iid t.invoke_map ≡ some f
        → find_method Impl k f.methods ≡ some m
        → m.impl_void ≡ false
        → is_void (ret_helper m.rets) ≡ false
        → Fit m.args values
        → Fit m.rets result.0
        → s.session_id < 256
        → iid < 256
        → k < 256
        → length m.args < 256
        → client.ipackage.stream_buf ≡ []
        → server.ipackage.stream_buf ≡ []
        → length (body_of ar (request_packet ∷ [])) < 2 ^ 32
        → length (body_of ar (reply_packet ∷ [])) < 2 ^ 32
        → 1 < fuel
        → (promise : ℕ) × (s' : Session (InterfaceInvoker Impl)) × (q reply : Package) × (server'
            client' : BasicConnection (InterfaceInvoker Impl))
          × (t' s'' : Session (InterfaceInvoker Impl)) × (f' : InterfaceInvoker Impl) × (call_method
                Impl ar s iid k m values
              ≡ some (some promise, s'))
          × (s'.sent ≡ s.sent ++ (q ∷ []))
          × (deliver (invoke_interface Impl ar) read ar fuel old server (wire_of (pack ar q))
              ≡ some server')
          × (server'.written ≡ server.written ++ (reply ∷ []))
          × (get_elem? server'.sessions s.session_id ≡ some t')
          × (find iid t'.invoke_map ≡ some f')
          × (f'.impl ≡ result.1)
          × (deliver
                (invoke_interface Impl ar)
                (read_result ar m.rets)
                ar
                fuel
                old'
                (record client { sessions = set client.sessions s.session_id s' })
                (wire_of reply)
              ≡ some client')
          × (get_elem? client'.sessions s.session_id ≡ some s'')
          × (s''.resolved ≡ s.resolved ++ ((promise, result.0) ∷ []))
          × ((j : ℕ) → find j s''.wait_map ≡ find j s.wait_map)
    deliver-call_method client server t read old old' fuel batch ptr so hw cs ss bound found v r fit
          fits sid hi hk hn ec es hq hr hf =
        let call = invoke_interface Impl ar in
        let c = call_of ar s iid k m values in
        let s' = requested ar s c in
        let hh = IsHeader-request_header so hw fit sid hi hk hn in
        let ha : IsHeader (record request_header { dir = direction_response }) = record {
          dir_byte = omega arith;
          session_byte = hh.session_byte;
          operation_byte = hh.operation_byte;
          interface_byte = hh.interface_byte;
          method_byte = hh.method_byte;
          arity_byte = hh.arity_byte;
        } in
        let client0 : BasicConnection (InterfaceInvoker Impl) = record client {
          sessions = set client.sessions s.session_id s';
        } in
        let here = get_elem?-set client.sessions s.session_id s s' cs in
        let waits = find-requested ar s c so hw in
        let loaded = read_result-loaded ar m.rets result.0 [] _ fits refl in
        (
          s.next_promise,
          s',
          package_with ar s c,
          packed ar (reply_packet ∷ []),
          _,
          _,
          _,
          _,
          _,
          call_method-requested ar s iid k m values r fit batch,
          refl,
          ap (λ w. deliver call read ar fuel old server (wire_of w)) (package_with-packed ptr)
              ∙ deliver-request read ar server t m f request_header old values fuel ss bound found
                  fit hh refl v r es hq hr hf ha,
          refl,
          get_elem?-set server.sessions s.session_id t _ ss,
          find-assign iid _ f t.invoke_map bound,
          refl,
          deliver-answer ar (read_result ar m.rets) client0 s' _ old' s.next_promise _ result.0 fuel
              ha refl here waits loaded ec hr hf,
          get_elem?-set client0.sessions s.session_id s' _ here,
          refl,
          find-answered ar s c so hw,
        )
