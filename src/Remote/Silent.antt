-- ===== src/Remote/Silent.antt =====
-- A call of a method that returns none, from one side of a connection to the other.
use srpg.Base.{
  ℕ, none, some, [], true, false, refl, ap, ◌∙◌, List, ◌<◌, ◌≡◌, length, ◌++◌, ◌∷◌, ◌^◌, get_elem?,
  get_elem?-set,
}
use srpg.Session.{Session, find}
use srpg.Session.Ids.{IsSortedFrom}
use srpg.Session.Requests.{posted, find-assign}
use srpg.Session.Calls.{package_with}
use srpg.Header.{Header}
use srpg.Package.{Package, pack}
use srpg.Package.Transfer.{body_of, wire_of}
use srpg.Dispatch.{BasicConnection}
use srpg.Idl.{
  Method, InterfaceInvoker, find_method, is_void, ret_helper, call_method, invoke_interface,
  local_request,
}
use srpg.Idl.Tuples.{Fit}
use srpg.Idl.Asking.{call_of, call_method-posted}
use srpg.Remote.{deliver}
use srpg.Remote.Answer.{deliver-request_silent}
use srpg.Remote.Call.{request_header, request_packet, IsHeader-request_header, package_with-packed}
use srpg.Archive.{Archive}

-- A call outside of a batch, of a method that returns none on both sides, over a connection: the
-- client sends one package and waits for nothing; the server that reads it has the implementation
-- do what a local call does, keeps its changed state in the interface, and sends nothing. The
-- session has the same place and number on both sides; the server's one is bound to the interface,
-- which has the method; the arguments fit their types; numbers are bytes; the waiting calls are in
-- order and fewer than 256; no part of a package is left over at the server; and the package has
-- less than 2^32 bytes.
pub deliver-call_method_void :
    {Impl : Type 0} (ar : Archive) (server : BasicConnection (InterfaceInvoker Impl))
    (s t : Session (InterfaceInvoker Impl)) (iid k : ℕ) (m : Method Impl)
    (f : InterfaceInvoker Impl) (values : List ℕ) (read : List ℕ → List ℕ × List ℕ) (old : Header)
    (fuel : ℕ)
    → s.enable_batch ≡ false
    → s.package_ptr ≡ none
    → IsSortedFrom 0 s.wait_map
    → length s.wait_map < 256
    → get_elem? server.sessions s.session_id ≡ some t
    → find iid t.invoke_map ≡ some f
    → find_method Impl k f.methods ≡ some m
    → m.impl_void ≡ true
    → is_void (ret_helper m.rets) ≡ true
    → Fit m.args values
    → s.session_id < 256
    → iid < 256
    → k < 256
    → length m.args < 256
    → server.ipackage.stream_buf ≡ []
    → length (body_of ar (request_packet ar s iid k m f values ∷ [])) < 2 ^ 32
    → 1 < fuel
    → (s' : Session (InterfaceInvoker Impl)) × (q : Package) × (server' : BasicConnection
        (InterfaceInvoker Impl))
      × (t' : Session (InterfaceInvoker Impl)) × (f' : InterfaceInvoker Impl) × (call_method Impl ar
            s iid k m values
          ≡ some (none, s'))
      × (s'.sent ≡ s.sent ++ (q ∷ []))
      × (s'.wait_map ≡ s.wait_map)
      × (deliver (invoke_interface Impl ar) read ar fuel old server (wire_of (pack ar q))
          ≡ some server')
      × (server'.written ≡ server.written)
      × (get_elem? server'.sessions s.session_id ≡ some t')
      × (find iid t'.invoke_map ≡ some f')
      × (f'.impl ≡ (local_request Impl f.impl m values).1)
deliver-call_method_void {Impl = Impl} ar server s t iid k m f values read old fuel batch ptr so hw
      ss bound found v r fit sid hi hk hn es hq hf =
    let call = invoke_interface Impl ar in
    let c = call_of ar s iid k m values in
    let head = request_header ar s iid k m f values in
    let hh = IsHeader-request_header ar s iid k m f values so hw fit sid hi hk hn in
    (
      posted ar s c,
      package_with ar s c,
      _,
      _,
      _,
      call_method-posted ar s iid k m values r fit batch,
      refl,
      refl,
      ap (λ w. deliver call read ar fuel old server (wire_of w))
            (package_with-packed ar s iid k m f values ptr)
          ∙ deliver-request_silent read ar server t m f head old values fuel ss bound found fit hh
              refl v r es hq hf,
      refl,
      get_elem?-set server.sessions s.session_id t _ ss,
      find-assign iid _ f t.invoke_map bound,
      refl,
    )
