-- ===== src/Remote/InOrder.antt =====
-- The calls of a batch are carried out in their order.
use srpg.Base.{
  length-append, ℕ, some, [], refl, ◌∙◌, List, ◌<◌, Option, ◌≡◌, length, arith, ◌∷◌, get_elem?,
  get_elem?-set, map, flatten, All, set, none, true, ◌^◌, ap, ◌++◌,
}
use srpg.Session.{Session, find, package_or_new, end_batch}
use srpg.Session.Ids.{IsSortedFrom}
use srpg.Session.Requests.{find-assign}
use srpg.Dispatch.{Served, BasicConnection}
use srpg.Dispatch.Loop.{serve_packets-nil}
use srpg.Idl.{InterfaceInvoker, invoke_interface, local_request}
use srpg.Remote.Invoked.{after_call, size-new_package}
use srpg.Header.Laws.{length-front_pos}
use srpg.Header.Laws.{length-save_header_pos}
use srpg.Remote.Call.{request_header, IsHeader-request_header}
use srpg.Remote.Batch.{
  Posted, local_all, IsSilent, calls_of, packets_of, serve, serve-call, call_all, call_all-send_all,
}
use srpg.Archive.{Archive}
use srpg.Package.Transfer.{length-flatten_lt, packed, body_of, wire_of}
use srpg.Header.{Header}
use srpg.Package.{pack, Package, size}
use srpg.Package.Sizes.{write_packets}
use srpg.Remote.{deliver}
use srpg.Session.Calls.{packet_of, end_batch-send_all}
use srpg.Idl.Asking.{call_of}
use srpg.Dispatch.Reads.{starting, concluded-silent}
use srpg.Remote.Delivery.{with_packets, deliver-all_packed}

module _ {Impl : Type 0} (ar : Archive) (iid : ℕ) (read : List ℕ → List ℕ × List ℕ)
    (s : Session (InterfaceInvoker Impl)) (so : IsSortedFrom 0 s.wait_map)
    (hw : length s.wait_map < 256) (sid : s.session_id < 256) (hi : iid < 256) where
  abbrev packets : List (Posted Impl) → List (List ℕ)
  packets cs = packets_of ar iid read s so hw sid hi cs

  abbrev serve_sizes :
      Served (InterfaceInvoker Impl) → List ℕ → Option (Served (InterfaceInvoker Impl))
  serve_sizes v sizes = serve ar iid read s so hw sid hi v sizes

  -- What the calls leave: nothing of the stream, no answer, and the implementation as after local
  -- calls in the same order.
  abbrev Carried :
      Served (InterfaceInvoker Impl)
      → InterfaceInvoker Impl
      → List (Posted Impl)
      → Served (InterfaceInvoker Impl)
      → Type 0
  Carried v f cs v' =
      (t' : Session (InterfaceInvoker Impl)) × (f' : InterfaceInvoker Impl) × (v'.ip.stream_buf
        ≡ [])
      × (v'.op ≡ v.op)
      × (get_elem? v'.sessions s.session_id ≡ some t')
      × (find iid t'.invoke_map ≡ some f')
      × (f'.impl ≡ local_all f.impl cs)

  serve-calls :
      (v : Served (InterfaceInvoker Impl)) (t : Session (InterfaceInvoker Impl))
      (f : InterfaceInvoker Impl) (cs : List (Posted Impl))
      → v.ip.stream_buf ≡ flatten (packets cs)
      → length (flatten (packets cs)) < 2 ^ 32
      → get_elem? v.sessions s.session_id ≡ some t
      → find iid t.invoke_map ≡ some f
      → All (IsSilent f) cs
      → (v' : Served (InterfaceInvoker Impl)) × (serve_sizes v (map length (packets cs)) ≡ some v')
        × Carried v f cs v'
  unfolding calls_of local_all
  serve-calls v t f [] e small there bound h = (
    v,
    serve_packets-nil (invoke_interface Impl ar) read ar v,
    (t, f, e, refl, there, bound, refl),
  )
  serve-calls v t f ((k, m, values) ∷ cs) e small there bound (h, hs) =
      let f1 : InterfaceInvoker Impl = record f { impl = (local_request Impl f.impl m values).1 } in
      let t1 = after_call read ar t iid f1 in
      let rest = flatten (packets cs) in
      let whole =
        length-append (packet_of ar s (call_of ar s iid k m values)) (flatten (packets cs)) in
      let next : Served (InterfaceInvoker Impl) = record v {
        sessions = set v.sessions s.session_id t1;
        ip = record v.ip { stream_buf = rest };
        header = request_header ar s iid k m f values;
      } in
      let (v', done, carried) =
        serve-calls next t1 f1 cs refl (omega (arith, small, whole))
          (get_elem?-set v.sessions s.session_id t t1 there)
          (find-assign iid f1 f t.invoke_map bound) hs in
      (
        v',
        serve-call ar iid read s so hw sid hi v t f k m values rest (map length (packets cs)) e
              (omega (arith, small, ap (λ (l : List ℕ). length l) e)) there bound h
            ∙ done,
        carried,
      )

  packets-pos :
      (f : InterfaceInvoker Impl) (cs : List (Posted Impl))
      → All (IsSilent f) cs
      → All (λ b. 0 < length b) (packets cs)
  unfolding calls_of
  packets-pos f [] h = tt
  packets-pos f ((k, m, values) ∷ cs) ((_, _, _, fit, hk, hn), hs) = (
    length-front_pos _ _ (
        length-save_header_pos ar _
          (IsHeader-request_header ar s iid k m f values so hw fit sid hi hk hn)),
    packets-pos f cs hs,
  )

  length-packets : (cs : List (Posted Impl)) → length (packets cs) ≡ length cs
  unfolding calls_of
  length-packets [] = refl
  length-packets (c ∷ cs) = omega (arith, length-packets cs)

  pack-batch :
      (bs : List (List ℕ))
      → s.package_ptr ≡ none
      → pack ar (write_packets ar (package_or_new s.package_ptr) bs) ≡ packed ar bs
  unfolding packed package_or_new
  pack-batch bs e = ap (λ (o : Option Package). pack ar (write_packets ar (package_or_new o) bs)) e

  -- A batch of calls of methods that return none, over a connection: while the batch is open nothing
  -- is sent; `end_batch` sends one package; and the server that reads it has the implementation do
  -- what the local calls do, one after the other in the order of the calls, keeps its changed state
  -- in the interface, and sends nothing. The batch has a call, and no package before it; its session
  -- has the same place and number on both sides; the server's one is bound to the interface, which
  -- has the methods; the arguments fit their types; numbers are bytes; the waiting calls are in
  -- order and fewer than 256; no part of a package is left over at the server; the package has less
  -- than 2^32 bytes; and the loop over its sizes has a round for each call and one more.
  pub deliver-call_all :
      (server : BasicConnection (InterfaceInvoker Impl)) (t : Session (InterfaceInvoker Impl))
      (f : InterfaceInvoker Impl) (c : Posted Impl) (cs : List (Posted Impl)) (old : Header)
      (fuel : ℕ)
      → s.enable_batch ≡ true
      → s.package_ptr ≡ none
      → get_elem? server.sessions s.session_id ≡ some t
      → find iid t.invoke_map ≡ some f
      → All (IsSilent f) (c ∷ cs)
      → server.ipackage.stream_buf ≡ []
      → length (body_of ar (packets (c ∷ cs))) < 2 ^ 32
      → length (c ∷ cs) < fuel
      → (s' s'' : Session (InterfaceInvoker Impl)) × (q : Package) × (server' : BasicConnection
          (InterfaceInvoker Impl))
        × (t' : Session (InterfaceInvoker Impl)) × (f' : InterfaceInvoker Impl) × (call_all ar iid s
              (c ∷ cs)
            ≡ some s')
        × (s'.sent ≡ s.sent)
        × (end_batch (InterfaceInvoker Impl) s' ≡ some s'')
        × (s''.sent ≡ s.sent ++ (q ∷ []))
        × (deliver (invoke_interface Impl ar) read ar fuel old server (wire_of (pack ar q))
            ≡ some server')
        × (server'.written ≡ server.written)
        × (get_elem? server'.sessions s.session_id ≡ some t')
        × (find iid t'.invoke_map ≡ some f')
        × (f'.impl ≡ local_all f.impl (c ∷ cs))
  unfolding calls_of
  deliver-call_all server t f (k, m, values) cs old fuel batch ptr there bound silent es hq hf =
      let all : List (Posted Impl) = (k, m, values) ∷ cs in
      let bs = packets all in
      let call = invoke_interface Impl ar in
      let (s', collected, quiet, ended) =
        end_batch-send_all ar s (call_of ar s iid k m values) (calls_of ar iid cs) batch in
      let start = starting call read ar server old (with_packets call read ar server.ipackage bs) in
      let (v', done, (t', f', _, op, there', bound', impl')) =
        serve-calls start t f all refl (length-flatten_lt ar bs hq) there bound silent in
      (
        s',
        _,
        write_packets ar (package_or_new s.package_ptr) bs,
        _,
        t',
        f',
        call_all-send_all ar iid f s all silent ∙ collected,
        quiet,
        ended,
        refl,
        ap (λ w. deliver call read ar fuel old server (wire_of w)) (pack-batch bs ptr)
            ∙ deliver-all_packed call read ar server old bs fuel v' (packets-pos f all silent) hq es
                (omega (arith, length-packets all)) done
            ∙ ap some (
                concluded-silent call read ar server v'
                  (ap (λ (p : Package). size p) op ∙ size-new_package)),
        refl,
        there',
        bound',
        impl',
      )
