-- ===== src/Remote/Unread.antt =====
-- Requests that no implementation carries out.
use srpg.Base.{
  ◌<◌, ◌^◌, none, ℕ, some, refl, ap, ◌∙◌, List, ◌≡◌, ◌++◌, ◌∷◌, length, get_elem?, not, set-same,
  arith, length-append,
}
use srpg.Session.{Session, find, invoke}
use srpg.Session.Requests.{assign-same}
use srpg.Header.{Header, save_header, direction_request}
use srpg.Header.Laws.{IsHeader}
use srpg.Package.{Package}
use srpg.Dispatch.{Served, serve_packets, dispatch}
use srpg.Dispatch.Loop.{serve-step, fits, body_unread, used, dispatch-request, received-request}
use srpg.Idl.{Method, InterfaceInvoker, find_method, is_void, ret_helper, invoke_interface}
use srpg.Idl.Serving.{invoke_interface-unread, invoke_interface-no_method}
use srpg.Archive.{Archive}

module _ {Impl : Type 0} (read : List ℕ → List ℕ × List ℕ) (ar : Archive) where
  -- A request that is not carried out: its session has no such interface, or the interface no such
  -- method, or the method returns a value on one side only.
  pub data IsUnread (s : Session (InterfaceInvoker Impl)) (h : Header) : Type 0 where
    no_interface : find h.interface_id s.invoke_map ≡ none → IsUnread s h
    no_method :
        (f : InterfaceInvoker Impl)
        → find h.interface_id s.invoke_map ≡ some f
        → find_method Impl h.method_id f.methods ≡ none
        → IsUnread s h
    mixed :
        (f : InterfaceInvoker Impl) (m : Method Impl)
        → find h.interface_id s.invoke_map ≡ some f
        → find_method Impl h.method_id f.methods ≡ some m
        → m.impl_void ≡ not (is_void (ret_helper m.rets))
        → IsUnread s h

  invoke-unread :
      (s : Session (InterfaceInvoker Impl)) (h : Header) (op : Package) (stream : List ℕ)
      → IsUnread s h
      → invoke (InterfaceInvoker Impl) (invoke_interface Impl ar) s h op stream
        ≡ some (s, h, op, stream)
  unfolding invoke
  invoke-unread s h op stream (no_interface e) = rw (invoke, e) refl
  invoke-unread s h op stream (no_method f there e) =
      rw
        (
          invoke,
          there,
          invoke_interface-no_method ar f h op stream e,
          assign-same h.interface_id f s.invoke_map there,
        )
        refl
  invoke-unread s h op stream (mixed f m there found e) =
      rw
        (
          invoke,
          there,
          invoke_interface-unread ar m f h op stream stream found e,
          assign-same h.interface_id f s.invoke_map there,
        )
        refl

  -- A request for an interface that its session does not have, for a method that the interface does
  -- not have, or for one that returns a value on one side only, is read up to its header only: its
  -- arguments are not discarded, and the packets after it are read from there. The stream has less
  -- than 2^32 bytes, and the arguments fewer than 2^31.
  pub unread_request_keeps_args :
      (v : Served (InterfaceInvoker Impl)) (s : Session (InterfaceInvoker Impl)) (h : Header)
      (b rest : List ℕ) (ps : List ℕ)
      → IsHeader h
      → h.dir ≡ direction_request
      → v.ip.stream_buf ≡ save_header ar h ++ (b ++ rest)
      → length v.ip.stream_buf < 2 ^ 32
      → length b < 2 ^ 31
      → get_elem? v.sessions h.session_id ≡ some s
      → IsUnread s h
      → serve_packets
          (InterfaceInvoker Impl)
          (invoke_interface Impl ar)
          read
          ar
          v
          (length (save_header ar h ++ b) ∷ ps)
        ≡ serve_packets
            (InterfaceInvoker Impl)
            (invoke_interface Impl ar)
            read
            ar
            (record v { ip = record v.ip { stream_buf = b ++ rest }; header = h })
            ps
  unread_request_keeps_args v s h b rest ps hv d e small few there unread =
      let call = invoke_interface Impl ar in
      let h0 = save_header ar h in
      let headed : Header → Served (InterfaceInvoker Impl) =
        λ x. record v { ip = record v.ip { stream_buf = b ++ rest }; header = x } in
      let kept : List (Session (InterfaceInvoker Impl)) → Served (InterfaceInvoker Impl) =
        λ l. record (headed h) { sessions = l } in
      serve-step call read ar v (headed h) h (b ++ rest) (length (h0 ++ b)) ps hv e
        (fits call read ar h0 b rest)
        (ap (λ x. dispatch (InterfaceInvoker Impl) call read (headed x))
            (received-request call read ar v.header h d)
          ∙ dispatch-request call read ar (headed h) s (s, h, v.op, b ++ rest) there d
              (invoke-unread s h v.op (b ++ rest) unread)
          ∙ ap (λ l. some (kept l)) (set-same v.sessions h.session_id s there))
        (used call read ar h0 b rest _ (omega (arith, length-append b rest)))
        (omega (arith, ap (λ (l : List ℕ). length l) e, small))
        (omega (arith, length-append h0 (b ++ rest))) (body_unread call read ar h0 b rest few)
