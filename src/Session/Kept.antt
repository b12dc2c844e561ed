-- ===== src/Session/Kept.antt =====
-- What each operation of a session keeps of its promises.
use srpg.Base.{
  true, refl, false, ℕ, ◌≡◌, Option, some, List, [], ◌∷◌, ◌++◌, arith, length, flatten, ap,
  Option-cases, sym, subst, inl, ◌∙◌, none, inr, ◌<◌, Bool, if◌then◌else◌,
}
use mathlib.Core.Option.{some-injective}
use srpg.Session.{
  Session, request, request_void, get_free_operation_id, wait, find, assign, response, invoke,
  end_batch, send, write_args, end_packet, end_send, Called,
}
use srpg.Session.Calls.{Call}
use srpg.Session.Responses.{send-wait_map, response-found}
use srpg.Base.Fallible.{◌>>=◌}
use srpg.Archive.{Archive}
use srpg.Header.{Header}
use srpg.Package.{Package, write}
use srpg.Package.{end_packet as end_package_packet}
use srpg.Session.Waiting.{Promises, Promises-emplace, Promises-resolve, free_id-lt}

module _ {Invoker : Type 0} where
  abbrev pub Kept : Session Invoker → Type 0
  Kept s = Promises s.wait_map s.next_promise s.resolved

module _ {Invoker : Type 0} (ar : Archive) where
  Kept-same :
      (s s' : Session Invoker)
      → s'.wait_map ≡ s.wait_map
      → s'.next_promise ≡ s.next_promise
      → s'.resolved ≡ s.resolved
      → Kept s
      → Kept s'
  Kept-same s s' w n r k = rw (w, n, r) k

  pub request-Kept :
      (s s' : Session Invoker) (p : ℕ) (c : Call)
      → request Invoker ar s c.0 c.1 (length c.2) (flatten c.2) ≡ some (p, s')
      → Kept s
      → Kept s'
  unfolding request wait get_free_operation_id
  request-Kept s s' p c e k =
      let (s1, sent, w, n, r) = send-wait_map ar s c in
      let oid = get_free_operation_id Invoker s in
      let made =
        ap (λ o. ◌>>=◌ {B = ℕ × Session Invoker} o (λ t. some (wait Invoker t.1 t.0))) sent in
      let same = ap (λ t. t.1) (some-injective _ _ (sym made ∙ e)) in
      subst Kept same (
        rw (w, n, r)
          (Promises-emplace oid s.wait_map s.next_promise s.resolved
            (free_id-lt 0 s.wait_map (omega arith)) k))

  pub request_void-Kept :
      (s s' : Session Invoker) (c : Call)
      → request_void Invoker ar s c.0 c.1 (length c.2) (flatten c.2) ≡ some s'
      → Kept s
      → Kept s'
  unfolding request_void
  request_void-Kept s s' c e k =
      let (s1, sent, w, n, r) = send-wait_map ar s c in
      let made =
        ap (λ o. ◌>>=◌ {B = Session Invoker} o (λ (t : ℕ × Session Invoker). some t.1)) sent in
      subst Kept (some-injective s1 s' (sym made ∙ e)) (Kept-same s s1 w n r k)

  response-none :
      (s : Session Invoker) (read : List ℕ → List ℕ × List ℕ) (h : Header) (stream : List ℕ)
      → find h.operation_id s.wait_map ≡ none
      → response Invoker read s h stream ≡ (s, stream)
  unfolding response
  response-none s read h stream e = rw (response, e) refl

  pub response-Kept :
      (s : Session Invoker) (read : List ℕ → List ℕ × List ℕ) (h : Header) (stream : List ℕ)
      → Kept s
      → Kept (response Invoker read s h stream).0
  response-Kept s read h stream k = elim (Option-cases (find h.operation_id s.wait_map)) [
    | inl e ↦ subst (λ t. Kept t.0) (sym (response-none s read h stream e)) k
    | inr (q, e) ↦
        subst (λ t. Kept t.0) (sym (response-found ar s read h stream q e))
          (Promises-resolve h.operation_id q (read stream).0 s.wait_map s.next_promise s.resolved e
            k)
  ]

  invoke-none :
      (call : Invoker → Header → Package → List ℕ → Option (Called Invoker)) (s : Session Invoker)
      (h : Header) (op : Package) (stream : List ℕ)
      → find h.interface_id s.invoke_map ≡ none
      → invoke Invoker call s h op stream ≡ some (s, h, op, stream)
  unfolding invoke
  invoke-none call s h op stream e = rw (invoke, e) refl

  invoke-some :
      (call : Invoker → Header → Package → List ℕ → Option (Called Invoker)) (s : Session Invoker)
      (h : Header) (op : Package) (stream : List ℕ) (f : Invoker)
      → find h.interface_id s.invoke_map ≡ some f
      → invoke Invoker call s h op stream
        ≡ ◌>>=◌ {B = Session Invoker × Header × Package × List ℕ} (call f h op stream) (λ r. some (
          record s { invoke_map = assign h.interface_id r.invoker s.invoke_map },
          r.header,
          r.op,
          r.stream,
        ))
  unfolding invoke
  invoke-some call s h op stream f e = rw (invoke, e) refl

  called_out :
      (s s' : Session Invoker) (id : ℕ) (c : Option (Called Invoker))
      (rest : Header × Package × List ℕ)
      → ◌>>=◌ {B = Session Invoker × Header × Package × List ℕ} c (λ r.
        some (record s { invoke_map = assign id r.invoker s.invoke_map }, r.header, r.op, r.stream))
        ≡ some (s', rest.0, rest.1, rest.2)
      → Kept s
      → Kept s'
  called_out s s' id none rest e k = absurd cc
  called_out s s' id (some r) rest e k = subst Kept (ap (λ t. t.0) (some-injective _ _ e)) k

  pub invoke-Kept :
      (call : Invoker → Header → Package → List ℕ → Option (Called Invoker))
      (s s' : Session Invoker) (h : Header) (op : Package) (stream : List ℕ)
      (rest : Header × Package × List ℕ)
      → invoke Invoker call s h op stream ≡ some (s', rest.0, rest.1, rest.2)
      → Kept s
      → Kept s'
  invoke-Kept call s s' h op stream rest e k =
      elim (Option-cases (find h.interface_id s.invoke_map)) [
        | inl none_bound ↦
            subst Kept
              (ap (λ t. t.0)
                (some-injective _ _ (sym (invoke-none call s h op stream none_bound) ∙ e)))
              k
        | inr (f, bound) ↦
            called_out s s' h.interface_id (call f h op stream) rest
              (sym (invoke-some call s h op stream f bound) ∙ e) k
      ]

  ended :
      (s s' : Session Invoker) (o : Option Package)
      → (elim o [
        | none ↦ none
        | some p ↦
            some (record s { enable_batch = false; package_ptr = none; sent = s.sent ++ (p ∷ []) })
      ])
        ≡ some s'
      → Kept s
      → Kept s'
  ended s s' none e k = absurd cc
  ended s s' (some p) e k = subst Kept (some-injective _ _ e) k

  pub end_batch-Kept : (s s' : Session Invoker) → end_batch Invoker s ≡ some s' → Kept s → Kept s'
  unfolding end_batch end_send
  end_batch-Kept s s' e k = ended s s' s.package_ptr e k

  pub wait-Kept : (s : Session Invoker) (oid : ℕ) → oid < 256 → Kept s → Kept (wait Invoker s oid).1
  unfolding wait
  wait-Kept s oid small k = Promises-emplace oid s.wait_map s.next_promise s.resolved small k

  pub send-Kept :
      (s s' : Session Invoker) (oid : ℕ) (c : Call)
      → send Invoker ar s c.0 c.1 (length c.2) (flatten c.2) ≡ some (oid, s')
      → Kept s
      → Kept s'
  send-Kept s s' oid c e k =
      let (s1, sent, w, n, r) = send-wait_map ar s c in
      subst Kept (ap (λ t. t.1) (some-injective _ _ (sym sent ∙ e))) (Kept-same s s1 w n r k)

  written :
      (s s' : Session Invoker) (o : Option Package) (bytes : List ℕ)
      → (elim o [ none ↦ none | some p ↦ some (record s { package_ptr = some (write p bytes) }) ])
        ≡ some s'
      → Kept s
      → Kept s'
  written s s' none bytes e k = absurd cc
  written s s' (some p) bytes e k = subst Kept (some-injective _ _ e) k

  pub write_args-Kept :
      (s s' : Session Invoker) (bytes : List ℕ)
      → write_args Invoker ar s bytes ≡ some s'
      → Kept s
      → Kept s'
  unfolding write_args
  write_args-Kept s s' bytes e k = written s s' s.package_ptr bytes e k

  closed :
      (s s' : Session Invoker) (b : Bool) (p : Package)
      → (if b
          then some (record s { package_ptr = some p })
          else some (record s { package_ptr = none; sent = s.sent ++ (p ∷ []) }))
        ≡ some s'
      → Kept s
      → Kept s'
  closed s s' true p e k = subst Kept (some-injective _ _ e) k
  closed s s' false p e k = subst Kept (some-injective _ _ e) k

  packet_ended :
      (s s' : Session Invoker) (o : Option Package)
      → (elim o [
        | none ↦ none
        | some p ↦
            let q = end_package_packet ar p in
            if s.enable_batch
            then some (record s { package_ptr = some q })
            else some (record s { package_ptr = none; sent = s.sent ++ (q ∷ []) })
      ])
        ≡ some s'
      → Kept s
      → Kept s'
  packet_ended s s' none e k = absurd cc
  packet_ended s s' (some p) e k = closed s s' s.enable_batch (end_package_packet ar p) e k

  pub end_packet-Kept :
      (s s' : Session Invoker) → end_packet Invoker ar s ≡ some s' → Kept s → Kept s'
  unfolding end_packet end_send
  end_packet-Kept s s' e k = packet_ended s s' s.package_ptr e k
