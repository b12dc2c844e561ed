-- ===== src/Session/Calls.antt =====
-- A call and its answer, and calls batched into one package.
use srpg.Base.{
  refl, ℕ, ap, List, ◌≡◌, length, Option, flatten, some, ◌++◌, append_assoc, ◌∷◌, if◌then◌else◌,
  none, [], Bool, ◌∙◌, true, map, false,
}
use srpg.Header.{Header, save_header, direction_request}
use srpg.Package.{Package, write}
use srpg.Package.{begin_packet as begin_package_packet, end_packet as end_package_packet}
use srpg.Package.Sizes.{write_packets}
use srpg.Base.Fallible.{◌>>=◌}
use srpg.Session.{
  Session, get_free_operation_id, package_or_new, send, request_void, end_send, write_args,
  begin_packet, end_packet, end_batch,
}
use srpg.Archive.{Archive}

-- A call: the interface, the method, and the bytes of each of the arguments.
abbrev pub Call : Type 0
Call = ℕ × ℕ × List (List ℕ)

pub write-write : (p : Package) (a b : List ℕ) → write (write p a) b ≡ write p (a ++ b)
unfolding write
write-write p a b = rw (append_assoc p.stream_buf a b) refl

if-bind {ℓ} :
    {A : Type ℓ} (b : Bool) (x y : A) (n : ℕ)
    → ◌>>=◌ {B = ℕ × A} (if b then some x else some y) (λ e. some (n, e))
      ≡ some (n, if b then x else y)
if-bind true x y n = refl
if-bind false x y n = refl

module _ (ar : Archive) where
  -- The package `p` with the packet of a call at its end: the header, which has the id of the session
  -- and the operation id `oid`, and the bytes of the arguments.
  abbrev pub call_package : Package → ℕ → ℕ → Call → Package
  call_package p session_id oid c =
      let h : Header = record {
        dir = direction_request;
        session_id = session_id;
        operation_id = oid;
        interface_id = c.0;
        method_id = c.1;
        arity = length c.2;
      } in
      end_package_packet ar (write p (save_header ar h ++ flatten c.2))

  package_after : Option Package → List (List ℕ) → Option Package
  package_after o [] = o
  package_after o (b ∷ bs) = some (write_packets ar (package_or_new o) (b ∷ bs))

  package_after-cons :
      (o : Option Package) (b : List ℕ) (bs : List (List ℕ))
      → package_after (some (end_package_packet ar (write (package_or_new o) b))) bs
        ≡ package_after o (b ∷ bs)
  unfolding package_after write_packets package_or_new begin_package_packet
  package_after-cons o b [] = refl
  package_after-cons o b (b' ∷ bs) = refl

module _ {Invoker : Type 0} (ar : Archive) where
  abbrev pub header_of : Session Invoker → Call → List ℕ
  header_of s c = save_header ar (record {
    dir = direction_request;
    session_id = s.session_id;
    operation_id = get_free_operation_id Invoker s;
    interface_id = c.0;
    method_id = c.1;
    arity = length c.2;
  })

  -- The bytes of the packet of a call.
  abbrev pub packet_of : Session Invoker → Call → List ℕ
  packet_of s c = header_of s c ++ flatten c.2

  -- The package with the packet of a call at its end.
  abbrev pub package_with : Session Invoker → Call → Package
  package_with s c = end_package_packet ar (write (package_or_new s.package_ptr) (packet_of s c))

  -- `send` never meets a null package. In a batch it keeps the package, with the packet of the call
  -- at its end; otherwise it hands that package to the connection and has none left.
  pub send_lem :
      (s : Session Invoker) (c : Call)
      → send Invoker ar s c.0 c.1 (length c.2) (flatten c.2)
        ≡ some (
          get_free_operation_id Invoker s,
          if s.enable_batch
              then record s { package_ptr = some (package_with s c) }
              else record s { package_ptr = none; sent = s.sent ++ (package_with s c ∷ []) },
        )
  unfolding send begin_packet write_args end_packet end_send begin_package_packet
  send_lem s c =
      let p = package_or_new s.package_ptr in
      let done : Package → Session Invoker =
        λ q. record s { package_ptr = none; sent = s.sent ++ (end_package_packet ar q ∷ []) } in
      let kept : Package → Session Invoker =
        λ q. record s { package_ptr = some (end_package_packet ar q) } in
      let q = write (write (begin_package_packet p) (header_of s c)) (flatten c.2) in
      if-bind s.enable_batch (kept q) (done q) (get_free_operation_id Invoker s)
      ∙ ap
          (λ (r : Package).
            some (get_free_operation_id Invoker s, if s.enable_batch then kept r else done r))
          (write-write p (header_of s c) (flatten c.2))

  -- A batch of calls that return nothing.
  unfoldable pub send_all : Session Invoker → List Call → Option (Session Invoker)
  send_all s [] = some s
  send_all s (c ∷ cs) = do
    s' ← request_void Invoker ar s c.0 c.1 (length c.2) (flatten c.2)
    send_all s' cs

  send-batch :
      (s : Session Invoker) (c : Call)
      → s.enable_batch ≡ true
      → send Invoker ar s c.0 c.1 (length c.2) (flatten c.2)
        ≡ some (get_free_operation_id Invoker s, record s { package_ptr = some (package_with s c) })
  send-batch s c e =
      send_lem s c
      ∙ ap
          (λ (b : Bool). some (
            get_free_operation_id Invoker s,
            if b
                then record s { package_ptr = some (package_with s c) }
                else record s { package_ptr = none; sent = s.sent ++ (package_with s c ∷ []) },
          ))
          e

  send_all-batch :
      (s : Session Invoker) (cs : List Call)
      → s.enable_batch ≡ true
      → send_all s cs
        ≡ some (record s { package_ptr = package_after ar s.package_ptr (map (packet_of s) cs) })
  unfolding send_all package_after request_void get_free_operation_id
  send_all-batch s [] e = refl
  send_all-batch s (c ∷ cs) e =
      let next : Session Invoker = record s { package_ptr = some (package_with s c) } in
      ap
        (λ o.
          ◌>>=◌ {B = Session Invoker} (◌>>=◌ {B = Session Invoker} o (λ r. some r.1))
            (λ s'. send_all s' cs))
        (send-batch s c e)
      ∙ send_all-batch next cs e
      ∙ ap (λ (o : Option Package). some (record s { package_ptr = o }))
          (package_after-cons ar s.package_ptr (packet_of s c) (map (packet_of s) cs))

  -- While a batch is open, one call or more of methods that return nothing send nothing until
  -- `end_batch`, which sends one package that holds the packets of the calls in their order, after
  -- what the package held before; afterwards no batch is open and no package is left.
  pub end_batch-send_all :
      (s : Session Invoker) (c : Call) (cs : List Call)
      → s.enable_batch ≡ true
      → (s' : Session Invoker) × (send_all s (c ∷ cs) ≡ some s')
        × (s'.sent ≡ s.sent)
        × (end_batch Invoker s'
            ≡ some (record s {
              enable_batch = false;
              package_ptr = none;
              sent =
                  s.sent
                  ++ (write_packets ar (package_or_new s.package_ptr) (map (packet_of s) (c ∷ cs))
                      ∷ []);
            }))
  unfolding package_after end_batch end_send write_packets package_or_new begin_package_packet
  end_batch-send_all s c cs e = (_, send_all-batch s (c ∷ cs) e, refl, refl)
