-- ===== src/Remote/Batch.antt =====
-- Calls of methods that return none, collected by a client and carried out by a server.
use srpg.Base.{
  ◌^◌, ℕ, none, some, [], true, refl, ap, sym, ◌∙◌, List, ◌<◌, Option, ◌≡◌, length, ◌++◌, arith,
  ◌∷◌, get_elem?, map, flatten, All, append_assoc, set,
}
use srpg.Session.{Session, find, request_void, invoke}
use srpg.Session.Ids.{IsSortedFrom}
use srpg.Session.Calls.{Call, packet_of, send_all}
use srpg.Header.{Header, save_header}
use srpg.Dispatch.{Served, serve_packets, dispatch}
use srpg.Dispatch.Loop.{
  serve-step, fits, shorter, all_read, used, dispatch-request, received-request,
}
use srpg.Idl.{
  Method, InterfaceInvoker, find_method, is_void, ret_helper, call_method, invoke_interface,
  local_request, save_tuple,
}
use srpg.Idl.Tuples.{Fit, saved_args, flatten-saved_args, length-saved_args}
use srpg.Idl.Asking.{call_of, call_method-told, told}
use srpg.Remote.Invoked.{invoke-silent, after_call}
use srpg.Remote.Call.{request_header, IsHeader-request_header}
use srpg.Archive.{Archive}
use srpg.Base.Fallible.{◌>>=◌}

module _ (Impl : Type 0) where
  -- A call: the number of the method, the method and the arguments.
  abbrev pub Posted : Type 0
  Posted = ℕ × Method Impl × List ℕ

module _ {Impl : Type 0} where
  -- The implementation after local calls, one after the other.
  unfoldable pub local_all : Impl → List (Posted Impl) → Impl
  local_all impl [] = impl
  local_all impl ((k, m, values) ∷ cs) = local_all (local_request Impl impl m values).1 cs

  -- A method of the interface that returns none on both sides, and arguments that fit its types.
  abbrev pub IsSilent : InterfaceInvoker Impl → Posted Impl → Type 0
  IsSilent f (k, m, values) =
      (find_method Impl k f.methods ≡ some m)
      × (m.impl_void ≡ true)
      × (is_void (ret_helper m.rets) ≡ true)
      × Fit m.args values
      × (k < 256)
      × (length m.args < 256)

told-bind {ℓ ℓ'} :
    {A : Type ℓ} {B : Type ℓ'} (o : Option A) (f g : A → Option B)
    → ((a : A) → f a ≡ g a)
    → ◌>>=◌ {B = B} (◌>>=◌ {B = Option ℕ × A} o (λ a. some (none, a))) (λ t. f t.1)
      ≡ ◌>>=◌ {B = B} o g
told-bind none f g h = refl
told-bind (some a) f g h = h a

module _ {Impl : Type 0} (ar : Archive) (iid : ℕ) where
  -- The calls of a client, one after the other.
  pub call_all :
      Session (InterfaceInvoker Impl)
      → List (Posted Impl)
      → Option (Session (InterfaceInvoker Impl))
  call_all s [] = some s
  call_all s ((k, m, values) ∷ cs) = do
    (promise, s') ← call_method Impl ar s iid k m values
    call_all s' cs

  unfoldable pub calls_of : List (Posted Impl) → List Call
  calls_of [] = []
  calls_of ((k, m, values) ∷ cs) = (iid, k, saved_args ar m.args values) ∷ calls_of cs

  pub call_all-send_all :
      (f : InterfaceInvoker Impl) (s : Session (InterfaceInvoker Impl)) (cs : List (Posted Impl))
      → All (IsSilent f) cs
      → call_all s cs ≡ send_all ar s (calls_of cs)
  unfolding call_all calls_of send_all
  call_all-send_all f s [] h = refl
  call_all-send_all f s ((k, m, values) ∷ cs) ((_, _, r, fit, _, _), hs) =
      let told_by = told ar s iid k m values in
      ap (λ o. ◌>>=◌ {B = Session (InterfaceInvoker Impl)} o (λ t. call_all t.1 cs))
        (call_method-told ar s iid k m values r
          ∙ ap (λ n. told_by n (save_tuple ar m.args values))
              (sym (length-saved_args ar m.args values fit))
          ∙ ap (told_by (length (saved_args ar m.args values)))
              (sym (flatten-saved_args ar m.args values)))
      ∙ told-bind
          (request_void (InterfaceInvoker Impl) ar s iid k (length (saved_args ar m.args values))
            (flatten (saved_args ar m.args values)))
          (λ s'. call_all s' cs) (λ s'. send_all ar s' (calls_of cs))
          (λ s'. call_all-send_all f s' cs hs)

  module _ (read : List ℕ → List ℕ × List ℕ) (s : Session (InterfaceInvoker Impl))
      (so : IsSortedFrom 0 s.wait_map) (hw : length s.wait_map < 256) (sid : s.session_id < 256)
      (hi : iid < 256) where
    abbrev pub packets_of : List (Posted Impl) → List (List ℕ)
    packets_of cs = map (packet_of ar s) (calls_of cs)

    abbrev pub serve :
        Served (InterfaceInvoker Impl) → List ℕ → Option (Served (InterfaceInvoker Impl))
    serve v sizes = serve_packets (InterfaceInvoker Impl) (invoke_interface Impl ar) read ar v sizes

    -- The packet of a call at the front of the stream.
    pub serve-call :
        (v : Served (InterfaceInvoker Impl)) (t : Session (InterfaceInvoker Impl))
        (f : InterfaceInvoker Impl) (k : ℕ) (m : Method Impl) (values rest sizes : List ℕ)
        → v.ip.stream_buf ≡ packet_of ar s (call_of ar s iid k m values) ++ rest
        → length v.ip.stream_buf < 2 ^ 32
        → get_elem? v.sessions s.session_id ≡ some t
        → find iid t.invoke_map ≡ some f
        → IsSilent f (k, m, values)
        → serve v (length (packet_of ar s (call_of ar s iid k m values)) ∷ sizes)
          ≡ serve
              (record v {
                sessions = set v.sessions s.session_id (
                    after_call read ar t iid
                      (record f { impl = (local_request Impl f.impl m values).1 }));
                ip = record v.ip { stream_buf = rest };
                header = request_header ar s iid k m f values;
              })
              sizes
    serve-call v t f k m values rest sizes e small there bound (found, void, r, fit, hk, hn) =
        let call = invoke_interface Impl ar in
        let h = request_header ar s iid k m f values in
        let h0 = save_header ar h in
        let args = flatten (saved_args ar m.args values) in
        let headed : Header → Served (InterfaceInvoker Impl) =
          λ x. record v { ip = record v.ip { stream_buf = args ++ rest }; header = x } in
        serve-step call read ar v _ h (args ++ rest) (length (h0 ++ args)) sizes
          (IsHeader-request_header ar s iid k m f values so hw fit sid hi hk hn)
          (e ∙ append_assoc h0 args rest) (fits call read ar h0 args rest)
          (ap (λ x. dispatch (InterfaceInvoker Impl) call read (headed x))
              (received-request call read ar v.header h refl)
            ∙ dispatch-request call read ar (headed h) t _ there refl (
                ap (λ b. invoke (InterfaceInvoker Impl) call t h v.op (b ++ rest))
                  (flatten-saved_args ar m.args values)
                ∙ invoke-silent read ar m f t h v.op values rest bound found void r fit))
          (used call read ar h0 args rest (length rest) (omega arith))
          (omega (arith, ap (λ (l : List ℕ). length l) (e ∙ append_assoc h0 args rest), small))
          (shorter call read ar h0 args rest) (all_read call read ar h0 args rest)
