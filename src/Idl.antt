-- ===== src/Idl.antt =====
-- common/rrpc/old/idl.hpp: interfaces, by the macros that make the caller's and the server's side of
-- each method. InterfaceInvoker of common/rrpc/old/session.hpp chooses the method, and
-- common/rrpc/local_client.hpp calls an implementation without a connection.
-- Arguments and results are values of unsigned types, a type being its width; the implementation is
-- a state of any type, which a method may change.
pub mod Tuples
pub mod Numbers
pub mod Serving
pub mod Asking
use srpg.Base.{
  ℕ, none, some, [], List, Bool, ◌∷◌, true, Option, ◌+◌, false, ◌++◌, ◌-◌, if◌then◌else◌, length,
  ◌==◌, ◌&&◌, not,
}
use srpg.Base.Fallible.{◌>>=◌}
use srpg.Session.{Session, Called, request, request_void}
use srpg.Package.{Package, write}
use srpg.Package.{begin_packet as begin_package_packet, end_packet as end_package_packet}
use srpg.Header.{Header, save_header, direction_response}
use srpg.Archive.{Archive}

-- `ret_helper<Args...>::type`
pub data Ret : Type 0 where
  void : Ret
  single : ℕ → Ret
  tuple : List ℕ → Ret

unfoldable pub ret_helper : List ℕ → Ret
ret_helper [] = void
ret_helper (t ∷ []) = single t
ret_helper (t ∷ u ∷ ts) = tuple (t ∷ u ∷ ts)

-- `std::is_void<ret>::value`
unfoldable pub is_void : Ret → Bool
is_void void = true
is_void (single t) = false
is_void (tuple ts) = false

module _ (ar : Archive) where
  open ar use {save, load}

  -- `serialize_tuple_helper<index, size>` on an output archive: the elements from `index` on.
  unfoldable pub save_tuple : List ℕ → List ℕ → List ℕ
  save_tuple [] vs = []
  save_tuple (t ∷ ts) [] = []
  save_tuple (t ∷ ts) (v ∷ vs) = save t v ++ save_tuple ts vs

  -- The same on an input archive.
  pub load_tuple : List ℕ → List ℕ → Option (List ℕ × List ℕ)
  load_tuple [] s = some ([], s)
  load_tuple (t ∷ ts) s = do (v, s) ← load t s; (vs, s) ← load_tuple ts s; some (v ∷ vs, s)

  -- What `op.write(ret)` saves, and `ip.read<Ret>()` loads.
  unfoldable pub save_ret : Ret → List ℕ → List ℕ
  unfolding save_tuple
  save_ret void vs = []
  save_ret (single t) vs = save_tuple (t ∷ []) vs
  save_ret (tuple ts) vs = save_tuple ts vs

  pub load_ret : Ret → List ℕ → Option (List ℕ × List ℕ)
  unfolding load_tuple
  load_ret void s = some ([], s)
  load_ret (single t) s = load_tuple (t ∷ []) s
  load_ret (tuple ts) s = load_tuple ts s

module _ (Impl : Type 0) where
  -- `RRPC_METHOD(funcname, rets, args)` beside the function of the implementation, and whether
  -- that function returns `void`.
  pub record Method : Type 0 where
    pub rets : List ℕ
    pub args : List ℕ
    pub impl_void : Bool
    pub func : Impl → List ℕ → List ℕ × Impl

  -- `bind<Interface>(impl)`: `InterfaceInvoker`.
  pub record InterfaceInvoker : Type 0 where
    pub methods : List (ℕ × Method)
    pub impl : Impl

  -- `__COUNTER__ - baseId` of each method, where the counter is at `counter`.
  pub number_methods : ℕ → ℕ → List Method → List (ℕ × Method)
  number_methods base counter [] = []
  number_methods base counter (m ∷ ms) = (counter - base, m) ∷ number_methods base (counter + 1) ms

  -- `RRPC_INTERFACE_BEGIN`, the methods, `RRPC_INTERFACE_END`: `baseId` is `__COUNTER__ + 1`.
  pub interface_methods : ℕ → List Method → List (ℕ × Method)
  unfolding number_methods
  interface_methods counter ms = number_methods (counter + 1) (counter + 1) ms

  -- The overload of `_invoke` for an id, if a method has it.
  unfoldable pub find_method : ℕ → List (ℕ × Method) → Option Method
  find_method id [] = none
  find_method id ((i, m) ∷ ms) = if id == i then some m else find_method id ms

  -- The caller's side: `_session.request<ret>(interfaceId, id, args...)`.
  pub call_method :
      (ar : Archive)
      → Session InterfaceInvoker
      → ℕ
      → ℕ
      → Method
      → List ℕ
      → Option (Option ℕ × Session InterfaceInvoker)
  unfolding save_tuple ret_helper is_void
  call_method ar s iid id m values =
      let bytes = save_tuple ar m.args values in
      let arity = length m.args in
      if is_void (ret_helper m.rets)
      then (do s' ← request_void InterfaceInvoker ar s iid id arity bytes; some (none, s'))
      else (do
        (promise, s') ← request InterfaceInvoker ar s iid id arity bytes
        some (some promise, s'))

  -- `local_client_proxy::request<Info>(args...)`: `Info::invoke(impl_, args...)`.
  unfoldable pub local_request : Impl → Method → List ℕ → List ℕ × Impl
  local_request impl m values = m.func impl values

  module _ (ar : Archive) where
    -- `_invoke` of a method: for `void` on both sides, for a value on both sides, and else the one
    -- that only prints.
    pub invoke_method :
        Method → InterfaceInvoker → Header → Package → List ℕ → Option (Called InterfaceInvoker)
    unfolding load_tuple save_ret is_void ret_helper write begin_package_packet end_package_packet
        save_header
    invoke_method m f h op stream =
        let ret = ret_helper m.rets in
        let unread : Called InterfaceInvoker = record {
          invoker = f;
          header = h;
          op = op;
          stream = stream;
        } in
        let answer : Header = record h { dir = direction_response } in
        let headed = write (begin_package_packet op) (save_header ar answer) in
        if m.impl_void && is_void ret
        then (do
          (values, stream) ← load_tuple ar m.args stream
          let done = m.func f.impl values
          some (record unread { invoker = record f { impl = done.1 }; stream = stream }))
        else (if not m.impl_void && not (is_void ret)
            then (do
              (values, stream) ← load_tuple ar m.args stream
              let done = m.func f.impl values
              some (record {
                invoker = record f { impl = done.1 };
                header = answer;
                op = end_package_packet ar (write headed (save_ret ar ret done.0));
                stream = stream;
              }))
            else some unread)

    -- `InterfaceInvoker::operator()`: the switch on `h.methodId`.
    pub invoke_interface :
        InterfaceInvoker → Header → Package → List ℕ → Option (Called InterfaceInvoker)
    unfolding invoke_method find_method
    invoke_interface f h op stream = elim (find_method h.method_id f.methods) [
      | none ↦ some (record { invoker = f; header = h; op = op; stream = stream })
      | some m ↦ invoke_method m f h op stream
    ]
