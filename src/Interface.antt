-- ===== src/Interface.antt =====
-- common/rrpc/idl.hpp: an interface as a sequence of methods, each with its place as its number, where
-- `()` keeps a place free. A name is a number, and types are as in the interfaces of old/idl.hpp.
pub mod Numbers
mod Runs
use srpg.Base.{ℕ, none, some, [], List, Option, ◌∷◌, ◌+◌, if◌then◌else◌, ◌==◌}

module _ (Impl : Type 0) where
  -- `(funcname, ret, (args), options...)`, beside the function of the implementation. `ret` has no
  -- type for `void`.
  pub record MethodInfo : Type 0 where
    pub funcname : ℕ
    pub return_type : Option ℕ
    pub args_type : List ℕ
    pub options : List ℕ
    pub func : Impl → List ℕ → List ℕ × Impl

  -- `_RRPC_INTERFACE`: `method_info<i>` for each element that is not empty.
  pub method_infos : ℕ → List (Option MethodInfo) → List (ℕ × MethodInfo)
  method_infos i [] = []
  method_infos i (none ∷ es) = method_infos (i + 1) es
  method_infos i (some m ∷ es) = (i, m) ∷ method_infos (i + 1) es

  pub interface : List (Option MethodInfo) → List (ℕ × MethodInfo)
  unfolding method_infos
  interface es = method_infos 0 es

  -- `method_info<id>`, `none` where it is only declared.
  pub method_info : ℕ → List (ℕ × MethodInfo) → Option MethodInfo
  method_info id [] = none
  method_info id ((i, m) ∷ ms) = if id == i then some m else method_info id ms

  -- `RRPC_GET_METHOD_INFO(interface_name, funcname)`: the number of the method of a name.
  pub get_method_info : ℕ → List (ℕ × MethodInfo) → Option ℕ
  get_method_info name [] = none
  get_method_info name ((i, m) ∷ ms) =
      if name == m.funcname then some i else get_method_info name ms

  -- `interface_client::funcname(args...)`: what the proxy is asked for, which is a method and its
  -- arguments.
  pub client_call :
      {Result : Type 0}
      → (ℕ → List ℕ → Option Result)
      → List (ℕ × MethodInfo)
      → ℕ
      → List ℕ
      → Option Result
  unfolding get_method_info
  client_call request ms name args = elim (get_method_info name ms) [
    | none ↦ none
    | some id ↦ request id args
  ]

  -- `method_info<id>::invoke(impl, args...)`, and the proxy of `local_client(impl)` that calls it.
  pub local_client : List (ℕ × MethodInfo) → Impl → ℕ → List ℕ → Option (List ℕ × Impl)
  unfolding method_info
  local_client ms impl id args = elim (method_info id ms) [
    | none ↦ none
    | some m ↦ some (m.func impl args)
  ]
