-- ===== src/Interface/Numbers.antt =====
-- The numbers of the methods, beside those of old/idl.hpp, and calls by name.
use mathlib.Core.Option.{some-ne-none, some-injective}
use srpg.Base.{
  ◌≢◌, Bool, true, false, ℕ, zero, suc, none, some, [], List, Option, ◌∷◌, ◌+◌, ◌≡◌, refl, arith,
  ◌<◌, Bool, map, ◌≤◌, true, get_elem?, false, ap, ◌∙◌, sym,
}
use srpg.Interface.{
  MethodInfo, method_infos, method_info, interface, get_method_info, client_call, local_client,
}
use srpg.Idl.{Method, find_method, interface_methods}
use srpg.Idl.Numbers.{find_method-interface_methods}

-- The method at a place, if the place is not free.
abbrev pub placed {ℓ} : {A : Type ℓ} → List (Option A) → ℕ → Option A
placed [] k = none
placed (e ∷ es) zero = e
placed (e ∷ es) (suc k) = placed es k

-- `ret` among the results of a method of old/idl.hpp.
abbrev pub rets_of : Option ℕ → List ℕ
rets_of none = []
rets_of (some t) = t ∷ []

abbrev pub is_none : Option ℕ → Bool
is_none none = true
is_none (some t) = false

module _ {Impl : Type 0} where
  method_info-below :
      (i j : ℕ) (es : List (Option (MethodInfo Impl)))
      → j < i
      → method_info Impl j (method_infos Impl i es) ≡ none
  unfolding method_info method_infos
  method_info-below i j [] h = refl
  method_info-below i j (none ∷ es) h = method_info-below (i + 1) j es (omega arith)
  method_info-below i j (some m ∷ es) h = ground (arith, method_info-below (i + 1) j es)

  method_info-method_infos :
      (i k : ℕ) (es : List (Option (MethodInfo Impl)))
      → method_info Impl (i + k) (method_infos Impl i es) ≡ placed es k
  unfolding method_info method_infos
  method_info-method_infos i k [] = refl
  method_info-method_infos i zero (none ∷ es) = method_info-below (i + 1) (i + 0) es (omega arith)
  method_info-method_infos i zero (some m ∷ es) = ground arith
  method_info-method_infos i (suc k) (none ∷ es) =
      ground (arith, method_info-method_infos (i + 1) k es)
  method_info-method_infos i (suc k) (some m ∷ es) =
      ground (arith, method_info-method_infos (i + 1) k es)

  -- A method has its place as its number, and a free place has no method.
  method_info-interface :
      (k : ℕ) (es : List (Option (MethodInfo Impl)))
      → method_info Impl k (interface Impl es) ≡ placed es k
  unfolding interface
  method_info-interface k es =
      let same : k ≡ 0 + k = omega arith in
      ap (λ (j : ℕ). method_info Impl j (method_infos Impl 0 es)) same
      ∙ method_info-method_infos 0 k es

  -- The same method declared with the macros of old/idl.hpp.
  abbrev pub old_method : MethodInfo Impl → Method Impl
  old_method m = record {
    rets = rets_of m.return_type;
    args = m.args_type;
    impl_void = is_none m.return_type;
    func = m.func;
  }

  abbrev pub old_found : Option (MethodInfo Impl) → Option (Method Impl)
  old_found none = none
  old_found (some m) = some (old_method m)

  placed-map :
      (ms : List (MethodInfo Impl)) (k : ℕ)
      → old_found (placed (map (λ m. some m) ms) k) ≡ get_elem? (map old_method ms) k
  placed-map [] k = refl
  placed-map (m ∷ ms) zero = refl
  placed-map (m ∷ ms) (suc k) = placed-map ms k

  -- Where no place is free, a number stands for the same method in an interface of idl.hpp and in
  -- one of old/idl.hpp with the same methods, whatever the counter of the preprocessor was.
  pub method_info-interface_methods :
      (counter k : ℕ) (ms : List (MethodInfo Impl))
      → old_found (method_info Impl k (interface Impl (map (λ m. some m) ms)))
        ≡ find_method Impl k (interface_methods Impl counter (map old_method ms))
  method_info-interface_methods counter k ms =
      ap old_found (method_info-interface k (map (λ m. some m) ms))
      ∙ placed-map ms k
      ∙ sym (find_method-interface_methods counter k (map old_method ms))

  -- `name` is the name of `m` at the place `k`, and of no method before it.
  abbrev pub IsFirst : ℕ → List (Option (MethodInfo Impl)) → ℕ → Type 0
  IsFirst name es k =
      (j : ℕ) (m : MethodInfo Impl) → placed es j ≡ some m → m.funcname ≡ name → k ≤ j

  get_method_info-found :
      (i k : ℕ) (es : List (Option (MethodInfo Impl))) (m : MethodInfo Impl)
      → placed es k ≡ some m
      → IsFirst m.funcname es k
      → get_method_info Impl m.funcname (method_infos Impl i es) ≡ some (i + k)
  unfolding get_method_info method_infos
  get_method_info-found i k [] m h first = absurd (some-ne-none m (sym h))
  get_method_info-found i zero (none ∷ es) m h first = absurd (some-ne-none m (sym h))
  get_method_info-found i (suc k) (none ∷ es) m h first = ground (
    arith,
    get_method_info-found (i + 1) k es m h (λ j m' p q. omega (arith, first (suc j) m' p q)),
  )
  get_method_info-found i zero (some o ∷ es) m h first =
      let same = some-injective o m h in
      ground (arith, ap (λ (x : MethodInfo Impl). x.funcname) same)
  get_method_info-found i (suc k) (some o ∷ es) m h first =
      let other : m.funcname ≢ o.funcname = λ e. absurd (omega (arith, first 0 o refl (sym e))) in
      ground (
        arith,
        other,
        get_method_info-found (i + 1) k es m h (λ j m' p q. omega (arith, first (suc j) m' p q)),
      )

  -- A method of an interface, called by its name through a client of a local implementation, does
  -- what the function of that name does, where no method before it has its name.
  pub client_call-local_client :
      (k : ℕ) (es : List (Option (MethodInfo Impl))) (m : MethodInfo Impl) (impl : Impl)
      (args : List ℕ)
      → placed es k ≡ some m
      → IsFirst m.funcname es k
      → client_call Impl
          (local_client Impl (interface Impl es) impl)
          (interface Impl es)
          m.funcname
          args
        ≡ some (m.func impl args)
  unfolding client_call local_client interface
  client_call-local_client k es m impl args h first =
      rw
        (
          client_call,
          get_method_info-found 0 k es m h first,
          local_client,
          method_info-method_infos 0 k es,
          h,
        )
        refl
