-- ===== src/Interface/Runs.antt =====
-- The `test_interface` of idl.hpp, whose second place is free, over a clock.
use mathlib.Core.Option.{some-ne-none, some-injective}
use srpg.Base.{sym, ap, ◌∙◌, ℕ, zero, suc, none, some, [], List, Option, ◌∷◌, ◌+◌, ◌≡◌, arith, map}
use srpg.Idl.{find_method, interface_methods}
use srpg.Interface.{MethodInfo, interface, method_info}
use srpg.Interface.Numbers.{old_method, old_found, IsFirst, method_info-interface_methods}

abbrev echo : MethodInfo ℕ
echo = record {
  funcname = 10;
  return_type = some 64;
  args_type = 64 ∷ [];
  options = 1 ∷ [];
  func = λ clock args. (args, clock);
}

abbrev get_time : MethodInfo ℕ
get_time = record {
  funcname = 11;
  return_type = some 32;
  args_type = [];
  options = [];
  func = λ clock args. (clock ∷ [], clock + 1);
}

abbrev set_pos : MethodInfo ℕ
set_pos = record {
  funcname = 12;
  return_type = none;
  args_type = 32 ∷ 32 ∷ [];
  options = [];
  func = λ clock args. ([], clock);
}

abbrev test_interface : List (Option (MethodInfo ℕ))
test_interface = some echo ∷ none ∷ some get_time ∷ some set_pos ∷ []

get_time-IsFirst : IsFirst 11 test_interface 2
get_time-IsFirst zero m p e =
    let same = ap (λ (x : MethodInfo ℕ). x.funcname) (some-injective echo m p) ∙ e in
    omega (arith, same)
get_time-IsFirst (suc zero) m p e = absurd (some-ne-none m (sym p))
get_time-IsFirst (suc (suc j)) m p e = omega arith

method_info-interface_methods_example :
    old_found (method_info ℕ 1 (interface ℕ (map (λ m. some m) (echo ∷ get_time ∷ set_pos ∷ []))))
    ≡ find_method ℕ 1 (interface_methods ℕ 30 (map old_method (echo ∷ get_time ∷ set_pos ∷ [])))
method_info-interface_methods_example =
    method_info-interface_methods 30 1 (echo ∷ get_time ∷ set_pos ∷ [])
