-- ===== src/Idl/Numbers.antt =====
-- The numbers that the methods of an interface get.
use srpg.Base.{ap, ◌∙◌, ℕ, zero, suc, refl, [], List, ◌≡◌, ◌+◌, get_elem?, ◌∷◌, arith}
use srpg.Idl.{find_method, interface_methods, number_methods, Method}

module _ {Impl : Type 0} where
  find_method-number_methods :
      (base i k : ℕ) (ms : List (Method Impl))
      → find_method Impl (i + k) (number_methods Impl base (base + i) ms) ≡ get_elem? ms k
  unfolding find_method number_methods
  find_method-number_methods base i k [] = refl
  find_method-number_methods base i zero (m ∷ ms) = ground arith
  find_method-number_methods base i (suc k) (m ∷ ms) =
      ground (arith, find_method-number_methods base (i + 1) k ms)

  -- The methods of an interface are found by their place in it, from 0 on, whatever the counter of
  -- the preprocessor was when the interface began.
  pub find_method-interface_methods :
      (counter k : ℕ) (ms : List (Method Impl))
      → find_method Impl k (interface_methods Impl counter ms) ≡ get_elem? ms k
  unfolding interface_methods
  find_method-interface_methods counter k ms =
      let base = counter + 1 in
      let start : base ≡ base + 0 = omega arith in
      let same : k ≡ 0 + k = omega arith in
      ap (λ (n : ℕ). find_method Impl k (number_methods Impl base n ms)) start
      ∙ ap (λ (j : ℕ). find_method Impl j (number_methods Impl base (base + 0) ms)) same
      ∙ find_method-number_methods base 0 k ms
