-- ===== src/Search/Ends.antt =====
-- How the search ends.
use mathlib.Core.Option.{none-ne-some}
use srpg.Search.{Searched, running, done, past_end, search_loop, breadth_first_search}
use srpg.Base.{
  refl, ap, ℕ, zero, suc, none, some, [], Bool, List, ◌≤◌, true, length, ◌≡◌, false, refl,
  get_elem?, leb, Option, ◌∷◌, ◌<◌, arith, ◌+◌, ◌++◌, if◌then◌else◌, ◌∙◌, Option-cases, inl, inr,
  length-append,
}
use srpg.Search.{Searched, search_loop, done, past_end}

-- Whether a search ended by its loop condition.
abbrev pub ended : Searched → Bool
ended (done processed) = true
ended (past_end processed) = false
ended running = false

get_elem?-lt : (xs : List ℕ) (i v : ℕ) → get_elem? xs i ≡ some v → i < length xs
get_elem?-lt [] i v e = absurd (none-ne-some v e)
get_elem?-lt (x ∷ xs) zero v e = omega arith
get_elem?-lt (x ∷ xs) (suc i) v e = omega (arith, get_elem?-lt xs i v e)

leb-true : (a b : ℕ) → a ≤ b → leb a b ≡ true
leb-true a b h = ground arith

module _ (examine : ℕ → List ℕ → List ℕ) where
  search_loop-ended :
      (fuel i : ℕ) (stack processed : List ℕ)
      → i ≤ length stack
      → ended (search_loop examine fuel i stack processed) ≡ false
  unfolding search_loop
  search_loop-ended zero i stack processed h = refl
  search_loop-ended (suc fuel) i stack processed h =
      let next : Option ℕ → Searched = λ o. elim o [
        | none ↦ past_end processed
        | some v ↦
            search_loop examine fuel (i + 1) (stack ++ examine v stack) (processed ++ (v ∷ []))
      ] in
      ap (λ (b : Bool). ended (if b then next (get_elem? stack i) else done processed))
        (leb-true i (length stack) h)
      ∙ elim (Option-cases (get_elem? stack i)) [
        | inl e ↦ ap (λ (o : Option ℕ). ended (next o)) e
        | inr (v, e) ↦
            ap (λ (o : Option ℕ). ended (next o)) e
            ∙ search_loop-ended fuel (i + 1) (stack ++ examine v stack) (processed ++ (v ∷ []))
                (omega (arith, get_elem?-lt stack i v e, length-append stack (examine v stack)))
      ]

  -- No search ends by its loop condition, whatever the visitor finds: in any number of rounds it
  -- either has not ended or has used an element past the end of the vector.
  pub breadth_first_search-ended :
      (fuel begin : ℕ) → ended (breadth_first_search examine fuel begin) ≡ false
  unfolding breadth_first_search
  breadth_first_search-ended fuel begin = search_loop-ended fuel 0 (begin ∷ []) [] (omega arith)
