-- ===== src/Search.antt =====
-- src/logic/visitor.h: the breadth-first search over the vertices of a map.
-- The map and its vertices are outside; a vertex is a number.
pub mod Ends
mod Runs
use srpg.Base.{
  ℕ, zero, suc, none, some, [], List, if◌then◌else◌, ◌∷◌, leb, length, get_elem?, ◌+◌, ◌++◌,
}

-- How a search ends: the loop condition fails, or an element past the end of the vector is used,
-- which is undefined, or it has not ended within the fuel.
pub data Searched : Type 0 where
  done : List ℕ → Searched
  past_end : List ℕ → Searched
  running : Searched

module _ (examine : ℕ → List ℕ → List ℕ) where
  -- The loop of `breadth_first_search`, from the index `i` on, with the vertices processed so far;
  -- `examine` appends to the vector what it finds.
  pub search_loop : ℕ → ℕ → List ℕ → List ℕ → Searched
  search_loop zero i stack processed = running
  search_loop (suc fuel) i stack processed =
      if leb i (length stack)
      then elim (get_elem? stack i) [
        | none ↦ past_end processed
        | some v ↦ search_loop fuel (i + 1) (stack ++ examine v stack) (processed ++ (v ∷ []))
      ]
      else done processed

  pub breadth_first_search : ℕ → ℕ → Searched
  unfolding search_loop
  breadth_first_search fuel begin = search_loop fuel 0 (begin ∷ []) []
