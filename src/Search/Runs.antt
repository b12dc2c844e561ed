-- ===== src/Search/Runs.antt =====
-- A search from vertex 4 that finds vertex 5 once.
use srpg.Base.{ℕ, [], List, ◌≡◌, if◌then◌else◌, ◌∷◌, ◌==◌, refl}
use srpg.Search.{breadth_first_search, past_end}

abbrev find_five : ℕ → List ℕ → List ℕ
find_five v stack = if v == 4 then 5 ∷ [] else []

search_past_end : breadth_first_search find_five 5 4 ≡ past_end (4 ∷ 5 ∷ [])
unfolding breadth_first_search
search_past_end = refl
