-- ===== src/Operation/Runs.antt =====
-- A move with an archive that saves an `int` as one number.
use srpg.Base.{ℕ, none, some, [], List, Option, ◌∷◌, ◌++◌, ◌≡◌, refl}
use srpg.Operation.{move, change_facing, get_type, IntArchive, save_operation, load_operation}
use srpg.Operation.Laws.{load_operation-save_operation}

next_number : List ℕ → Option (ℕ × List ℕ)
next_number [] = none
next_number (v ∷ vs) = some (v, vs)

next_number-cons : (v : ℕ) (rest : List ℕ) → next_number ((v ∷ []) ++ rest) ≡ some (v, rest)
unfolding next_number
next_number-cons v rest = refl

abbrev numbers : IntArchive
numbers = record {
  save_int = λ v. v ∷ [];
  load_int = next_number;
  load_int-save_int = next_number-cons;
}

load_operation-save_operation_example :
    load_operation numbers 99
      (change_facing 3)
      (save_operation numbers (get_type (move (4 ∷ 5 ∷ []))) (move (4 ∷ 5 ∷ [])) ++ (8 ∷ []))
    ≡ some (move [], 8 ∷ [])
load_operation-save_operation_example =
    load_operation-save_operation numbers 99 (move (4 ∷ 5 ∷ [])) (change_facing 3) (8 ∷ [])
