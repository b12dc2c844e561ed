-- ===== src/Think.antt =====
-- src/logic/visitor.h: the choice of the best moves of a game, by trying all of them.
-- `ai`, and the functions of `status` that the header only declares, are parameters; a status is a
-- value that they change, and an operation is a value of any type.
pub mod Choice
mod Runs
use srpg.Base.{ℕ, zero, suc, none, some, [], List, if◌then◌else◌, ◌∷◌, ltb, ◌++◌, Option}
use srpg.Base.Fallible.{◌>>=◌}

module _ (Operation Status : Type 0) where
  -- The declarations of `status`.
  pub record StatusFunctions : Type 0 where
    pub push : Status → Status
    pub apply : List Operation → Status → Status
    pub pop : Status → Status

  -- What `calculateBestOperation` calls of `ai`.
  pub record Ai : Type 0 where
    pub possible_moves : Status → List (List Operation)
    pub evaluate : Status → List Operation → ℕ → ℕ

  module _ (functions : StatusFunctions) (ai : Ai) where
    open functions use {push, apply, pop}
    open ai use {possible_moves, evaluate}

    -- The loop over `ops`, with the recursive call as a function.
    pub try_moves :
        (Status → Option (List Operation × ℕ × Status))
        → List (List Operation)
        → Status
        → List Operation
        → ℕ
        → Option (List Operation × ℕ × Status)
    try_moves calculate [] s best max_score = some (best, max_score, s)
    try_moves calculate (op ∷ ops) s best max_score = do
      (best_op, score, s') ← calculate (apply op (push s))
      let score' = evaluate s' best_op score
      let better = ltb max_score score'
      try_moves calculate ops (pop s') (if better then op ++ best_op else best)
          (if better then score' else max_score)

    -- `calculateBestOperation(s, maxScore, ai)`: the moves, the score and the status; `none` where
    -- the recursion has not ended within the fuel.
    pub calculate_best_operation : ℕ → Status → Option (List Operation × ℕ × Status)
    unfolding try_moves
    calculate_best_operation zero s = none
    calculate_best_operation (suc fuel) s =
        try_moves (λ t. calculate_best_operation fuel t) (possible_moves s) s [] 0
