-- ===== src/Think/Runs.antt =====
-- A game of counting down by one or by two, which counts the moves of one.
use srpg.Base.{ℕ, zero, suc, [], List, ◌∷◌, ◌≡◌, ◌+◌, ◌-◌, ◌<◌, arith, refl, some, ap}
use srpg.Think.{StatusFunctions, Ai, calculate_best_operation}
use srpg.Think.Choice.{IsFirstBest, answer_by, calculate_best_operation-IsFirstBest}
use mathlib.Core.List.{Memᴰ}
use mathlib.Core.List.Memᴰ.{head, tail}

-- The count, and the counts that were pushed.
abbrev Countdown : Type 0
Countdown = List ℕ

abbrev count : Countdown → ℕ
count [] = 0
count (n ∷ ns) = n

abbrev taken : List ℕ → ℕ
taken [] = 0
taken (k ∷ ks) = k + taken ks

abbrev lowered : List ℕ → Countdown → Countdown
lowered ks [] = []
lowered ks (n ∷ ns) = (n - taken ks) ∷ ns

abbrev pushed : Countdown → Countdown
pushed [] = []
pushed (n ∷ ns) = n ∷ n ∷ ns

abbrev popped : Countdown → Countdown
popped [] = []
popped (n ∷ []) = n ∷ []
popped (n ∷ m ∷ ns) = m ∷ ns

abbrev stack : StatusFunctions ℕ Countdown
stack = record { push = pushed; apply = lowered; pop = popped }

abbrev moves_from : ℕ → List (List ℕ)
moves_from zero = []
moves_from (suc zero) = (1 ∷ []) ∷ []
moves_from (suc (suc n)) = (2 ∷ []) ∷ (1 ∷ []) ∷ []

abbrev counting_ai : Ai ℕ Countdown
counting_ai = record {
  possible_moves = λ s. moves_from (count s);
  evaluate = λ s moves score. score + 1;
}

restored : (s : Countdown) (op : List ℕ) → popped (lowered op (pushed s)) ≡ s
restored [] op = refl
restored (n ∷ ns) op = refl

lowers :
    (s : Countdown) (op : List ℕ)
    → Memᴰ op (moves_from (count s))
    → count (lowered op (pushed s)) < count s
lowers [] op m = elim m [ ]
lowers (zero ∷ ns) op m = elim m [ ]
lowers (suc zero ∷ ns) op (head e) = omega (arith, ap taken e)
lowers (suc zero ∷ ns) op (tail m) = elim m [ ]
lowers (suc (suc n) ∷ ns) op (head e) = omega (arith, ap taken e)
lowers (suc (suc n) ∷ ns) op (tail (head e)) = omega (arith, ap taken e)
lowers (suc (suc n) ∷ ns) op (tail (tail m)) = elim m [ ]

best_of_three :
    calculate_best_operation ℕ Countdown stack counting_ai 4 (3 ∷ [])
    ≡ some (1 ∷ 1 ∷ 1 ∷ [], 3, 3 ∷ [])
unfolding calculate_best_operation
best_of_three = refl

calculate_best_operation-IsFirstBest_example :
    (calculate_best_operation ℕ Countdown stack counting_ai 4 (3 ∷ [])
      ≡ some (1 ∷ 1 ∷ 1 ∷ [], 3, 3 ∷ []))
    × IsFirstBest stack counting_ai
        (answer_by stack counting_ai count)
        (3 ∷ [])
        ([], 0)
        ((2 ∷ []) ∷ (1 ∷ []) ∷ [])
        (1 ∷ 1 ∷ 1 ∷ [], 3)
unfolding answer_by calculate_best_operation
calculate_best_operation-IsFirstBest_example =
    calculate_best_operation-IsFirstBest stack counting_ai restored count lowers 4 (3 ∷ [])
      (omega arith)
