-- ===== src/Think/Choice.antt =====
-- The moves that are chosen, by backward induction over the moves that are possible.
use srpg.Base.{
  zero, suc, refl, none, some, ℕ, List, Option, All, ◌<◌, ◌≤◌, [], ◌≡◌, ◌∷◌, arith, ◌++◌, ap, Bool,
  ltb, if◌then◌else◌, dec_lt, ◌∙◌, sym, ltb-true, subst, ltb-false,
}
use mathlib.Core.Option.{some-injective}
use srpg.Think.{StatusFunctions, Ai, try_moves, calculate_best_operation}
use mathlib.Core.List.{Memᴰ}
use mathlib.Core.List.Memᴰ.{head, tail}

All_of_Mem : {A : Type 0} (P : A → Type 0) (xs : List A) → ((x : A) → Memᴰ x xs → P x) → All P xs
All_of_Mem P [] h = tt
All_of_Mem P (x ∷ xs) h = (h x (head refl), All_of_Mem P xs (λ y m. h y (tail m)))

module _ {Operation Status : Type 0} (functions : StatusFunctions Operation Status)
    (ai : Ai Operation Status) where
  open functions use {push, apply, pop}
  open ai use {possible_moves, evaluate}

  abbrev pub after : Status → List Operation → Status
  after s op = apply op (push s)

  -- Moves and their score.
  abbrev pub Answer : Type 0
  Answer = List Operation × ℕ

  -- How a move is evaluated, with the answer to the status after it.
  abbrev pub value : (Status → Answer) → Status → List Operation → ℕ
  value answer s op = evaluate (after s op) (answer (after s op)).0 (answer (after s op)).1

  -- `a` is what is chosen from `ops` where `start` was found before: `start` itself if no move is
  -- evaluated higher, otherwise the first of the moves that are evaluated highest, followed by the
  -- answer to the status after it.
  pub data IsFirstBest (answer : Status → Answer) (s : Status) (start : Answer)
      (ops : List (List Operation)) (a : Answer) : Type 0 where
    kept : All (λ o. value answer s o ≤ start.1) ops → a ≡ start → IsFirstBest answer s start ops a
    improved :
        (before later : List (List Operation)) (op : List Operation)
        → ops ≡ before ++ (op ∷ later)
        → start.1 < value answer s op
        → All (λ o. value answer s o < value answer s op) before
        → All (λ o. value answer s o ≤ value answer s op) later
        → a ≡ (op ++ (answer (after s op)).0, value answer s op)
        → IsFirstBest answer s start ops a

  IsFirstBest-better :
      (answer : Status → Answer) (s : Status) (op : List Operation) (ops : List (List Operation))
      (start a : Answer)
      → start.1 < value answer s op
      → IsFirstBest answer s (op ++ (answer (after s op)).0, value answer s op) ops a
      → IsFirstBest answer s start (op ∷ ops) a
  IsFirstBest-better answer s op ops start a lt (kept all e) = improved [] ops op refl lt tt all e
  IsFirstBest-better answer s op ops start a lt (improved before later o split more b l e) =
      improved (op ∷ before) later o (ap (◌∷◌ op) split) (omega (arith, lt, more)) (more, b) l e

  IsFirstBest-worse :
      (answer : Status → Answer) (s : Status) (op : List Operation) (ops : List (List Operation))
      (start a : Answer)
      → value answer s op ≤ start.1
      → IsFirstBest answer s start ops a
      → IsFirstBest answer s start (op ∷ ops) a
  IsFirstBest-worse answer s op ops start a le (kept all e) = kept (le, all) e
  IsFirstBest-worse answer s op ops start a le (improved before later o split more b l e) =
      improved (op ∷ before) later o (ap (◌∷◌ op) split) more (omega (arith, le, more), b) l e

  abbrev calculate : ℕ → Status → Option (List Operation × ℕ × Status)
  calculate fuel s = calculate_best_operation Operation Status functions ai fuel s

  answer_or_none : Option (List Operation × ℕ × Status) → Answer
  answer_or_none none = ([], 0)
  answer_or_none (some (best, score, s)) = (best, score)

  -- The answer to a status, with fuel for its rank.
  unfoldable pub answer_by : (Status → ℕ) → Status → Answer
  unfolding answer_or_none
  answer_by rank s = answer_or_none (calculate (suc (rank s)) s)

  -- `pop` takes back what `push` and `apply` have done.
  module _ (restore : (s : Status) (op : List Operation) → pop (after s op) ≡ s) where
    module _ (compute : Status → Option (List Operation × ℕ × Status)) where
      abbrev loop :
          List (List Operation) → Status → List Operation → ℕ → Option (List Operation × ℕ × Status)
      loop ops s best max = try_moves Operation Status functions ai compute ops s best max

      loop-cons :
          (s : Status) (op : List Operation) (ops : List (List Operation))
          (best rest : List Operation) (max n : ℕ)
          → compute (after s op) ≡ some (rest, n, after s op)
          → loop (op ∷ ops) s best max
            ≡ loop ops s (if ltb max (evaluate (after s op) rest n) then op ++ rest else best) (
                if ltb max (evaluate (after s op) rest n)
                then evaluate (after s op) rest n
                else max)
      unfolding try_moves
      loop-cons s op ops best rest max n e = rw (try_moves, e, restore s op) refl

      loop-nil :
          (s : Status) (best : List Operation) (max : ℕ) → loop [] s best max ≡ some (best, max, s)
      unfolding try_moves
      loop-nil s best max = refl

      loop-IsFirstBest :
          (answer : Status → Answer) (s : Status) (ops : List (List Operation))
          (best : List Operation) (max : ℕ)
          → All
              (λ op.
                compute (after s op)
                ≡ some ((answer (after s op)).0, (answer (after s op)).1, after s op))
              ops
          → (a : Answer) × (loop ops s best max ≡ some (a.0, a.1, s))
            × IsFirstBest answer s (best, max) ops a
      loop-IsFirstBest answer s [] best max h = ((best, max), loop-nil s best max, kept tt refl)
      loop-IsFirstBest answer s (op ∷ ops) best max (e, es) =
          let v = value answer s op in
          let rest = (answer (after s op)).0 in
          let step = loop-cons s op ops best rest max (answer (after s op)).1 e in
          let on : Bool → Option (List Operation × ℕ × Status) =
            λ b. loop ops s (if b then op ++ rest else best) (if b then v else max) in
          elim (dec_lt max v) [
            | yes lt ↦
                let (a, e', f) = loop-IsFirstBest answer s ops (op ++ rest) v es in
                (
                  a,
                  step ∙ ap on (ltb-true max v lt) ∙ e',
                  IsFirstBest-better answer s op ops (best, max) a lt f,
                )
            | no ge ↦
                let (a, e', f) = loop-IsFirstBest answer s ops best max es in
                (
                  a,
                  step ∙ ap on (ltb-false max v (omega (arith, ge))) ∙ e',
                  IsFirstBest-worse answer s op ops (best, max) a (omega (arith, ge)) f,
                )
          ]

    -- Two runs that give the same result.
    abbrev Agree : (f g : Status → Option (List Operation × ℕ × Status)) → Status → Type 0
    Agree f g s = (a : Answer) × (f s ≡ some (a.0, a.1, s)) × (g s ≡ some (a.0, a.1, s))

    loop-Agree :
        (f g : Status → Option (List Operation × ℕ × Status)) (s : Status)
        (ops : List (List Operation)) (best : List Operation) (max : ℕ)
        → All (λ op. Agree f g (after s op)) ops
        → (a : Answer) × (loop f ops s best max ≡ some (a.0, a.1, s))
          × (loop g ops s best max ≡ some (a.0, a.1, s))
    loop-Agree f g s [] best max h = ((best, max), loop-nil f s best max, loop-nil g s best max)
    loop-Agree f g s (op ∷ ops) best max ((a, e, e'), es) =
        let v = evaluate (after s op) a.0 a.1 in
        let b = ltb max v in
        let (c, d, d') =
          loop-Agree f g s ops (if b then op ++ a.0 else best) (if b then v else max) es in
        (
          c,
          loop-cons f s op ops best a.0 max a.1 e ∙ d,
          loop-cons g s op ops best a.0 max a.1 e' ∙ d',
        )

    module _ (rank : Status → ℕ)
        (lowers : (s : Status) (op : List Operation)
          → Memᴰ op (possible_moves s)
          → rank (after s op) < rank s) where
      calculate-Agree :
          (f g : ℕ) (s : Status)
          → rank s < f
          → rank s < g
          → Agree (λ t. calculate f t) (λ t. calculate g t) s
      unfolding calculate_best_operation
      calculate-Agree zero g s hf hg = absurd (omega (arith, hf))
      calculate-Agree (suc f) zero s hf hg = absurd (omega (arith, hg))
      calculate-Agree (suc f) (suc g) s hf hg =
          loop-Agree (λ t. calculate f t) (λ t. calculate g t) s (possible_moves s) [] 0
            (All_of_Mem _ (possible_moves s) (λ o m.
              calculate-Agree f g (after s o) (omega (arith, hf, lowers s o m))
                (omega (arith, hg, lowers s o m))))

      calculate-answer_by :
          (fuel : ℕ) (s : Status)
          → rank s < fuel
          → calculate fuel s ≡ some ((answer_by rank s).0, (answer_by rank s).1, s)
      unfolding answer_by answer_or_none
      calculate-answer_by fuel s h =
          let (a, e, e') = calculate-Agree fuel (suc (rank s)) s h (omega arith) in
          let same = ap answer_or_none e' in e ∙ sym (ap (λ (t : Answer). some (t.0, t.1, s)) same)

      -- `calculateBestOperation` ends, with the status as it was, and its answer depends on the
      -- status alone: any fuel above the rank of the status gives the same. The answer is chosen by
      -- backward induction: each possible move is evaluated in the status after it, with the answer
      -- to that status; the first of the moves that are evaluated highest is taken, followed by the
      -- answer to the status after it; and it is no move, with the score 0, if all are evaluated 0.
      -- `pop` takes back what `push` and `apply` have done, and each possible move lowers a rank of
      -- the status.
      pub calculate_best_operation-IsFirstBest :
          (fuel : ℕ) (s : Status)
          → rank s < fuel
          → (calculate_best_operation Operation Status functions ai fuel s
              ≡ some ((answer_by rank s).0, (answer_by rank s).1, s))
            × IsFirstBest (answer_by rank) s ([], 0) (possible_moves s) (answer_by rank s)
      unfolding calculate_best_operation
      calculate_best_operation-IsFirstBest zero s h = absurd (omega (arith, h))
      calculate_best_operation-IsFirstBest (suc fuel) s h =
          let whole = calculate-answer_by (suc fuel) s h in
          let (a, e, f) =
            loop-IsFirstBest (λ t. calculate fuel t) (answer_by rank) s (possible_moves s) [] 0
              (All_of_Mem _ (possible_moves s)
                (λ o m. calculate-answer_by fuel (after s o) (omega (arith, h, lowers s o m)))) in
          let same : a ≡ answer_by rank s =
            ap (λ t. (t.0, t.1)) (some-injective _ _ (sym e ∙ whole)) in
          (whole, subst (IsFirstBest (answer_by rank) s ([], 0) (possible_moves s)) same f)
