-- ===== src/Seq/Runs.antt =====
-- Concrete sequences, and the theorems at concrete inputs.
use srpg.Base.{◌≡◌, refl, [], ◌∷◌, arith}
use srpg.Seq.{
  made, ◌>>=◌, shift_left, add, partial_sum, push_front, make_integer_sequence, shift_right,
}
use srpg.Seq.Rotate.{shift_left-rotated, shift_right-shift_left}

left_two : shift_left 9 (1 ∷ 2 ∷ 3 ∷ 4 ∷ []) 2 ≡ made (3 ∷ 4 ∷ 1 ∷ 2 ∷ [])
unfolding shift_left
left_two = refl

-- At the size itself a sequence of four comes back to its start, through a wrapped distance.
left_four : shift_left 9 (1 ∷ 2 ∷ 3 ∷ 4 ∷ []) 4 ≡ made (1 ∷ 2 ∷ 3 ∷ 4 ∷ [])
unfolding shift_left
left_four = refl

pairs_added : add (1 ∷ 2 ∷ []) (10 ∷ 20 ∷ []) ≡ made (11 ∷ 22 ∷ [])
unfolding add
pairs_added = refl

sums_of_three : partial_sum (1 ∷ 2 ∷ 3 ∷ []) ≡ made (1 ∷ 3 ∷ 6 ∷ [])
unfolding partial_sum
sums_of_three = refl

front_pushed : push_front 7 (make_integer_sequence 2) ≡ 7 ∷ 0 ∷ 1 ∷ []
unfolding push_front make_integer_sequence
front_pushed = refl

shift_left-rotated_example : shift_left 3 (1 ∷ 2 ∷ 3 ∷ 4 ∷ []) 2 ≡ made (3 ∷ 4 ∷ 1 ∷ 2 ∷ [])
shift_left-rotated_example =
    shift_left-rotated 3 2 (1 ∷ 2 ∷ 3 ∷ 4 ∷ []) (omega arith) (omega arith) (omega arith)

shift_right-shift_left_example :
    (shift_left 9 (1 ∷ 2 ∷ 3 ∷ []) 1 >>= λ t. shift_right 9 t 1) ≡ made (1 ∷ 2 ∷ 3 ∷ [])
shift_right-shift_left_example =
    shift_right-shift_left 9 1 (1 ∷ 2 ∷ 3 ∷ []) (omega arith) (omega arith) (omega arith)
      (omega arith)
