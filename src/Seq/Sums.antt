-- ===== src/Seq/Sums.antt =====
-- What the builders of sequences hold at each place.
use srpg.Base.{
  ℕ, length, get_elem?, take, length-append, zero, suc, ◌+◌, ◌-◌, ◌*◌, ◌%◌, ◌^◌, ◌<◌, ◌≡◌, refl, ap,
  ◌∙◌, some, List, [], ◌∷◌, ◌++◌, append_assoc, arith, sym, append-nil,
}
use srpg.Seq.{
  made, select_value, back, partial_sum_detail, partial_sum, push_ladder, front, push_back,
  pop_front, make_integer_sequence,
}

abbrev pub sum : List ℕ → ℕ
sum [] = 0
sum (x ∷ xs) = x + sum xs

-- The sums of the front parts of `xs`, over what stands before it.
abbrev sums_from : ℕ → List ℕ → List ℕ
sums_from acc [] = []
sums_from acc (x ∷ xs) = (acc + x) ∷ sums_from (acc + x) xs

get_elem?-sums_from :
    (xs : List ℕ) (acc i : ℕ)
    → i < length xs
    → get_elem? (sums_from acc xs) i ≡ some (acc + sum (take (suc i) xs))
get_elem?-sums_from [] acc i h = absurd (omega arith)
get_elem?-sums_from (x ∷ xs) acc zero h = ap some (omega arith)
get_elem?-sums_from (x ∷ xs) acc (suc i) h =
    get_elem?-sums_from xs (acc + x) i (omega arith) ∙ ap some (omega arith)

select_value-last : (s : List ℕ) (x : ℕ) → select_value (length s) (s ++ (x ∷ [])) ≡ made x
unfolding select_value
select_value-last [] x = refl
select_value-last (y ∷ s) x = select_value-last s x

back-append : (s : List ℕ) (x : ℕ) → length s + 1 < 2 ^ 64 → back (s ++ (x ∷ [])) ≡ made x
unfolding back
back-append s x h =
    let i : (length (s ++ (x ∷ [])) + 2 ^ 64 - 1) % 2 ^ 64 ≡ length s =
      omega (arith, length-append s (x ∷ [])) in
    rw i (select_value-last s x)

partial_sum_detail_lem :
    (xs out : List ℕ) (acc : ℕ)
    → length out + length xs + 1 < 2 ^ 64
    → partial_sum_detail (out ++ (acc ∷ [])) xs (length xs) ≡ made (out ++ (acc ∷ sums_from acc xs))
unfolding partial_sum_detail
partial_sum_detail_lem [] out acc h = refl
partial_sum_detail_lem (x ∷ xs) out acc h = rw (back-append out acc (omega arith)) (
    unfold front pop_front select_value push_back in
    (partial_sum_detail_lem xs (out ++ (acc ∷ [])) (acc + x)
        (omega (arith, length-append out (acc ∷ [])))
      ∙ ap made (append_assoc out (acc ∷ []) ((acc + x) ∷ sums_from (acc + x) xs))))

-- `partial_sum` of a sequence that is not empty and has fewer than `2 ^ 64` elements is well-formed,
-- and holds at each place the sum of the elements up to it.
pub partial_sum_lem :
    (s : List ℕ)
    → 0 < length s
    → length s < 2 ^ 64
    → (t : List ℕ) × (partial_sum s ≡ made t)
      × ((i : ℕ) → i < length s → get_elem? t i ≡ some (sum (take (suc i) s)))
unfolding partial_sum
partial_sum_lem [] h hs = absurd (omega arith)
partial_sum_lem (x ∷ xs) h hs =
    let n : suc (length xs) - 1 ≡ length xs = omega arith in
    (x ∷ sums_from x xs, rw n (partial_sum_detail_lem xs [] x (omega arith)), λ i hi. place i hi)
  where
    place :
        (i : ℕ)
        → i < suc (length xs)
        → get_elem? (x ∷ sums_from x xs) i ≡ some (x + sum (take i xs))
    place zero hi = ap some (omega arith)
    place (suc i) hi = get_elem?-sums_from xs x i (omega arith)

abbrev ladder : ℕ → ℕ → ℕ → List ℕ
ladder zero begin step = []
ladder (suc n) begin step = begin ∷ ladder n (begin + step) step

push_ladder-ladder :
    (n begin step : ℕ) (s : List ℕ) → push_ladder n begin step s ≡ s ++ ladder n begin step
unfolding push_ladder push_back
push_ladder-ladder zero begin step s = sym (append-nil s)
push_ladder-ladder (suc n) begin step s =
    push_ladder-ladder n (begin + step) step (s ++ (begin ∷ []))
    ∙ append_assoc s (begin ∷ []) (ladder n (begin + step) step)

get_elem?-ladder :
    (n begin step i : ℕ) → i < n → get_elem? (ladder n begin step) i ≡ some (begin + i * step)
get_elem?-ladder zero begin step i h = absurd (omega arith)
get_elem?-ladder (suc n) begin step zero h = ap some (omega arith)
get_elem?-ladder (suc n) begin step (suc i) h =
    get_elem?-ladder n (begin + step) step i (omega arith) ∙ ap some (omega arith)

length-ladder : (n begin step : ℕ) → length (ladder n begin step) ≡ n
length-ladder zero begin step = refl
length-ladder (suc n) begin step = ap suc (length-ladder n (begin + step) step)

-- `make_integer_sequence` of `n` has `n` elements, and each is its own place.
pub make_integer_sequence_lem :
    (n : ℕ)
    → (length (make_integer_sequence n) ≡ n)
      × ((i : ℕ) → i < n → get_elem? (make_integer_sequence n) i ≡ some i)
unfolding make_integer_sequence
make_integer_sequence_lem n =
    rw (push_ladder-ladder n 0 1 [])
      (length-ladder n 0 1, λ i h. get_elem?-ladder n 0 1 i h ∙ ap some (omega arith))
