-- ===== src/Seq.antt =====
-- common/rrpc/old/integer_sequence.hpp: sequences of constants computed by templates. A sequence is
-- the list of its elements, which stay within their type; `size_t` has 64 bits.
pub mod Rotate
pub mod Sums
mod Runs
use srpg.Base.{
  ℕ, ◌==◌, if◌then◌else◌, length, zero, suc, ◌+◌, ◌-◌, ◌%◌, ◌^◌, not, List, [], ◌∷◌, ◌++◌,
}
use srpg.Base.Int.{ℤ, pos, negsuc}

-- What a template instantiation comes to. `too_deep`: the instantiations do not end within the fuel.
pub data Instance {ℓ} (A : Type ℓ) : Type ℓ where
  made : A → Instance A
  ill_formed : Instance A
  too_deep : Instance A

infixl 5 ◌>>=◌
abbrev pub ◌>>=◌ {ℓ κ} : {A : Type ℓ} {B : Type κ} → Instance A → (A → Instance B) → Instance B
made a >>= f = f a
ill_formed >>= f = ill_formed
too_deep >>= f = too_deep

-- `detail::select_value<T, n, elms...>`, and so `at<n>`.
pub select_value : ℕ → List ℕ → Instance ℕ
select_value n [] = ill_formed
select_value zero (v ∷ elms) = made v
select_value (suc n) (v ∷ elms) = select_value n elms

pub front : List ℕ → Instance ℕ
unfolding select_value
front s = select_value 0 s

-- `at<size-1>`, where `size` of the empty sequence wraps to the largest `size_t`.
pub back : List ℕ → Instance ℕ
unfolding select_value
back s = select_value ((length s + 2 ^ 64 - 1) % 2 ^ 64) s

pub pop_front : List ℕ → Instance (List ℕ)
pop_front [] = ill_formed
pop_front (elm ∷ elms) = made elms

pub push_front : ℕ → List ℕ → List ℕ
push_front value s = value ∷ s

pub push_back : List ℕ → List ℕ → List ℕ
push_back values s = s ++ values

pub push_ladder : ℕ → ℕ → ℕ → List ℕ → List ℕ
unfolding push_back
push_ladder zero begin step s = s
push_ladder (suc n) begin step s = push_ladder n (begin + step) step (push_back (begin ∷ []) s)

-- `make_integer_sequence<T, N>`
pub make_integer_sequence : ℕ → List ℕ
unfolding push_ladder
make_integer_sequence n = push_ladder n 0 1 []

add_all : List ℕ → List ℕ → List ℕ
add_all [] rhs = []
add_all (x ∷ xs) [] = []
add_all (x ∷ xs) (y ∷ ys) = (x + y) ∷ add_all xs ys

-- `static_assert(sizeof...(RhsElms) == size)`
pub add : List ℕ → List ℕ → Instance (List ℕ)
unfolding add_all
add s rhs = if length rhs == length s then made (add_all s rhs) else ill_formed

-- `partial_sum::detail<Out, In, cnt>`
partial_sum_detail : List ℕ → List ℕ → ℕ → Instance (List ℕ)
unfolding push_back back front pop_front
partial_sum_detail out in_ zero = made out
partial_sum_detail out in_ (suc cnt) = do
  last ← back out
  first ← front in_
  rest ← pop_front in_
  partial_sum_detail (push_back ((last + first) ∷ []) out) rest cnt

pub partial_sum : List ℕ → Instance (List ℕ)
unfolding partial_sum_detail front pop_front
partial_sum s = do
  first ← front s
  rest ← pop_front s
  partial_sum_detail (first ∷ []) rest (length s - 1)

-- `seq_shift_left<seq<T, elm, Elms...>, 1>`
abbrev rotate_one : List ℕ → List ℕ
rotate_one [] = []
rotate_one (elm ∷ elms) = elms ++ (elm ∷ [])

-- `(dist%Seq::size) - 1` in `size_t`.
abbrev next_dist : ℕ → ℕ → ℕ
next_dist dist size = (dist % size + 2 ^ 64 - 1) % 2 ^ 64

-- `detail::seq_shift_left<Seq, dist>`: the specialisations for 0 and 1, and the general template,
-- which the empty sequence makes ill-formed by its `dist%0`.
pub shift_left : ℕ → List ℕ → ℕ → Instance (List ℕ)
shift_left zero s dist = too_deep
shift_left (suc fuel) s dist =
    let rest = shift_left fuel (rotate_one s) (next_dist dist (length s)) in
    if dist == 0
    then made s
    else (if length s == 0 then ill_formed else (if dist == 1 then made (rotate_one s) else rest))

-- `shift_left<size - (dist%size)>`
pub shift_right : ℕ → List ℕ → ℕ → Instance (List ℕ)
unfolding shift_left
shift_right fuel s dist =
    if length s == 0 then ill_formed else shift_left fuel s (length s - dist % length s)

-- Both distances are computed, so that `dist%size` is ill-formed on the empty sequence whatever the
-- sign of `dist` is.
pub shift : ℕ → List ℕ → ℤ → Instance (List ℕ)
unfolding shift_left shift_right
shift fuel [] dist = ill_formed
shift fuel (x ∷ xs) (pos zero) = shift_left fuel (x ∷ xs) 0
shift fuel (x ∷ xs) (pos (suc n)) = shift_right fuel (x ∷ xs) (suc n)
shift fuel (x ∷ xs) (negsuc n) = shift_left fuel (x ∷ xs) (suc n)
