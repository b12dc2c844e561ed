-- ===== src/Ring/Positions.antt =====
-- Which position each step moves.
use srpg.Base.{
  ℕ, ◌^◌, ◌≤◌, ◌<◌, ◌≡◌, ◌-◌, ◌+◌, arith, ◌≢◌, ◌==◌, if◌then◌else◌, false, ℕ_discrete, ap, ltb,
  Bool, ◌∙◌,
}
use srpg.Ring.{
  wp, fetch_add, max_index, fetch_sub, rp, step_word, push, inc_rp, multi_push_word, SpscQueue,
  multi_consume_word, next_index, max_count,
}

module _ (n word : ℕ) (h : 2 ^ n ≤ 2 ^ 16) (p : 0 < 2 ^ n) (w : word < 2 ^ 32) where
  fetch_add-low :
      (wp word < 2 ^ 16 - 1)
      → (wp (fetch_add word 1) ≡ wp word + 1) × (rp (fetch_add word 1) ≡ rp word)
  fetch_add-low i = (omega arith, omega arith)

  fetch_sub-low :
      wp word ≡ max_index n
      → (wp (fetch_sub word (max_index n)) ≡ 0) × (rp (fetch_sub word (max_index n)) ≡ rp word)
  fetch_sub-low i = (omega (arith, i), omega (arith, i))

eqb-false : (a b : ℕ) → a ≢ b → (a == b) ≡ false
eqb-false a b h = ground arith

step-wp :
    (n word : ℕ)
    → 2 ^ n ≤ 2 ^ 16
    → word < 2 ^ 32
    → wp word < 2 ^ n
    → (wp (step_word n word (wp word)) ≡ (if wp word == max_index n then 0 else wp word + 1))
      × (rp (step_word n word (wp word)) ≡ rp word)
unfolding step_word
step-wp n word h w i = elim (ℕ_discrete (wp word) (max_index n)) [
  | yes e ↦ let moved = fetch_sub-low n word h (omega arith) w e in ground (arith, e, moved)
  | no e ↦
      let moved = fetch_add-low n word h (omega arith) w (omega (arith, e)) in
      ground (arith, e, moved)
]

-- A push into a ring that is not full stores the object at the write position, moves this position
-- on by one, back to 0 after the last index, and leaves the read position. It returns whether the
-- word was not 0 before: the first push into a new ring returns false although it stored. The ring
-- has at most 2 ^ 16 places, and the write position is one of them.
pub push_lem :
    (n : ℕ) (q : SpscQueue) (v : ℕ)
    → 2 ^ n ≤ 2 ^ 16
    → q.state < 2 ^ 32
    → wp q.state < 2 ^ n
    → next_index n (wp q.state) ≢ rp q.state
    → ((push n q v).0 ≡ ltb 0 q.state)
      × ((push n q v).1.data_ (wp q.state) ≡ v)
      × (wp (push n q v).1.state ≡ (if wp q.state == max_index n then 0 else wp q.state + 1))
      × (rp (push n q v).1.state ≡ rp q.state)
unfolding push
push_lem n q v h w i free =
    let x = q.state in
    let moved = step-wp n x h w i in
    let pushed : Bool × SpscQueue = (
      ltb 0 x,
      record { state = step_word n x (wp x); data_ = λ j. if j == wp x then v else q.data_ j },
    ) in
    let stored : push n q v ≡ pushed =
      ap (λ (b : Bool). if b then (false, q) else pushed) (eqb-false _ _ free) in
    (
      ap (λ (r : Bool × SpscQueue). r.0) stored,
      ap (λ (r : Bool × SpscQueue). r.1.data_ (wp x)) stored ∙ ground arith,
      ap (λ (r : Bool × SpscQueue). wp r.1.state) stored ∙ moved.0,
      ap (λ (r : Bool × SpscQueue). rp r.1.state) stored ∙ moved.1,
    )

-- The step of the read position moves the write position: below the last index it adds 1 to the
-- whole word, and the read position stays.
pub inc_rp_moves_wp :
    (n : ℕ) (q : SpscQueue)
    → q.state < 2 ^ 32
    → rp q.state ≢ max_index n
    → wp q.state < 2 ^ 16 - 1
    → (wp (inc_rp n q q.state).1.state ≡ wp q.state + 1)
      × (rp (inc_rp n q q.state).1.state ≡ rp q.state)
unfolding inc_rp step_word
inc_rp_moves_wp n q w r i =
    let x = q.state in
    let plain : step_word n x (rp x) ≡ fetch_add x 1 =
      ap (λ (b : Bool). if b then fetch_sub x (max_index n) else fetch_add x 1) (eqb-false _ _ r) in
    (omega (arith, plain), omega (arith, plain))

-- In the second queue the step that is commented as moving the write position moves the read
-- position, and the other way around, for a word whose positions are below their last index.
pub multi_steps_swapped :
    (word : ℕ)
    → word < 2 ^ 32
    → wp word < max_count - 1
    → rp word < max_count - 1
    → ((rp (multi_push_word word) ≡ rp word + 1) × (wp (multi_push_word word) ≡ wp word))
      × ((wp (multi_consume_word word) ≡ wp word + 1) × (rp (multi_consume_word word) ≡ rp word))
unfolding multi_push_word multi_consume_word
multi_steps_swapped word w i r =
    let plain : multi_consume_word word ≡ fetch_add word 1 =
      ap (λ (b : Bool). if b then fetch_sub word (max_count - 1) else fetch_add word 1)
        (eqb-false _ _ (λ e. omega (arith, e))) in
    ((omega arith, omega arith), (omega (arith, plain), omega (arith, plain)))
