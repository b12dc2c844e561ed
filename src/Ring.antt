-- ===== src/Ring.antt =====
-- common/rrpc/mpsc_queue.hpp: the ring of a queue with one atomic word for its two positions.
-- The word holds the write position in its low bits and the read position above it. The width of
-- an index is an undeclared name in the source; the second queue of the file has 16 bits, and so
-- has the model. A type of objects is a number.
pub mod Positions
mod Runs
use srpg.Base.{
  zero, suc, ℕ, none, some, [], Option, bit_and, ◌+◌, ◌%◌, ◌/◌, ◌^◌, if◌then◌else◌, Bool, ◌==◌, ◌-◌,
  List, false, suc, ltb, ◌∷◌,
}

-- `integer_type<bytes, false>`, by the largest value of the type, and nothing for other sizes.
pub integer_type : ℕ → Option ℕ
integer_type bytes =
    if bytes == 1
    then some 0xff
    else (if bytes == 2
        then some 0xffff
        else (if bytes == 4
            then some 0xffffffff
            else (if bytes == 8 then some 0xffffffffffffffff else none)))

-- `next_index<N>(v)`, and the one of the whole integer, which wraps.
pub next_index : ℕ → ℕ → ℕ
next_index n v = bit_and (v + 1) (2 ^ n - 1)

pub next_index_whole : ℕ → ℕ → ℕ
next_index_whole bits v = (v + 1) % 2 ^ bits

-- `state_type`
abbrev pub wp : ℕ → ℕ
wp word = word % 2 ^ 16

abbrev pub rp : ℕ → ℕ
rp word = word / 2 ^ 16 % 2 ^ 16

-- `fetch_add` and `fetch_sub` leave a word of 32 bits.
abbrev pub fetch_add : ℕ → ℕ → ℕ
fetch_add word v = (word + v) % 2 ^ 32

abbrev pub fetch_sub : ℕ → ℕ → ℕ
fetch_sub word v = (word + (2 ^ 32 - v)) % 2 ^ 32

pub record SpscQueue : Type 0 where
  pub state : ℕ
  pub data_ : ℕ → ℕ

-- `spsc_queue<T, 2 ^ n>`
module _ (n : ℕ) where
  abbrev pub max_index : ℕ
  max_index = 2 ^ n - 1

  -- The step of both positions: `x.wp == max_index ? fetch_sub(max_index) : fetch_add(1)`.
  pub step_word : ℕ → ℕ → ℕ
  step_word word position =
      if position == max_index then fetch_sub word max_index else fetch_add word 1

  -- `push(v)`: the result is the word before the step, as a `bool`.
  pub push : SpscQueue → ℕ → Bool × SpscQueue
  unfolding next_index step_word
  push q v =
      let x = q.state in
      if next_index n (wp x) == rp x then (false, q) else (
        ltb 0 x,
        record { state = step_word x (wp x); data_ = λ i. if i == wp x then v else q.data_ i },
      )

  -- `inc_rp(x)`: the word before the step, and the queue.
  pub inc_rp : SpscQueue → ℕ → ℕ × SpscQueue
  unfolding step_word
  inc_rp q x = (q.state, record q { state = step_word q.state (rp x) })

  -- `consume_thread(x, f)`, for at most `fuel` objects: the objects that `f` was called with. `f` says
  -- whether it delays, and then `after_consume` goes on later.
  pub consume_thread : ℕ → SpscQueue → ℕ → (ℕ → Bool) → List ℕ × SpscQueue
  unfolding inc_rp
  consume_thread zero q x f = ([], q)
  consume_thread (suc fuel) q x f =
      let value = q.data_ (rp x) in
      let stepped = inc_rp q x in
      let more = consume_thread fuel stepped.1 stepped.0 f in
      if f value
      then (value ∷ [], q)
      else (if rp stepped.0 == wp stepped.0
          then (value ∷ [], stepped.1)
          else (value ∷ more.0, more.1))

  pub after_consume : ℕ → SpscQueue → ℕ → (ℕ → Bool) → List ℕ × SpscQueue
  unfolding inc_rp consume_thread
  after_consume fuel q x f =
      let stepped = inc_rp q x in
      if rp stepped.0 == wp stepped.0
      then ([], stepped.1)
      else consume_thread fuel stepped.1 stepped.0 f

-- `mpsc_queue`: the positions are those of the same word.
abbrev pub max_count : ℕ
max_count = 2 ^ 10

-- The step of `mpsc_queue::push` that is commented as `++wp`.
pub multi_push_word : ℕ → ℕ
multi_push_word word = fetch_add word (2 ^ 16)

-- The step of `mpsc_queue::consume_thread` that is commented as adding to `rp`.
pub multi_consume_word : ℕ → ℕ
multi_consume_word word =
    if rp word == max_count - 1 then fetch_sub word (max_count - 1) else fetch_add word 1

pub record MpscQueue : Type 0 where
  pub word : ℕ
  pub bp : ℕ
  pub slots : ℕ → ℕ

-- `mpsc_queue::consume_thread(x)`, for at most `fuel` objects: those that are handled.
pub multi_consume_thread : ℕ → MpscQueue → ℕ → List ℕ × MpscQueue
unfolding multi_consume_word
multi_consume_thread zero q x = ([], q)
multi_consume_thread (suc fuel) q x =
    let v = q.slots (rp x) in
    let stepped : MpscQueue = record q { word = multi_consume_word q.word } in
    let more = multi_consume_thread fuel stepped q.word in
    if rp q.word == wp q.word then (v ∷ more.0, more.1) else (v ∷ [], stepped)

-- `mpsc_queue::push(v)` by one thread at a time, with the test for a full ring as a comparison where
-- the source has `=`; the objects handled, or `none` for a full ring.
pub multi_push : ℕ → MpscQueue → ℕ → Option (List ℕ × MpscQueue)
unfolding multi_push_word multi_consume_thread
multi_push fuel q v =
    let x = q.word in
    let stored : MpscQueue = record {
      word = multi_push_word x;
      bp = (q.bp + 1) % 2 ^ 16;
      slots = λ i. if i == wp x then v else q.slots i;
    } in
    if wp x + 1 == rp x
    then none
    else some (if wp x == rp x + 1 then multi_consume_thread fuel stored x else ([], stored))
