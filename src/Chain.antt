-- ===== src/Chain.antt =====
-- common/rrpc/async_ops.hpp: chains of asynchronous calls.
-- The shared objects are addresses in a store: the `chain_impl`s and the executors. An `io_service`
-- is outside, a pointer, with the handlers posted to it and not yet run. A destructor is the call of
-- `run` that it makes; when it is called is left to the caller. Each call is made as a whole here;
-- Threads has the steps of several threads, with the lock.
pub mod Store
pub mod Counting
pub mod Then
pub mod Sequence
pub mod Join
pub mod Posted
pub mod Joined
pub mod JoinOrder
pub mod Threads
mod Runs
use srpg.Base.{
  ℕ, [], List, Option, if◌then◌else◌, ◌+◌, ◌++◌, ◌-◌, ◌∷◌, suc, Bool, some, ◌==◌, ltb, length, none,
  some, zero, map, true, false,
}

-- A callable: a function of the program, by a number, `noop`, a `chained_handler` whose second
-- handler is `complete` of an implementation, and `run` of a chain, by its root.
pub data Handler : Type 0 where
  task : ℕ → Handler
  noop : Handler
  chained_handler : Handler → ℕ → Handler
  run_chain : ℕ → Handler

pub record ChainImpl : Type 0 where
  pub executor_ref : ℕ
  pub required : ℕ
  pub deferred_handlers : List Handler

pub record World : Type 0 where
  pub impls : ℕ → ChainImpl
  pub next_impl : ℕ
  -- The pointer of each executor; `none` is null.
  pub executors : ℕ → Option ℕ
  pub next_executor : ℕ
  -- The handlers posted to an `io_service`, and those posted through a null pointer, which is undefined.
  pub posted : List (ℕ × Handler)
  pub null_posted : List Handler
  -- The functions that ran.
  pub log : List ℕ

unfoldable pub update {ℓ} : {A : Type ℓ} → (ℕ → A) → ℕ → A → ℕ → A
update f i v j = if j == i then v else f j

-- `io_service_executor::post`, for each handler that `run` took.
pub post_handlers : World → ℕ → List Handler → World
post_handlers w e hs = elim (w.executors e) [
  | none ↦ record w { null_posted = w.null_posted ++ hs }
  | some ios ↦ record w { posted = w.posted ++ map (λ h. (ios, h)) hs }
]

-- `io_service_executor::io_service(ios)`
pub set_io_service : World → ℕ → Option ℕ → World
unfolding update
set_io_service w e ios = record w { executors = update w.executors e ios }

-- `make_shared<chain_impl>(executor, required)`
pub impl_make : World → ℕ → ℕ → ℕ × World
unfolding update
impl_make w e required = (
  w.next_impl,
  record w {
    impls =
        update w.impls w.next_impl
          (record { executor_ref = e; required = required; deferred_handlers = [] });
    next_impl = w.next_impl + 1;
  },
)

-- `post(h)`
pub impl_post : World → ℕ → Handler → World
unfolding update
impl_post w i h = record w {
  impls =
      update w.impls i
        (record (w.impls i) { deferred_handlers = (w.impls i).deferred_handlers ++ (h ∷ []) });
}

-- `wrap(h)`
pub impl_wrap : ℕ → Handler → Handler
impl_wrap i h = chained_handler h i

-- `run()`: the handlers are swapped out before they are posted.
pub impl_run : World → ℕ → World
unfolding update post_handlers
impl_run w i =
    let swapped : World = record w {
      impls = update w.impls i (record (w.impls i) { deferred_handlers = [] });
    } in
    post_handlers swapped (w.impls i).executor_ref (w.impls i).deferred_handlers

-- `complete()`
pub impl_complete : World → ℕ → World
unfolding update impl_run
impl_complete w i =
    let n = (w.impls i).required - 1 in
    let tracked : World = record w {
      impls = update w.impls i (record (w.impls i) { required = n });
    } in
    if ltb 0 n then tracked else impl_run tracked i

-- A handler is called.
pub invoke : World → Handler → World
unfolding impl_run impl_complete
invoke w (task n) = record w { log = w.log ++ (n ∷ []) }
invoke w noop = w
invoke w (chained_handler h i) = impl_complete (invoke w h) i
invoke w (run_chain i) = impl_run w i

-- One turn of the `io_service`: the first handler posted is called.
pub run_one : World → World
unfolding invoke
run_one w = elim w.posted [ [] ↦ w | p ∷ ps ↦ invoke (record w { posted = ps }) p.1 ]

pub run_many : ℕ → World → World
unfolding run_one
run_many zero w = w
run_many (suc n) w = run_many n (run_one w)

-- `chain`
pub record Chain : Type 0 where
  pub impl : ℕ
  pub root_impl : ℕ

-- `chain(io_service)`, and `none` for `chain(inherit_service)`.
pub new_chain : World → Option ℕ → Chain × World
unfolding impl_make
new_chain w ios =
    let e = w.next_executor in
    let w' : World = record w { executors = update w.executors e ios; next_executor = e + 1 } in
    let made = impl_make w' e 0 in (record { impl = made.0; root_impl = made.0 }, made.1)

-- `chain(root_impl, required)`: a link, with the executor of the root.
pub link : World → ℕ → ℕ → Chain × World
unfolding impl_make
link w root required =
    let made = impl_make w (w.impls root).executor_ref required in
    (record { impl = made.0; root_impl = root }, made.1)

-- `wrap_and_post(current, next)(h)`
pub wrap_and_post : World → ℕ → ℕ → Handler → World
unfolding impl_post impl_wrap
wrap_and_post w current next h = impl_post w current (impl_wrap next h)

-- `for_each(begin, end, wrap_and_post(current, next))`
pub wrap_and_post_all : World → ℕ → ℕ → List Handler → World
unfolding wrap_and_post
wrap_and_post_all w current next [] = w
wrap_and_post_all w current next (h ∷ hs) =
    wrap_and_post_all (wrap_and_post w current next h) current next hs

module _ (c : Chain) where
  -- `run()`
  pub run : World → World
  unfolding impl_run
  run w = impl_run w c.root_impl

  -- `any(required)` and `all(required)` of a number: a link that nothing is posted for.
  pub any_count : World → ℕ → Chain × World
  unfolding link
  any_count w required = link w c.root_impl required

  -- `wrap(h)`
  pub wrap : Handler → Handler
  unfolding impl_wrap
  wrap h = impl_wrap c.impl h

  -- `post(begin, end, required)`, which is `any(begin, end, required)`.
  pub any : World → List Handler → ℕ → Chain × World
  unfolding link wrap_and_post_all
  any w hs required =
      let next = link w c.root_impl required in
      (next.0, wrap_and_post_all next.1 c.impl next.0.impl hs)

  -- `all(container)`
  pub all : World → List Handler → Chain × World
  unfolding any
  all w hs = any w hs (length hs)

  -- `then(h)`
  pub then_ : World → Handler → Chain × World
  unfolding link wrap_and_post
  then_ w h = let next = link w c.root_impl 1 in (next.0, wrap_and_post next.1 c.impl next.0.impl h)

  -- `inherits_executor()`
  pub inherits_executor : World → Bool
  inherits_executor w = elim (w.executors (w.impls c.impl).executor_ref) [
    | none ↦ true
    | some ios ↦ false
  ]

  -- `executor(io_service)`
  pub executor : World → Option ℕ → World
  unfolding set_io_service
  executor w ios = set_io_service w (w.impls c.impl).executor_ref ios

-- `wrap_and_post(current, next)(c)`, for a whole chain.
pub wrap_and_post_chain : World → ℕ → ℕ → Chain → World
unfolding inherits_executor executor impl_post impl_wrap then_
wrap_and_post_chain w current next c =
    let own : World =
      if inherits_executor c w
      then executor c w (w.executors (w.impls current).executor_ref)
      else w in
    let started = impl_post own current (run_chain c.root_impl) in
    (then_ c started (impl_wrap next noop)).1

-- `async(io_service, h)`, `when_all(io_service, container)`, `when_any(io_service, container)`
pub async : World → ℕ → Handler → Chain × World
unfolding new_chain then_
async w ios h = let fresh = new_chain w (some ios) in then_ fresh.0 fresh.1 h

pub when_all : World → ℕ → List Handler → Chain × World
unfolding new_chain all
when_all w ios hs = let fresh = new_chain w (some ios) in all fresh.0 fresh.1 hs

pub when_any : World → ℕ → List Handler → Chain × World
unfolding new_chain any
when_any w ios hs = let fresh = new_chain w (some ios) in any fresh.0 fresh.1 hs 1
