-- ===== src/Chain/Runs.antt =====
-- Chains of a few functions, in an empty world.
use srpg.Base.{none, some, [], List, ◌≡◌, ◌∷◌, refl, arith}
use srpg.Chain.{run, World, Chain, Handler, new_chain, run_many, chained_handler, task}
use srpg.Chain.Joined.{started}
use srpg.Chain.JoinOrder.{any-then_order}
use srpg.Chain.Sequence.{then_all, then_all-order}

abbrev empty : World
empty = record {
  impls = λ i. record { executor_ref = 0; required = 0; deferred_handlers = [] };
  next_impl = 0;
  executors = λ e. none;
  next_executor = 0;
  posted = [];
  null_posted = [];
  log = [];
}

abbrev fresh : Chain × World
fresh = new_chain empty (some 7)

then_all-order_example :
    (run_many 2 (run fresh.0 (then_all fresh.0 fresh.1 (3 ∷ 5 ∷ 8 ∷ [])).1)).log ≡ 3 ∷ 5 ∷ []
then_all-order_example = then_all-order empty 7 (3 ∷ 5 ∷ 8 ∷ []) 2 refl

-- A link that waits for two functions, with a third after it.
abbrev two_links : World
two_links = record empty {
  impls = λ i. record {
    executor_ref = 0;
    required = 2;
    deferred_handlers = chained_handler (task 9) 2 ∷ [];
  };
  executors = λ e. some 7;
}

abbrev one_chain : Chain
one_chain = record { impl = 0; root_impl = 0 }

abbrev one_link : World
one_link = record empty { next_impl = 1 }

abbrev two_tasks : List Handler
two_tasks = task 4 ∷ task 6 ∷ []

-- Three functions, of which two are waited for, after two turns.
any-then_order_example :
    ((run_many 2 (started empty 7 (3 ∷ 5 ∷ 8 ∷ []) 9 2)).log ≡ 3 ∷ 5 ∷ [])
    × ((run_many 2 (started empty 7 (3 ∷ 5 ∷ 8 ∷ []) 9 2)).posted
        ≡ (7, chained_handler (task 8) 1) ∷ (7, chained_handler (task 9) 2) ∷ [])
    × ((run_many 4 (started empty 7 (3 ∷ 5 ∷ 8 ∷ []) 9 2)).log ≡ 3 ∷ 5 ∷ 8 ∷ 9 ∷ [])
    × ((run_many 4 (started empty 7 (3 ∷ 5 ∷ 8 ∷ []) 9 2)).posted ≡ [])
any-then_order_example =
    any-then_order empty 7 (3 ∷ 5 ∷ 8 ∷ []) 9 2 2 refl (omega arith) (omega arith) (omega arith)
