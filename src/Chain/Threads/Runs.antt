-- ===== src/Chain/Threads/Runs.antt =====
-- Two threads over one implementation.
use srpg.Base.{
  ℕ, ◌-◌, ◌≤◌, ◌<◌, ◌≡◌, refl, ◌≢◌, ◌⊎◌, none, some, List, [], ◌∷◌, ◌++◌, map, arith, ◌+◌,
}
use srpg.Chain.{update, Handler, World, task, impl_complete}
use srpg.Chain.Threads.{
  Shared, Pc, idle, entering, tracking, testing, forcing, System, moved, begin, move, Reach, start,
  later, complete, run, Move, lock_complete, track, init,
}
use srpg.Chain.Threads.Once.{nothing_early, called_in_order}
use srpg.Chain.Threads.Finish.{calls_finish, no_deadlock, Runs}
use srpg.Chain.Threads.Progress.{work}
use srpg.Chain.Threads.Taking.{held}
use srpg.Chain.Threads.Alone.{complete_alone, Walk}

abbrev two_tasks : List Handler
two_tasks = task 3 ∷ task 5 ∷ []

-- Thread 0 is in `complete` with the mutex, and thread 1 waits for it in `run()`.
abbrev waiting : ℕ → System
waiting required =
    moved
      (moved (moved (init required two_tasks) 0 (init required two_tasks).mem entering) 1
        (init required two_tasks).mem forcing)
      0 (record (init required two_tasks).mem { mutex = some 0 }) tracking

waiting-reached : (required : ℕ) → Reach 2 required two_tasks (waiting required)
unfolding update
waiting-reached required =
    later (later (later start (begin 0 (omega arith) complete)) (begin 1 (omega arith) run))
      (move 0 (omega arith) (lock_complete refl))

-- Thread 0 updated `_required`.
abbrev counted_one : ℕ → System
counted_one required =
    moved (waiting required) 0
      (record (waiting required).mem { required = required - 1; tracked = 1 }) testing

counted_one-reached : (required : ℕ) → Reach 2 required two_tasks (counted_one required)
unfolding update
counted_one-reached required = later (waiting-reached required) (move 0 (omega arith) track)

nothing_early_example :
    ((counted_one 2).mem.called ≡ []) × ((counted_one 2).mem.deferred_handlers ≡ two_tasks)
nothing_early_example = nothing_early (counted_one-reached 2) refl (omega arith)

called_in_order_example :
    (((counted_one 1).mem.called ≡ []) × ((counted_one 1).mem.deferred_handlers ≡ two_tasks))
    ⊎ ((i : ℕ) × ((counted_one 1).mem.called ++ held ((counted_one 1).pc i) ≡ two_tasks)
        × ((counted_one 1).mem.deferred_handlers ≡ [])
        × ((j : ℕ) → j ≢ i → held ((counted_one 1).pc j) ≡ []))
called_in_order_example = called_in_order (counted_one-reached 1)

calls_finish_example :
    ((k : ℕ) (t : System) → Runs 2 (counted_one 1) k t → k ≤ work 2 (counted_one 1))
    × (k : ℕ) × (t : System) × Runs 2 (counted_one 1) k t
    × ((i : ℕ) → t.pc i ≡ idle)
    × (((t.mem.called ≡ two_tasks) × (t.mem.deferred_handlers ≡ []))
        ⊎ ((t.mem.called ≡ [])
            × (t.mem.deferred_handlers ≡ two_tasks)
            × ((counted_one 1).mem.forced + ((counted_one 1).mem.tracked - (1 - 1)) ≡ 0)
            × (t.mem.forced + (t.mem.tracked - (1 - 1)) ≡ 0)))
calls_finish_example = calls_finish (counted_one 1) (counted_one-reached 1)

no_deadlock_example :
    (j : ℕ) × (m : Shared) × (p : Pc) × (j < 2) × Move j (waiting 2).mem ((waiting 2).pc j) m p
unfolding update
no_deadlock_example = no_deadlock 1 (waiting-reached 2) (omega arith) (λ e. absurd cc)

abbrev one_link : World
one_link = record {
  impls = λ i. record { executor_ref = 0; required = 1; deferred_handlers = two_tasks };
  next_impl = 1;
  executors = λ e. some 7;
  next_executor = 1;
  posted = [];
  null_posted = [];
  log = [];
}

complete_alone_example :
    (m : Shared) × Walk 1 0 (init 1 two_tasks) m idle
    × (m.mutex ≡ none)
    × (((impl_complete one_link 0).impls 0).required ≡ m.required)
    × (((impl_complete one_link 0).impls 0).deferred_handlers ≡ m.deferred_handlers)
    × (new : List Handler) × (m.called ≡ [] ++ new)
    × ((impl_complete one_link 0).posted ≡ [] ++ map (λ h. (7, h)) new)
complete_alone_example = complete_alone (omega arith) one_link 0 7 refl refl refl refl refl
