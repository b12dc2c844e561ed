-- ===== src/Chain/Threads.antt =====
-- common/rrpc/async_ops.hpp, `chain_impl`: threads that call `complete` and `run` of one
-- implementation at the same time.
-- A step is an access under the mutex, a lock or an unlock, or the call of one handler, and any
-- thread may take the next one. `post` takes no lock, and its handlers are the deferred ones at the
-- start: it is not among the steps. A handler that is called goes to the executor.
pub mod Locking
pub mod Taking
pub mod Unchanged
pub mod Kept
pub mod Once
pub mod Progress
pub mod Finish
pub mod Alone
mod Runs
use srpg.Base.{ℕ, ◌+◌, ◌-◌, ◌<◌, ◌≡◌, Option, none, some, List, [], ◌∷◌, ◌++◌}
use srpg.Chain.{Handler, update}

-- Where a thread stands, with the handlers that it swapped out.
pub data Pc : Type 0 where
  idle : Pc  -- outside
  entering : Pc  -- start of `complete`
  tracking : Pc  -- before `--_required`
  testing : Pc  -- before the second test of `_required`
  forcing : Pc  -- start of `run()`
  swapping : Pc  -- start of `run(guard)`
  swapped : List Handler → Pc  -- before `guard.unlock()`
  calling : List Handler → Pc  -- in the loop, and before `guard.lock()` when nothing is left
  leaving : Pc  -- before the destructor of `guard`

-- `_mutex` is the thread that holds it. What was called is kept in order; the last two fields count
-- the updates of `_required` and the calls of `run()`, for the statements only.
pub record Shared : Type 0 where
  pub required : ℕ
  pub deferred_handlers : List Handler
  pub mutex : Option ℕ
  pub called : List Handler
  pub tracked : ℕ
  pub forced : ℕ

-- A call begins.
pub data Start : Pc → Pc → Type 0 where
  complete : Start idle entering
  run : Start idle forcing

-- One step of thread `i` inside a call.
pub data Move (i : ℕ) (m : Shared) : Pc → Shared → Pc → Type 0 where
  lock_complete : m.mutex ≡ none → Move i m entering (record m { mutex = some i }) tracking
  track :
      Move i m tracking (record m { required = m.required - 1; tracked = m.tracked + 1 }) testing
  return_early : 0 < m.required → Move i m testing m leaving
  satisfied : m.required ≡ 0 → Move i m testing m swapping
  lock_run :
      m.mutex ≡ none
      → Move i m forcing (record m { mutex = some i; forced = m.forced + 1 }) swapping
  swap : Move i m swapping (record m { deferred_handlers = [] }) (swapped m.deferred_handlers)
  unlock : {hs : List Handler} → Move i m (swapped hs) (record m { mutex = none }) (calling hs)
  call :
      {h : Handler} {hs : List Handler}
      → Move i m (calling (h ∷ hs)) (record m { called = m.called ++ (h ∷ []) }) (calling hs)
  relock : m.mutex ≡ none → Move i m (calling []) (record m { mutex = some i }) leaving
  leave : Move i m leaving (record m { mutex = none }) idle

pub record System : Type 0 where
  pub mem : Shared
  pub pc : ℕ → Pc

abbrev pub moved : System → ℕ → Shared → Pc → System
moved s i m p = record { mem = m; pc = update s.pc i p }

-- A thread below `n` begins a call, or takes a step inside one.
pub data Step (n : ℕ) (s : System) : System → Type 0 where
  begin : (i : ℕ) {p : Pc} → i < n → Start (s.pc i) p → Step n s (moved s i s.mem p)
  move :
      (i : ℕ) {m : Shared} {p : Pc} → i < n → Move i s.mem (s.pc i) m p → Step n s (moved s i m p)

-- `chain_impl(executor, required)`, after `post` of each handler.
abbrev pub init : ℕ → List Handler → System
init required hs = record {
  mem = record {
    required = required;
    deferred_handlers = hs;
    mutex = none;
    called = [];
    tracked = 0;
    forced = 0;
  };
  pc = λ _. idle;
}

pub data Reach (n required : ℕ) (hs : List Handler) : System → Type 0 where
  start : Reach n required hs (init required hs)
  later : {s t : System} → Reach n required hs s → Step n s t → Reach n required hs t
