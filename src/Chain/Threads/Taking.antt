-- ===== src/Chain/Threads/Taking.antt =====
-- Who swapped out the deferred handlers: an invariant of the threads, kept by every step.
use srpg.Base.{
  ℕ, zero, suc, ◌+◌, ◌-◌, ◌≤◌, ◌<◌, ◌≡◌, refl, ◌≢◌, Bool, true, false, List, [], ◌++◌, arith,
}
use srpg.Chain.{Handler}
use srpg.Chain.Threads.{
  Shared, Pc, idle, entering, tracking, testing, forcing, swapping, swapped, calling, leaving,
}
use srpg.Chain.Threads.Locking.{Owner, holds}

-- The handlers that a thread has still to call.
abbrev pub held : Pc → List Handler
held (swapped hs) = hs
held (calling hs) = hs
held _ = []

-- About to swap, given `_required`.
abbrev pub claims : ℕ → Pc → Bool
claims _ swapping = true
claims zero testing = true
claims _ _ = false

-- `run()` was called, or `complete` was, as often as it is required and once at least.
abbrev pub Due : ℕ → Shared → Type 0
Due required m = 0 < m.forced + (m.tracked - (required - 1))

-- What a thread knows where it stands.
abbrev pub At : ℕ → Shared → Pc → Type 0
At required m testing = 0 < m.tracked
At required m swapping = Due required m
At required m _ = Unit

pub data Phase (required : ℕ) (hs : List Handler) (m : Shared) (pc : ℕ → Pc) : Type 0 where
  fresh :
      m.called ≡ []
      → m.deferred_handlers ≡ hs
      → ((j : ℕ) → held (pc j) ≡ [])
      → (Due required m → (c : ℕ) × (claims m.required (pc c) ≡ true))
      → Phase required hs m pc
  taken :
      (i : ℕ)
      → m.called ++ held (pc i) ≡ hs
      → m.deferred_handlers ≡ []
      → ((j : ℕ) → j ≢ i → held (pc j) ≡ [])
      → Due required m
      → Phase required hs m pc

pub record Inv (required : ℕ) (hs : List Handler) (m : Shared) (pc : ℕ → Pc) : Type 0 where
  pub owner : Owner m.mutex pc
  pub counted : m.required ≡ required - m.tracked
  pub at : (j : ℕ) → At required m (pc j)
  pub phase : Phase required hs m pc

pub claims-holds : (r : ℕ) (p : Pc) → claims r p ≡ true → holds p ≡ true
claims-holds r swapping h = refl
claims-holds zero testing h = refl
claims-holds (suc r) testing h = absurd cc
claims-holds r idle h = absurd cc
claims-holds r entering h = absurd cc
claims-holds r tracking h = absurd cc
claims-holds r forcing h = absurd cc
claims-holds r (swapped hs) h = absurd cc
claims-holds r (calling hs) h = absurd cc
claims-holds r leaving h = absurd cc

pub At-mono :
    (r : ℕ) (m m' : Shared) (p : Pc)
    → m.tracked ≤ m'.tracked
    → m.forced ≤ m'.forced
    → At r m p
    → At r m' p
At-mono r m m' testing t f a = omega (arith, a)
At-mono r m m' swapping t f a = omega (arith, a)
At-mono r m m' idle t f a = tt
At-mono r m m' entering t f a = tt
At-mono r m m' tracking t f a = tt
At-mono r m m' forcing t f a = tt
At-mono r m m' (swapped hs) t f a = tt
At-mono r m m' (calling hs) t f a = tt
At-mono r m m' leaving t f a = tt
