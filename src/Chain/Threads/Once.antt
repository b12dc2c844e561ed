-- ===== src/Chain/Threads/Once.antt =====
-- When the deferred handlers of a `chain_impl` are called, whatever the order of the threads.
use srpg.Base.{
  ℕ, ◌+◌, ◌-◌, ◌<◌, ◌≡◌, sym, ap, ◌∙◌, ◌≢◌, ◌⊎◌, inl, inr, List, [], ◌++◌, append-nil, arith, false,
  true,
}
use srpg.Chain.{Handler}
use srpg.Chain.Threads.{idle, System, Reach}
use srpg.Chain.Threads.Taking.{fresh, taken, Due, claims, held}
use srpg.Chain.Threads.Kept.{Reach-Inv}

-- Whatever the order in which threads call `complete`, while they updated `_required` fewer times
-- than it was at the start, and nobody called `run()`, no handler was called and all are deferred.
pub nothing_early :
    {n required : ℕ} {hs : List Handler} {s : System}
    → Reach n required hs s
    → s.mem.forced ≡ 0
    → s.mem.tracked < required
    → (s.mem.called ≡ []) × (s.mem.deferred_handlers ≡ hs)
nothing_early {required = r} {s = s} reach unforced few = elim (Reach-Inv reach).phase [
  | fresh none_called all_there _ _ ↦ (none_called, all_there)
  | taken _ _ _ _ due ↦ absurd (omega (arith, due, unforced, few))
]

pub nothing_due :
    {n required : ℕ} {hs : List Handler} {s : System}
    → Reach n required hs s
    → s.mem.forced + (s.mem.tracked - (required - 1)) ≡ 0
    → (s.mem.called ≡ []) × (s.mem.deferred_handlers ≡ hs)
nothing_due reach early = elim (Reach-Inv reach).phase [
  | fresh none_called all_there _ _ ↦ (none_called, all_there)
  | taken _ _ _ _ due ↦ absurd (omega (arith, due, early))
]

-- Whatever the order in which threads call `complete` and `run()`, either nothing was called and all
-- the handlers are deferred, or none is deferred and one thread holds just those that are not yet
-- called: those called and those that it holds are, in order, the handlers of the start, and no
-- other thread holds any. So each is called once at most, in the order of `post`.
pub called_in_order :
    {n required : ℕ} {hs : List Handler} {s : System}
    → Reach n required hs s
    → ((s.mem.called ≡ []) × (s.mem.deferred_handlers ≡ hs))
      ⊎ ((i : ℕ) × (s.mem.called ++ held (s.pc i) ≡ hs)
          × (s.mem.deferred_handlers ≡ [])
          × ((j : ℕ) → j ≢ i → held (s.pc j) ≡ []))
called_in_order reach = elim (Reach-Inv reach).phase [
  | fresh none_called all_there _ _ ↦ inl (none_called, all_there)
  | taken i calls gone nothing _ ↦ inr (i, calls, gone, nothing)
]

-- Whatever the order of the threads, when they are all outside, and `run()` was called or `complete`
-- updated `_required` as often as it was at the start and once at least, then each handler was
-- called, in the order of `post` and once, and none is deferred any more.
pub all_called :
    {n required : ℕ} {hs : List Handler} {s : System}
    → Reach n required hs s
    → Due required s.mem
    → ((i : ℕ) → s.pc i ≡ idle)
    → (s.mem.called ≡ hs) × (s.mem.deferred_handlers ≡ [])
all_called {s = s} reach due quiet = elim (Reach-Inv reach).phase [
  | fresh _ _ _ claimed ↦
      let (c, q) = claimed due in
      let none_there : false ≡ true = ap (claims s.mem.required) (sym (quiet c)) ∙ q in absurd cc
  | taken i calls gone _ _ ↦ (
    sym (append-nil s.mem.called) ∙ ap (λ p. s.mem.called ++ held p) (sym (quiet i)) ∙ calls,
    gone,
  )
]
