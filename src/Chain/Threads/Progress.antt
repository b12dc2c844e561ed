-- ===== src/Chain/Threads/Progress.antt =====
-- The calls of `complete` and `run()` return: the threads never lock each other out.
use srpg.Base.{
  ℕ, dec_lt, length, zero, suc, ◌+◌, ◌≤◌, ◌<◌, ◌≡◌, refl, sym, ap, ◌≢◌, ◌⊎◌, inl, inr, true, none,
  [], ◌∷◌, arith, ℕ_discrete,
}
use srpg.Chain.{update}
use srpg.Chain.Store.{update-same, update-other}
use srpg.Chain.Threads.Locking.{holds}
use srpg.Chain.Threads.{
  Shared, Pc, idle, entering, tracking, testing, forcing, swapping, swapped, calling, leaving,
  System, Move, lock_complete, track, return_early, satisfied, lock_run, swap, unlock, call, relock,
  leave,
}

-- The steps that a thread has before it, but for the handlers that are still deferred.
abbrev pub left : Pc → ℕ
left idle = 0
left leaving = 1
left (calling hs) = 2 + length hs
left (swapped hs) = 3 + length hs
left swapping = 4
left testing = 5
left tracking = 6
left entering = 7
left forcing = 5

pub total : ℕ → (ℕ → Pc) → ℕ
total zero pc = 0
total (suc n) pc = total n pc + left (pc n)

abbrev pub work : ℕ → System → ℕ
work n s = total n s.pc + length s.mem.deferred_handlers

total-above : (n : ℕ) (pc : ℕ → Pc) (i : ℕ) (p : Pc) → n ≤ i → total n (update pc i p) ≡ total n pc
unfolding total
total-above zero pc i p h = refl
total-above (suc n) pc i p h =
    let rest = total-above n pc i p (omega (arith, h)) in
    omega (arith, rest, ap left (update-other pc i p n (omega (arith, h))))

pub total-update :
    (n : ℕ) (pc : ℕ → Pc) (i : ℕ) (p : Pc)
    → i < n
    → total n (update pc i p) + left (pc i) ≡ total n pc + left p
unfolding total
total-update zero pc i p h = absurd (omega (arith, h))
total-update (suc n) pc i p h = elim (ℕ_discrete i n) [
  | yes e ↦
      let rest = total-above n pc i p (omega (arith, e)) in
      omega (
        arith,
        rest,
        ap left (sym (update-same pc i p)),
        ap (λ k. left (update pc i p k)) e,
        ap (λ k. left (pc k)) e,
      )
  | no ne ↦
      let rest = total-update n pc i p (omega (arith, h, ne)) in
      omega (arith, rest, ap left (update-other pc i p n (λ q. ne (sym q))))
]

-- A step inside a call is work done.
pub Move-left :
    {i : ℕ} {m m' : Shared} {p p' : Pc}
    → Move i m p m' p'
    → left p' + length m'.deferred_handlers < left p + length m.deferred_handlers
Move-left (lock_complete _) = omega arith
Move-left track = omega arith
Move-left (return_early _) = omega arith
Move-left (satisfied _) = omega arith
Move-left (lock_run _) = omega arith
Move-left swap = omega arith
Move-left unlock = omega arith
Move-left call = omega arith
Move-left (relock _) = omega arith
Move-left leave = omega arith

-- A thread in the locked parts, or one that waits for a mutex that is free, has a step.
pub can_move :
    (i : ℕ) (m : Shared) (p : Pc)
    → p ≢ idle
    → (holds p ≡ true) ⊎ (m.mutex ≡ none)
    → (m' : Shared) × (p' : Pc) × Move i m p m' p'
can_move i m idle n h = absurd (n refl)
can_move i m entering n (inl q) = absurd cc
can_move i m entering n (inr q) = (_, _, lock_complete q)
can_move i m tracking n h = (_, _, track)
can_move i m testing n h = elim (dec_lt 0 m.required) [
  | yes more ↦ (m, leaving, return_early more)
  | no none_left ↦ (m, swapping, satisfied (omega (arith, none_left)))
]
can_move i m forcing n (inl q) = absurd cc
can_move i m forcing n (inr q) = (_, _, lock_run q)
can_move i m swapping n h = (_, _, swap)
can_move i m (swapped hs) n h = (_, _, unlock)
can_move i m (calling []) n (inl q) = absurd cc
can_move i m (calling []) n (inr q) = (_, _, relock q)
can_move i m (calling (h' ∷ hs)) n h = (_, _, call)
can_move i m leaving n h = (_, _, leave)
