-- ===== src/Chain/Threads/Locking.antt =====
-- The mutex of `chain_impl`: the thread that holds it is the one inside the locked parts.
use srpg.Base.{
  ℕ, ◌==◌, ◌≡◌, sym, subst, ◌≢◌, Bool, true, false, Option, none, some, arith, ℕ_discrete, ◌∙◌,
  List, refl, ap,
}
use srpg.Chain.{update, Handler}
use srpg.Chain.Store.{update-same, update-other}
use srpg.Chain.Threads.{
  Shared, Pc, tracking, testing, swapping, swapped, leaving, System, Step, begin, move, Reach,
  start, later, Start, complete, run, Move, lock_complete, track, return_early, satisfied, lock_run,
  swap, unlock, call, relock, leave,
}
use mathlib.Core.Option.{some-injective}

-- Between a lock and the next unlock.
abbrev pub holds : Pc → Bool
holds tracking = true
holds testing = true
holds swapping = true
holds (swapped _) = true
holds leaving = true
holds _ = false

abbrev pub owns : Option ℕ → ℕ → Bool
owns none j = false
owns (some i) j = j == i

pub owns-some : (o : Option ℕ) (i : ℕ) → owns o i ≡ true → o ≡ some i
owns-some none i h = absurd (cc)
owns-some (some k) i h = ground (arith, h)

abbrev pub Owner : Option ℕ → (ℕ → Pc) → Type 0
Owner o pc = (j : ℕ) → holds (pc j) ≡ owns o j

module _ (pc : ℕ → Pc) (i : ℕ) where
  pub update-all :
      (P : ℕ → Pc → Type 0) (p : Pc)
      → P i p
      → ((j : ℕ) → j ≢ i → P j (pc j))
      → (j : ℕ) → P j (update pc i p j)
  update-all P p h rest j = elim (ℕ_discrete j i) [
    | yes e ↦ subst (λ k. P k (update pc i p k)) (sym e) (subst (P i) (sym (update-same pc i p)) h)
    | no ne ↦ subst (P j) (sym (update-other pc i p j ne)) (rest j ne)
  ]

  -- The other threads see no lock of theirs come or go.
  module _ (o : Option ℕ) {p : Pc} (p' : Pc) (here : pc i ≡ p) (inv : Owner o pc) where
    same : holds p' ≡ holds p → Owner o (update pc i p')
    same h =
        update-all (λ j q. holds q ≡ owns o j) p' (h ∙ sym (ap holds here) ∙ inv i) (λ j ne. inv j)

    locks : o ≡ none → holds p' ≡ true → Owner (some i) (update pc i p')
    locks free h =
        update-all (λ j q. holds q ≡ owns (some i) j) p' (ground (arith, h))
          (λ j ne. ground (arith, inv j, free, ne))

    unlocks : holds p ≡ true → holds p' ≡ false → Owner none (update pc i p')
    unlocks had h =
        let mine = owns-some o i (sym (inv i) ∙ ap holds here ∙ had) in
        update-all (λ j q. holds q ≡ owns none j) p' h (λ j ne. ground (arith, inv j, mine, ne))

  pub Move-Owner :
      {m m' : Shared} {p p' : Pc}
      → pc i ≡ p
      → Owner m.mutex pc
      → Move i m p m' p'
      → Owner m'.mutex (update pc i p')
  Move-Owner here inv (lock_complete free) = locks _ _ here inv free refl
  Move-Owner here inv track = same _ _ here inv refl
  Move-Owner here inv (return_early _) = same _ _ here inv refl
  Move-Owner here inv (satisfied _) = same _ _ here inv refl
  Move-Owner here inv (lock_run free) = locks _ _ here inv free refl
  Move-Owner here inv swap = same _ _ here inv refl
  Move-Owner here inv unlock = unlocks _ _ here inv refl refl
  Move-Owner here inv call = same _ _ here inv refl
  Move-Owner here inv (relock free) = locks _ _ here inv free refl
  Move-Owner here inv leave = unlocks _ _ here inv refl refl

  pub Start-Owner :
      (m : Shared) {p p' : Pc}
      → pc i ≡ p
      → Owner m.mutex pc
      → Start p p'
      → Owner m.mutex (update pc i p')
  Start-Owner m here inv complete = same _ _ here inv refl
  Start-Owner m here inv run = same _ _ here inv refl

Step-Owner : {n : ℕ} {s t : System} → Step n s t → Owner s.mem.mutex s.pc → Owner t.mem.mutex t.pc
Step-Owner {s = s} (begin i lt st) inv = Start-Owner s.pc i s.mem refl inv st
Step-Owner {s = s} (move i lt mv) inv = Move-Owner s.pc i refl inv mv

pub Reach-Owner :
    {n required : ℕ} {hs : List Handler} {s : System}
    → Reach n required hs s
    → Owner s.mem.mutex s.pc
Reach-Owner start = λ j. refl
Reach-Owner (later r st) = Step-Owner st (Reach-Owner r)

-- Two threads are never inside the locked parts together, and the mutex is that of the thread which is.
pub mutual_exclusion :
    {n required : ℕ} {hs : List Handler} {s : System} (i j : ℕ)
    → Reach n required hs s
    → holds (s.pc i) ≡ true
    → holds (s.pc j) ≡ true
    → (i ≡ j) × (s.mem.mutex ≡ some i)
mutual_exclusion {s = s} i j r hi hj =
    let inv = Reach-Owner r in
    let mine = owns-some s.mem.mutex i (sym (inv i) ∙ hi) in
    let other = owns-some s.mem.mutex j (sym (inv j) ∙ hj) in
    (some-injective i j (sym mine ∙ other), mine)
