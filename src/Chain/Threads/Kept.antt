-- ===== src/Chain/Threads/Kept.antt =====
-- Every step of a thread keeps the invariant of who swapped out the handlers.
use srpg.Base.{
  zero, suc, ℕ, ◌≡◌, refl, sym, ap, ◌∙◌, inl, inr, true, List, ◌++◌, ℕ_discrete, [], ◌-◌, ◌∷◌, ◌+◌,
  ◌≤◌, append_assoc, dec_lt, subst, arith, Option, ◌<◌, suc,
}
use srpg.Chain.{update, Handler}
use mathlib.Core.List.{cons-ne-nil}
use srpg.Chain.Store.{update-same, update-other}
use srpg.Chain.Threads.Locking.{Owner, Move-Owner, Start-Owner, update-all}
use srpg.Chain.Threads.Taking.{fresh, taken, Phase, Inv, Due, At, claims, At-mono, held}
use srpg.Chain.Threads.{
  Shared, Pc, idle, entering, tracking, testing, forcing, swapping, swapped, calling, leaving,
  System, begin, move, Reach, start, later, Start, complete, run, Move, lock_complete, track,
  return_early, satisfied, lock_run, swap, unlock, call, relock, leave,
}
use srpg.Chain.Threads.Unchanged.{Phase-kept, taken_kept, unclaimed}

claims-more : (n : ℕ) → 0 < n → claims n testing ≡ true → claims n leaving ≡ true
claims-more zero more q = absurd (omega (arith, more))
claims-more (suc n) more q = absurd cc

-- The counters never go back.
pub forward :
    {i : ℕ} {m m' : Shared} {p p' : Pc}
    → Move i m p m' p'
    → (m.tracked ≤ m'.tracked) × (m.forced ≤ m'.forced)
forward (lock_complete _) = (omega arith, omega arith)
forward track = (omega arith, omega arith)
forward (return_early _) = (omega arith, omega arith)
forward (satisfied _) = (omega arith, omega arith)
forward (lock_run _) = (omega arith, omega arith)
forward swap = (omega arith, omega arith)
forward unlock = (omega arith, omega arith)
forward call = (omega arith, omega arith)
forward (relock _) = (omega arith, omega arith)
forward leave = (omega arith, omega arith)

module _ (r : ℕ) (hs : List Handler) (m : Shared) (pc : ℕ → Pc) (i : ℕ) where
  -- `--_required`: the completion that is required last claims the handlers.
  Phase-track :
      pc i ≡ tracking
      → Owner m.mutex pc
      → m.required ≡ r - m.tracked
      → Phase r hs m pc
      → Phase r hs
          (record m { required = m.required - 1; tracked = m.tracked + 1 })
          (update pc i testing)
  Phase-track here owner counted (fresh none_called all_there nothing claimed) =
      let early : m.forced + (m.tracked - (r - 1)) ≤ 0 =
        elim (dec_lt 0 (m.forced + (m.tracked - (r - 1)))) [
          | yes due ↦ absurd (
              unclaimed r hs m pc i testing here owner refl (λ q. cc) (claimed due).0
                (claimed due).1)
          | no late ↦ omega (arith, late)
        ] in
      Phase-kept r hs m pc i testing here _ refl refl refl (λ due. omega (arith, due))
        (λ due. inr (ap (λ n. claims n testing) {y = 0} (omega (arith, due, early, counted))))
        (fresh none_called all_there nothing claimed)
  Phase-track here owner counted (taken k calls gone nothing due) =
      taken_kept r hs m pc i testing here _ k refl gone refl calls nothing (omega (arith, due))

  Phase-swap :
      pc i ≡ swapping
      → Due r m
      → Phase r hs m pc
      → Phase r hs (record m { deferred_handlers = [] }) (update pc i (swapped m.deferred_handlers))
  Phase-swap here due (fresh none_called all_there nothing claimed) =
      taken i
        (ap (λ l. l ++ held (update pc i (swapped m.deferred_handlers) i)) none_called
          ∙ ap held (update-same pc i _)
          ∙ all_there)
        refl (λ j ne. ap held (update-other pc i _ j ne) ∙ nothing j) due
  Phase-swap here due (taken k calls gone nothing _) =
      taken_kept r hs m pc i _ here _ k refl refl gone calls nothing due

  Phase-call :
      (h : Handler) (rest : List Handler)
      → pc i ≡ calling (h ∷ rest)
      → Phase r hs m pc
      → Phase r hs (record m { called = m.called ++ (h ∷ []) }) (update pc i (calling rest))
  Phase-call h rest here (fresh none_called all_there nothing claimed) =
      absurd (cons-ne-nil h rest (sym (ap held here) ∙ nothing i))
  Phase-call h rest here (taken k calls gone nothing due) = elim (ℕ_discrete i k) [
    | yes e ↦
        taken i
          (ap (λ p. (m.called ++ (h ∷ [])) ++ held p) (update-same pc i (calling rest))
            ∙ append_assoc m.called (h ∷ []) rest
            ∙ ap (λ p. m.called ++ held p) (sym here)
            ∙ subst (λ j. m.called ++ held (pc j) ≡ hs) (sym e) calls)
          gone
          (λ j ne.
            ap held (update-other pc i (calling rest) j ne) ∙ nothing j (λ q. ne (q ∙ sym e)))
          due
    | no ne ↦ absurd (cons-ne-nil h rest (sym (ap held here) ∙ nothing i ne))
  ]

  -- A lock, an unlock or a test.
  same_phase :
      (o : Option ℕ) {p : Pc} (p' : Pc)
      → pc i ≡ p
      → held p' ≡ held p
      → (claims m.required p ≡ true → claims m.required p' ≡ true)
      → Phase r hs m pc
      → Phase r hs (record m { mutex = o }) (update pc i p')
  same_phase o p' here h claim =
      Phase-kept r hs m pc i p' here _ refl refl h (λ due. due) (λ due. inl (due, refl, claim))

  -- Every step inside a call.
  pub Move-Phase :
      {m' : Shared} {p p' : Pc}
      → pc i ≡ p
      → Move i m p m' p'
      → Inv r hs m pc
      → Phase r hs m' (update pc i p')
  Move-Phase here (lock_complete _) inv = same_phase _ tracking here refl (λ q. cc) inv.phase
  Move-Phase here track inv = Phase-track here inv.owner inv.counted inv.phase
  Move-Phase here (return_early more) inv =
      same_phase _ leaving here refl (claims-more m.required more) inv.phase
  Move-Phase here (satisfied none_left) inv = same_phase _ swapping here refl (λ q. refl) inv.phase
  Move-Phase here (lock_run _) inv =
      Phase-kept r hs m pc i swapping here _ refl refl refl (λ due. omega (arith, due))
        (λ due. inr refl) inv.phase
  Move-Phase here swap inv = Phase-swap here (subst (At r m) here (inv.at i)) inv.phase
  Move-Phase here (unlock {hs = mine}) inv =
      same_phase _ (calling mine) here refl (λ q. cc) inv.phase
  Move-Phase here (call {h} {hs = mine}) inv = Phase-call h mine here inv.phase
  Move-Phase here (relock _) inv = same_phase _ leaving here refl (λ q. cc) inv.phase
  Move-Phase here leave inv = same_phase _ idle here refl (λ q. cc) inv.phase

  Move-counted :
      {m' : Shared} {p p' : Pc}
      → Move i m p m' p'
      → m.required ≡ r - m.tracked
      → m'.required ≡ r - m'.tracked
  Move-counted track e = omega (arith, e)
  Move-counted _ e = e

  -- What the thread that moved knows.
  knows : {m' : Shared} {p p' : Pc} → pc i ≡ p → Move i m p m' p' → Inv r hs m pc → At r m' p'
  knows here track inv = omega arith
  knows here (satisfied none_left) inv =
      omega (arith, subst (At r m) here (inv.at i), none_left, inv.counted)
  knows here (lock_run _) inv = omega arith
  knows here (lock_complete _) inv = tt
  knows here (return_early _) inv = tt
  knows here swap inv = tt
  knows here unlock inv = tt
  knows here call inv = tt
  knows here (relock _) inv = tt
  knows here leave inv = tt

  Move-At :
      {m' : Shared} {p p' : Pc}
      → pc i ≡ p
      → Move i m p m' p'
      → Inv r hs m pc
      → (j : ℕ) → At r m' (update pc i p' j)
  Move-At {m'} {p' = p'} here mv inv =
      update-all pc i (λ j. At r m') p' (knows here mv inv)
        (λ j ne. At-mono r m m' (pc j) (forward mv).0 (forward mv).1 (inv.at j))

  pub Move-Inv :
      {m' : Shared} {p p' : Pc}
      → pc i ≡ p
      → Move i m p m' p'
      → Inv r hs m pc
      → Inv r hs m' (update pc i p')
  Move-Inv here mv inv = record {
    owner = Move-Owner pc i here inv.owner mv;
    counted = Move-counted mv inv.counted;
    at = Move-At here mv inv;
    phase = Move-Phase here mv inv;
  }

  pub Start-Inv : {p p' : Pc} → pc i ≡ p → Start p p' → Inv r hs m pc → Inv r hs m (update pc i p')
  Start-Inv here complete inv = record {
    owner = Start-Owner pc i m here inv.owner complete;
    counted = inv.counted;
    at = update-all pc i (λ j. At r m) entering tt (λ j ne. inv.at j);
    phase = same_phase m.mutex entering here refl (λ q. cc) inv.phase;
  }
  Start-Inv here run inv = record {
    owner = Start-Owner pc i m here inv.owner run;
    counted = inv.counted;
    at = update-all pc i (λ j. At r m) forcing tt (λ j ne. inv.at j);
    phase = same_phase m.mutex forcing here refl (λ q. cc) inv.phase;
  }

pub Reach-Inv :
    {n required : ℕ} {hs : List Handler} {s : System}
    → Reach n required hs s
    → Inv required hs s.mem s.pc
Reach-Inv {required = r} {hs = hs} start = record {
  owner = λ j. refl;
  counted = omega arith;
  at = λ j. tt;
  phase = fresh refl refl (λ j. refl) (λ due. absurd (omega (arith, due)));
}
Reach-Inv {required = r} {hs = hs} (later {s = s} rest (begin i lt st)) =
    Start-Inv r hs s.mem s.pc i refl st (Reach-Inv rest)
Reach-Inv {required = r} {hs = hs} (later {s = s} rest (move i lt mv)) =
    Move-Inv r hs s.mem s.pc i refl mv (Reach-Inv rest)
