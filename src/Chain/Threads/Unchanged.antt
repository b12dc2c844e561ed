-- ===== src/Chain/Threads/Unchanged.antt =====
-- Steps of a thread that neither swap the deferred handlers out nor call one.
use srpg.Base.{ℕ, ◌≡◌, refl, sym, ap, ◌∙◌, ◌⊎◌, inl, inr, true, List, ◌++◌, ℕ_discrete, [], ◌≢◌}
use srpg.Chain.{update, Handler}
use mathlib.Core.Option.{some-injective}
use srpg.Chain.Store.{update-same, update-other}
use srpg.Chain.Threads.Locking.{owns-some, Owner, update-all, holds}
use srpg.Chain.Threads.Taking.{fresh, taken, Phase, Due, claims, claims-holds, held}
use srpg.Chain.Threads.{Shared, Pc}

module _ (r : ℕ) (hs : List Handler) (m : Shared) (pc : ℕ → Pc) (i : ℕ) {p : Pc} (p' : Pc)
    (here : pc i ≡ p) where
  -- A thread that calls no handler, and takes none, keeps what the others hold.
  held_kept : held p' ≡ held p → (j : ℕ) → held (update pc i p' j) ≡ held (pc j)
  held_kept h =
      update-all pc i (λ j q. held q ≡ held (pc j)) p' (h ∙ sym (ap held here)) (λ j ne. refl)

  -- What was taken stays taken.
  pub taken_kept :
      (m' : Shared) (k : ℕ)
      → m'.called ≡ m.called
      → m'.deferred_handlers ≡ []
      → held p' ≡ held p
      → m.called ++ held (pc k) ≡ hs
      → ((j : ℕ) → j ≢ k → held (pc j) ≡ [])
      → Due r m'
      → Phase r hs m' (update pc i p')
  taken_kept m' k c d h calls nothing due =
      taken k (ap (λ l. m'.called ++ l) (held_kept h k) ∙ ap (λ l. l ++ held (pc k)) c ∙ calls) d
        (λ j ne. held_kept h j ∙ nothing j ne) due

  -- What changes when neither the handlers nor those called do.
  pub Phase-kept :
      (m' : Shared)
      → m'.called ≡ m.called
      → m'.deferred_handlers ≡ m.deferred_handlers
      → held p' ≡ held p
      → (Due r m → Due r m')
      → (Due r m'
          → (Due r m
              × (m'.required ≡ m.required)
              × (claims m.required p ≡ true → claims m'.required p' ≡ true))
            ⊎ (claims m'.required p' ≡ true))
      → Phase r hs m pc
      → Phase r hs m' (update pc i p')
  Phase-kept m' c d h up down (fresh none_called all_there nothing claimed) =
      fresh (c ∙ none_called) (d ∙ all_there) (λ j. held_kept h j ∙ nothing j)
        (λ due. elim (down due) [
          | inl (before, e, moves) ↦
              let (k, owns) = claimed before in
              elim (ℕ_discrete k i) [
                | yes same ↦ (
                  i,
                  ap (claims m'.required) (update-same pc i p')
                      ∙ moves (sym (ap (claims m.required) (ap pc same ∙ here)) ∙ owns),
                )
                | no other ↦ (
                  k,
                  ap (claims m'.required) (update-other pc i p' k other)
                      ∙ ap (λ n. claims n (pc k)) e
                      ∙ owns,
                )
              ]
          | inr now ↦ (i, ap (claims m'.required) (update-same pc i p') ∙ now)
        ])
  Phase-kept m' c d h up down (taken k calls gone nothing due) =
      taken_kept m' k c (d ∙ gone) h calls nothing (up due)

  -- Inside a locked part that claims nothing, nothing is claimed.
  pub unclaimed :
      Owner m.mutex pc
      → holds p ≡ true
      → ¬ (claims m.required p ≡ true)
      → (k : ℕ) → ¬ (claims m.required (pc k) ≡ true)
  unclaimed owner inside not_here k q =
      let mine = owns-some m.mutex i (sym (owner i) ∙ ap holds here ∙ inside) in
      let its = owns-some m.mutex k (sym (owner k) ∙ claims-holds m.required (pc k) q) in
      let same : i ≡ k = some-injective i k (sym mine ∙ its) in
      not_here (sym (ap (claims m.required) (ap pc (sym same) ∙ here)) ∙ q)
