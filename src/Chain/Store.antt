-- ===== src/Chain/Store.antt =====
-- The implementations of a chain in the store.
use srpg.Base.{
  ltb-true, ltb-false, ℕ, ◌-◌, ◌≤◌, ◌<◌, ◌≡◌, ◌≢◌, some, [], ◌++◌, map, arith, ap, Bool,
  if◌then◌else◌, refl, ◌<◌, ◌≤◌,
}
use srpg.Chain.{update, World, impl_complete, impl_run, post_handlers}

module _ {ℓ} {A : Type ℓ} (f : ℕ → A) (i : ℕ) (v : A) where
  pub update-same : update f i v i ≡ v
  unfolding update
  update-same = ground arith

  pub update-other : (j : ℕ) → j ≢ i → update f i v j ≡ f j
  unfolding update
  update-other j h = ground (arith, h)

module _ (w : World) (i : ℕ) where
  -- The world after `--_required`.
  abbrev pub tracked : World
  tracked = record w {
    impls = update w.impls i (record (w.impls i) { required = (w.impls i).required - 1 });
  }

  -- The world after the deferred handlers were posted to `ios`.
  abbrev pub released : ℕ → World
  released ios = record w {
    impls = update w.impls i (record (w.impls i) { deferred_handlers = [] });
    posted = w.posted ++ map (λ h. (ios, h)) (w.impls i).deferred_handlers;
  }

  pub complete-waits : (1 < (w.impls i).required) → impl_complete w i ≡ tracked
  unfolding impl_complete
  complete-waits h =
      ap (λ (b : Bool). if b then tracked else impl_run tracked i) (ltb-true 0 _ (omega arith))

  pub complete-fires : ((w.impls i).required ≤ 1) → impl_complete w i ≡ impl_run tracked i
  unfolding impl_complete
  complete-fires h =
      ap (λ (b : Bool). if b then tracked else impl_run tracked i) (ltb-false 0 _ (omega arith))

  pub run-posts :
      (ios : ℕ) → w.executors (w.impls i).executor_ref ≡ some ios → impl_run w i ≡ released ios
  unfolding impl_run post_handlers
  run-posts ios e = rw (post_handlers, e) refl
