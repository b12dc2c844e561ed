-- ===== src/Chain/Then.antt =====
-- `then` of one function: the link it makes, and what it leaves as it was.
use srpg.Base.{sym, ℕ, ap, ◌≡◌, ◌∷◌, ◌<◌, [], ◌∙◌, arith, ◌++◌, ℕ_discrete, ◌≢◌}
use srpg.Chain.{
  ChainImpl, World, chained_handler, task, Chain, update, then_, link, impl_make, wrap_and_post,
  impl_post, impl_wrap,
}
use srpg.Chain.Store.{update-other, update-same}

module _ (c : Chain) (w : World) (t : ℕ) (h : c.impl < w.next_impl) where
  abbrev pub after : World
  after = (then_ c w (task t)).1

  pub then-here : after.impls c.impl ≡ record (w.impls c.impl) {
    deferred_handlers =
        (w.impls c.impl).deferred_handlers ++ (chained_handler (task t) w.next_impl ∷ []);
  }
  unfolding then_ link impl_make wrap_and_post impl_post impl_wrap
  then-here =
      update-same (update w.impls w.next_impl _) c.impl _
      ∙ ap
          (λ (m : ChainImpl). record m {
            deferred_handlers = m.deferred_handlers ++ (chained_handler (task t) w.next_impl ∷ []);
          })
          (update-other w.impls w.next_impl _ c.impl (λ e. omega (arith, e)))

  pub then-next : after.impls w.next_impl ≡ record {
    executor_ref = (w.impls c.root_impl).executor_ref;
    required = 1;
    deferred_handlers = [];
  }
  unfolding then_ link impl_make wrap_and_post impl_post impl_wrap
  then-next =
      update-other (update w.impls w.next_impl _) c.impl _ w.next_impl (λ e. omega (arith, e))
      ∙ update-same w.impls w.next_impl _

  pub then-other : (k : ℕ) → k ≢ c.impl → k < w.next_impl → after.impls k ≡ w.impls k
  unfolding then_ link impl_make wrap_and_post impl_post impl_wrap
  then-other k n q =
      update-other (update w.impls w.next_impl _) c.impl _ k n
      ∙ update-other w.impls w.next_impl _ k (λ e. omega (arith, e))

  pub then-executor :
      (k : ℕ) → k < w.next_impl → (after.impls k).executor_ref ≡ (w.impls k).executor_ref
  then-executor k q = elim (ℕ_discrete k c.impl) [
    | yes e ↦
        ap (λ i. (after.impls i).executor_ref) e
        ∙ ap (λ (m : ChainImpl). m.executor_ref) then-here
        ∙ ap (λ i. (w.impls i).executor_ref) (sym e)
    | no n ↦ ap (λ (m : ChainImpl). m.executor_ref) (then-other k n q)
  ]
