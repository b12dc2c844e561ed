-- ===== src/Chain/Counting.antt =====
-- `all` and `any`: a link that waits for a number of completions.
use srpg.Base.{
  ℕ, zero, suc, ap, ◌<◌, ◌≡◌, some, ◌-◌, arith, ◌++◌, map, ◌∙◌, [], refl, Option, List, ◌≢◌, sym,
  ◌∷◌, append-nil, append_assoc, length, ◌≤◌,
}
use srpg.Chain.{
  World, impl_complete, ChainImpl, wrap_and_post_all, wrap_and_post, impl_post, impl_wrap, Handler,
  chained_handler, any, all, link, impl_make, Chain,
}
use srpg.Chain.Store.{complete-waits, update-same, tracked, complete-fires, run-posts, update-other}

-- `complete()` of an implementation, again and again.
pub complete_times : ℕ → World → ℕ → World
complete_times zero w i = w
complete_times (suc k) w i = impl_complete (complete_times k w i) i

abbrev fewer : ChainImpl → ℕ → ChainImpl
fewer m n = record m { required = n }

module _ (w : World) (i : ℕ) where
  pub complete_times-waits :
      (k : ℕ)
      → k < (w.impls i).required
      → ((complete_times k w i).posted ≡ w.posted)
        × ((complete_times k w i).executors ≡ w.executors)
        × ((complete_times k w i).impls i
            ≡ record (w.impls i) { required = (w.impls i).required - k })
  unfolding complete_times
  complete_times-waits zero h = (refl, refl, ap (fewer (w.impls i)) (omega arith))
  complete_times-waits (suc k) h =
      let (p, e, v) = complete_times-waits k (omega arith) in
      let w' = complete_times k w i in
      let step = complete-waits w' i (omega (arith, ap (λ m. m.required) v)) in
      (
        ap (λ u. u.posted) step ∙ p,
        ap (λ u. u.executors) step ∙ e,
        ap (λ u. u.impls i) step
            ∙ update-same w'.impls i _
            ∙ ap (λ (m : ChainImpl). fewer m (m.required - 1)) v
            ∙ ap (fewer (w.impls i)) (omega arith),
      )

  -- A link that requires some completions posts nothing before the last of them, and then posts all
  -- that is deferred, in order, to the `io_service` of its executor, and defers nothing any more.
  pub complete_times-fires :
      (ios k : ℕ)
      → w.executors (w.impls i).executor_ref ≡ some ios
      → (w.impls i).required ≡ suc k
      → ((complete_times (suc k) w i).posted
          ≡ w.posted ++ map (λ h. (ios, h)) (w.impls i).deferred_handlers)
        × (((complete_times (suc k) w i).impls i).deferred_handlers ≡ [])
        × ((j : ℕ) → j ≤ k → (complete_times j w i).posted ≡ w.posted)
  unfolding complete_times
  complete_times-fires ios k e r =
      let (p, x, v) = complete_times-waits k (omega (arith, r)) in
      let w' = complete_times k w i in
      let last = tracked w' i in
      let mine : last.impls i ≡ fewer (w.impls i) ((w.impls i).required - k - 1) =
        update-same w'.impls i _ ∙ ap (λ (m : ChainImpl). fewer m (m.required - 1)) v in
      let there : last.executors (last.impls i).executor_ref ≡ some ios =
        ap (λ (m : ChainImpl). w'.executors m.executor_ref) mine
        ∙ ap (λ (f : ℕ → Option ℕ). f (w.impls i).executor_ref) x
        ∙ e in
      let fired =
        complete-fires w' i (omega (arith, r, ap (λ m. m.required) v))
        ∙ run-posts last i ios there in
      (
        ap (λ u. u.posted) fired
            ∙ ap (λ (m : ChainImpl). w'.posted ++ map (λ h. (ios, h)) m.deferred_handlers) mine
            ∙ ap
                (λ (q : List (ℕ × Handler)). q ++ map (λ h. (ios, h)) (w.impls i).deferred_handlers)
                p,
        ap (λ u. (u.impls i).deferred_handlers) fired
            ∙ ap (λ (m : ChainImpl). m.deferred_handlers) (update-same last.impls i _),
        λ j q. (complete_times-waits j (omega (arith, r))).0,
      )

pub wrap_and_post_all-deferred :
    (w : World) (current next : ℕ) (hs : List Handler)
    → ((wrap_and_post_all w current next hs).impls current).deferred_handlers
      ≡ (w.impls current).deferred_handlers ++ map (λ h. chained_handler h next) hs
unfolding wrap_and_post_all wrap_and_post impl_post impl_wrap
wrap_and_post_all-deferred w current next [] = sym (append-nil (w.impls current).deferred_handlers)
wrap_and_post_all-deferred w current next (h ∷ hs) =
    let w' = impl_post w current (chained_handler h next) in
    wrap_and_post_all-deferred w' current next hs
    ∙ ap (λ (m : ChainImpl). m.deferred_handlers ++ map (λ h'. chained_handler h' next) hs)
        (update-same w.impls current _)
    ∙ append_assoc (w.impls current).deferred_handlers (chained_handler h next ∷ [])
        (map (λ h'. chained_handler h' next) hs)

pub wrap_and_post_all-other :
    (w : World) (current next : ℕ) (hs : List Handler) (j : ℕ)
    → j ≢ current
    → (wrap_and_post_all w current next hs).impls j ≡ w.impls j
unfolding wrap_and_post_all wrap_and_post impl_post
wrap_and_post_all-other w current next [] j n = refl
wrap_and_post_all-other w current next (h ∷ hs) j n =
    wrap_and_post_all-other (impl_post w current (chained_handler h next)) current next hs j n
    ∙ update-other w.impls current _ j n

-- `any` with a number of completions, and `all`, where it is the number of handlers, make a link
-- that requires this number, has the executor of the root and defers nothing, and each handler is
-- added, in order, to what the chain defers, wrapped so that it counts for the new link. Nothing is
-- posted.
pub any_lem :
    (c : Chain) (w : World) (hs : List Handler) (required : ℕ)
    → c.impl < w.next_impl
    → (((any c w hs required).1.impls c.impl).deferred_handlers
        ≡ (w.impls c.impl).deferred_handlers
          ++ map (λ h. chained_handler h (any c w hs required).0.impl) hs)
      × ((any c w hs required).1.impls (any c w hs required).0.impl ≡ record {
        executor_ref = (w.impls c.root_impl).executor_ref;
        required = required;
        deferred_handlers = [];
      })
      × (all c w hs ≡ any c w hs (length hs))
unfolding any all link impl_make
any_lem c w hs required h =
    let made = link w c.root_impl required in
    (
      wrap_and_post_all-deferred made.1 c.impl made.0.impl hs
          ∙ ap
              (λ (m : ChainImpl).
                m.deferred_handlers ++ map (λ h'. chained_handler h' w.next_impl) hs)
              (update-other w.impls w.next_impl _ c.impl (λ e. omega (arith, e))),
      wrap_and_post_all-other made.1 c.impl made.0.impl hs made.0.impl (λ e. omega (arith, e))
          ∙ update-same w.impls w.next_impl _,
      refl,
    )
