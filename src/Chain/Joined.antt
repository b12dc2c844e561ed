-- ===== src/Chain/Joined.antt =====
-- A new chain, a link that waits for some of several functions, and `then` after it.
use srpg.Base.{
  ℕ, ◌≡◌, refl, ap, ◌∙◌, List, [], ◌∷◌, map, some, ◌+◌, sym, arith, Option, ◌<◌, ◌++◌, subst,
  if◌then◌else◌, ltb-true, append-nil,
}
use srpg.Chain.{
  World, Chain, ChainImpl, Handler, task, chained_handler, wrap_and_post, impl_post, impl_wrap, any,
  link, then_, new_chain, impl_make, run, impl_run,
}
use srpg.Chain.Store.{update-other, update-same, released, run-posts}
use srpg.Chain.Counting.{any_lem}
use srpg.Chain.Then.{then-here, then-next, then-other}
use srpg.Chain.Join.{Joining}
use srpg.Chain.Posted.{Posted, wrap_and_post_all-Posted, map-posted, posted_functions}

module _ (w : World) (ios : ℕ) (ts : List ℕ) (t r : ℕ) where
  -- A new chain, a link that waits for `r` of the functions, and `then` of one more.
  abbrev pub joined : Chain × World
  joined =
      let fresh = new_chain w (some ios) in
      let waiting = any fresh.0 fresh.1 (map (λ x. task x) ts) r in
      then_ waiting.0 waiting.1 (task t)

  -- The chain is run.
  abbrev pub started : World
  started = run joined.0 joined.1

  root : ℕ
  root = w.next_impl

  abbrev waiting_link : Chain
  waiting_link =
      (any (new_chain w (some ios)).0 (new_chain w (some ios)).1 (map (λ x. task x) ts) r).0

  abbrev waiting_world : World
  waiting_world =
      (any (new_chain w (some ios)).0 (new_chain w (some ios)).1 (map (λ x. task x) ts) r).1

  -- The link, the root and the last link are three implementations of one executor.
  waiting-Posted : Posted (link (new_chain w (some ios)).1 w.next_impl r).1 waiting_world
  unfolding any new_chain impl_make link
  waiting-Posted = wrap_and_post_all-Posted _ w.next_impl (w.next_impl + 1) (map (λ x. task x) ts)

  joined-impls :
      (waiting_link.impl ≡ w.next_impl + 1)
      × (waiting_link.root_impl ≡ w.next_impl)
      × (waiting_world.next_impl ≡ w.next_impl + 2)
      × (joined.0.root_impl ≡ w.next_impl)
      × (joined.0.impl ≡ w.next_impl + 2)
  unfolding any new_chain impl_make link then_
  joined-impls = (
    refl,
    refl,
    waiting-Posted.same_next ∙ omega arith,
    refl,
    waiting-Posted.same_next ∙ omega arith,
  )

  abbrev e : ℕ
  e = w.next_executor

  fresh-root :
      (new_chain w (some ios)).1.impls w.next_impl
      ≡ record { executor_ref = e; required = 0; deferred_handlers = [] }
  unfolding new_chain impl_make
  fresh-root = update-same w.impls w.next_impl _

  waiting-link :
      waiting_world.impls (w.next_impl + 1)
      ≡ record { executor_ref = e; required = r; deferred_handlers = [] }
  unfolding any new_chain impl_make link
  waiting-link =
      (any_lem (new_chain w (some ios)).0 (new_chain w (some ios)).1 (map (λ x. task x) ts) r
        (omega arith)).1
      ∙ ap
          (λ (m : ChainImpl). record {
            executor_ref = m.executor_ref;
            required = r;
            deferred_handlers = [];
          })
          fresh-root

  waiting-root :
      (waiting_world.impls w.next_impl).deferred_handlers
      ≡ map (λ h. chained_handler h (w.next_impl + 1)) (map (λ x. task x) ts)
  unfolding any new_chain impl_make link
  waiting-root =
      (any_lem (new_chain w (some ios)).0 (new_chain w (some ios)).1 (map (λ x. task x) ts) r
        (omega arith)).0
      ∙ ap
          (λ (m : ChainImpl).
            m.deferred_handlers
            ++ map (λ h. chained_handler h (w.next_impl + 1)) (map (λ x. task x) ts))
          fresh-root

  waiting-ref : (waiting_world.impls w.next_impl).executor_ref ≡ e
  unfolding any new_chain impl_make link
  waiting-ref =
      waiting-Posted.same_refs w.next_impl
      ∙ ap (λ (m : ChainImpl). m.executor_ref)
          (update-other (new_chain w (some ios)).1.impls (w.next_impl + 1) _ w.next_impl
              (λ q. omega (arith, q))
            ∙ fresh-root)

  waiting-executors : waiting_world.executors e ≡ some ios
  unfolding any new_chain impl_make link
  waiting-executors =
      ap (λ (f : ℕ → Option ℕ). f e) waiting-Posted.same_executors
      ∙ update-same w.executors e (some ios)

  below : waiting_link.impl < waiting_world.next_impl
  below = omega (arith, joined-impls.0, joined-impls.2)

  -- The world after `then`.
  joined-link : joined.1.impls (w.next_impl + 1) ≡ record {
    executor_ref = e;
    required = r;
    deferred_handlers = chained_handler (task t) (w.next_impl + 2) ∷ [];
  }
  joined-link =
      (λ i. joined.1.impls (sym joined-impls.0 i))
      ∙ then-here waiting_link waiting_world t below
      ∙ ap
          (λ (m : ChainImpl). record m {
            deferred_handlers =
                m.deferred_handlers ++ (chained_handler (task t) waiting_world.next_impl ∷ []);
          })
          (ap waiting_world.impls joined-impls.0 ∙ waiting-link)
      ∙ ap
          (λ n. record {
            executor_ref = e;
            required = r;
            deferred_handlers = chained_handler (task t) n ∷ [];
          })
          joined-impls.2

  joined-root : joined.1.impls w.next_impl ≡ waiting_world.impls w.next_impl
  joined-root =
      then-other waiting_link waiting_world t below w.next_impl
        (λ q. omega (arith, q, joined-impls.0)) (omega (arith, joined-impls.2))

  joined-last :
      joined.1.impls (w.next_impl + 2)
      ≡ record { executor_ref = e; required = 1; deferred_handlers = [] }
  joined-last =
      (λ i. joined.1.impls (sym joined-impls.2 i))
      ∙ then-next waiting_link waiting_world t below
      ∙ ap
          (λ n. record {
            executor_ref = (waiting_world.impls n).executor_ref;
            required = 1;
            deferred_handlers = [];
          })
          joined-impls.1
      ∙ ap (λ n. record { executor_ref = n; required = 1; deferred_handlers = [] }) waiting-ref

  pub joined-rest :
      (joined.1.posted ≡ w.posted) × (joined.1.executors e ≡ some ios) × (joined.1.log ≡ w.log)
  unfolding then_ link impl_make wrap_and_post impl_post impl_wrap any new_chain
  joined-rest = (waiting-Posted.same_posted, waiting-executors, waiting-Posted.same_log)

  pub started-released : started ≡ released joined.1 w.next_impl ios
  unfolding run
  started-released =
      (λ i. impl_run joined.1 (joined-impls.3 i))
      ∙ run-posts joined.1 w.next_impl ios (
          ap (λ (m : ChainImpl). joined.1.executors m.executor_ref) joined-root
          ∙ ap joined.1.executors waiting-ref
          ∙ joined-rest.1)

  -- Once the chain is run, the link waits for the functions, and the last link for the link.
  pub started-Joining :
      w.posted ≡ []
      → 0 < r
      → Joining (w.next_impl + 1) ios (chained_handler (task t) (w.next_impl + 2)) r ts started
  started-Joining free some_required =
      let u = released joined.1 w.next_impl ios in
      let mine : u.impls (w.next_impl + 1) ≡ joined.1.impls (w.next_impl + 1) =
        update-other joined.1.impls w.next_impl _ (w.next_impl + 1) (λ q. omega (arith, q)) in
      subst (λ v. Joining (w.next_impl + 1) ios (chained_handler (task t) (w.next_impl + 2)) r ts v)
        (sym started-released)
        (record {
          there =
              ap (λ (m : ChainImpl). joined.1.executors m.executor_ref) (mine ∙ joined-link)
              ∙ joined-rest.1;
          requires = ap (λ (m : ChainImpl). m.required) (mine ∙ joined-link);
          defers =
              ap (λ (m : ChainImpl). m.deferred_handlers) (mine ∙ joined-link)
              ∙ ap (λ b. if b then chained_handler (task t) (w.next_impl + 2) ∷ [] else [])
                  (sym (ltb-true 0 r some_required));
          posts =
              ap
                (λ (q : List (ℕ × Handler)).
                  q ++ map (λ h. (ios, h)) (joined.1.impls w.next_impl).deferred_handlers)
                (joined-rest.0 ∙ free)
              ∙ ap (λ (ds : List Handler). map (λ h. (ios, h)) ds)
                  (ap (λ (m : ChainImpl). m.deferred_handlers) joined-root ∙ waiting-root)
              ∙ map-posted ios (w.next_impl + 1) ts
              ∙ sym (append-nil (posted_functions ios (w.next_impl + 1) ts))
              ∙ ap
                  (λ b.
                    posted_functions ios (w.next_impl + 1) ts
                    ++ (if b then [] else (ios, chained_handler (task t) (w.next_impl + 2)) ∷ []))
                  (sym (ltb-true 0 r some_required));
        })

  pub started-last :
      started.impls (w.next_impl + 2)
      ≡ record { executor_ref = e; required = 1; deferred_handlers = [] }
  started-last =
      ap (λ (u : World). u.impls (w.next_impl + 2)) started-released
      ∙ update-other joined.1.impls w.next_impl _ (w.next_impl + 2) (λ q. omega (arith, q))
      ∙ joined-last
