-- ===== src/Chain/Posted.antt =====
-- What the handlers of a link are when they are posted, and what posting them leaves alone.
use srpg.Base.{
  ℕ, length, take, drop, zero, suc, ◌≡◌, refl, ap, ◌∙◌, List, [], ◌∷◌, map, ℕ_discrete, sym,
}
use srpg.Chain.{
  World, ChainImpl, Handler, task, chained_handler, run_one, run_many, update, wrap_and_post_all,
  wrap_and_post, impl_post, impl_wrap,
}
use srpg.Chain.Store.{update-other, update-same}

-- What `wrap_and_post` of each handler leaves as it was.
pub record Posted (w v : World) : Type 0 where
  pub same_next : v.next_impl ≡ w.next_impl
  pub same_posted : v.posted ≡ w.posted
  pub same_executors : v.executors ≡ w.executors
  pub same_log : v.log ≡ w.log
  pub same_refs : (j : ℕ) → (v.impls j).executor_ref ≡ (w.impls j).executor_ref

post-ref :
    (w : World) (i : ℕ) (h : Handler) (j : ℕ)
    → ((impl_post w i h).impls j).executor_ref ≡ (w.impls j).executor_ref
unfolding impl_post
post-ref w i h j = elim (ℕ_discrete j i) [
  | yes e ↦
      ap (λ k. ((impl_post w i h).impls k).executor_ref) e
      ∙ ap (λ (m : ChainImpl). m.executor_ref) (update-same w.impls i _)
      ∙ ap (λ k. (w.impls k).executor_ref) (sym e)
  | no ne ↦ ap (λ (m : ChainImpl). m.executor_ref) (update-other w.impls i _ j ne)
]

pub wrap_and_post_all-Posted :
    (w : World) (current next : ℕ) (hs : List Handler)
    → Posted w (wrap_and_post_all w current next hs)
unfolding wrap_and_post_all wrap_and_post impl_post impl_wrap update
wrap_and_post_all-Posted w current next [] = record {
  same_next = refl;
  same_posted = refl;
  same_executors = refl;
  same_log = refl;
  same_refs = λ j. refl;
}
wrap_and_post_all-Posted w current next (h ∷ hs) =
    let p =
      wrap_and_post_all-Posted (impl_post w current (chained_handler h next)) current next hs in
    record {
      same_next = p.same_next;
      same_posted = p.same_posted;
      same_executors = p.same_executors;
      same_log = p.same_log;
      same_refs = λ j. p.same_refs j ∙ post-ref w current (chained_handler h next) j;
    }

-- The functions, each wrapped to count for link `i`, at the `io_service`.
abbrev pub posted_functions : ℕ → ℕ → List ℕ → List (ℕ × Handler)
posted_functions ios i ts = map (λ x. (ios, chained_handler (task x) i)) ts

pub map-posted :
    (ios i : ℕ) (ts : List ℕ)
    → map {B = ℕ × Handler} (λ h. (ios, h)) (map (λ h. chained_handler h i) (map (λ x. task x) ts))
      ≡ map {B = ℕ × Handler} (λ x. (ios, chained_handler (task x) i)) ts
map-posted ios i [] = refl
map-posted ios i (x ∷ ts) = ap (λ l. (ios, chained_handler (task x) i) ∷ l) (map-posted ios i ts)

pub run_many-suc : (k : ℕ) (w : World) → run_many (suc k) w ≡ run_one (run_many k w)
unfolding run_many
run_many-suc zero w = refl
run_many-suc (suc k) w = run_many-suc k (run_one w)

pub drop-length : (xs : List ℕ) → drop (length xs) xs ≡ []
drop-length [] = refl
drop-length (x ∷ xs) = drop-length xs

pub take-length : (xs : List ℕ) → take (length xs) xs ≡ xs
take-length [] = refl
take-length (x ∷ xs) = ap (λ l. x ∷ l) (take-length xs)
