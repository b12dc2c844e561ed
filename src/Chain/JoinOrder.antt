-- ===== src/Chain/JoinOrder.antt =====
-- `when_all` and `when_any` with `then` after them: what the turns of the `io_service` call.
use srpg.Base.{
  ℕ, ltb, if◌then◌else◌, length, take, drop, suc, ◌+◌, ◌-◌, ◌≤◌, ◌<◌, ◌≡◌, ◌∙◌, some, List, [], ◌∷◌,
  ◌++◌, map, arith, ap, Option, refl,
}
use srpg.Chain.{
  World, ChainImpl, task, chained_handler, invoke, run_one, run_many, when_all, when_any, all,
  then_,
}
use srpg.Chain.Store.{run-posts, tracked, update-same, complete-fires}
use srpg.Chain.Sequence.{run_one-next}
use srpg.Chain.Join.{Joining-turns}
use srpg.Chain.Joined.{
  joined, started, started-Joining, started-last, started-released, joined-rest,
}
use srpg.Chain.Posted.{posted_functions, run_many-suc, drop-length, take-length}

-- The last handler runs, and the link after it has nothing to run.
last_turn :
    (u : World) (ios j t e : ℕ)
    → u.posted ≡ (ios, chained_handler (task t) j) ∷ []
    → u.impls j ≡ record { executor_ref = e; required = 1; deferred_handlers = [] }
    → u.executors e ≡ some ios
    → ((run_one u).log ≡ u.log ++ (t ∷ [])) × ((run_one u).posted ≡ [])
unfolding invoke
last_turn u ios j t e posted last there =
    let v : World = record u { posted = []; log = u.log ++ (t ∷ []) } in
    let mine =
      update-same u.impls j (record (u.impls j) { required = (u.impls j).required - 1 })
      ∙ ap (λ (m : ChainImpl). record m { required = m.required - 1 }) last in
    let turn =
      run_one-next u ios (chained_handler (task t) j) posted
      ∙ complete-fires v j (omega (arith, ap (λ (m : ChainImpl). m.required) last))
      ∙ run-posts (tracked v j) j ios
          (ap (λ (m : ChainImpl). u.executors m.executor_ref) mine ∙ there) in
    (
      ap (λ (z : World). z.log) turn,
      ap (λ (z : World). z.posted) turn
          ∙ ap (λ (m : ChainImpl). map (λ h. (ios, h)) m.deferred_handlers) mine,
    )

length-tasks : (ts : List ℕ) → length (map (λ x. task x) ts) ≡ length ts
length-tasks [] = refl
length-tasks (x ∷ ts) = omega (arith, length-tasks ts)

-- `when_any` waits for one of the functions, and `when_all` for as many as there are.
joined-when :
    (w : World) (ios : ℕ) (ts : List ℕ) (t : ℕ)
    → let first = when_any w ios (map (λ x. task x) ts) in
      let every = when_all w ios (map (λ x. task x) ts) in
      (then_ first.0 first.1 (task t) ≡ joined w ios ts t 1)
      × (then_ every.0 every.1 (task t) ≡ joined w ios ts t (length ts))
unfolding when_any when_all all
joined-when w ios ts t = (refl, ap (joined w ios ts t) (length-tasks ts))

-- A new chain with `any(ts, r)`, for a number `r` of at least one function and at most all of them,
-- and then `then(t)`: once it is run, each turn of the `io_service` calls the next of the functions
-- `ts`; `t` is posted in the turn in which the `r`-th of them returns, not before and not again, and
-- is called after them in a turn of its own, and then nothing is left to call. `when_any` is this
-- with one, and `when_all` with the number of the functions. Nothing else is posted to the
-- `io_service` when the chain is made.
pub any-then_order :
    (w : World) (ios : ℕ) (ts : List ℕ) (t r k : ℕ)
    → w.posted ≡ []
    → 0 < r
    → r ≤ length ts
    → k ≤ length ts
    → let u = started w ios ts t r in
      ((run_many k u).log ≡ w.log ++ take k ts)
      × ((run_many k u).posted
          ≡ posted_functions ios (w.next_impl + 1) (drop k ts)
            ++ (if ltb 0 (r - k)
                then []
                else (ios, chained_handler (task t) (w.next_impl + 2)) ∷ []))
      × ((run_many (suc (length ts)) u).log ≡ (w.log ++ ts) ++ (t ∷ []))
      × ((run_many (suc (length ts)) u).posted ≡ [])
any-then_order w ios ts t r k free some_required enough few =
    let u = started w ios ts t r in
    let i = w.next_impl + 1 in
    let h = chained_handler (task t) (w.next_impl + 2) in
    let j = started-Joining w ios ts t r free some_required in
    let begun : u.log ≡ w.log =
      ap (λ (z : World). z.log) (started-released w ios ts t r) ∙ (joined-rest w ios ts t r).2 in
    let (now, aside) = Joining-turns i ios h k ts u r few j in
    let n = length ts in
    let (ended, aside') = Joining-turns i ios h n ts u r (omega arith) j in
    let v = run_many n u in
    let over : r - n ≡ 0 = omega (arith, enough) in
    let waiting : v.posted ≡ (ios, h) ∷ [] =
      ended.posts
      ∙ ap (λ m. posted_functions ios i (drop n ts) ++ (if ltb 0 m then [] else (ios, h) ∷ [])) over
      ∙ ap (λ l. posted_functions ios i l ++ ((ios, h) ∷ [])) (drop-length ts) in
    let (log_end, posted_end) =
      last_turn v ios (w.next_impl + 2) t w.next_executor waiting
        (aside'.others (w.next_impl + 2) (λ q. omega (arith, q)) ∙ started-last w ios ts t r)
        (ap (λ (f : ℕ → Option ℕ). f w.next_executor)
            (aside'.executors_kept
              ∙ ap (λ (z : World). z.executors) (started-released w ios ts t r))
          ∙ (joined-rest w ios ts t r).1) in
    (
      aside.logs ∙ ap (λ l. l ++ take k ts) begun,
      now.posts,
      ap (λ (z : World). z.log) (run_many-suc n u)
          ∙ log_end
          ∙ ap (λ l. l ++ (t ∷ []))
              (aside'.logs
                ∙ ap (λ l. l ++ take n ts) begun
                ∙ ap (λ l. w.log ++ l) (take-length ts)),
      ap (λ (z : World). z.posted) (run_many-suc n u) ∙ posted_end,
    )
