-- ===== src/Chain/Join.antt =====
-- A link that waits for some of several functions, turn by turn.
use srpg.Base.{
  refl, zero, suc, sym, ap, ℕ, ltb, if◌then◌else◌, suc, ◌-◌, ◌≡◌, refl, ◌∙◌, ◌≢◌, some, List, [],
  ◌∷◌, ◌++◌, arith, map, ◌<◌, ◌≤◌, ltb-true, append-nil, subst, dec_lt, append_assoc, length, drop,
  take,
}
use srpg.Chain.{
  World, ChainImpl, Handler, task, chained_handler, invoke, run_one, impl_complete, run_many,
}
use srpg.Chain.Store.{run-posts, update-other, tracked, update-same, complete-fires, complete-waits}

-- A link `i` of an executor with `ios` still requires `m` completions, the handler `h` is deferred
-- or, when nothing is required any more, posted after the functions `xs`, which count for the link.
pub record Joining (i ios : ℕ) (h : Handler) (m : ℕ) (xs : List ℕ) (u : World) : Type 0 where
  pub there : u.executors (u.impls i).executor_ref ≡ some ios
  pub requires : (u.impls i).required ≡ m
  pub defers : (u.impls i).deferred_handlers ≡ (if ltb 0 m then h ∷ [] else [])
  pub posts :
      u.posted
      ≡ map (λ x. (ios, chained_handler (task x) i)) xs ++ (if ltb 0 m then [] else (ios, h) ∷ [])

-- The rest of the world while the functions run.
pub record Aside (i : ℕ) (l : List ℕ) (u v : World) : Type 0 where
  pub others : (j : ℕ) → j ≢ i → v.impls j ≡ u.impls j
  pub executors_kept : v.executors ≡ u.executors
  pub logs : v.log ≡ u.log ++ l

ltb-same : (m : ℕ) → 1 < m → ltb 0 m ≡ ltb 0 (m - 1)
ltb-same m more =
    ltb-true 0 m (omega (arith, more)) ∙ sym (ltb-true 0 (m - 1) (omega (arith, more)))

posted_last :
    (ios : ℕ) (h : Handler) (l : List (ℕ × Handler)) (m : ℕ)
    → m ≤ 1
    → (l ++ (if ltb 0 m then [] else (ios, h) ∷ []))
        ++ map (λ y. (ios, y)) (if ltb 0 m then h ∷ [] else [])
      ≡ l ++ ((ios, h) ∷ [])
posted_last ios h l zero last = append-nil (l ++ ((ios, h) ∷ []))
posted_last ios h l (suc zero) last = ap (λ k. k ++ ((ios, h) ∷ [])) (append-nil l)
posted_last ios h l (suc (suc m)) last = absurd (omega (arith, last))

module _ (i ios : ℕ) (h : Handler) (x : ℕ) (xs : List ℕ) (u : World) where
  -- The world in which the function has run and the link has not been told.
  abbrev called : List (ℕ × Handler) → World
  called ps = record u { posted = ps; log = u.log ++ (x ∷ []) }

  run_one-called :
      (ps : List (ℕ × Handler))
      → u.posted ≡ (ios, chained_handler (task x) i) ∷ ps
      → run_one u ≡ impl_complete (called ps) i
  unfolding run_one invoke
  run_one-called ps e = rw (run_one, e) refl

  abbrev following : ℕ → List (ℕ × Handler)
  following m =
      map (λ y. (ios, chained_handler (task y) i)) xs ++ (if ltb 0 m then [] else (ios, h) ∷ [])

  -- One turn while more than one completion is required.
  Joining-waits :
      (m : ℕ)
      → 1 < m
      → Joining i ios h m (x ∷ xs) u
      → Joining i ios h (m - 1) xs (run_one u) × Aside i (x ∷ []) u (run_one u)
  Joining-waits m more j =
      let v = called (following m) in
      let turn =
        run_one-called (following m) j.posts
        ∙ complete-waits v i (omega (arith, j.requires, more)) in
      let mine =
        update-same u.impls i (record (u.impls i) { required = (u.impls i).required - 1 }) in
      subst (λ w. Joining i ios h (m - 1) xs w × Aside i (x ∷ []) u w) (sym turn)
        (
          record {
            there = ap (λ (c : ChainImpl). u.executors c.executor_ref) mine ∙ j.there;
            requires = ap (λ (c : ChainImpl). c.required) mine ∙ ap (λ n. n - 1) j.requires;
            defers =
                ap (λ (c : ChainImpl). c.deferred_handlers) mine
                ∙ j.defers
                ∙ ap (λ b. if b then h ∷ [] else []) (ltb-same m more);
            posts =
                ap
                  (λ b.
                    map (λ y. (ios, chained_handler (task y) i)) xs
                    ++ (if b then [] else (ios, h) ∷ []))
                  (ltb-same m more);
          },
          record {
            others = λ k ne. update-other u.impls i _ k ne;
            executors_kept = refl;
            logs = refl;
          },
        )

  -- One turn when the last completion comes, or one after it.
  Joining-fires :
      (m : ℕ)
      → m ≤ 1
      → Joining i ios h m (x ∷ xs) u
      → Joining i ios h 0 xs (run_one u) × Aside i (x ∷ []) u (run_one u)
  Joining-fires m last j =
      let v = called (following m) in
      let t = tracked v i in
      let mine =
        update-same u.impls i (record (u.impls i) { required = (u.impls i).required - 1 }) in
      let turn =
        run_one-called (following m) j.posts
        ∙ complete-fires v i (omega (arith, j.requires, last))
        ∙ run-posts t i ios (ap (λ (c : ChainImpl). u.executors c.executor_ref) mine ∙ j.there) in
      let emptied = update-same t.impls i (record (t.impls i) { deferred_handlers = [] }) in
      subst (λ w. Joining i ios h 0 xs w × Aside i (x ∷ []) u w) (sym turn)
        (
          record {
            there =
                ap (λ (c : ChainImpl). u.executors c.executor_ref)
                  (emptied ∙ ap (λ (c : ChainImpl). record c { deferred_handlers = [] }) mine)
                ∙ j.there;
            requires =
                ap (λ (c : ChainImpl). c.required)
                  (emptied ∙ ap (λ (c : ChainImpl). record c { deferred_handlers = [] }) mine)
                ∙ omega (arith, j.requires, last);
            defers = ap (λ (c : ChainImpl). c.deferred_handlers) emptied;
            posts =
                ap (λ (l : List Handler). following m ++ map (λ y. (ios, y)) l)
                  (ap (λ (c : ChainImpl). c.deferred_handlers) mine ∙ j.defers)
                ∙ posted_last ios h (map (λ y. (ios, chained_handler (task y) i)) xs) m last;
          },
          record {
            others = λ k ne. update-other t.impls i _ k ne ∙ update-other u.impls i _ k ne;
            executors_kept = refl;
            logs = refl;
          },
        )

Joining-turn :
    (i ios : ℕ) (h : Handler) (x : ℕ) (xs : List ℕ) (u : World) (m : ℕ)
    → Joining i ios h m (x ∷ xs) u
    → Joining i ios h (m - 1) xs (run_one u) × Aside i (x ∷ []) u (run_one u)
Joining-turn i ios h x xs u m j = elim (dec_lt 1 m) [
  | yes more ↦ Joining-waits i ios h x xs u m more j
  | no last ↦
      let (fired, aside) = Joining-fires i ios h x xs u m (omega (arith, last)) j in
      (subst (λ n. Joining i ios h n xs (run_one u)) (omega (arith, last)) fired, aside)
]

Aside-trans :
    (i : ℕ) (l l' : List ℕ) (u v w : World) → Aside i l u v → Aside i l' v w → Aside i (l ++ l') u w
Aside-trans i l l' u v w a b = record {
  others = λ j ne. b.others j ne ∙ a.others j ne;
  executors_kept = b.executors_kept ∙ a.executors_kept;
  logs = b.logs ∙ ap (λ k. k ++ l') a.logs ∙ append_assoc u.log l l';
}

-- Some turns, while functions are left.
pub Joining-turns :
    (i ios : ℕ) (h : Handler) (k : ℕ) (xs : List ℕ) (u : World) (m : ℕ)
    → k ≤ length xs
    → Joining i ios h m xs u
    → Joining i ios h (m - k) (drop k xs) (run_many k u) × Aside i (take k xs) u (run_many k u)
unfolding run_many
Joining-turns i ios h zero xs u m few j = (
  subst (λ n. Joining i ios h n xs u) (omega arith) j,
  record { others = λ k ne. refl; executors_kept = refl; logs = sym (append-nil u.log) },
)
Joining-turns i ios h (suc k) [] u m few j = absurd (omega (arith, few))
Joining-turns i ios h (suc k) (x ∷ xs) u m few j =
    let (next, aside) = Joining-turn i ios h x xs u m j in
    let (rest, aside') = Joining-turns i ios h k xs (run_one u) (m - 1) (omega (arith, few)) next in
    (
      subst (λ n. Joining i ios h n (drop k xs) (run_many k (run_one u))) (omega arith) rest,
      Aside-trans i (x ∷ []) (take k xs) u (run_one u) (run_many k (run_one u)) aside aside',
    )
