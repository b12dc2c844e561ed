-- ===== src/Chain/Sequence.antt =====
-- Chains of `then`, and the turns of the `io_service` that run them.
use srpg.Base.{
  refl, sym, ℕ, zero, suc, ap, List, ◌≡◌, ◌∷◌, ◌<◌, [], some, ◌∙◌, arith, ◌++◌, take, append-nil,
  map, ◌≤◌, ◌-◌, append_assoc, Option,
}
use srpg.Chain.{
  ChainImpl, run_many, run_one, World, invoke, chained_handler, impl_run, task, Handler, Chain,
  then_, link, new_chain, impl_make, wrap_and_post, run, impl_post,
}
use srpg.Chain.Store.{run-posts, released, update-other, tracked, update-same, complete-fires}
use srpg.Chain.Then.{after, then-here, then-next, then-other, then-executor}

-- What a row of links looks like: each defers one function, which completes the next link.
abbrev Links : (ℕ → ChainImpl) → ℕ → ℕ → List ℕ → Type 0
Links f e i [] = ((f i).executor_ref ≡ e) × ((f i).deferred_handlers ≡ [])
Links f e i (t ∷ ts) =
    ((f i).executor_ref ≡ e)
    × ((j : ℕ) × (i < j)
        × ((f i).deferred_handlers ≡ chained_handler (task t) j ∷ [])
        × ((f j).required ≡ 1)
        × Links f e j ts)

Links-executor :
    (f : ℕ → ChainImpl) (e i : ℕ) (ts : List ℕ) → Links f e i ts → (f i).executor_ref ≡ e
Links-executor f e i [] l = l.0
Links-executor f e i (t ∷ ts) l = l.0

-- Two stores with the same row: what a link requires does not matter for its own start.
Links-move :
    (f g : ℕ → ChainImpl) (e i : ℕ) (ts : List ℕ)
    → (g i).executor_ref ≡ (f i).executor_ref
    → (g i).deferred_handlers ≡ (f i).deferred_handlers
    → ((k : ℕ) → i < k → g k ≡ f k)
    → Links f e i ts
    → Links g e i ts
Links-move f g e i [] x d same l = (x ∙ l.0, d ∙ l.1)
Links-move f g e i (t ∷ ts) x d same (le, (j, h, ld, lr, l)) = (
  x ∙ le,
  (
    j,
    h,
    d ∙ ld,
    ap (λ m. m.required) (same j h) ∙ lr,
    Links-move f g e j ts (ap (λ m. m.executor_ref) (same j h))
        (ap (λ m. m.deferred_handlers) (same j h)) (λ k q. same k (omega arith)) l,
  ),
)

pub run_one-idle : (w : World) → w.posted ≡ [] → run_one w ≡ w
unfolding run_one
run_one-idle w h =
    ap
      (λ (q : List (ℕ × Handler)). elim q [
        | [] ↦ w
        | p ∷ ps ↦ invoke (record w { posted = ps }) p.1
      ])
      h

pub run_many-idle : (k : ℕ) (w : World) → w.posted ≡ [] → run_many k w ≡ w
unfolding run_many run_one
run_many-idle zero w h = refl
run_many-idle (suc k) w h = ap (run_many k) (run_one-idle w h) ∙ run_many-idle k w h

pub run_one-next :
    (w : World) (ios : ℕ) (h : Handler)
    → w.posted ≡ (ios, h) ∷ []
    → run_one w ≡ invoke (record w { posted = [] }) h
unfolding run_one
run_one-next w ios h e = rw (run_one, e) refl

-- The turns after a row of links was started.
run-Links :
    (ts : List ℕ) (w : World) (e ios i k : ℕ)
    → Links w.impls e i ts
    → w.executors e ≡ some ios
    → w.posted ≡ []
    → (run_many k (impl_run w i)).log ≡ w.log ++ take k ts
unfolding run_many invoke
run-Links ts w e ios i zero l x p =
    ap (λ u. u.log) (run-posts w i ios (ap w.executors (Links-executor w.impls e i ts l) ∙ x))
    ∙ sym (append-nil w.log)
run-Links [] w e ios i (suc k) l x p =
    let r = run-posts w i ios (ap w.executors l.0 ∙ x) in
    let none_left : (impl_run w i).posted ≡ [] =
      ap (λ u. u.posted) r
      ∙ ap (λ (ds : List Handler). w.posted ++ map (λ h. (ios, h)) ds) l.1
      ∙ append-nil w.posted
      ∙ p in
    ap (λ u. u.log) (run_many-idle (suc k) (impl_run w i) none_left)
    ∙ ap (λ u. u.log) r
    ∙ sym (append-nil w.log)
run-Links (t ∷ ts) w e ios i (suc k) (le, (j, h, ld, lr, l)) x p =
    let w1 = released w i ios in
    let r = run-posts w i ios (ap w.executors le ∙ x) in
    let posted : w1.posted ≡ (ios, chained_handler (task t) j) ∷ [] =
      ap (λ (ds : List Handler). w.posted ++ map (λ h. (ios, h)) ds) ld
      ∙ ap (λ (q : List (ℕ × Handler)). q ++ ((ios, chained_handler (task t) j) ∷ [])) p in
    let w2 : World = record w1 { posted = []; log = w.log ++ (t ∷ []) } in
    let other : (m : ℕ) → i < m → w2.impls m ≡ w.impls m =
      λ m q. update-other w.impls i _ m (λ n. omega (arith, n)) in
    let one : (w2.impls j).required ≤ 1 =
      omega (arith, ap (λ (m : ChainImpl). m.required) (other j h), lr) in
    let last = tracked w2 j in
    let mine : last.impls j ≡ record (w2.impls j) { required = (w2.impls j).required - 1 } =
      update-same w2.impls j _ in
    let moved : Links last.impls e j ts =
      Links-move w.impls last.impls e j ts
        (ap (λ (m : ChainImpl). m.executor_ref) mine
          ∙ ap (λ (m : ChainImpl). m.executor_ref) (other j h))
        (ap (λ (m : ChainImpl). m.deferred_handlers) mine
          ∙ ap (λ (m : ChainImpl). m.deferred_handlers) (other j h))
        (λ m q. update-other w2.impls j _ m (λ n. omega (arith, n)) ∙ other m (omega arith)) l in
    ap (λ u. (run_many k (run_one u)).log) r
    ∙ ap (λ u. (run_many k u).log) (run_one-next w1 ios (chained_handler (task t) j) posted)
    ∙ ap (λ u. (run_many k u).log) (complete-fires w2 j one)
    ∙ run-Links ts last e ios j k moved x refl
    ∙ append_assoc w.log (t ∷ []) (take k ts)

-- `then` of each function, on the link before.
pub then_all : Chain → World → List ℕ → Chain × World
then_all c w [] = (c, w)
then_all c w (t ∷ ts) = let next = then_ c w (task t) in then_all next.0 next.1 ts

-- What `then` of each function leaves as it was.
record Built (w v : World) (i : ℕ) : Type 0 where
  posted_same : v.posted ≡ w.posted
  executors_same : v.executors ≡ w.executors
  log_same : v.log ≡ w.log
  before_same : (k : ℕ) → k < i → v.impls k ≡ w.impls k
  required_same : (v.impls i).required ≡ (w.impls i).required

then_all-Built :
    (ts : List ℕ) (c : Chain) (w : World) (e : ℕ)
    → c.impl < w.next_impl
    → c.root_impl < w.next_impl
    → (w.impls c.impl).executor_ref ≡ e
    → (w.impls c.root_impl).executor_ref ≡ e
    → (w.impls c.impl).deferred_handlers ≡ []
    → Links (then_all c w ts).1.impls e c.impl ts × Built w (then_all c w ts).1 c.impl
unfolding then_all then_ link impl_make wrap_and_post impl_post
then_all-Built [] c w e h hr x xr d = (
  (x, d),
  record {
    posted_same = refl;
    executors_same = refl;
    log_same = refl;
    before_same = λ k q. refl;
    required_same = refl;
  },
)
then_all-Built (t ∷ ts) c w e h hr x xr d =
    let next = then_ c w (task t) in
    let v = (then_all c w (t ∷ ts)).1 in
    let made = then-next c w t h in
    let (l, b) =
      then_all-Built ts next.0 next.1 e (omega arith) (omega arith)
        (ap (λ (m : ChainImpl). m.executor_ref) made ∙ xr)
        (then-executor c w t h c.root_impl hr ∙ xr)
        (ap (λ (m : ChainImpl). m.deferred_handlers) made) in
    let here : v.impls c.impl ≡ (after c w t h).impls c.impl = b.before_same c.impl h in
    let mine = here ∙ then-here c w t h in
    (
      (
        ap (λ (m : ChainImpl). m.executor_ref) mine ∙ x,
        (
          w.next_impl,
          h,
          ap (λ (m : ChainImpl). m.deferred_handlers) mine
              ∙ ap (λ (ds : List Handler). ds ++ (chained_handler (task t) w.next_impl ∷ [])) d,
          b.required_same ∙ ap (λ (m : ChainImpl). m.required) made,
          l,
        ),
      ),
      record {
        posted_same = b.posted_same;
        executors_same = b.executors_same;
        log_same = b.log_same;
        before_same = λ k q.
            b.before_same k (omega arith)
            ∙ then-other c w t h k (λ n. omega (arith, n)) (omega arith);
        required_same = ap (λ (m : ChainImpl). m.required) mine;
      },
    )

-- A new chain with `then` of each of some functions, once it is run, calls one of them in each turn
-- of the `io_service`, in the order of the `then`s, and none of them before the turn; later turns
-- call nothing more. Nothing else is posted to the `io_service` when the chain is made.
pub then_all-order :
    (w : World) (ios : ℕ) (ts : List ℕ) (k : ℕ)
    → w.posted ≡ []
    → let fresh = new_chain w (some ios) in
      let built = then_all fresh.0 fresh.1 ts in
      (run_many k (run fresh.0 built.1)).log ≡ w.log ++ take k ts
unfolding new_chain impl_make run
then_all-order w ios ts k p =
    let fresh = new_chain w (some ios) in
    let e = w.next_executor in
    let made : fresh.1.impls w.next_impl
        ≡ record { executor_ref = e; required = 0; deferred_handlers = [] } =
      update-same w.impls w.next_impl _ in
    let (l, b) =
      then_all-Built ts fresh.0 fresh.1 e (omega arith) (omega arith)
        (ap (λ (m : ChainImpl). m.executor_ref) made) (ap (λ (m : ChainImpl). m.executor_ref) made)
        (ap (λ (m : ChainImpl). m.deferred_handlers) made) in
    run-Links ts (then_all fresh.0 fresh.1 ts).1 e ios w.next_impl k l
      (ap (λ (f : ℕ → Option ℕ). f e) b.executors_same ∙ update-same w.executors e (some ios))
      (b.posted_same ∙ p)
    ∙ ap (λ (q : List ℕ). q ++ take k ts) b.log_same
