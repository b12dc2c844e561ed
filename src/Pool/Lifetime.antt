-- ===== src/Pool/Lifetime.antt =====
-- The life of every object of a pool, from `new` to `delete`.
use srpg.Base.{
  ℕ, ap, [], sym, subst, List, ◌∷◌, ◌≤◌, ◌++◌, ◌+◌, ◌≡◌, ◌∙◌, arith, if◌then◌else◌, ltb, Bool, inl,
  inr, Bool-cases,
}
use srpg.Pool.{LockfreeQueue, ObjectPool, construct, destruct, destroy}
use srpg.Pool.Fresh.{
  count, count-append, places, places-reused, places-kept, places-dropped, List-cases,
  construct-reused, construct-new, kept, dropped, destruct-if,
}

module _ {Q : Type 0} (lq : LockfreeQueue Q) where
  open lq use {push, pop, contents}

  -- A pool that was used from its construction on, and the objects that are in use.
  pub data Pooled : ObjectPool lq → List ℕ → Type 0 where
    empty :
        (o : ObjectPool lq)
        → contents o.queue ≡ []
        → o.next_address ≡ 0
        → o.deleted ≡ []
        → Pooled o []
    constructed :
        (o : ObjectPool lq) (used : List ℕ)
        → Pooled o used
        → Pooled (construct lq o).1 ((construct lq o).0 ∷ used)
    destructed :
        (o : ObjectPool lq) (before after : List ℕ) (p : ℕ)
        → Pooled o (before ++ (p ∷ after))
        → Pooled (destruct lq o p) (before ++ after)

  -- Each object that the allocator gave is in one place.
  abbrev pub IsExact : ObjectPool lq → List ℕ → Type 0
  IsExact o used = (x : ℕ) → places lq o used x ≡ (if ltb x o.next_address then 1 else 0)

  IsExact-construct :
      (o : ObjectPool lq) (used : List ℕ)
      → IsExact o used
      → IsExact (construct lq o).1 ((construct lq o).0 ∷ used)
  IsExact-construct o used s = elim (List-cases (contents o.queue)) [
    | inl e ↦
        subst (λ (r : ℕ × ObjectPool lq). IsExact r.1 (r.0 ∷ used)) (sym (construct-new lq o e))
          (λ x. ground (arith, s x))
    | inr (p, ps, e) ↦
        subst (λ (r : ℕ × ObjectPool lq). IsExact r.1 (r.0 ∷ used))
          (sym (construct-reused lq o p ps e)) (λ x. places-reused lq o used p ps e x ∙ s x)
  ]

  IsExact-destruct :
      (o : ObjectPool lq) (used : List ℕ) (p : ℕ)
      → IsExact o (p ∷ used)
      → IsExact (destruct lq o p) used
  IsExact-destruct o used p s = elim (Bool-cases (push o.queue p).0) [
    | inl e ↦
        subst (λ (r : ObjectPool lq). IsExact r used)
          (ap (λ (b : Bool). if b then kept lq o p else dropped lq o p) (sym e)
            ∙ sym (destruct-if lq o p))
          (λ x. places-kept lq o used p e x ∙ s x)
    | inr e ↦
        subst (λ (r : ObjectPool lq). IsExact r used)
          (ap (λ (b : Bool). if b then kept lq o p else dropped lq o p) (sym e)
            ∙ sym (destruct-if lq o p))
          (λ x. places-dropped lq o used p e x ∙ s x)
  ]

  IsExact-taken_out :
      (o : ObjectPool lq) (before after : List ℕ) (p : ℕ)
      → IsExact o (before ++ (p ∷ after))
      → IsExact o (p ∷ (before ++ after))
  IsExact-taken_out o before after p s x =
      omega (arith, s x, count-append x before (p ∷ after), count-append x before after)

  Pooled-IsExact : (o : ObjectPool lq) (used : List ℕ) → Pooled o used → IsExact o used
  Pooled-IsExact o used (empty _ q n d) = λ x. ground (arith, ap (count x) q, ap (count x) d, n)
  Pooled-IsExact o used (constructed o' u h) = IsExact-construct o' u (Pooled-IsExact o' u h)
  Pooled-IsExact o used (destructed o' before after p h) =
      IsExact-destruct o' (before ++ after) p
        (IsExact-taken_out o' before after p (Pooled-IsExact o' (before ++ (p ∷ after)) h))

  -- Whatever sequence of `construct` and `destruct` a pool has seen, no object stands twice among
  -- those in use and those deleted; and when the pool is destroyed, each object that was ever
  -- allocated has been deleted once, unless it is still in use, and nothing else has.
  pub destroy-Pooled :
      (o : ObjectPool lq) (used : List ℕ)
      → Pooled o used
      → (x : ℕ)
      → (count x used + count x o.deleted ≤ 1)
        × (count x used + count x (destroy lq o).deleted ≡ (if ltb x o.next_address then 1 else 0))
  unfolding destroy
  destroy-Pooled o used h x =
      let exact = Pooled-IsExact o used h x in
      (
        ground (arith, exact),
        omega (
          arith,
          exact,
          count-append x o.deleted (lq.consume_all o.queue).0,
          ap (count x) (lq.consume_all-contents o.queue),
        ),
      )
