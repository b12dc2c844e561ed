-- ===== src/Pool/Fresh.antt =====
-- The places of the objects of a pool: the queue, in use, deleted.
use srpg.Base.{
  true, false, refl, ℕ, ap, some, none, [], sym, List, ◌∷◌, ◌≤◌, ◌++◌, ◌+◌, ◌≡◌, arith, Option,
  if◌then◌else◌, ◌==◌, Bool, ◌≢◌, ◌⊎◌, subst, ◌∙◌, ℕ_discrete, inl, false, inr, Bool-cases,
}
use srpg.Pool.{LockfreeQueue, ObjectPool, construct, destruct}

-- How often an object stands in a list.
abbrev pub count : ℕ → List ℕ → ℕ
count x [] = 0
count x (p ∷ ps) = (if x == p then 1 else 0) + count x ps

pub count-append : (x : ℕ) (ps qs : List ℕ) → count x (ps ++ qs) ≡ count x ps + count x qs
count-append x [] qs = omega arith
count-append x (p ∷ ps) qs = omega (arith, count-append x ps qs)

count-here : (x : ℕ) (ps : List ℕ) → count x (x ∷ ps) ≡ 1 + count x ps
count-here x ps = ground arith

abbrev one_if : Bool → ℕ
one_if b = if b then 1 else 0

if-le : (b : Bool) → (if b then 1 else 0) ≤ 1
if-le true = omega arith
if-le false = omega arith

==-false : (a b : ℕ) → a ≢ b → (a == b) ≡ false
==-false a b h = ground arith

pub List-cases : (xs : List ℕ) → (xs ≡ []) ⊎ ((p : ℕ) × (ps : List ℕ) × (xs ≡ p ∷ ps))
List-cases [] = inl refl
List-cases (p ∷ ps) = inr (p, ps, refl)

module _ {Q : Type 0} (lq : LockfreeQueue Q) where
  open lq use {push, pop, contents}

  abbrev pub places : ObjectPool lq → List ℕ → ℕ → ℕ
  places o used x = count x (contents o.queue) + (count x used + count x o.deleted)

  -- The objects in the queue, those in use and those deleted are different from each other, and all
  -- were given by the allocator.
  unfoldable pub IsSound : ObjectPool lq → List ℕ → Type 0
  IsSound o used = (x : ℕ) → (places o used x ≤ 1) × (o.next_address ≤ x → places o used x ≡ 0)

  moved :
      (used : List ℕ) {a b : ℕ × ObjectPool lq}
      → a ≡ b
      → IsSound a.1 (a.0 ∷ used)
      → IsSound b.1 (b.0 ∷ used)
  moved used e = subst (λ (r : ℕ × ObjectPool lq). IsSound r.1 (r.0 ∷ used)) e

  alone : (o : ObjectPool lq) (p : ℕ) (used : List ℕ) → IsSound o (p ∷ used) → count p used ≡ 0
  unfolding IsSound
  alone o p used s = omega (arith, (s p).0, count-here p used)

  pub construct-reused :
      (o : ObjectPool lq) (p : ℕ) (ps : List ℕ)
      → contents o.queue ≡ p ∷ ps
      → construct lq o ≡ (p, record o { queue = (pop o.queue).1 })
  unfolding construct
  construct-reused o p ps e = rw (construct, (lq.pop-front o.queue p ps e).0) refl

  pub construct-new :
      (o : ObjectPool lq)
      → contents o.queue ≡ []
      → construct lq o ≡ (o.next_address, record o { next_address = o.next_address + 1 })
  unfolding construct
  construct-new o e =
      let made : Option ℕ × Q → ℕ × ObjectPool lq = λ r. elim r.0 [
        | some p ↦ (p, record o { queue = r.1 })
        | none ↦ (o.next_address, record o { queue = r.1; next_address = o.next_address + 1 })
      ] in
      ap made (lq.pop-empty o.queue e)

  pub places-reused :
      (o : ObjectPool lq) (used : List ℕ) (p : ℕ) (ps : List ℕ)
      → contents o.queue ≡ p ∷ ps
      → (x : ℕ) → places (record o { queue = (pop o.queue).1 }) (p ∷ used) x ≡ places o used x
  places-reused o used p ps e x =
      omega (arith, ap (count x) e, ap (count x) (lq.pop-front o.queue p ps e).1)

  IsSound-reused :
      (o : ObjectPool lq) (used : List ℕ) (p : ℕ) (ps : List ℕ)
      → contents o.queue ≡ p ∷ ps
      → IsSound o used
      → IsSound (record o { queue = (pop o.queue).1 }) (p ∷ used)
  unfolding IsSound
  IsSound-reused o used p ps e s x =
      let same = places-reused o used p ps e x in
      (omega (arith, same, (s x).0), λ q. same ∙ (s x).1 q)

  IsSound-new :
      (o : ObjectPool lq) (used : List ℕ)
      → IsSound o used
      → IsSound (record o { next_address = o.next_address + 1 }) (o.next_address ∷ used)
  unfolding IsSound
  IsSound-new o used s x = elim (ℕ_discrete x o.next_address) [
    | yes e ↦ (
      omega (arith, (s x).1 (omega (arith, e)), if-le (x == o.next_address)),
      λ q. absurd (omega (arith, e)),
    )
    | no n ↦
        let same : places (record o { next_address = o.next_address + 1 }) (o.next_address ∷ used) x
            ≡ places o used x =
          omega (arith, ap one_if (==-false x o.next_address n)) in
        (omega (arith, same, (s x).0), λ q. same ∙ (s x).1 (omega arith))
  ]

  abbrev pub kept : ObjectPool lq → ℕ → ObjectPool lq
  kept o p = record o { queue = (push o.queue p).1 }

  abbrev pub dropped : ObjectPool lq → ℕ → ObjectPool lq
  dropped o p = record o { queue = (push o.queue p).1; deleted = o.deleted ++ (p ∷ []) }

  pub destruct-if :
      (o : ObjectPool lq) (p : ℕ)
      → destruct lq o p ≡ (if (push o.queue p).0 then kept o p else dropped o p)
  unfolding destruct
  destruct-if o p = refl

  pub places-kept :
      (o : ObjectPool lq) (used : List ℕ) (p : ℕ)
      → (push o.queue p).0 ≡ true
      → (x : ℕ) → places (kept o p) used x ≡ places o (p ∷ used) x
  places-kept o used p e x = omega (
    arith,
    ap (count x) (lq.push-accepted o.queue p e),
    count-append x (contents o.queue) (p ∷ []),
  )

  pub places-dropped :
      (o : ObjectPool lq) (used : List ℕ) (p : ℕ)
      → (push o.queue p).0 ≡ false
      → (x : ℕ) → places (dropped o p) used x ≡ places o (p ∷ used) x
  places-dropped o used p e x =
      omega (arith, ap (count x) (lq.push-refused o.queue p e), count-append x o.deleted (p ∷ []))

  IsSound-kept :
      (o : ObjectPool lq) (used : List ℕ) (p : ℕ)
      → (push o.queue p).0 ≡ true
      → IsSound o (p ∷ used)
      → IsSound (kept o p) used
  unfolding IsSound
  IsSound-kept o used p e s x =
      let same = places-kept o used p e x in (omega (arith, same, (s x).0), λ q. same ∙ (s x).1 q)

  IsSound-dropped :
      (o : ObjectPool lq) (used : List ℕ) (p : ℕ)
      → (push o.queue p).0 ≡ false
      → IsSound o (p ∷ used)
      → IsSound (dropped o p) used
  unfolding IsSound
  IsSound-dropped o used p e s x =
      let same = places-dropped o used p e x in
      (omega (arith, same, (s x).0), λ q. same ∙ (s x).1 q)

  -- In a sound pool `construct` gives an object that is in use nowhere, whether it is taken from the
  -- queue or new, and the pool is sound again with this object in use.
  pub construct-IsSound :
      (o : ObjectPool lq) (used : List ℕ)
      → IsSound o used
      → (count (construct lq o).0 used ≡ 0) × IsSound (construct lq o).1 ((construct lq o).0 ∷ used)
  construct-IsSound o used s =
      let next =
        elim (List-cases (contents o.queue))
          as (λ _. IsSound (construct lq o).1 ((construct lq o).0 ∷ used)) [
            | inl e ↦ moved used (sym (construct-new o e)) (IsSound-new o used s)
            | inr (p, ps, e) ↦
                moved used (sym (construct-reused o p ps e)) (IsSound-reused o used p ps e s)
          ] in
      (alone (construct lq o).1 (construct lq o).0 used next, next)

  -- `destruct` of an object in use puts it where no other object is, in the queue or among the
  -- deleted, whether the queue takes it or not, and the pool is sound without it in use.
  pub destruct-IsSound :
      (o : ObjectPool lq) (used : List ℕ) (p : ℕ)
      → IsSound o (p ∷ used)
      → IsSound (destruct lq o p) used
  destruct-IsSound o used p s = elim (Bool-cases (push o.queue p).0) [
    | inl e ↦
        subst (λ (r : ObjectPool lq). IsSound r used)
          (ap (λ (b : Bool). if b then kept o p else dropped o p) (sym e) ∙ sym (destruct-if o p))
          (IsSound-kept o used p e s)
    | inr e ↦
        subst (λ (r : ObjectPool lq). IsSound r used)
          (ap (λ (b : Bool). if b then kept o p else dropped o p) (sym e) ∙ sym (destruct-if o p))
          (IsSound-dropped o used p e s)
  ]
