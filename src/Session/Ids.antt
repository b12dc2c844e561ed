-- ===== src/Session/Ids.antt =====
-- The map of waiting calls, and the id that a new call gets.
use srpg.Base.{
  ℕ, ◌==◌, if◌then◌else◌, length, suc, ◌+◌, ◌≤◌, ◌<◌, ◌≡◌, refl, ◌≢◌, none, some, List, [], ◌∷◌,
  arith, ℕ_discrete, sym, ◌∙◌,
}
use mathlib.Core.Option.{some-ne-none}
use std.Path.{transport}
use srpg.Session.{find, emplace, erase, free_id}

-- Keys of eight bits from `lo` on, in strict order.
abbrev pub IsSortedFrom {ℓ} : {V : Type ℓ} → ℕ → List (ℕ × V) → Type 0
IsSortedFrom lo [] = Unit
IsSortedFrom lo ((k, v) ∷ m) = (lo ≤ k) × (k < 256) × IsSortedFrom (suc k) m

module _ {ℓ} {V : Type ℓ} where
  pub find_below : (j lo : ℕ) (m : List (ℕ × V)) → IsSortedFrom lo m → j < lo → find j m ≡ none
  unfolding find
  find_below j lo [] s h = refl
  find_below j lo ((k, v) ∷ m) s h = ground (arith, find_below j (suc k) m s.2)

  pub free_id-taken :
      (ret : ℕ) (v : V) (m : List (ℕ × V))
      → suc ret < 256
      → free_id ret ((ret, v) ∷ m) ≡ free_id (suc ret) m
  unfolding free_id
  free_id-taken ret v m h = ground arith

  free_id-free : (ret k : ℕ) (v : V) (m : List (ℕ × V)) → ret ≢ k → free_id ret ((k, v) ∷ m) ≡ ret
  unfolding free_id
  free_id-free ret k v m h = ground arith

  find-none : (j : ℕ) → find {V = V} j [] ≡ none
  unfolding find
  find-none j = refl

  find-here : (k j : ℕ) (v : V) (m : List (ℕ × V)) → k ≡ j → find k ((j, v) ∷ m) ≡ some v
  unfolding find
  find-here k j v m e = ground (arith, e)

  free_id-bounds :
      (ret : ℕ) (m : List (ℕ × V))
      → length m + ret < 256
      → (ret ≤ free_id ret m) × (free_id ret m < 256)
  unfolding free_id
  free_id-bounds ret [] h = (omega arith, omega arith)
  free_id-bounds ret ((k, v) ∷ m) h = ground (arith, free_id-bounds (suc ret) m)

  find-skip : (j k : ℕ) (v : V) (m : List (ℕ × V)) → j ≢ k → find j ((k, v) ∷ m) ≡ find j m
  unfolding find
  find-skip j k v m h = ground arith

  find-free_id :
      (ret : ℕ) (m : List (ℕ × V))
      → IsSortedFrom ret m
      → length m + ret < 256
      → find (free_id ret m) m ≡ none
  find-free_id ret [] s h = find-none (free_id ret [])
  find-free_id ret ((k, v) ∷ m) s h = elim (ℕ_discrete k ret) [
    | yes e ↦
        let sm : IsSortedFrom (suc ret) m = transport (λ i. IsSortedFrom (suc (e i)) m) s.2 in
        let b = free_id-bounds (suc ret) m (omega arith) in
        let t = free_id-taken ret v m (omega arith) in
        (λ i. find (free_id ret ((e i, v) ∷ m)) ((e i, v) ∷ m))
        ∙ (λ i. find (t i) ((ret, v) ∷ m))
        ∙ find-skip (free_id (suc ret) m) ret v m (omega arith)
        ∙ find-free_id (suc ret) m sm (omega arith)
    | no e ↦
        (λ i. find (free_id-free ret k v m (λ q. e (sym q)) i) ((k, v) ∷ m))
        ∙ find-skip ret k v m (λ q. e (sym q))
        ∙ find_below ret (suc k) m s.2 (omega arith)
  ]

  -- The ids below the result are taken.
  pub find-lt-free_id :
      (ret : ℕ) (m : List (ℕ × V))
      → length m + ret < 256
      → (k : ℕ) → ret ≤ k
      → k < free_id ret m
      → find k m ≢ none
  unfolding free_id
  find-lt-free_id ret [] h k p q e = absurd (omega arith)
  find-lt-free_id ret ((j, v) ∷ m) h k p q e = elim (ℕ_discrete j ret) [
    | yes ej ↦ elim (ℕ_discrete k j) [
      | yes ek ↦ some-ne-none v (sym (find-here k j v m ek) ∙ e)
      | no ek ↦
          let t : free_id ret ((j, v) ∷ m) ≡ free_id (suc ret) m =
            (λ i. free_id ret ((ej i, v) ∷ m)) ∙ free_id-taken ret v m (omega arith) in
          find-lt-free_id (suc ret) m (omega arith) k (omega arith) (omega (arith, t))
            (sym (find-skip k j v m ek) ∙ e)
    ]
    | no ej ↦ let t = free_id-free ret j v m (λ q'. ej (sym q')) in absurd (omega (arith, t))
  ]

  pub free_id_lem :
      (ret : ℕ) (m : List (ℕ × V))
      → IsSortedFrom ret m
      → length m + ret < 256
      → (ret ≤ free_id ret m)
        × (free_id ret m < 256)
        × (find (free_id ret m) m ≡ none)
        × ((k : ℕ) → ret ≤ k → k < free_id ret m → find k m ≢ none)
  free_id_lem ret m s h = (
    (free_id-bounds ret m h).0,
    (free_id-bounds ret m h).1,
    find-free_id ret m s h,
    find-lt-free_id ret m h,
  )

  pub find-emplace :
      (j k : ℕ) (v : V) (m : List (ℕ × V))
      → find k m ≡ none
      → find j (emplace k v m) ≡ (if j == k then some v else find j m)
  unfolding find emplace
  find-emplace j k v [] h = refl
  find-emplace j k v ((i, w) ∷ m) h = ground (arith, find-emplace j k v m)

  pub emplace-IsSortedFrom :
      (k lo : ℕ) (v : V) (m : List (ℕ × V))
      → lo ≤ k
      → k < 256
      → IsSortedFrom lo m
      → IsSortedFrom lo (emplace k v m)
  unfolding emplace
  emplace-IsSortedFrom k lo v [] h hk s = (h, hk, tt)
  emplace-IsSortedFrom k lo v ((i, w) ∷ m) h hk s =
      ground (arith, emplace-IsSortedFrom k (suc i) v m)

  -- `erase` takes the entry of its key away, and no other.
  pub find-erase :
      (j k lo : ℕ) (m : List (ℕ × V))
      → IsSortedFrom lo m
      → find j (erase k m) ≡ (if j == k then none else find j m)
  unfolding find erase
  find-erase j k lo [] s = ground arith
  find-erase j k lo ((i, w) ∷ m) s =
      ground (arith, find-erase j k (suc i) m s.2, find_below k (suc i) m s.2)
