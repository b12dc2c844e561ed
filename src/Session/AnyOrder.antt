-- ===== src/Session/AnyOrder.antt =====
-- Calls that wait together, and their answers in any order.
use srpg.Base.{
  zero, suc, inl, inr, ℕ, length, zero, suc, ◌+◌, ◌≤◌, ◌≡◌, ◌≢◌, ◌⊎◌, inl, inr, some, List, [], ◌∷◌,
  arith, ◌<◌, ap, ◌∙◌, none, ℕ_discrete, sym,
}
use mathlib.Core.Option.{some-ne-none}
use srpg.Session.{find, emplace, erase, free_id}
use srpg.Session.Ids.{IsSortedFrom, find-erase, find-emplace, free_id_lem, emplace-IsSortedFrom}
use srpg.Header.{Header}

-- The operation id and the promise of each of the next calls, by the map of waiting calls.
abbrev pub issued : ℕ → ℕ → List (ℕ × ℕ) → List (ℕ × ℕ)
issued zero next m = []
issued (suc n) next m = (free_id 0 m, next) ∷ issued n (next + 1) (emplace (free_id 0 m) next m)

-- The map after these calls.
abbrev pub issued_map : ℕ → ℕ → List (ℕ × ℕ) → List (ℕ × ℕ)
issued_map zero next m = m
issued_map (suc n) next m = issued_map n (next + 1) (emplace (free_id 0 m) next m)

-- An answer: its header, the stream from it on, and the promise that it is for.
abbrev pub Answer : Type 0
Answer = Header × List ℕ × ℕ

abbrev pub IsAmong : ℕ → ℕ → List (ℕ × ℕ) → Type 0
IsAmong k p [] = ⊥
IsAmong k p ((j, q) ∷ l) = ((k ≡ j) × (p ≡ q)) ⊎ IsAmong k p l

-- Each answer is for one of the calls.
abbrev pub AreAmong : List Answer → List (ℕ × ℕ) → Type 0
AreAmong [] l = Unit
AreAmong (a ∷ more) l = IsAmong a.0.operation_id a.2 l × AreAmong more l

abbrev pub IsAbsent : ℕ → List Answer → Type 0
IsAbsent k [] = Unit
IsAbsent k (a ∷ more) = (a.0.operation_id ≢ k) × IsAbsent k more

-- No two answers have the same operation id.
abbrev pub AreDistinct : List Answer → Type 0
AreDistinct [] = Unit
AreDistinct (a ∷ more) = IsAbsent a.0.operation_id more × AreDistinct more

abbrev pub AreFound : List Answer → List (ℕ × ℕ) → Type 0
AreFound [] m = Unit
AreFound (a ∷ more) m = (find a.0.operation_id m ≡ some a.2) × AreFound more m

pub length-emplace : (k q : ℕ) (m : List (ℕ × ℕ)) → length (emplace k q m) ≤ length m + 1
unfolding emplace
length-emplace k q [] = omega arith
length-emplace k q ((j, q') ∷ m) = ground (arith, length-emplace k q m)

module _ (m : List (ℕ × ℕ)) (so : IsSortedFrom 0 m) (small : length m < 256) where
  abbrev next_id : ℕ
  next_id = free_id 0 m

  next_id-free : (next_id < 256) × (find next_id m ≡ none)
  next_id-free = let free = free_id_lem 0 m so (omega (arith, small)) in (free.1, free.2)

  pub emplace-sorted : (p : ℕ) → IsSortedFrom 0 (emplace next_id p m)
  emplace-sorted p = emplace-IsSortedFrom next_id 0 p m (omega arith) next_id-free.0 so

  find-new : (p : ℕ) → find next_id (emplace next_id p m) ≡ some p
  find-new p = find-emplace next_id next_id p m next_id-free.1 ∙ ground arith

  find-old : (k q p : ℕ) → find k m ≡ some q → find k (emplace next_id p m) ≡ some q
  find-old k q p there = find-emplace k next_id p m next_id-free.1 ∙ elim (ℕ_discrete k next_id) [
    | yes e ↦ absurd (some-ne-none q (sym there ∙ ap (λ j. find j m) e ∙ next_id-free.1))
    | no ne ↦ ground (arith, ne, there)
  ]

-- A call that waits goes on waiting for its promise while others are made.
find-issued_map :
    (n next : ℕ) (m : List (ℕ × ℕ)) (k p : ℕ)
    → IsSortedFrom 0 m
    → length m + n ≤ 256
    → find k m ≡ some p
    → find k (issued_map n next m) ≡ some p
find-issued_map zero next m k p so room there = there
find-issued_map (suc n) next m k p so room there =
    let small : length m < 256 = omega (arith, room) in
    find-issued_map n (next + 1) (emplace (free_id 0 m) next m) k p (emplace-sorted m so small next)
      (omega (arith, room, length-emplace (free_id 0 m) next m))
      (find-old m so small k p next there)

IsAmong-find :
    (n next : ℕ) (m : List (ℕ × ℕ)) (k p : ℕ)
    → IsSortedFrom 0 m
    → length m + n ≤ 256
    → IsAmong k p (issued n next m)
    → find k (issued_map n next m) ≡ some p
IsAmong-find zero next m k p so room h = absurd h
IsAmong-find (suc n) next m k p so room (inl (e, e')) =
    let small : length m < 256 = omega (arith, room) in
    find-issued_map n (next + 1) (emplace (free_id 0 m) next m) k p (emplace-sorted m so small next)
      (omega (arith, room, length-emplace (free_id 0 m) next m))
      (ap (λ j. find j (emplace (free_id 0 m) next m)) e
        ∙ find-new m so small next
        ∙ ap some (sym e'))
IsAmong-find (suc n) next m k p so room (inr h) =
    IsAmong-find n (next + 1) (emplace (free_id 0 m) next m) k p
      (emplace-sorted m so (omega (arith, room)) next)
      (omega (arith, room, length-emplace (free_id 0 m) next m)) h

pub IsSortedFrom-issued_map :
    (n next : ℕ) (m : List (ℕ × ℕ))
    → IsSortedFrom 0 m
    → length m + n ≤ 256
    → IsSortedFrom 0 (issued_map n next m)
IsSortedFrom-issued_map zero next m so room = so
IsSortedFrom-issued_map (suc n) next m so room =
    IsSortedFrom-issued_map n (next + 1) (emplace (free_id 0 m) next m)
      (emplace-sorted m so (omega (arith, room)) next)
      (omega (arith, room, length-emplace (free_id 0 m) next m))

pub AreAmong-found :
    (n next : ℕ) (m : List (ℕ × ℕ)) (answers : List Answer)
    → IsSortedFrom 0 m
    → length m + n ≤ 256
    → AreAmong answers (issued n next m)
    → AreFound answers (issued_map n next m)
AreAmong-found n next m [] so room h = tt
AreAmong-found n next m (a ∷ more) so room h = (
  IsAmong-find n next m a.0.operation_id a.2 so room h.0,
  AreAmong-found n next m more so room h.1,
)

-- To take one entry away leaves those of other answers.
pub AreFound-erase :
    (k : ℕ) (m : List (ℕ × ℕ)) (answers : List Answer)
    → IsSortedFrom 0 m
    → IsAbsent k answers
    → AreFound answers m
    → AreFound answers (erase k m)
AreFound-erase k m [] so absent found = tt
AreFound-erase k m (a ∷ more) so absent found = (
  find-erase a.0.operation_id k 0 m so ∙ ground (arith, absent.0, found.0),
  AreFound-erase k m more so absent.1 found.1,
)
