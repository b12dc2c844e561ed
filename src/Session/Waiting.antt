-- ===== src/Session/Waiting.antt =====
-- The promises of a session: what any sequence of its operations keeps.
use srpg.Base.{
  true, false, ℕ, ◌==◌, if◌then◌else◌, ◌+◌, ◌%◌, ◌≤◌, ◌<◌, ◌≡◌, some, List, [], ◌∷◌, ◌++◌, arith,
  Bool, suc, ltb,
}
use srpg.Session.{find, emplace, erase, free_id}
use srpg.Session.Ids.{IsSortedFrom, emplace-IsSortedFrom}

-- How often a number is in a list.
pub times : ℕ → List ℕ → ℕ
times p [] = 0
times p (q ∷ qs) = (if p == q then 1 else 0) + times p qs

abbrev pub firsts : List (ℕ × List ℕ) → List ℕ
firsts [] = []
firsts ((p, _) ∷ r) = p ∷ firsts r

-- The promises of a map of waiting calls.
abbrev pub seconds : List (ℕ × ℕ) → List ℕ
seconds [] = []
seconds ((_, p) ∷ m) = p ∷ seconds m

times-resolved :
    (p q : ℕ) (bytes : List ℕ) (r : List (ℕ × List ℕ))
    → times p (firsts (r ++ ((q, bytes) ∷ []))) ≡ times p (firsts r) + (if p == q then 1 else 0)
unfolding times
times-resolved p q bytes [] = ground arith
times-resolved p q bytes ((q', _) ∷ r) = omega (arith, times-resolved p q bytes r)

times-emplace :
    (p k q : ℕ) (m : List (ℕ × ℕ))
    → times p (seconds (emplace k q m)) ≤ times p (seconds m) + (if p == q then 1 else 0)
unfolding times emplace
times-emplace p k q [] = ground arith
times-emplace p k q ((j, q') ∷ m) = ground (arith, times-emplace p k q m)

times-erase :
    (p k q : ℕ) (m : List (ℕ × ℕ))
    → find k m ≡ some q
    → times p (seconds m) ≡ times p (seconds (erase k m)) + (if p == q then 1 else 0)
unfolding times find erase
times-erase p k q [] h = ground (arith, h)
times-erase p k q ((j, q') ∷ m) h = ground (arith, h, times-erase p k q m)

IsSortedFrom-mono : (lo hi : ℕ) (m : List (ℕ × ℕ)) → lo ≤ hi → IsSortedFrom hi m → IsSortedFrom lo m
IsSortedFrom-mono lo hi [] h s = tt
IsSortedFrom-mono lo hi ((j, q) ∷ m) h s = (omega (arith, h, s.0), s.1, s.2)

erased_if :
    (b : Bool) (lo j q : ℕ) (m n : List (ℕ × ℕ))
    → IsSortedFrom lo ((j, q) ∷ m)
    → IsSortedFrom (suc j) n
    → IsSortedFrom lo (if b then m else (j, q) ∷ n)
erased_if true lo j q m n s sn = IsSortedFrom-mono lo (suc j) m (omega (arith, s.0)) s.2
erased_if false lo j q m n s sn = (s.0, s.1, sn)

pub IsSortedFrom-erase :
    (k lo : ℕ) (m : List (ℕ × ℕ)) → IsSortedFrom lo m → IsSortedFrom lo (erase k m)
unfolding erase
IsSortedFrom-erase k lo [] s = tt
IsSortedFrom-erase k lo ((j, q) ∷ m) s =
    erased_if (k == j) lo j q m (erase k m) s (IsSortedFrom-erase k (suc j) m s.2)

pub free_id-lt : (ret : ℕ) (m : List (ℕ × ℕ)) → ret < 256 → free_id ret m < 256
unfolding free_id
free_id-lt ret [] h = omega (arith, h)
free_id-lt ret ((j, q) ∷ m) h = ground (arith, h, free_id-lt ((ret + 1) % 256) m)

-- The map of waiting calls is in order, and each promise that was made is waited for or has been
-- given a value, at most once in all; a promise that was not made is in neither place.
pub record Promises (m : List (ℕ × ℕ)) (next : ℕ) (r : List (ℕ × List ℕ)) : Type 0 where
  pub sorted : IsSortedFrom 0 m
  pub once : (p : ℕ) → times p (firsts r) + times p (seconds m) ≤ (if ltb p next then 1 else 0)

-- A new promise waits.
pub Promises-emplace :
    (k : ℕ) (m : List (ℕ × ℕ)) (next : ℕ) (r : List (ℕ × List ℕ))
    → k < 256
    → Promises m next r
    → Promises (emplace k next m) (next + 1) r
Promises-emplace k m next r h ps = record {
  sorted = emplace-IsSortedFrom k 0 next m (omega arith) h ps.sorted;
  once = λ p. ground (arith, ps.once p, times-emplace p k next m);
}

-- A promise is given its value.
pub Promises-resolve :
    (k q : ℕ) (bytes : List ℕ) (m : List (ℕ × ℕ)) (next : ℕ) (r : List (ℕ × List ℕ))
    → find k m ≡ some q
    → Promises m next r
    → Promises (erase k m) next (r ++ ((q, bytes) ∷ []))
Promises-resolve k q bytes m next r h ps = record {
  sorted = IsSortedFrom-erase k 0 m ps.sorted;
  once = λ p. omega (arith, ps.once p, times-erase p k q m h, times-resolved p q bytes r);
}

pub nothing_yet : Promises [] 0 []
unfolding times
nothing_yet = record { sorted = tt; once = λ p. omega arith }
