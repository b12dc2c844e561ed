-- ===== src/Pool.antt =====
-- common/rrpc/object_pool.hpp: pools that hand out objects again.
-- The lock-free queue of Boost is a parameter. An object is its address; `new` gives an address that
-- was never given before, and `delete` is recorded.
pub mod Fresh
pub mod Lifetime
mod Runs
use srpg.Base.{
  ℕ, some, none, [], Bool, List, ◌+◌, if◌then◌else◌, Option, ◌++◌, ◌≡◌, ◌∷◌, true, false,
}

-- `boost::lockfree::queue<T*>`: a push may be refused, and a pop finds nothing when it is empty.
pub record LockfreeQueue (Q : Type 0) : Type 0 where
  pub push : Q → ℕ → Bool × Q
  pub pop : Q → Option ℕ × Q
  pub contents : Q → List ℕ
  pub push-accepted :
      (q : Q) (p : ℕ) → (push q p).0 ≡ true → contents (push q p).1 ≡ contents q ++ (p ∷ [])
  pub push-refused : (q : Q) (p : ℕ) → (push q p).0 ≡ false → contents (push q p).1 ≡ contents q
  pub pop-empty : (q : Q) → contents q ≡ [] → pop q ≡ (none, q)
  pub pop-front :
      (q : Q) (p : ℕ) (ps : List ℕ)
      → contents q ≡ p ∷ ps
      → ((pop q).0 ≡ some p) × (contents (pop q).1 ≡ ps)
  -- `consume_all(f)`: the objects that `f` is called with.
  pub consume_all : Q → List ℕ × Q
  pub consume_all-contents : (q : Q) → (consume_all q).0 ≡ contents q
  pub contents-consume_all : (q : Q) → contents (consume_all q).1 ≡ []

module _ {Q : Type 0} (lq : LockfreeQueue Q) where
  open lq use {push, pop, contents, consume_all}

  -- `object_pool`, with the allocator's next address and the deleted objects.
  pub record ObjectPool : Type 0 where
    pub queue : Q
    pub next_address : ℕ
    pub deleted : List ℕ

  -- `construct(args...)`; the arguments matter for a new object only.
  pub construct : ObjectPool → ℕ × ObjectPool
  construct o = elim (pop o.queue).0 [
    | some p ↦ (p, record o { queue = (pop o.queue).1 })
    | none ↦
        (o.next_address, record o { queue = (pop o.queue).1; next_address = o.next_address + 1 })
  ]

  -- `destruct(p)`
  pub destruct : ObjectPool → ℕ → ObjectPool
  destruct o p =
      if (push o.queue p).0
      then record o { queue = (push o.queue p).1 }
      else record o { queue = (push o.queue p).1; deleted = o.deleted ++ (p ∷ []) }

  -- The deleter of `object_pool_strong::construct_with_auto_destruct`: `alive` is whether the pool is
  -- still there. The one of `object_pool` never asks.
  pub auto_destruct : Bool → ObjectPool → ℕ → ObjectPool
  unfolding destruct
  auto_destruct alive o p =
      if alive then destruct o p else record o { deleted = o.deleted ++ (p ∷ []) }

  -- `~object_pool()`
  pub destroy : ObjectPool → ObjectPool
  destroy o =
      let all = consume_all o.queue in record o { queue = all.1; deleted = o.deleted ++ all.0 }
