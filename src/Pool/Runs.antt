-- ===== src/Pool/Runs.antt =====
-- A pool over a queue that is a list, with room for everything.
use srpg.Pool.Lifetime.{Pooled, constructed, destructed, empty, destroy-Pooled}
use srpg.Base.{◌≤◌, ◌+◌, false, ℕ, some, none, true, [], refl, List, ◌∷◌, Option, ◌≡◌, ◌++◌, arith}
use srpg.Pool.{LockfreeQueue, ObjectPool, construct, destruct, destroy}
use srpg.Pool.Fresh.{IsSound, count}

pop_list : List ℕ → Option ℕ × List ℕ
pop_list [] = (none, [])
pop_list (p ∷ ps) = (some p, ps)

pop_list-empty : (q : List ℕ) → q ≡ [] → pop_list q ≡ (none, q)
unfolding pop_list
pop_list-empty q e = rw e refl

pop_list-front :
    (q : List ℕ) (p : ℕ) (ps : List ℕ)
    → q ≡ p ∷ ps
    → ((pop_list q).0 ≡ some p) × ((pop_list q).1 ≡ ps)
unfolding pop_list
pop_list-front q p ps e = rw e (refl, refl)

refused : (q : List ℕ) (p : ℕ) → true ≡ false → q ++ (p ∷ []) ≡ q
refused q p h = ground (arith, h)

abbrev list_queue : LockfreeQueue (List ℕ)
list_queue = record {
  push = λ q p. (true, q ++ (p ∷ []));
  pop = pop_list;
  contents = λ q. q;
  push-accepted = λ q p h. refl;
  push-refused = λ q p h. refused q p h;
  pop-empty = pop_list-empty;
  pop-front = pop_list-front;
  consume_all = λ q. (q, []);
  consume_all-contents = λ q. refl;
  contents-consume_all = λ q. refl;
}

-- Object 1 lies in the queue, object 0 is in use, and object 2 was deleted.
abbrev three_objects : ObjectPool list_queue
three_objects = record { queue = 1 ∷ []; next_address = 3; deleted = 2 ∷ [] }

three_objects-IsSound : IsSound list_queue three_objects (0 ∷ [])
unfolding IsSound
three_objects-IsSound x = (ground arith, λ q. ground arith)

-- Object 0 is constructed, given back, and constructed again, and then object 1 is.
abbrev fresh_pool : ObjectPool list_queue
fresh_pool = record { queue = []; next_address = 0; deleted = [] }

abbrev reused_pool : ObjectPool list_queue
reused_pool =
    (construct list_queue
      (construct list_queue (destruct list_queue (construct list_queue fresh_pool).1 0)).1).1

reused-Pooled : Pooled list_queue reused_pool (1 ∷ 0 ∷ [])
unfolding construct destruct pop_list
reused-Pooled =
    constructed _ _
      (constructed _ _ (destructed _ [] [] 0 (constructed _ _ (empty fresh_pool refl refl refl))))

destroy-Pooled_example :
    (count 0 (1 ∷ 0 ∷ []) + count 0 reused_pool.deleted ≤ 1)
    × (count 0 (1 ∷ 0 ∷ []) + count 0 (destroy list_queue reused_pool).deleted ≡ 1)
unfolding construct destruct pop_list
destroy-Pooled_example = destroy-Pooled list_queue reused_pool (1 ∷ 0 ∷ []) reused-Pooled 0
