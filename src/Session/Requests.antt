-- ===== src/Session/Requests.antt =====
-- A call outside of a batch, and the entry that it leaves in the map of waiting calls.
use mathlib.Core.Option.{some-injective}
use srpg.Base.{
  true, sym, refl, ◌==◌, Option, ℕ, false, some, [], ap, ◌∙◌, List, ◌≡◌, none, length, arith,
  flatten, ◌<◌, ◌++◌, Bool, ◌∷◌, ◌+◌, if◌then◌else◌, refl,
}
use srpg.Session.{
  Session, request, request_void, get_free_operation_id, wait, find, emplace, assign, erase,
}
use srpg.Session.Calls.{Call, package_with, send_lem}
use srpg.Session.Responses.{unchanged}
use srpg.Base.Fallible.{◌>>=◌}
use srpg.Session.Ids.{IsSortedFrom, free_id_lem, find-emplace, find-erase, emplace-IsSortedFrom}
use srpg.Archive.{Archive}

pub find-assign :
    {V : Type 0} (k : ℕ) (v w : V) (m : List (ℕ × V))
    → find k m ≡ some w
    → find k (assign k v m) ≡ some v
unfolding find assign
find-assign k v w [] h = ground arith
find-assign k v w ((j, u) ∷ m) h = ground (arith, find-assign k v w m)

assigned_if :
    {V : Type 0} (b : Bool) (j : ℕ) (u v : V) (m n : List (ℕ × V)) (o : Option V)
    → (if b then some u else o) ≡ some v
    → (o ≡ some v → n ≡ m)
    → (if b then (j, v) ∷ m else (j, u) ∷ n) ≡ (j, u) ∷ m
assigned_if true j u v m n o h rest = ap (λ w. (j, w) ∷ m) (sym (some-injective u v h))
assigned_if false j u v m n o h rest = ap (λ l. (j, u) ∷ l) (rest h)

pub assign-same :
    {V : Type 0} (k : ℕ) (v : V) (m : List (ℕ × V)) → find k m ≡ some v → assign k v m ≡ m
unfolding find assign
assign-same k v [] h = refl
assign-same k v ((j, u) ∷ m) h =
    assigned_if (k == j) j u v m (assign k v m) (find k m) h (assign-same k v m)

module _ {Invoker : Type 0} (ar : Archive) (s : Session Invoker) (c : Call) where
  -- The session after a call that waits, outside of a batch.
  abbrev pub requested : Session Invoker
  requested = record s {
    package_ptr = none;
    sent = s.sent ++ (package_with ar s c ∷ []);
    wait_map = emplace (get_free_operation_id Invoker s) s.next_promise s.wait_map;
    next_promise = s.next_promise + 1;
  }

  -- The session after a call that does not wait, outside of a batch.
  abbrev pub posted : Session Invoker
  posted = record s { package_ptr = none; sent = s.sent ++ (package_with ar s c ∷ []) }

  pub request_void-unbatched :
      s.enable_batch ≡ false
      → request_void Invoker ar s c.0 c.1 (length c.2) (flatten c.2) ≡ some posted
  unfolding request_void
  request_void-unbatched e =
      ap (λ o. ◌>>=◌ {B = Session Invoker} o (λ (t : ℕ × Session Invoker). some t.1))
        (send_lem ar s c
          ∙ ap
              (λ (b : Bool). some (
                get_free_operation_id Invoker s,
                if b then record s { package_ptr = some (package_with ar s c) } else record s {
                  package_ptr = none;
                  sent = s.sent ++ (package_with ar s c ∷ []);
                },
              ))
              e)

  pub request-unbatched :
      s.enable_batch ≡ false
      → request Invoker ar s c.0 c.1 (length c.2) (flatten c.2) ≡ some (s.next_promise, requested)
  unfolding request wait
  request-unbatched e =
      ap (λ o. ◌>>=◌ {B = ℕ × Session Invoker} o (λ t. some (wait Invoker t.1 t.0)))
        (send_lem ar s c
          ∙ ap
              (λ (b : Bool). some (
                get_free_operation_id Invoker s,
                if b then record s { package_ptr = some (package_with ar s c) } else record s {
                  package_ptr = none;
                  sent = s.sent ++ (package_with ar s c ∷ []);
                },
              ))
              e)

  pub find-requested :
      IsSortedFrom 0 s.wait_map
      → length s.wait_map < 256
      → find (get_free_operation_id Invoker s) requested.wait_map ≡ some s.next_promise
  unfolding get_free_operation_id
  find-requested so h =
      let oid = get_free_operation_id Invoker s in
      let free = free_id_lem 0 s.wait_map so (omega arith) in
      find-emplace oid oid s.next_promise s.wait_map free.2 ∙ ground arith

  pub get_free_operation_id-lt :
      IsSortedFrom 0 s.wait_map → length s.wait_map < 256 → get_free_operation_id Invoker s < 256
  unfolding get_free_operation_id
  get_free_operation_id-lt so h = (free_id_lem 0 s.wait_map so (omega arith)).1

  -- The answer to the call leaves the other calls waiting, as they waited before it.
  pub find-answered :
      IsSortedFrom 0 s.wait_map
      → length s.wait_map < 256
      → (j : ℕ)
      → find j (erase (get_free_operation_id Invoker s) requested.wait_map) ≡ find j s.wait_map
  unfolding get_free_operation_id
  find-answered so h j =
      let oid = get_free_operation_id Invoker s in
      let p = s.next_promise in
      let free = free_id_lem 0 s.wait_map so (omega arith) in
      find-erase j oid 0 (emplace oid p s.wait_map)
        (emplace-IsSortedFrom oid 0 p s.wait_map (omega arith) free.1 so)
      ∙ unchanged j oid p s.wait_map free.2
