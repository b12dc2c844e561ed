-- ===== src/Session/Responses.antt =====
-- Calls that wait, and their answers.
use srpg.Base.{
  refl, ℕ, ap, List, ◌≡◌, length, flatten, some, ◌++◌, ◌∷◌, if◌then◌else◌, none, [], arith, Bool,
  ◌∙◌, true, false, ◌<◌, ◌==◌, ℕ_discrete,
}
use srpg.Header.{Header}
use srpg.Base.Fallible.{◌>>=◌}
use srpg.Session.{
  Session, get_free_operation_id, send, request, response, wait, find, erase, emplace,
}
use srpg.Session.Ids.{IsSortedFrom, free_id_lem, find-emplace, emplace-IsSortedFrom, find-erase}
use srpg.Session.Calls.{Call, send_lem}
use srpg.Archive.{Archive}

if-both {ℓ ℓ'} :
    {A : Type ℓ} {B : Type ℓ'} (f : A → B) (b : Bool) (x y : A) (z : B)
    → f x ≡ z
    → f y ≡ z
    → f (if b then x else y) ≡ z
if-both f true x y z p q = p
if-both f false x y z p q = q

-- To take away the entry that was put in leaves the map as it was.
pub unchanged :
    (j k p : ℕ) (m : List (ℕ × ℕ))
    → find k m ≡ none
    → (if j == k then none else find j (emplace k p m)) ≡ find j m
unchanged j k p m h = elim (ℕ_discrete j k) [
  | yes e ↦ ground (arith, e, h)
  | no e ↦ ground (arith, e, find-emplace j k p m h)
]

module _ {Invoker : Type 0} (ar : Archive) where
  pub send-wait_map :
      (s : Session Invoker) (c : Call)
      → (s' : Session Invoker) × (send Invoker ar s c.0 c.1 (length c.2) (flatten c.2)
          ≡ some (get_free_operation_id Invoker s, s'))
        × (s'.wait_map ≡ s.wait_map)
        × (s'.next_promise ≡ s.next_promise)
        × (s'.resolved ≡ s.resolved)
  send-wait_map s c = (
    _,
    send_lem ar s c,
    if-both (λ (r : Session Invoker). r.wait_map) s.enable_batch _ _ s.wait_map refl refl,
    if-both (λ (r : Session Invoker). r.next_promise) s.enable_batch _ _ s.next_promise refl refl,
    if-both (λ (r : Session Invoker). r.resolved) s.enable_batch _ _ s.resolved refl refl,
  )

  pub response-found :
      (s : Session Invoker) (read : List ℕ → List ℕ × List ℕ) (h : Header) (stream : List ℕ) (p : ℕ)
      → find h.operation_id s.wait_map ≡ some p
      → response Invoker read s h stream ≡ (
        record s {
          wait_map = erase h.operation_id s.wait_map;
          resolved = s.resolved ++ ((p, (read stream).0) ∷ []);
        },
        (read stream).1,
      )
  unfolding response
  response-found s read h stream p e = rw (response, e) refl

  -- A call that waits for an answer never meets a null package, and gets an operation id that no
  -- other waiting call has. When the answer with this id arrives, the value that is read from it
  -- goes to the promise of this call and to no other, the id is free again, the other calls still
  -- wait for theirs, and the stream continues after the value. The map of waiting calls is in order
  -- and has fewer than 256 entries.
  pub response-request :
      (s : Session Invoker) (c : Call) (read : List ℕ → List ℕ × List ℕ) (h : Header)
      (stream : List ℕ)
      → IsSortedFrom 0 s.wait_map
      → length s.wait_map < 256
      → h.operation_id ≡ get_free_operation_id Invoker s
      → (s' : Session Invoker) × (request Invoker ar s c.0 c.1 (length c.2) (flatten c.2)
          ≡ some (s.next_promise, s'))
        × (find h.operation_id s.wait_map ≡ none)
        × ((response Invoker read s' h stream).0.resolved
            ≡ s.resolved ++ ((s.next_promise, (read stream).0) ∷ []))
        × ((response Invoker read s' h stream).1 ≡ (read stream).1)
        × ((j : ℕ) → find j (response Invoker read s' h stream).0.wait_map ≡ find j s.wait_map)
  unfolding request wait response get_free_operation_id
  response-request s c read h stream so hn e =
      let oid = get_free_operation_id Invoker s in
      let (s1, sent, w, n, r) = send-wait_map s c in
      let free = free_id_lem 0 s.wait_map so (omega arith) in
      let p = s.next_promise in
      let here : find oid (emplace oid p s.wait_map) ≡ some p =
        find-emplace oid oid p s.wait_map free.2 ∙ ground arith in
      let kept : (j : ℕ) → find j (erase oid (emplace oid p s.wait_map)) ≡ find j s.wait_map = λ j.
        find-erase j oid 0 (emplace oid p s.wait_map)
          (emplace-IsSortedFrom oid 0 p s.wait_map (omega arith) free.1 so)
        ∙ unchanged j oid p s.wait_map free.2 in
      let s' : Session Invoker = (wait Invoker s1 oid).1 in
      let found : find h.operation_id s'.wait_map ≡ some p = rw (e, w, n) here in
      let answered = response-found s' read h stream p found in
      (
        s',
        ap (λ o. ◌>>=◌ {B = ℕ × Session Invoker} o (λ t. some (wait Invoker t.1 t.0))) sent
            ∙ rw (n) refl,
        rw (e) free.2,
        ap (λ t. t.0.resolved) answered ∙ rw (r) refl,
        ap (λ t. t.1) answered,
        λ j. ap (λ t. find j t.0.wait_map) answered ∙ rw (e, w, n) (kept j),
      )
