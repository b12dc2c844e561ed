-- ===== src/Session/Full.antt =====
-- A call when each of the 256 operation ids has a waiting call.
use srpg.Base.{
  false, ℕ, length, suc, ◌+◌, ◌≤◌, ◌<◌, ◌≡◌, subst, some, List, [], ◌∷◌, arith, ◌∙◌, flatten, ◌++◌,
  ap,
}
use srpg.Session.{
  package_or_new, Session, request, get_free_operation_id, find, emplace, response, free_id,
}
use srpg.Session.Calls.{Call, call_package}
use srpg.Session.Requests.{requested, request-unbatched}
use srpg.Session.Responses.{response-found}
use srpg.Session.Ids.{IsSortedFrom, free_id-taken, find_below}
use srpg.Archive.{Archive}
use srpg.Header.{Header}

sorted-room : (lo : ℕ) (m : List (ℕ × ℕ)) → lo ≤ 256 → IsSortedFrom lo m → lo + length m ≤ 256
sorted-room lo [] h s = omega (arith, h)
sorted-room lo ((k, q) ∷ m) h s = omega (arith, s.0, sorted-room (suc k) m (omega (arith, s.1)) s.2)

free_id-full :
    (lo : ℕ) (m : List (ℕ × ℕ))
    → IsSortedFrom lo m
    → lo + length m ≡ 256
    → 0 < length m
    → free_id lo m ≡ 0
unfolding free_id
free_id-full lo [] s full some_there = absurd (omega (arith, some_there))
free_id-full lo ((k, q) ∷ []) s full some_there = ground (arith, s.0, s.1, full)
free_id-full lo ((k, q) ∷ (k', q') ∷ m) s full some_there =
    let room = sorted-room (suc k) ((k', q') ∷ m) (omega (arith, s.1)) s.2 in
    let here : k ≡ lo = omega (arith, room, s.0, full) in
    let rest =
      free_id-full (suc lo) ((k', q') ∷ m)
        (subst (λ j. IsSortedFrom (suc j) ((k', q') ∷ m)) here s.2) (omega (arith, full))
        (omega arith) in
    (λ i. free_id lo ((here i, q) ∷ (k', q') ∷ m))
    ∙ free_id-taken lo q ((k', q') ∷ m) (omega (arith, full))
    ∙ rest

find-full : (m : List (ℕ × ℕ)) → IsSortedFrom 0 m → length m ≡ 256 → (q : ℕ) × (find 0 m ≡ some q)
unfolding find
find-full [] s full = absurd (omega (arith, full))
find-full ((k, q) ∷ m) s full =
    (q, ground (arith, s.0, sorted-room (suc k) m (omega (arith, s.1)) s.2, full))

emplace-there :
    (k q p : ℕ) (m : List (ℕ × ℕ)) → IsSortedFrom k m → find k m ≡ some q → emplace k p m ≡ m
unfolding emplace find
emplace-there k q p [] s there = ground (arith, there)
emplace-there k q p ((j, q') ∷ m) s there = ground (arith, s.0, there, find_below k (suc j) m s.2)

module _ {Invoker : Type 0} (ar : Archive) where
  -- When 256 calls wait, their map in order, a call outside of a batch is sent, in a package whose
  -- header has the operation id 0, which is that of a call that waits. Its promise is not entered, and
  -- an answer with the id of the new call gives its value to the promise of the older one.
  pub request_when_full :
      (s : Session Invoker) (c : Call) (read : List ℕ → List ℕ × List ℕ) (h : Header)
      (stream : List ℕ)
      → s.enable_batch ≡ false
      → IsSortedFrom 0 s.wait_map
      → length s.wait_map ≡ 256
      → h.operation_id ≡ get_free_operation_id Invoker s
      → (get_free_operation_id Invoker s ≡ 0)
        × (s' : Session Invoker) × (request Invoker ar s c.0 c.1 (length c.2) (flatten c.2)
            ≡ some (s.next_promise, s'))
        × (s'.sent
            ≡ s.sent ++ (call_package ar (package_or_new s.package_ptr) s.session_id 0 c ∷ []))
        × (s'.wait_map ≡ s.wait_map)
        × (older : ℕ) × (find 0 s.wait_map ≡ some older)
        × ((response Invoker read s' h stream).0.resolved
            ≡ s.resolved ++ ((older, (read stream).0) ∷ []))
  unfolding get_free_operation_id
  request_when_full s c read h stream unbatched so full e =
      let zero_id : free_id 0 s.wait_map ≡ 0 =
        free_id-full 0 s.wait_map so (omega (arith, full)) (omega (arith, full)) in
      let (older, there) = find-full s.wait_map so full in
      let s' : Session Invoker = requested ar s c in
      let same : s'.wait_map ≡ s.wait_map =
        rw (zero_id) (emplace-there 0 older s.next_promise s.wait_map so there) in
      let found : find h.operation_id s'.wait_map ≡ some older =
        ap (λ j. find j s'.wait_map) (e ∙ zero_id) ∙ ap (find 0) same ∙ there in
      (
        zero_id,
        s',
        request-unbatched ar s c unbatched,
        ap
            (λ oid.
              s.sent ++ (call_package ar (package_or_new s.package_ptr) s.session_id oid c ∷ []))
            zero_id,
        same,
        older,
        there,
        ap (λ t. t.0.resolved) (response-found ar s' read h stream older found),
      )
