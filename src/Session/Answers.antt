-- ===== src/Session/Answers.antt =====
-- A row of calls, and the answers to them.
use srpg.Base.{
  none, false, ℕ, length, flatten, ◌+◌, ◌≤◌, ◌≡◌, refl, sym, subst, ◌∙◌, Option, List, [], ◌∷◌,
  ◌++◌, map, append-nil, append_assoc, some, ap, ◌<◌, arith,
}
use srpg.Session.{package_or_new, Session, request, get_free_operation_id, erase, response, free_id}
use srpg.Session.Calls.{Call, call_package, package_with}
use srpg.Session.Requests.{requested, request-unbatched}
use srpg.Package.{Package, new_package}
use srpg.Session.Responses.{response-found}
use srpg.Session.Waiting.{IsSortedFrom-erase}
use srpg.Session.AnyOrder.{
  Answer, AreAmong, AreFound, AreDistinct, issued, issued_map, length-emplace, emplace-sorted,
  AreAmong-found, AreFound-erase, IsSortedFrom-issued_map,
}
use srpg.Base.Fallible.{◌>>=◌}
use srpg.Session.Ids.{IsSortedFrom}
use srpg.Archive.{Archive}

module _ (ar : Archive) where
  -- The packages of a row of calls outside of a batch, one for each, with its operation id.
  abbrev pub packages : ℕ → List (ℕ × ℕ) → List Call → List Package
  packages session_id [] cs = []
  packages session_id ids [] = []
  packages session_id (i ∷ ids) (c ∷ cs) =
      call_package ar new_package session_id i.0 c ∷ packages session_id ids cs

module _ {Invoker : Type 0} (ar : Archive) where
  -- The calls are made one after the other; the result is their promises.
  unfoldable pub request_all : Session Invoker → List Call → Option (List ℕ × Session Invoker)
  request_all s [] = some ([], s)
  request_all s (c ∷ cs) = do
    (p, s') ← request Invoker ar s c.0 c.1 (length c.2) (flatten c.2)
    (ps, s'') ← request_all s' cs
    some (p ∷ ps, s'')

  -- The answers arrive one after the other.
  unfoldable pub answer_all :
      (List ℕ → List ℕ × List ℕ) → Session Invoker → List Answer → Session Invoker
  answer_all read s [] = s
  answer_all read s (a ∷ more) = answer_all read (response Invoker read s a.0 a.1).0 more

  package_with-free :
      (s : Session Invoker) (c : Call)
      → s.package_ptr ≡ none
      → package_with ar s c ≡ call_package ar new_package s.session_id (free_id 0 s.wait_map) c
  unfolding get_free_operation_id package_or_new
  package_with-free s c e =
      ap (λ o. call_package ar (package_or_new o) s.session_id (free_id 0 s.wait_map) c) e

  -- What a row of calls changes in the fields that answers use, and what it sends.
  request_all-issued :
      (s : Session Invoker) (cs : List Call)
      → s.enable_batch ≡ false
      → s.package_ptr ≡ none
      → IsSortedFrom 0 s.wait_map
      → length s.wait_map + length cs ≤ 256
      → (s' : Session Invoker) × (request_all s cs
          ≡ some (map (λ i. i.1) (issued (length cs) s.next_promise s.wait_map), s'))
        × (s'.wait_map ≡ issued_map (length cs) s.next_promise s.wait_map)
        × (s'.resolved ≡ s.resolved)
        × (s'.sent
            ≡ s.sent ++ packages ar s.session_id (issued (length cs) s.next_promise s.wait_map) cs)
  unfolding request_all get_free_operation_id
  request_all-issued s [] b f so room = (s, refl, refl, refl, sym (append-nil s.sent))
  request_all-issued s (c ∷ cs) b f so room =
      let small : length s.wait_map < 256 = omega (arith, room) in
      let s1 : Session Invoker = requested ar s c in
      let (s2, rest, w2, r2, t2) =
        request_all-issued s1 cs b refl (emplace-sorted s.wait_map so small s.next_promise)
          (omega (arith, room, length-emplace (free_id 0 s.wait_map) s.next_promise s.wait_map)) in
      let later = packages ar s.session_id (issued (length cs) s1.next_promise s1.wait_map) cs in
      (
        s2,
        ap
              (λ o. ◌>>=◌ {B = List ℕ × Session Invoker} o (λ t.
                ◌>>=◌ {B = List ℕ × Session Invoker} (request_all t.1 cs)
                  (λ u. some (t.0 ∷ u.0, u.1))))
              (request-unbatched ar s c b)
            ∙ ap
                (λ o.
                  ◌>>=◌ {B = List ℕ × Session Invoker} o (λ u. some (s.next_promise ∷ u.0, u.1)))
                rest,
        w2,
        r2,
        t2
            ∙ append_assoc s.sent (package_with ar s c ∷ []) later
            ∙ ap (λ p. s.sent ++ (p ∷ later)) (package_with-free s c f),
      )

  answer_all-found :
      (read : List ℕ → List ℕ × List ℕ) (s : Session Invoker) (answers : List Answer)
      → IsSortedFrom 0 s.wait_map
      → AreDistinct answers
      → AreFound answers s.wait_map
      → (answer_all read s answers).resolved ≡ s.resolved ++ map (λ a. (a.2, (read a.1).0)) answers
  unfolding answer_all
  answer_all-found read s [] so distinct found = sym (append-nil s.resolved)
  answer_all-found read s (a ∷ more) so distinct found =
      let k = a.0.operation_id in
      let s1 : Session Invoker = record s {
        wait_map = erase k s.wait_map;
        resolved = s.resolved ++ ((a.2, (read a.1).0) ∷ []);
      } in
      ap (λ (t : Session Invoker × List ℕ). (answer_all read t.0 more).resolved)
        (response-found ar s read a.0 a.1 a.2 found.0)
      ∙ answer_all-found read s1 more (IsSortedFrom-erase k 0 s.wait_map so) distinct.1
          (AreFound-erase k s.wait_map more so distinct.0 found.1)
      ∙ append_assoc s.resolved ((a.2, (read a.1).0) ∷ []) (map (λ b. (b.2, (read b.1).0)) more)

  -- Calls that wait for answers are made one after the other, outside of a batch and with no package
  -- begun, while the map of waiting calls is in order and has room for them: each is sent in a
  -- package of its own, whose header has the operation id that its promise waits under, and they get
  -- promises of their own. Then answers arrive, in any order: each has the operation id of one of
  -- these calls and no two have the same. The value of each answer goes to the promise of the call
  -- with its id, in the order of arrival, and to no other promise.
  pub answer_all-request_all :
      (s : Session Invoker) (cs : List Call) (read : List ℕ → List ℕ × List ℕ)
      (answers : List Answer)
      → s.enable_batch ≡ false
      → s.package_ptr ≡ none
      → IsSortedFrom 0 s.wait_map
      → length s.wait_map + length cs ≤ 256
      → AreAmong answers (issued (length cs) s.next_promise s.wait_map)
      → AreDistinct answers
      → (s' : Session Invoker) × (request_all s cs
          ≡ some (map (λ i. i.1) (issued (length cs) s.next_promise s.wait_map), s'))
        × (s'.sent
            ≡ s.sent ++ packages ar s.session_id (issued (length cs) s.next_promise s.wait_map) cs)
        × ((answer_all read s' answers).resolved
            ≡ s.resolved ++ map (λ a. (a.2, (read a.1).0)) answers)
  answer_all-request_all s cs read answers unbatched empty so room among distinct =
      let (s', made, w, r, t) = request_all-issued s cs unbatched empty so room in
      let n = length cs in
      let sorted = IsSortedFrom-issued_map n s.next_promise s.wait_map so room in
      let found = AreAmong-found n s.next_promise s.wait_map answers so room among in
      (
        s',
        made,
        t,
        answer_all-found read s' answers (subst (IsSortedFrom 0) (sym w) sorted) distinct
              (subst (AreFound answers) (sym w) found)
            ∙ ap (λ (l : List (ℕ × List ℕ)). l ++ map (λ a. (a.2, (read a.1).0)) answers) r,
      )
