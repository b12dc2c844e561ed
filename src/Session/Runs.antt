-- ===== src/Session/Runs.antt =====
-- A session with two waiting calls, with the archive of the codec.
use srpg.Base.{
  map, none, false, inl, inr, refl, zero, suc, length, ◌≤◌, ◌+◌, ℕ, some, true, List, ◌≡◌, ◌∷◌, [],
  refl, arith,
}
use srpg.Session.Ids.{IsSortedFrom}
use srpg.Session.Requests.{requested, request-unbatched}
use srpg.Session.Waiting.{times, firsts, seconds}
use srpg.Session.Lifetime.{promise_once, requests, makes}
use srpg.Session.AnyOrder.{Answer}
use srpg.Session.Answers.{packages, answer_all, request_all, answer_all-request_all}
use srpg.Session.Full.{request_when_full}
use srpg.Session.Calls.{end_batch-send_all, send_all, packet_of, Call, call_package}
use srpg.Package.{new_package}
use srpg.Package.Sizes.{write_packets}
use srpg.Session.{
  end_batch, package_or_new, Session, get_free_operation_id, new_session, request, find, response,
  free_id, emplace,
}
use srpg.Header.{Header, direction_response}
use srpg.Archive.Trivial.{trivial_archive}

abbrev waiting : Session Unit
waiting = record (new_session Unit 3) { wait_map = (0, 4) ∷ (2, 5) ∷ []; next_promise = 6 }

-- The id 1 is the first that no call waits for.
waiting_free_id : get_free_operation_id Unit waiting ≡ 1
unfolding get_free_operation_id
waiting_free_id = refl

abbrev answer : Header
answer = record {
  dir = direction_response;
  session_id = 3;
  operation_id = 1;
  interface_id = 0;
  method_id = 0;
  arity = 0;
}

abbrev read_byte : List ℕ → List ℕ × List ℕ
read_byte [] = ([], [])
read_byte (b ∷ bs) = (b ∷ [], bs)

abbrev batching : Session Unit
batching = record waiting { enable_batch = true }

abbrev two_calls : List Call
two_calls = (1, 7, (9 ∷ []) ∷ []) ∷ (1, 8, []) ∷ []

abbrev first_call : Call
first_call = (1, 7, (9 ∷ []) ∷ [])

abbrev one_call : Session Unit
one_call = requested trivial_archive (new_session Unit 3) first_call

promise_once_example :
    IsSortedFrom 0 one_call.wait_map
    × (times 0 (firsts one_call.resolved) + times 0 (seconds one_call.wait_map) ≤ 1)
    × (one_call.next_promise ≤ 0
        → times 0 (firsts one_call.resolved) + times 0 (seconds one_call.wait_map) ≡ 0)
unfolding new_session
promise_once_example = promise_once trivial_archive one_call 0 (
    requests first_call (makes 3)
      (request-unbatched trivial_archive (new_session Unit 3) first_call refl))

-- Calls that wait for all the ids from one on.
abbrev filled : ℕ → ℕ → List (ℕ × ℕ)
filled zero lo = []
filled (suc n) lo = (lo, lo + 1000) ∷ filled n (suc lo)

filled-IsSortedFrom : (n lo : ℕ) → lo + n ≤ 256 → IsSortedFrom lo (filled n lo)
filled-IsSortedFrom zero lo h = tt
filled-IsSortedFrom (suc n) lo h =
    (omega arith, omega (arith, h), filled-IsSortedFrom n (suc lo) (omega (arith, h)))

length-filled : (n lo : ℕ) → length (filled n lo) ≡ n
length-filled zero lo = refl
length-filled (suc n) lo = omega (arith, length-filled n (suc lo))

abbrev full : Session Unit
full = record (new_session Unit 3) { wait_map = filled 256 0; next_promise = 2000 }

abbrev answer_zero : Header
answer_zero = record answer { operation_id = get_free_operation_id Unit full }

request_when_full_example :
    (get_free_operation_id Unit full ≡ 0)
    × (s' : Session Unit) × (request Unit trivial_archive full 1 7 1 (9 ∷ []) ≡ some (2000, s'))
    × (s'.sent ≡ call_package trivial_archive new_package 3 0 first_call ∷ [])
    × (s'.wait_map ≡ full.wait_map)
    × (older : ℕ) × (find 0 full.wait_map ≡ some older)
    × ((response Unit read_byte s' answer_zero (8 ∷ [])).0.resolved ≡ (older, 8 ∷ []) ∷ [])
unfolding new_session package_or_new
request_when_full_example =
    request_when_full trivial_archive full first_call read_byte answer_zero (8 ∷ []) refl
      (filled-IsSortedFrom 256 0 (omega arith)) (length-filled 256 0) refl

end_batch-send_all_example :
    (s' : Session Unit) × (send_all trivial_archive batching two_calls ≡ some s')
    × (s'.sent ≡ [])
    × (end_batch Unit s'
        ≡ some (record batching {
          enable_batch = false;
          package_ptr = none;
          sent =
              write_packets trivial_archive new_package
                (map (packet_of trivial_archive batching) two_calls)
              ∷ [];
        }))
unfolding package_or_new new_session
end_batch-send_all_example =
    end_batch-send_all trivial_archive batching (1, 7, (9 ∷ []) ∷ []) ((1, 8, []) ∷ []) refl

-- Two calls, whose answers arrive in the other order.
abbrev answered_late : List Answer
answered_late =
    (record answer { operation_id = 1 }, 4 ∷ [], 1)
    ∷ (record answer { operation_id = 0 }, 6 ∷ [], 0)
    ∷ []

answer_all-request_all_example :
    (s' : Session Unit) × (request_all trivial_archive (new_session Unit 3) two_calls
      ≡ some (0 ∷ 1 ∷ [], s'))
    × (s'.sent ≡ packages trivial_archive 3 ((0, 0) ∷ (1, 1) ∷ []) two_calls)
    × ((answer_all trivial_archive read_byte s' answered_late).resolved
        ≡ (1, 4 ∷ []) ∷ (0, 6 ∷ []) ∷ [])
unfolding new_session free_id emplace
answer_all-request_all_example =
    answer_all-request_all trivial_archive (new_session Unit 3) two_calls read_byte answered_late
      refl refl tt (omega arith) (inr (inl (refl, refl)), (inl (refl, refl), tt))
      ((λ e. omega (arith, e), tt), (tt, tt))
