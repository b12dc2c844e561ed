-- ===== src/Session.antt =====
-- common/rrpc/old/session.hpp: calls that go out in packets, and the answers that they wait for.
-- A promise is a number. The functions of `_invokeMap` belong to the program's interfaces and are
-- values of a parameter type; `_connection.send` is recorded in `sent`.
pub mod Ids
pub mod Calls
pub mod Responses
pub mod Requests
pub mod Waiting
pub mod Kept
pub mod Lifetime
pub mod Full
pub mod AnyOrder
pub mod Answers
mod Runs
use srpg.Base.{
  ℕ, ltb, ◌==◌, if◌then◌else◌, get_or, ◌+◌, ◌%◌, Bool, true, false, Option, none, List, [], ◌∷◌,
  ◌++◌, some,
}
use srpg.Archive.{Archive}
use srpg.Header.{Header, save_header, direction_request}
use srpg.Package.{Package, new_package, write}
use srpg.Package.{begin_packet as begin_package_packet, end_packet as end_package_packet}
use srpg.Base.Fallible.{◌>>=◌}

-- `std::map` with keys of eight bits, in the order of its keys.
module _ {ℓ} {V : Type ℓ} where
  unfoldable pub find : ℕ → List (ℕ × V) → Option V
  find k [] = none
  find k ((j, v) ∷ m) = if k == j then some v else find k m

  -- `emplace`: an entry that is there stays.
  pub emplace : ℕ → V → List (ℕ × V) → List (ℕ × V)
  emplace k v [] = (k, v) ∷ []
  emplace k v ((j, w) ∷ m) =
      if ltb k j
      then (k, v) ∷ (j, w) ∷ m
      else (if k == j then (j, w) ∷ m else (j, w) ∷ emplace k v m)

  -- A change of the entry of a key, through its iterator.
  pub assign : ℕ → V → List (ℕ × V) → List (ℕ × V)
  assign k v [] = []
  assign k v ((j, w) ∷ m) = if k == j then (j, v) ∷ m else (j, w) ∷ assign k v m

  pub erase : ℕ → List (ℕ × V) → List (ℕ × V)
  erase k [] = []
  erase k ((j, v) ∷ m) = if k == j then m else (j, v) ∷ erase k m

-- The loop of `get_free_operation_id`, from `ret` on; `++ret` wraps at 256.
unfoldable pub free_id {ℓ} : {V : Type ℓ} → ℕ → List (ℕ × V) → ℕ
free_id ret [] = ret
free_id ret ((k, v) ∷ m) = if ret == k then free_id ((ret + 1) % 256) m else ret

-- `if(!_package) _package.reset(new opackage_type)`
unfoldable pub package_or_new : Option Package → Package
unfolding new_package
package_or_new none = new_package
package_or_new (some p) = p

module _ (Invoker : Type 0) where
  pub record Session : Type 0 where
    pub session_id : ℕ
    pub enable_batch : Bool
    pub package_ptr : Option Package
    pub invoke_map : List (ℕ × Invoker)
    pub wait_map : List (ℕ × ℕ)
    pub next_promise : ℕ
    pub sent : List Package
    -- The promises that were given a value, and the bytes that the value was read from.
    pub resolved : List (ℕ × List ℕ)

  -- The constructor.
  unfoldable pub new_session : ℕ → Session
  new_session id = record {
    session_id = id;
    enable_batch = false;
    package_ptr = none;
    invoke_map = [];
    wait_map = [];
    next_promise = 0;
    sent = [];
    resolved = [];
  }

  unfoldable pub get_free_operation_id : Session → ℕ
  unfolding free_id
  get_free_operation_id s = free_id 0 s.wait_map

  -- `_endSend()`; `none` where `_connection.send` meets a null package.
  pub end_send : Session → Option Session
  end_send s = elim s.package_ptr [
    | none ↦ none
    | some p ↦ some (record s { package_ptr = none; sent = s.sent ++ (p ∷ []) })
  ]

  pub begin_batch : Session → Session
  begin_batch s = record s { enable_batch = true }

  pub end_batch : Session → Option Session
  unfolding end_send
  end_batch s = end_send (record s { enable_batch = false })

  -- `wait<Ret>(oid)`: the promise is new, the entry of `oid` only if it has none.
  pub wait : Session → ℕ → ℕ × Session
  unfolding emplace
  wait s oid = (
    s.next_promise,
    record s {
      wait_map = emplace oid s.next_promise s.wait_map;
      next_promise = s.next_promise + 1;
    },
  )

  -- `_response(h, ip)`: `read` splits the stream after the value that the promise is for.
  unfoldable pub response :
      (List ℕ → List ℕ × List ℕ) → Session → Header → List ℕ → Session × List ℕ
  unfolding find erase
  response read s h stream = elim (find h.operation_id s.wait_map) [
    | none ↦ (s, stream)
    | some promise ↦ (
      record s {
        wait_map = erase h.operation_id s.wait_map;
        resolved = s.resolved ++ ((promise, (read stream).0) ∷ []);
      },
      (read stream).1,
    )
  ]

  -- What a function of an interface leaves behind: its own state, the header and the answer package,
  -- which it is given by reference, and the rest of the stream.
  pub record Called : Type 0 where
    pub invoker : Invoker
    pub header : Header
    pub op : Package
    pub stream : List ℕ

  -- `_invoke(h, op, ip)`: `call` is the function of the interface, `none` on a fault.
  unfoldable pub invoke :
      (Invoker → Header → Package → List ℕ → Option Called)
      → Session
      → Header
      → Package
      → List ℕ
      → Option (Session × Header × Package × List ℕ)
  unfolding find assign
  invoke call s h op stream = elim (find h.interface_id s.invoke_map) [
    | none ↦ some (s, h, op, stream)
    | some f ↦ do
      c ← call f h op stream
      some (
        record s { invoke_map = assign h.interface_id c.invoker s.invoke_map },
        c.header,
        c.op,
        c.stream,
      )
  ]

  -- `bind<Interface>(impl)`
  pub bind : Session → ℕ → Invoker → Session
  unfolding emplace
  bind s interface_id f = record s { invoke_map = emplace interface_id f s.invoke_map }

  module _ (ar : Archive) where
    -- `begin_packet(iid, mid, arity)`
    pub begin_packet : Session → ℕ → ℕ → ℕ → ℕ × Session
    unfolding get_free_operation_id save_header package_or_new write begin_package_packet
    begin_packet s iid mid arity =
        let oid = get_free_operation_id s in
        let h : Header = record {
          dir = direction_request;
          session_id = s.session_id;
          operation_id = oid;
          interface_id = iid;
          method_id = mid;
          arity = arity;
        } in
        let p = package_or_new s.package_ptr in
        (oid, record s { package_ptr = some (write (begin_package_packet p) (save_header ar h)) })

    -- `write(args...)` and `end_packet()`, through `_package`.
    pub write_args : Session → List ℕ → Option Session
    unfolding write
    write_args s bytes = elim s.package_ptr [
      | none ↦ none
      | some p ↦ some (record s { package_ptr = some (write p bytes) })
    ]

    pub end_packet : Session → Option Session
    unfolding end_send end_package_packet
    end_packet s = elim s.package_ptr [
      | none ↦ none
      | some p ↦
          let s' : Session = record s { package_ptr = some (end_package_packet ar p) } in
          if s.enable_batch then some s' else end_send s'
    ]

    -- `send(iid, mid, args...)`, with the bytes that the arguments are saved as.
    pub send : Session → ℕ → ℕ → ℕ → List ℕ → Option (ℕ × Session)
    unfolding begin_packet write_args end_packet
    send s iid mid arity args = do
      let begun = begin_packet s iid mid arity
      written ← write_args begun.1 args
      ended ← end_packet written
      some (begun.0, ended)

    -- `request<Ret>`, for a method that returns a value, and for one that returns none.
    pub request : Session → ℕ → ℕ → ℕ → List ℕ → Option (ℕ × Session)
    unfolding send wait
    request s iid mid arity args = do (oid, s') ← send s iid mid arity args; some (wait s' oid)

    pub request_void : Session → ℕ → ℕ → ℕ → List ℕ → Option Session
    unfolding send
    request_void s iid mid arity args = do (oid, s') ← send s iid mid arity args; some s'
