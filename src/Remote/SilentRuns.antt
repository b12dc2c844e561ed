-- ===== src/Remote/SilentRuns.antt =====
-- A client that sets and raises a count at a server, and is not answered, with the archive of the codec.
use srpg.Base.{ℕ, some, [], refl, List, ◌≡◌, arith, ◌∷◌, ◌+◌, get_elem?, true}
use srpg.Session.{Session, new_session, find, free_id, get_free_operation_id}
use srpg.Package.{Package, pack}
use srpg.Package.Transfer.{wire_of}
use srpg.Dispatch.{BasicConnection}
use srpg.Header.{save_header}
use srpg.Idl.Tuples.{saved_args}
use srpg.Idl.{
  save_tuple, local_request, Method, InterfaceInvoker, invoke_interface, find_method, ret_helper,
  is_void, local_request,
}
use srpg.Remote.{deliver}
use srpg.Remote.Runs.{holding, asking, blank, read_nothing}
use srpg.Remote.InOrder.{deliver-call_all}
use srpg.Remote.Batch.{calls_of, local_all, call_all}
use srpg.Session.{end_batch}
use srpg.Archive.Trivial.{trivial_archive, save_unsigned}

abbrev count_of : List ℕ → ℕ
count_of [] = 0
count_of (v ∷ vs) = v

-- The count is set, and nothing is answered.
abbrev set_method : Method ℕ
set_method = record {
  rets = [];
  args = 16 ∷ [];
  impl_void = true;
  func = λ count vs. ([], count_of vs);
}

abbrev raise_method : Method ℕ
raise_method = record {
  rets = [];
  args = 8 ∷ [];
  impl_void = true;
  func = λ count vs. ([], count + count_of vs);
}

abbrev settable : InterfaceInvoker ℕ
settable = record { methods = (4, set_method) ∷ (5, raise_method) ∷ []; impl = 5 }

abbrev set_serving : Session (InterfaceInvoker ℕ)
set_serving = record (new_session (InterfaceInvoker ℕ) 0) { invoke_map = (3, settable) ∷ [] }

abbrev batching : Session (InterfaceInvoker ℕ)
batching = record asking { enable_batch = true }

deliver-call_all_example :
    (s' s'' : Session (InterfaceInvoker ℕ)) × (q : Package) × (server' : BasicConnection
      (InterfaceInvoker ℕ))
    × (t' : Session (InterfaceInvoker ℕ)) × (f' : InterfaceInvoker ℕ) × (call_all trivial_archive 3
          batching
          ((4, set_method, 300 ∷ []) ∷ (5, raise_method, 20 ∷ []) ∷ [])
        ≡ some s')
    × (s'.sent ≡ [])
    × (end_batch (InterfaceInvoker ℕ) s' ≡ some s'')
    × (s''.sent ≡ q ∷ [])
    × (deliver
          (invoke_interface ℕ trivial_archive)
          read_nothing
          trivial_archive
          3
          blank
          (holding set_serving)
          (wire_of (pack trivial_archive q))
        ≡ some server')
    × (server'.written ≡ [])
    × (get_elem? server'.sessions 0 ≡ some t')
    × (find 3 t'.invoke_map ≡ some f')
    × (f'.impl ≡ 320)
unfolding find free_id get_free_operation_id find_method ret_helper is_void save_unsigned
    local_request new_session save_header save_tuple saved_args calls_of local_all
deliver-call_all_example =
    deliver-call_all trivial_archive 3 read_nothing batching (omega arith) (omega arith)
      (omega arith) (omega arith) (holding set_serving) set_serving settable
      (4, set_method, 300 ∷ []) ((5, raise_method, 20 ∷ []) ∷ []) blank 3 refl refl refl refl
      (
        (refl, refl, refl, omega arith, omega arith, omega arith),
        ((refl, refl, refl, omega arith, omega arith, omega arith), tt),
      )
      refl (omega arith) (omega arith)
