-- ===== src/Remote/Runs.antt =====
-- A client that asks a server for a sum, with the archive of the codec; the server counts its calls.
use srpg.Base.{ℕ, some, [], false, refl, List, ◌≡◌, arith, ◌∷◌, ◌+◌, get_elem?, true, ◌++◌, length}
use srpg.Session.{Session, new_session, find, free_id, get_free_operation_id}
use srpg.Header.{Header}
use srpg.Package.{Package, pack}
use srpg.Package.Transfer.{wire_of}
use srpg.Dispatch.{BasicConnection, nothing}
use srpg.Header.{save_header}
use srpg.Idl.Tuples.{saved_args}
use srpg.Idl.{
  save_tuple, save_ret, local_request, Method, InterfaceInvoker, call_method, invoke_interface,
  find_method, ret_helper, is_void, local_request,
}
use srpg.Remote.{deliver, read_result}
use srpg.Remote.Unread.{mixed, unread_request_keeps_args}
use srpg.Dispatch.{Served, serve_packets}
use srpg.Header.{direction_request}
use srpg.Package.{new_package}
use srpg.Remote.Call.{deliver-call_method}
use srpg.Archive.Trivial.{trivial_archive, save_unsigned}

abbrev add : List ℕ → ℕ → List ℕ
add [] count = count ∷ []
add (a ∷ vs) count = add vs (a + count)

abbrev sum_method : Method ℕ
sum_method = record {
  rets = 32 ∷ [];
  args = 16 ∷ 8 ∷ [];
  impl_void = false;
  func = λ count vs. (add vs count, count + 1);
}

abbrev counter : InterfaceInvoker ℕ
counter = record { methods = (0, sum_method) ∷ []; impl = 5 }

abbrev pub asking : Session (InterfaceInvoker ℕ)
asking = record (new_session (InterfaceInvoker ℕ) 0) { wait_map = (1, 6) ∷ []; next_promise = 7 }

abbrev serving : Session (InterfaceInvoker ℕ)
serving = record (new_session (InterfaceInvoker ℕ) 0) { invoke_map = (3, counter) ∷ [] }

abbrev pub holding : Session (InterfaceInvoker ℕ) → BasicConnection (InterfaceInvoker ℕ)
holding s = record {
  ipackage = record { package_size = 0; packet_sizes = []; stream_buf = [] };
  sessions = s ∷ [];
  reading = nothing;
  written = [];
}

abbrev pub blank : Header
blank = record {
  dir = 9;
  session_id = 9;
  operation_id = 9;
  interface_id = 9;
  method_id = 9;
  arity = 9;
}

abbrev pub read_nothing : List ℕ → List ℕ × List ℕ
read_nothing s = ([], s)

deliver-call_method_example :
    (promise : ℕ) × (s' : Session (InterfaceInvoker ℕ)) × (q reply : Package) × (server'
      client' : BasicConnection (InterfaceInvoker ℕ))
    × (t' s'' : Session (InterfaceInvoker ℕ)) × (f' : InterfaceInvoker ℕ) × (call_method ℕ
          trivial_archive asking 3 0 sum_method
          (300 ∷ 20 ∷ [])
        ≡ some (some promise, s'))
    × (s'.sent ≡ q ∷ [])
    × (deliver
          (invoke_interface ℕ trivial_archive)
          read_nothing
          trivial_archive
          2
          blank
          (holding serving)
          (wire_of (pack trivial_archive q))
        ≡ some server')
    × (server'.written ≡ reply ∷ [])
    × (get_elem? server'.sessions 0 ≡ some t')
    × (find 3 t'.invoke_map ≡ some f')
    × (f'.impl ≡ 6)
    × (deliver
          (invoke_interface ℕ trivial_archive)
          (read_result trivial_archive (32 ∷ []))
          trivial_archive
          2
          blank
          (holding s')
          (wire_of reply)
        ≡ some client')
    × (get_elem? client'.sessions 0 ≡ some s'')
    × (s''.resolved ≡ (promise, 325 ∷ []) ∷ [])
    × ((j : ℕ) → find j s''.wait_map ≡ find j asking.wait_map)
unfolding find free_id get_free_operation_id find_method ret_helper is_void save_unsigned
    local_request new_session save_header save_tuple save_ret saved_args
deliver-call_method_example =
    deliver-call_method trivial_archive asking 3 0 sum_method counter (300 ∷ 20 ∷ [])
      (holding asking) (holding serving) serving read_nothing blank blank 2 refl refl (omega arith)
      (omega arith) refl refl refl refl refl refl (omega arith) (omega arith) (omega arith)
      (omega arith) (omega arith) (omega arith) refl refl (omega arith) (omega arith) (omega arith)

-- The interface returns a value, and the implementation none.
abbrev mixed_kinds : InterfaceInvoker ℕ
mixed_kinds = record { methods = (4, record sum_method { impl_void = true }) ∷ []; impl = 5 }

abbrev mixed_serving : Session (InterfaceInvoker ℕ)
mixed_serving = record (new_session (InterfaceInvoker ℕ) 0) { invoke_map = (3, mixed_kinds) ∷ [] }

abbrev mixed_head : Header
mixed_head = record {
  dir = direction_request;
  session_id = 0;
  operation_id = 0;
  interface_id = 3;
  method_id = 4;
  arity = 2;
}

abbrev mixed_served : List ℕ → Served (InterfaceInvoker ℕ)
mixed_served stream = record {
  sessions = mixed_serving ∷ [];
  ip = record { package_size = 0; packet_sizes = []; stream_buf = stream };
  op = new_package;
  header = blank;
}

unread_request_keeps_args_example :
    serve_packets
      (InterfaceInvoker ℕ)
      (invoke_interface ℕ trivial_archive)
      read_nothing
      trivial_archive
      (mixed_served (save_header trivial_archive mixed_head ++ (7 ∷ 8 ∷ 9 ∷ [])))
      (length (save_header trivial_archive mixed_head ++ (7 ∷ 8 ∷ [])) ∷ [])
    ≡ serve_packets
        (InterfaceInvoker ℕ)
        (invoke_interface ℕ trivial_archive)
        read_nothing
        trivial_archive
        (record (mixed_served (7 ∷ 8 ∷ 9 ∷ [])) { header = mixed_head })
        []
unfolding find find_method ret_helper is_void new_session save_header save_unsigned
unread_request_keeps_args_example =
    unread_request_keeps_args read_nothing trivial_archive
      (mixed_served (save_header trivial_archive mixed_head ++ (7 ∷ 8 ∷ 9 ∷ []))) mixed_serving
      mixed_head (7 ∷ 8 ∷ []) (9 ∷ []) []
      (record {
        dir_byte = omega arith;
        session_byte = omega arith;
        operation_byte = omega arith;
        interface_byte = omega arith;
        method_byte = omega arith;
        arity_byte = omega arith;
      })
      refl refl (omega arith) (omega arith) refl
      (mixed mixed_kinds (record sum_method { impl_void = true }) refl refl refl)
