-- ===== src/Dispatch/Runs.antt =====
-- A connection with one session that waits for an answer, with the archive of the codec.
use srpg.Base.{ℕ, ◌∷◌, List, [], length, ◌++◌, ◌≡◌, arith, refl, Option, some}
use srpg.Header.{Header, save_header, direction_response}
use srpg.Session.{Called, Session, new_session, find}
use srpg.Package.{Package, new_package}
use srpg.Dispatch.{serve_packets, Served}
use srpg.Archive.Trivial.{save_unsigned, trivial_archive}
use srpg.Dispatch.Loop.{answered, response_served}

abbrev asking : Session Unit
asking = record (new_session Unit 0) { wait_map = (1, 6) ∷ []; next_promise = 7 }

abbrev answer_head : Header
answer_head = record {
  dir = direction_response;
  session_id = 0;
  operation_id = 1;
  interface_id = 0;
  method_id = 0;
  arity = 0;
}

abbrev lost_head : Header
lost_head = record answer_head { session_id = 5 }

abbrev read_byte : List ℕ → List ℕ × List ℕ
read_byte [] = ([], [])
read_byte (b ∷ bs) = (b ∷ [], bs)

abbrev call_nothing : Unit {0} → Header → Package → List ℕ → Option (Called Unit)
call_nothing f h op stream = some (record { invoker = f; header = h; op = op; stream = stream })

abbrev serving : Header → List ℕ → Served Unit
serving h bytes = record {
  sessions = asking ∷ [];
  ip = record {
    package_size = 0;
    packet_sizes = [];
    stream_buf = save_header trivial_archive h ++ bytes;
  };
  op = new_package;
  header = answer_head;
}

response_served_example :
    serve_packets Unit call_nothing read_byte trivial_archive
      (serving answer_head (8 ∷ 4 ∷ []))
      (length (save_header trivial_archive answer_head ++ (8 ∷ [])) ∷ [])
    ≡ serve_packets Unit call_nothing read_byte trivial_archive
        (record (serving answer_head []) {
          sessions =
              answered call_nothing read_byte trivial_archive asking answer_head 6 (8 ∷ []) ∷ [];
          ip = record { package_size = 0; packet_sizes = []; stream_buf = 4 ∷ [] };
        })
        []
unfolding find save_header save_unsigned
response_served_example =
    response_served call_nothing read_byte trivial_archive (serving answer_head (8 ∷ 4 ∷ [])) asking
      answer_head 6 (8 ∷ []) (8 ∷ []) (4 ∷ []) []
      (record {
        dir_byte = omega arith;
        session_byte = omega arith;
        operation_byte = omega arith;
        interface_byte = omega arith;
        method_byte = omega arith;
        arity_byte = omega arith;
      })
      refl refl (omega arith) refl refl refl
