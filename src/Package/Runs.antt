-- ===== src/Package/Runs.antt =====
-- A package at concrete packets, with the archive of the codec.
use srpg.Base.{ℕ, ◌≡◌, refl, some, List, [], ◌∷◌, ◌++◌, arith, length}
use srpg.Archive.Trivial.{trivial_archive, save_unsigned}
use srpg.Package.{
  Ipackage, unpack_packet_sizes, write_packet_size, data_of, sizes, pack, read_header,
}
use srpg.Header.{Header, load_header, save_header}
use srpg.Package.Transfer.{packed, received_package, wire_of, unpack-pack, unpack-pack_empty}
use srpg.Package.Args.{one_packet, serialize, read_args, read_args-write_args}
use srpg.Package.Sizes.{write_packets}
use srpg.Header.Laws.{load_header-save_header}

abbrev fresh : Ipackage
fresh = record { package_size = 0; packet_sizes = 9 ∷ []; stream_buf = [] }

abbrev two_packets : List (List ℕ)
two_packets = (10 ∷ 20 ∷ []) ∷ (30 ∷ []) ∷ []

packed_two :
    wire_of (packed trivial_archive two_packets) ≡ 6 ∷ 0 ∷ 0 ∷ 0 ∷ 2 ∷ 1 ∷ 0 ∷ 10 ∷ 20 ∷ 30 ∷ []
unfolding packed write_packets write_packet_size data_of save_unsigned
packed_two = refl

unpack-pack_example :
    unpack_packet_sizes trivial_archive 3
      (received_package fresh (wire_of (packed trivial_archive two_packets)))
    ≡ sizes (record fresh {
      package_size = 6;
      packet_sizes = 2 ∷ 1 ∷ [];
      stream_buf = 10 ∷ 20 ∷ 30 ∷ [];
    })
unfolding save_unsigned
unpack-pack_example =
    unpack-pack trivial_archive two_packets 3 fresh (omega arith) (omega arith) refl (omega arith)

unpack-pack_empty_example :
    unpack_packet_sizes trivial_archive 2
      (received_package fresh (wire_of (packed trivial_archive ((10 ∷ []) ∷ [] ∷ (30 ∷ []) ∷ []))))
    ≡ sizes (record fresh {
      package_size = 6;
      packet_sizes = 1 ∷ [];
      stream_buf = 1 ∷ 0 ∷ 10 ∷ 30 ∷ [];
    })
unfolding save_unsigned
unpack-pack_empty_example =
    unpack-pack_empty trivial_archive ((10 ∷ []) ∷ []) ((30 ∷ []) ∷ []) 2 fresh (omega arith)
      (omega arith) refl (omega arith)

abbrev request_header : Header
request_header = record {
  dir = 1;
  session_id = 2;
  operation_id = 3;
  interface_id = 4;
  method_id = 5;
  arity = 6;
}

abbrev response_header : Header
response_header = record request_header { dir = 2; arity = 77 }

load_header-save_header_example :
    load_header trivial_archive request_header
      (save_header trivial_archive response_header ++ (8 ∷ []))
    ≡ some (record request_header { dir = 2 }, 8 ∷ [])
load_header-save_header_example =
    load_header-save_header trivial_archive request_header response_header (8 ∷ []) (record {
      dir_byte = omega arith;
      session_byte = omega arith;
      operation_byte = omega arith;
      interface_byte = omega arith;
      method_byte = omega arith;
      arity_byte = omega arith;
    })

-- A request with two arguments, of eight and of sixteen bits.
abbrev two_args : List (ℕ × ℕ)
two_args = (8, 7) ∷ (16, 300) ∷ []

read_args-write_args_example :
    (got headed left : Ipackage) × (unpack_packet_sizes trivial_archive 2 (
        received_package fresh
          (wire_of (pack trivial_archive (one_packet trivial_archive request_header two_args))))
      ≡ sizes got)
    × (got.packet_sizes
        ≡ length (save_header trivial_archive request_header ++ serialize trivial_archive two_args)
          ∷ [])
    × (read_header trivial_archive got response_header ≡ some (request_header, headed))
    × (read_args trivial_archive headed (8 ∷ 16 ∷ []) ≡ some (7 ∷ 300 ∷ [], left))
    × (left.stream_buf ≡ [])
unfolding save_unsigned save_header serialize
read_args-write_args_example =
    read_args-write_args trivial_archive request_header response_header two_args fresh
      (record {
        dir_byte = omega arith;
        session_byte = omega arith;
        operation_byte = omega arith;
        interface_byte = omega arith;
        method_byte = omega arith;
        arity_byte = omega arith;
      })
      (omega arith, omega arith, omega arith, (omega arith, omega arith, omega arith, tt))
      (omega arith) refl
