-- ===== src/Package.antt =====
-- common/rrpc/old/package.hpp: packets batched into a package, and a package taken apart.
-- A `streambuf` is the bytes that it holds; a `uint32_t` wraps at `2 ^ 32`.
pub mod Sizes
pub mod Transfer
pub mod Args
mod Runs
use srpg.Base.{
  ℕ, ◌==◌, if◌then◌else◌, length, take, zero, suc, ◌+◌, ◌-◌, ◌%◌, ◌^◌, not, Option, none, some,
  List, [], ◌∷◌, ◌++◌,
}
use srpg.Archive.{Archive}
use srpg.Header.{Header, load_header}
use srpg.Base.Bytes.{to_bytes, of_bytes}

abbrev u32 : ℕ → ℕ
u32 n = n % 2 ^ 32

-- `package`: `buffers` is empty until `pack`.
pub record Package : Type 0 where
  pub buffers : List (List ℕ)
  pub package_size : ℕ
  pub packet_sizes_buf : List ℕ
  pub stream_buf : List ℕ
  pub last_size : ℕ

-- The constructor sets `_lastSize` alone; the buffers start empty by themselves.
unfoldable pub new_package : Package
new_package = record {
  buffers = [];
  package_size = 0;
  packet_sizes_buf = [];
  stream_buf = [];
  last_size = 0;
}

-- `data()` and `size()`
pub data_of : Package → List (List ℕ)
data_of p = p.buffers

unfoldable pub size : Package → ℕ
size p = u32 (length p.packet_sizes_buf + length p.stream_buf)

pub consume : Package → Package
consume p = record p { packet_sizes_buf = []; stream_buf = [] }

pub clear : Package → Package
clear p = record p { last_size = 0 }

-- `write(args...)`: the bytes that the archive makes of the arguments.
unfoldable pub write : Package → List ℕ → Package
write p bytes = record p { stream_buf = p.stream_buf ++ bytes }

unfoldable pub begin_packet : Package → Package
begin_packet p = p

module _ (ar : Archive) where
  open ar use {save, load}

  unfoldable pub write_packet_size : Package → ℕ → Package
  write_packet_size p v = record p { packet_sizes_buf = p.packet_sizes_buf ++ save 32 v }

  -- The native size goes to the socket in little-endian order.
  unfoldable pub pack : Package → Package
  unfolding write_packet_size to_bytes
  pack p =
      let q = write_packet_size p 0 in
      let n = u32 (length q.packet_sizes_buf + length q.stream_buf) in
      record q {
        package_size = n;
        buffers = to_bytes 4 n ∷ q.packet_sizes_buf ∷ q.stream_buf ∷ [];
        last_size = 0;
      }

  unfoldable pub end_packet : Package → Package
  unfolding write_packet_size
  end_packet p =
      let new_size = u32 (length p.stream_buf) in
      record (write_packet_size p (u32 (new_size + 2 ^ 32 - p.last_size))) { last_size = new_size }

-- `ipackage`
pub record Ipackage : Type 0 where
  pub package_size : ℕ
  pub packet_sizes : List ℕ
  pub stream_buf : List ℕ

unfoldable pub unpack_package_size : Ipackage → List ℕ → Ipackage
unfolding of_bytes
unpack_package_size ip bytes = record ip { package_size = of_bytes bytes }

-- `prepare()`, the read of the package into it, and `commit()`.
unfoldable pub commit : Ipackage → List ℕ → Ipackage
commit ip bytes = record ip { stream_buf = ip.stream_buf ++ take ip.package_size bytes }

-- An `int`, by its bit pattern.
unfoldable pub in_avail : Ipackage → ℕ
in_avail ip = u32 (length ip.stream_buf)

-- The body is empty, whatever the number of bytes to discard.
unfoldable pub ignore : Ipackage → ℕ → Ipackage
ignore ip n = ip

-- How the size loop ends: with the sizes, on a fault of the archive, or not within the fuel.
pub data Unpacked : Type 0 where
  sizes : Ipackage → Unpacked
  fault : Unpacked
  running : Unpacked

module _ (ar : Archive) where
  open ar use {load}

  pub unpack_loop : ℕ → Ipackage → Unpacked
  unpack_loop zero ip = running
  unpack_loop (suc fuel) ip = elim (load 32 ip.stream_buf) [
    | none ↦ fault
    | some (packet_size, rest) ↦
        let ip' : Ipackage = record ip { stream_buf = rest } in
        let more =
          unpack_loop fuel (record ip' { packet_sizes = ip'.packet_sizes ++ (packet_size ∷ []) }) in
        if packet_size == 0 then sizes ip' else more
  ]

  unfoldable pub unpack_packet_sizes : ℕ → Ipackage → Unpacked
  unfolding unpack_loop
  unpack_packet_sizes fuel ip = unpack_loop fuel (record ip { packet_sizes = [] })

  unfoldable pub read_header : Ipackage → Header → Option (Header × Ipackage)
  unfolding load_header
  read_header ip h = elim (load_header ar h ip.stream_buf) [
    | none ↦ none
    | some (h', rest) ↦ some (h', record ip { stream_buf = rest })
  ]
