-- ===== src/Package/Args.antt =====
-- common/rrpc/old/package.hpp: the arguments that are written into a packet and read from one.
-- An argument is a value of an unsigned type, with the width of it.
use srpg.Base.{
  ℕ, Option, none, some, List, [], ◌∷◌, ◌++◌, ◌≡◌, map, ap, length, refl, ◌<◌, ◌^◌, arith,
  append-nil, sym,
}
use srpg.Archive.{Archive}
use srpg.Package.{
  Package, Ipackage, begin_packet, write, end_packet, pack, new_package, unpack_packet_sizes, sizes,
  read_header,
}
use srpg.Package.Transfer.{received_package, wire_of, packed, body_of, unpack-pack}
use srpg.Package.Sizes.{write_packets}
use srpg.Header.{Header, save_header}
use srpg.Header.Laws.{
  IsHeader, received, load_header-save_header, length-front_pos, length-save_header_pos,
}
use srpg.Idl.{load_tuple, save_tuple}
use srpg.Idl.Tuples.{Fit, load_tuple-save_tuple}

module _ (ar : Archive) where
  open ar use {save, load}

  -- `detail::serialize(ar, args...)`
  unfoldable pub serialize : List (ℕ × ℕ) → List ℕ
  serialize [] = []
  serialize ((t, v) ∷ args) = save t v ++ serialize args

  -- `package::write(args...)`
  pub write_args : Package → List (ℕ × ℕ) → Package
  unfolding serialize
  write_args p args = write p (serialize args)

  -- `ipackage::read<T>()`; a fault of the archive is `none`.
  pub read : Ipackage → ℕ → Option (ℕ × Ipackage)
  read ip t = elim (load t ip.stream_buf) [
    | none ↦ none
    | some (v, rest) ↦ some (v, record ip { stream_buf = rest })
  ]

  -- `ipackage::read_args<Args...>()`: the tuple of the arguments.
  pub read_args : Ipackage → List ℕ → Option (List ℕ × Ipackage)
  read_args ip ts = elim (load_tuple ar ts ip.stream_buf) [
    | none ↦ none
    | some (vs, rest) ↦ some (vs, record ip { stream_buf = rest })
  ]

  serialize-save_tuple :
      (args : List (ℕ × ℕ))
      → serialize args ≡ save_tuple ar (map (λ a. a.0) args) (map (λ a. a.1) args)
  unfolding serialize save_tuple
  serialize-save_tuple [] = refl
  serialize-save_tuple ((t, v) ∷ args) = ap (λ l. save t v ++ l) (serialize-save_tuple args)

  read_args-serialize :
      (args : List (ℕ × ℕ)) (ip : Ipackage) (rest : List ℕ)
      → Fit (map (λ a. a.0) args) (map (λ a. a.1) args)
      → ip.stream_buf ≡ serialize args ++ rest
      → read_args ip (map (λ a. a.0) args)
        ≡ some (map (λ a. a.1) args, record ip { stream_buf = rest })
  unfolding read_args
  read_args-serialize args ip rest fit e =
      rw
        (
          read_args,
          e,
          serialize-save_tuple args,
          load_tuple-save_tuple ar (map (λ a. a.0) args) (map (λ a. a.1) args) rest fit,
        )
        refl

  read_header-front :
      (ip : Ipackage) (old h : Header) (rest : List ℕ)
      → IsHeader h
      → ip.stream_buf ≡ save_header ar h ++ rest
      → read_header ar ip old ≡ some (received ar old h, record ip { stream_buf = rest })
  unfolding read_header
  read_header-front ip old h rest hh e =
      rw (read_header, e, load_header-save_header ar old h rest hh) refl

  -- The package of one packet: a header and its arguments.
  abbrev pub one_packet : Header → List (ℕ × ℕ) → Package
  one_packet h args =
      end_packet ar (write_args (write (begin_packet new_package) (save_header ar h)) args)

  -- A packet of a header and arguments, packed and received: the receiver reads one size, the
  -- header, and with `read_args` the arguments in their order, and nothing is left to read. The
  -- fields of the header are bytes, each argument fits its type, the package is smaller than
  -- `2 ^ 32` bytes, and the stream buffer of the receiver is empty.
  pub read_args-write_args :
      (h old : Header) (args : List (ℕ × ℕ)) (ip : Ipackage)
      → IsHeader h
      → Fit (map (λ a. a.0) args) (map (λ a. a.1) args)
      → length (body_of ar ((save_header ar h ++ serialize args) ∷ [])) < 2 ^ 32
      → ip.stream_buf ≡ []
      → (got headed left : Ipackage) × (unpack_packet_sizes ar 2
            (received_package ip (wire_of (pack ar (one_packet h args))))
          ≡ sizes got)
        × (got.packet_sizes ≡ length (save_header ar h ++ serialize args) ∷ [])
        × (read_header ar got old ≡ some (received ar old h, headed))
        × (read_args headed (map (λ a. a.0) args) ≡ some (map (λ a. a.1) args, left))
        × (left.stream_buf ≡ [])
  unfolding packed write_packets write_args write begin_packet new_package read_header
  read_args-write_args h old args ip hh fit small e =
      let b = save_header ar h ++ serialize args in
      let got : Ipackage = record ip {
        package_size = length (body_of ar (b ∷ []));
        packet_sizes = length b ∷ [];
        stream_buf = b ++ [];
      } in
      let headed : Ipackage = record got { stream_buf = serialize args } in
      let left : Ipackage = record got { stream_buf = [] } in
      let some_bytes =
        length-front_pos (save_header ar h) (serialize args) (length-save_header_pos ar h hh) in
      (
        got,
        headed,
        left,
        unpack-pack ar (b ∷ []) 2 ip (some_bytes, tt) small e (omega arith),
        refl,
        read_header-front got old h (serialize args) hh (append-nil b),
        read_args-serialize args headed [] fit (sym (append-nil (serialize args))),
        refl,
      )
