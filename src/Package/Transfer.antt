-- ===== src/Package/Transfer.antt =====
-- A package from `pack` to `unpack_packet_sizes`.
use srpg.Base.{
  ℕ, length, take, drop, All, flatten, ◌^◌, ◌<◌, ◌≡◌, List, [], ◌∷◌, ◌++◌, map, length-append,
  arith, ◌+◌, ap, take-append, refl, flatten-append, append-nil, drop-append, append_assoc,
  take_all,
}
use srpg.Archive.{Archive}
use srpg.Package.{
  Package, Ipackage, unpack_package_size, pack, data_of, unpack_packet_sizes, commit, new_package,
  sizes, write_packet_size,
}
use srpg.Package.Sizes.{
  saved_sizes, write_packets, unpack_loop_lem, write_packets_lem, saved_sizes-append,
}
use srpg.Base.Bytes.{to_bytes, length-to_bytes, of_bytes-to_bytes}

-- The receiving side: the first four bytes are the package size, then as many bytes are committed.
unfoldable pub received_package : Ipackage → List ℕ → Ipackage
unfolding unpack_package_size commit
received_package ip wire = commit (unpack_package_size ip (take 4 wire)) (drop 4 wire)

sized :
    (bs : List (List ℕ))
    → All (λ b. 0 < length b) bs
    → length (flatten bs) < 2 ^ 32
    → All (λ b. (0 < length b) × (length b < 2 ^ 32)) bs
sized [] hb h = tt
sized (b ∷ bs) hb h =
    let n = length-append b (flatten bs) in ((hb.0, omega arith), sized bs hb.1 (omega arith))

front_fits :
    (bs cs : List (List ℕ)) → length (flatten (bs ++ cs)) < 2 ^ 32 → length (flatten bs) < 2 ^ 32
front_fits bs cs h =
    omega (arith, ap length (flatten-append bs cs), length-append (flatten bs) (flatten cs))

abbrev pub wire_of : Package → List ℕ
wire_of p = flatten (data_of p)

module _ (ar : Archive) where
  open ar use {save, load-save}

  -- The package that carries the packets `bs`, and the bytes that its buffers put on the wire.
  unfoldable pub packed : List (List ℕ) → Package
  unfolding pack new_package
  packed bs = pack ar (write_packets ar new_package bs)

  abbrev pub body_of : List (List ℕ) → List ℕ
  body_of bs = saved_sizes ar bs ++ (save 32 0 ++ flatten bs)

  wire-packed :
      (bs : List (List ℕ))
      → length (body_of bs) < 2 ^ 32
      → wire_of (packed bs) ≡ to_bytes 4 (length (body_of bs)) ++ body_of bs
  unfolding packed data_of new_package write_packet_size
  wire-packed bs h =
      let z : List ℕ = save 32 0 in
      let n : length (body_of bs) ≡ length (saved_sizes ar bs) + (length z + length (flatten bs)) =
        rw (length-append (saved_sizes ar bs) (z ++ flatten bs), length-append z (flatten bs))
          refl in
      let (st, sz) = write_packets_lem ar new_package bs refl (omega arith) in
      rw (st, sz, append-nil (flatten bs), append_assoc (saved_sizes ar bs) z (flatten bs))
        (ap (λ (k : ℕ). to_bytes 4 k ++ body_of bs)
          (omega (arith, length-append (saved_sizes ar bs) z)))

  received-packed :
      (bs : List (List ℕ)) (ip : Ipackage)
      → length (body_of bs) < 2 ^ 32
      → ip.stream_buf ≡ []
      → received_package ip (wire_of (packed bs))
        ≡ record ip { package_size = length (body_of bs); stream_buf = body_of bs }
  unfolding received_package
  received-packed bs ip h e =
      let n = length (body_of bs) in
      let four = length-to_bytes 4 n in
      rw (
        wire-packed bs h,
        rw four at (take-append (to_bytes 4 n) (body_of bs)),
        rw four at (drop-append (to_bytes 4 n) (body_of bs)),
        of_bytes-to_bytes 4 n h,
        e,
        take_all n (body_of bs) (omega arith),
      )

  pub length-flatten_lt :
      (bs : List (List ℕ)) → length (body_of bs) < 2 ^ 32 → length (flatten bs) < 2 ^ 32
  length-flatten_lt bs h = omega (
    arith,
    length-append (saved_sizes ar bs) (save 32 0 ++ flatten bs),
    length-append (save 32 0) (flatten bs),
  )

  -- Packets that are not empty arrive whole, where their package, which is the sizes and the packets,
  -- has less than 2^32 bytes and the stream buffer of the receiver is empty: the sizes are read back
  -- in order, and the stream buffer then holds the packets one after the other. One round for each
  -- packet and one more are enough.
  pub unpack-pack :
      (bs : List (List ℕ)) (fuel : ℕ) (ip : Ipackage)
      → All (λ b. 0 < length b) bs
      → length (body_of bs) < 2 ^ 32
      → ip.stream_buf ≡ []
      → length bs < fuel
      → unpack_packet_sizes ar fuel (received_package ip (wire_of (packed bs)))
        ≡ sizes (record ip {
          package_size = length (body_of bs);
          packet_sizes = map length bs;
          stream_buf = flatten bs;
        })
  unfolding unpack_packet_sizes
  unpack-pack bs fuel ip hb h e hf = rw (received-packed bs ip h e) (
      unpack_loop_lem ar bs fuel
        (record ip {
          package_size = length (body_of bs);
          packet_sizes = [];
          stream_buf = body_of bs;
        })
        (flatten bs) hf (sized bs hb (length-flatten_lt bs h)) refl)

  -- An empty packet ends the size list for the receiver, where the package, which is the sizes and
  -- the packets, has less than 2^32 bytes, the packets before the empty one are not empty, the stream
  -- buffer of the receiver is empty, and the loop over the sizes has a round for each of these
  -- packets and one more: the packets `bs` before it are announced, none of the packets `cs` after it
  -- is, and the sizes of `cs` are left in front of the packets' bytes, those of `bs` included.
  pub unpack-pack_empty :
      (bs cs : List (List ℕ)) (fuel : ℕ) (ip : Ipackage)
      → All (λ b. 0 < length b) bs
      → length (body_of (bs ++ ([] ∷ cs))) < 2 ^ 32
      → ip.stream_buf ≡ []
      → length bs < fuel
      → unpack_packet_sizes ar fuel (received_package ip (wire_of (packed (bs ++ ([] ∷ cs)))))
        ≡ sizes (record ip {
          package_size = length (body_of (bs ++ ([] ∷ cs)));
          packet_sizes = map length bs;
          stream_buf = saved_sizes ar cs ++ (save 32 0 ++ flatten (bs ++ ([] ∷ cs)));
        })
  unfolding unpack_packet_sizes
  unpack-pack_empty bs cs fuel ip hb h e hf =
      let all = bs ++ ([] ∷ cs) in
      rw (received-packed all ip h e) (
        unpack_loop_lem ar bs fuel
          (record ip {
            package_size = length (body_of all);
            packet_sizes = [];
            stream_buf = body_of all;
          })
          (saved_sizes ar cs ++ (save 32 0 ++ flatten all)) hf
          (sized bs hb (front_fits bs ([] ∷ cs) (length-flatten_lt all h)))
          (rw (saved_sizes-append ar bs ([] ∷ cs)) (simp append_assoc)))
