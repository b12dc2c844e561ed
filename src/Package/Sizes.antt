-- ===== src/Package/Sizes.antt =====
-- The size list of a package: what the packets put there, and how far it is read.
use srpg.Base.{
  ℕ, length, All, flatten, zero, suc, ◌+◌, ◌^◌, ◌<◌, ◌≡◌, sym, List, [], ◌∷◌, ◌++◌, map, append-nil,
  arith, length-append, some, ap, append_assoc, ◌%◌, ◌∙◌, ◌-◌, refl,
}
use srpg.Archive.{Archive}
use srpg.Package.{Ipackage, begin_packet, Package, unpack_loop, write, sizes, end_packet}

module _ (ar : Archive) where
  open ar use {save, load, load-save}

  -- The packets `bs`, written and ended one after the other.
  unfoldable pub write_packets : Package → List (List ℕ) → Package
  unfolding begin_packet write end_packet
  write_packets p [] = p
  write_packets p (b ∷ bs) = write_packets (end_packet ar (write (begin_packet p) b)) bs

  abbrev pub saved_sizes : List (List ℕ) → List ℕ
  saved_sizes [] = []
  saved_sizes (b ∷ bs) = save 32 (length b) ++ saved_sizes bs

  end_packet_lem :
      (p : Package) (b : List ℕ)
      → p.last_size ≡ length p.stream_buf
      → length p.stream_buf + length b < 2 ^ 32
      → let q = end_packet ar (write (begin_packet p) b) in
        (q.stream_buf ≡ p.stream_buf ++ b)
        × (q.packet_sizes_buf ≡ p.packet_sizes_buf ++ save 32 (length b))
        × (q.last_size ≡ length q.stream_buf)
  unfolding begin_packet write end_packet
  end_packet_lem p b h hn =
      let n : length (p.stream_buf ++ b) ≡ length p.stream_buf + length b =
        length-append p.stream_buf b in
      let grown : (length (p.stream_buf ++ b) % 2 ^ 32 + 2 ^ 32 - p.last_size) % 2 ^ 32 ≡ length b =
        omega arith in
      (refl, ap (λ (k : ℕ). p.packet_sizes_buf ++ save 32 k) grown, omega arith)

  pub write_packets_lem :
      (p : Package) (bs : List (List ℕ))
      → p.last_size ≡ length p.stream_buf
      → length p.stream_buf + length (flatten bs) < 2 ^ 32
      → ((write_packets p bs).stream_buf ≡ p.stream_buf ++ flatten bs)
        × ((write_packets p bs).packet_sizes_buf ≡ p.packet_sizes_buf ++ saved_sizes bs)
  unfolding write_packets
  write_packets_lem p [] h hn = (sym (append-nil p.stream_buf), sym (append-nil p.packet_sizes_buf))
  write_packets_lem p (b ∷ bs) h hn =
      let q = end_packet ar (write (begin_packet p) b) in
      let (st, sz, l) = end_packet_lem p b h (omega (arith, length-append b (flatten bs))) in
      let room : length q.stream_buf + length (flatten bs) < 2 ^ 32 =
        omega (arith, ap length st, length-append p.stream_buf b, length-append b (flatten bs)) in
      let (st', sz') = write_packets_lem q bs l room in
      (
        st' ∙ rw st (append_assoc p.stream_buf b (flatten bs)),
        sz' ∙ rw sz (append_assoc p.packet_sizes_buf (save 32 (length b)) (saved_sizes bs)),
      )

  pub unpack_loop_lem :
      (bs : List (List ℕ)) (fuel : ℕ) (ip : Ipackage) (rest : List ℕ)
      → length bs < fuel
      → All (λ b. (0 < length b) × (length b < 2 ^ 32)) bs
      → ip.stream_buf ≡ saved_sizes bs ++ (save 32 0 ++ rest)
      → unpack_loop ar fuel ip
        ≡ sizes (record ip { packet_sizes = ip.packet_sizes ++ map length bs; stream_buf = rest })
  unfolding unpack_loop
  unpack_loop_lem bs zero ip rest hf hb e = absurd (omega arith)
  unpack_loop_lem [] (suc fuel) ip rest hf hb e =
      let last : load 32 ip.stream_buf ≡ some (0, rest) =
        rw e (load-save 32 0 rest (omega arith) (omega arith) (omega arith)) in
      ground (arith, last, append-nil ip.packet_sizes)
  unpack_loop_lem (b ∷ bs) (suc fuel) ip rest hf hb e =
      let first : load 32 ip.stream_buf ≡ some (length b, saved_sizes bs ++ (save 32 0 ++ rest)) =
        rw (e, append_assoc (save 32 (length b)) (saved_sizes bs) (save 32 0 ++ rest))
          (load-save 32 (length b) _ (omega arith) (omega arith) hb.0.1) in
      ground (
        arith,
        first,
        unpack_loop_lem bs fuel
            (record ip {
              packet_sizes = ip.packet_sizes ++ (length b ∷ []);
              stream_buf = saved_sizes bs ++ (save 32 0 ++ rest);
            })
            rest (omega arith) hb.1 refl,
        append_assoc ip.packet_sizes (length b ∷ []) (map length bs),
      )

  pub saved_sizes-append :
      (bs cs : List (List ℕ)) → saved_sizes (bs ++ cs) ≡ saved_sizes bs ++ saved_sizes cs
  saved_sizes-append [] cs = refl
  saved_sizes-append (b ∷ bs) cs =
      rw (saved_sizes-append bs cs) (sym (append_assoc (save 32 (length b)) _ _))
