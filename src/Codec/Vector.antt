-- ===== src/Codec/Vector.antt =====
-- Vectors: the number of items, and then the items.
use srpg.Base.{
  ◌+◌, ℕ, ◌^◌, ◌≤◌, ◌<◌, ◌≡◌, refl, List, [], ◌∷◌, ◌++◌, append_assoc, length, All, arith,
}
use srpg.Io.{Source}
use srpg.Codec.{decode_unsigned, decode_items, decode_vector, increment, ok}
use srpg.Codec.Varint.{varint}
use srpg.Codec.RoundTrip.{Reads, decode_unsigned-varint}

abbrev varints : List ℕ → List ℕ
varints [] = []
varints (v ∷ vs) = varint 9 v ++ varints vs

increment_lem : (i : ℕ) → i + 1 < 2 ^ 31 → increment i ≡ ok (i + 1)
unfolding increment
increment_lem i h = ground (arith, h)

module _ (K : Source) (w : ℕ) (hw : 0 < w) (hw' : w ≤ 64) where
  open K use {Carrier, remaining}

  decode_items-varints :
      (i : ℕ) (vs rest : List ℕ) (src : Carrier)
      → i + length vs < 2 ^ 31
      → All (λ v. v < 2 ^ w) vs
      → remaining src ≡ varints vs ++ rest
      → Reads K (decode_items K (decode_unsigned K w) i (length vs) src) vs rest
  unfolding decode_items
  decode_items-varints i [] rest src room hv h = (src, refl, h)
  decode_items-varints i (v ∷ vs) rest src room hv h =
      let (mid, d, r) =
        decode_unsigned-varint K w v src (varints vs ++ rest) hw hw' hv.0
          (rw (← append_assoc (varint 9 v) (varints vs) rest) h) in
      let (end, d', r') = decode_items-varints (i + 1) vs rest mid (omega (arith, room)) hv.1 r in
      (end, rw (d, increment_lem i (omega (arith, room)), d') refl, r')

  -- `decode_vector` of a vector of fewer than 2^31 items, the range of the loop's `int`, of an unsigned type of `w` bits, at most 64, reads the vector whose size and
  -- items stand in the source as the groups that `encode_unsigned` writes, and leaves the rest.
  pub decode_vector-varints :
      (vs rest : List ℕ) (src : Carrier)
      → length vs < 2 ^ 31
      → All (λ v. v < 2 ^ w) vs
      → remaining src ≡ varint 9 (length vs) ++ varints vs ++ rest
      → Reads K (decode_vector K (decode_unsigned K w) src) vs rest
  unfolding decode_vector
  decode_vector-varints vs rest src hn hv h =
      let (mid, d, r) =
        decode_unsigned-varint K 64 (length vs) src (varints vs ++ rest) (omega arith) (omega arith)
          (omega (arith, hn)) (rw (← append_assoc (varint 9 (length vs)) (varints vs) rest) h) in
      let (end, d', r') = decode_items-varints 0 vs rest mid (omega (arith, hn)) hv r in
      (end, rw (d, d') refl, r')
