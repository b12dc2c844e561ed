-- ===== src/Codec/Fixed.antt =====
-- `fixed` integers: the little-endian bytes, and what is read when some are missing.
use srpg.Base.{
  ℕ, ◌^◌, ◌<◌, ◌≡◌, refl, sym, ◌∙◌, arith, List, [], ◌∷◌, ◌++◌, append-nil, append_assoc, length,
}
use srpg.Base.Bytes.{to_bytes, length-to_bytes, of_bytes-to_bytes, drop-to_bytes}
use srpg.Io.{Sink, Source}
use srpg.Codec.{write, encode_fixed, read, decode_fixed}
use mathlib.Core.List.{append_cancel_left}

pub written-write :
    (T : Sink) (snk : T.Carrier) (bs : List ℕ) → T.written (write T snk bs) ≡ T.written snk ++ bs
unfolding write
written-write T snk [] = sym (append-nil (T.written snk))
written-write T snk (b ∷ bs) =
    written-write T (T.put snk b) bs
    ∙ rw (T.put_appends snk b) (append_assoc (T.written snk) (b ∷ []) bs)

module _ (K : Source) where
  open K use {Carrier, get, remaining, get_byte, get_eof}

  -- `read` takes the first `n` bytes, or all if there are fewer.
  pub read_lem :
      (bs rest : List ℕ) (src : Carrier)
      → remaining src ≡ bs ++ rest
      → ((read K (length bs) src).0 ≡ bs) × (remaining (read K (length bs) src).1 ≡ rest)
  unfolding read
  read_lem [] rest src h = (refl, h)
  read_lem (b ∷ bs) rest src h =
      let (e, r) = get_byte src b (bs ++ rest) h in
      ground (arith, e, read_lem bs rest (get src).1 r)

  -- `decode_fixed` reads back an integer of `n` bytes from the bytes that `encode_fixed` appended
  -- for it, whatever the target held before, and leaves what follows them in the source.
  pub decode-encode_fixed :
      (T : Sink) (snk : T.Carrier) (src : Carrier) (n v old : ℕ) (bytes rest : List ℕ)
      → v < 256 ^ n
      → T.written (encode_fixed T n snk v) ≡ T.written snk ++ bytes
      → remaining src ≡ bytes ++ rest
      → ((decode_fixed K n old src).0 ≡ v) × (remaining (decode_fixed K n old src).1 ≡ rest)
  unfolding encode_fixed decode_fixed
  decode-encode_fixed T snk src n v old bytes rest hv e h =
      let same : bytes ≡ to_bytes n v =
        append_cancel_left (T.written snk) bytes (to_bytes n v)
          (sym e ∙ written-write T snk (to_bytes n v)) in
      let len : length bytes ≡ n = rw same (length-to_bytes n v) in
      let (a, b) = rw len at (read_lem bytes rest src h) in
      (rw (a, len, drop-to_bytes n old, append-nil bytes, same) (of_bytes-to_bytes n v hv), b)
