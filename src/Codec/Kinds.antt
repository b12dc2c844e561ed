-- ===== src/Codec/Kinds.antt =====
-- The choice of an encoder and a decoder by the kind of the type: `encode`, `can_encode` and
-- `decode` of common/rrpc/encode.hpp and common/rrpc/decode.hpp.
use srpg.Base.{ℕ, ◌^◌, ◌≤◌, ◌<◌, ◌≡◌, Bool, true, false, Option, none, some, List, ◌++◌, ap, refl}
use mathlib.Core.Option.{get_or as or_else}
use srpg.Io.{Sink, Source}
use srpg.Codec.{
  Outcome, ok, encode_unsigned, encode_signed, encode_fixed, encode_float, decode_unsigned,
  decode_signed, decode_fixed, decode_float,
}
use srpg.Codec.RoundTrip.{Reads, decode-encode_unsigned}
use srpg.Codec.Signed.{decode-encode_signed}
use srpg.Codec.Fixed.{decode-encode_fixed}

-- The kinds that the specialisations tell apart, with the width in bits, or the size in bytes.
pub data Kind : Type 0 where
  unsigned : ℕ → Kind
  signed : ℕ → Kind
  fixed : ℕ → Kind
  floating : ℕ → Kind
  enumeration : Kind → Kind
  other : Kind

-- `can_encode<T>`, which is `encoder<T>::value`.
unfoldable pub can_encode : Kind → Bool
can_encode (unsigned w) = true
can_encode (signed w) = true
can_encode (fixed n) = true
can_encode (floating n) = true
can_encode (enumeration k) = false
can_encode other = false

-- `encode(snk, v)`; `none` where `encoder<T>` has no `invoke`, and the call does not compile.
unfoldable pub encode : (T : Sink) → Kind → T.Carrier → ℕ → Option T.Carrier
unfolding encode_unsigned encode_signed encode_fixed encode_float
encode T (unsigned w) snk v = some (encode_unsigned T snk v)
encode T (signed w) snk v = some (encode_signed T w snk v)
encode T (fixed n) snk v = some (encode_fixed T n snk v)
encode T (floating n) snk v = some (encode_float T n snk v)
encode T (enumeration k) snk v = none
encode T other snk v = none

-- `decode(ar, v)`, over the value `old` that `v` has before. `serialize` is boost::serialization's.
pub decode :
    (K : Source)
    → (ℕ → K.Carrier → Outcome (ℕ × K.Carrier))
    → Kind
    → ℕ
    → K.Carrier
    → Outcome (ℕ × K.Carrier)
unfolding decode_unsigned decode_signed decode_fixed decode_float
decode K serialize (unsigned w) old src = decode_unsigned K w src
decode K serialize (signed w) old src = decode_signed K w src
decode K serialize (fixed n) old src = ok (decode_fixed K n old src)
decode K serialize (floating n) old src = ok (decode_float K old src)
decode K serialize (enumeration k) old src = decode K serialize k old src
decode K serialize other old src = serialize old src

-- The value is a bit pattern of the type.
abbrev pub FitsKind : Kind → ℕ → Type 0
FitsKind (unsigned w) v = (0 < w) × (w ≤ 64) × (v < 2 ^ w)
FitsKind (signed w) v = (0 < w) × (w ≤ 64) × (v < 2 ^ w)
FitsKind (fixed n) v = v < 256 ^ n
FitsKind _ v = Unit

-- What comes back: the value, and the source behind it; or, for a floating point number, the value
-- that the target held, and the source unread.
abbrev pub ComesBack :
    (K : Source) → Kind → ℕ → ℕ → K.Carrier → List ℕ → Outcome (ℕ × K.Carrier) → Type 0
ComesBack K (floating n) old v src rest o = o ≡ ok (old, src)
ComesBack K _ old v src rest o = Reads K o v rest

-- A value of any kind that can be encoded is encoded, and `decode` for the same kind on the bytes
-- that this appended returns it and leaves what follows them, for integers of up to 64 bits in both
-- forms and for `fixed` integers, whatever the target held before. For floating point numbers it
-- returns without reading: the target keeps its old value and the bytes stay in the source.
pub decode-encode :
    (T : Sink) (K : Source) (serialize : ℕ → K.Carrier → Outcome (ℕ × K.Carrier)) (k : Kind)
    (snk : T.Carrier) (src : K.Carrier) (v old : ℕ) (bytes rest : List ℕ)
    → can_encode k ≡ true
    → FitsKind k v
    → T.written (or_else (encode T k snk v) snk) ≡ T.written snk ++ bytes
    → K.remaining src ≡ bytes ++ rest
    → ((snk' : T.Carrier) × (encode T k snk v ≡ some snk'))
      × ComesBack K k old v src rest (decode K serialize k old src)
unfolding can_encode encode decode decode_float
decode-encode T K serialize (unsigned w) snk src v old bytes rest can fits e h =
    ((_, refl), decode-encode_unsigned K T snk src w v bytes rest fits.0 fits.1 fits.2 e h)
decode-encode T K serialize (signed w) snk src v old bytes rest can fits e h =
    ((_, refl), decode-encode_signed T K snk src w v bytes rest fits.0 fits.1 fits.2 e h)
decode-encode T K serialize (fixed n) snk src v old bytes rest can fits e h =
    let (value, left) = decode-encode_fixed K T snk src n v old bytes rest fits e h in
    (
      (_, refl),
      ((decode_fixed K n old src).1, ap (λ x. ok (x, (decode_fixed K n old src).1)) value, left),
    )
decode-encode T K serialize (floating n) snk src v old bytes rest can fits e h = ((_, refl), refl)
decode-encode T K serialize (enumeration k) snk src v old bytes rest can fits e h = absurd cc
decode-encode T K serialize other snk src v old bytes rest can fits e h = absurd cc
