-- ===== src/Codec/Signed.antt =====
-- Signed integers: the zigzag form and its round trip.
use srpg.Base.{
  ℕ, zero, suc, ◌-◌, ◌*◌, ◌/◌, ◌%◌, ◌^◌, ◌≤◌, ◌<◌, ◌≡◌, ◌∙◌, arith, ltb, if◌then◌else◌, List, ◌++◌,
  dec_lt, refl,
}
use srpg.Base.Bits.{two_pow_suc, bit_xor-mask, bit_xor-zero, bit_and-mask}
use srpg.Io.{Sink, Source}
use srpg.Codec.{zigzag, unzigzag, encode_signed, decode_signed}
use srpg.Codec.RoundTrip.{Reads, decode-encode_unsigned}
use native.Mathlib.Nat.{mod-eq_of_lt, mod-eq-sub-mod}

two_pow_pred : (w : ℕ) → 0 < w → 2 ^ w ≡ 2 * 2 ^ (w - 1)
two_pow_pred zero h = absurd (omega arith)
two_pow_pred (suc k) h = let e : suc k - 1 ≡ k = omega arith in rw e (two_pow_suc k)

-- The signed number of the pattern `v` is `v`, or `v - 2 ^ w` from `2 ^ (w - 1)` on. The first is
-- taken to its double, and the second, `-m`, to `2 * m - 1`.
pub zigzag_lem :
    (w v : ℕ)
    → 0 < w
    → v < 2 ^ w
    → zigzag w v ≡ (if ltb v (2 ^ (w - 1)) then v * 2 else 2 * (2 ^ w - v) - 1)
unfolding zigzag
zigzag_lem w v hw hv = elim (dec_lt v (2 ^ (w - 1))) [
  | yes p ↦ ground (
    arith,
    two_pow_pred w hw,
    bit_xor-zero (v * 2 % 2 ^ w),
    mod-eq_of_lt {n = v * 2} {m = 2 ^ w} (omega (arith, two_pow_pred w hw)),
  )
  | no p ↦ ground (arith, two_pow_pred w hw, high p, bit_xor-mask w (v * 2 % 2 ^ w))
]
  where
    high : ¬ (v < 2 ^ (w - 1)) → v * 2 % 2 ^ w ≡ v * 2 - 2 ^ w
    high p =
        mod-eq-sub-mod (omega (arith, two_pow_pred w hw))
        ∙ mod-eq_of_lt (omega (arith, two_pow_pred w hw))

pub zigzag-lt : (w v : ℕ) → 0 < w → v < 2 ^ w → zigzag w v < 2 ^ w
zigzag-lt w v hw hv = ground (arith, zigzag_lem w v hw hv, two_pow_pred w hw)

pub unzigzag-zigzag : (w v : ℕ) → 0 < w → v < 2 ^ w → unzigzag w (zigzag w v) ≡ v
unfolding unzigzag
unzigzag-zigzag w v hw hv = ground (
  arith,
  zigzag_lem w v hw hv,
  two_pow_pred w hw,
  bit_and-mask 1 (zigzag w v),
  bit_xor-zero (zigzag w v / 2),
  bit_xor-mask w (zigzag w v / 2),
)

-- `decode_signed` reads back a value of a signed type of `w` bits, at most 64, from the bytes that
-- `encode_signed` appended for it, and leaves what follows them in the source.
pub decode-encode_signed :
    (T : Sink) (K : Source) (snk : T.Carrier) (src : K.Carrier) (w v : ℕ) (bytes rest : List ℕ)
    → 0 < w
    → w ≤ 64
    → v < 2 ^ w
    → T.written (encode_signed T w snk v) ≡ T.written snk ++ bytes
    → K.remaining src ≡ bytes ++ rest
    → Reads K (decode_signed K w src) v rest
unfolding encode_signed decode_signed
decode-encode_signed T K snk src w v bytes rest hw hw' hv e h =
    let (end, d, r) =
      decode-encode_unsigned K T snk src w (zigzag w v) bytes rest hw hw' (zigzag-lt w v hw hv) e
        h in
    (end, rw (d, unzigzag-zigzag w v hw hv) refl, r)
