-- ===== src/Codec/Bounds.antt =====
-- How many bytes a number takes, and how large a number can be that is read.
use srpg.Base.{
  ℕ, zero, suc, ◌+◌, ◌*◌, ◌/◌, ◌%◌, ◌^◌, ◌≤◌, ◌<◌, ◌≡◌, ◌⊎◌, inl, inr, arith, bit_or, if◌then◌else◌,
  length, length-append, ap, ◌∙◌, true, false, Bool, refl, dec_lt, ltb-true, ltb-false,
}
use srpg.Base.Bits.{bit_or-lt, two_pow_pos}
use srpg.Io.{Sink, Source}
use srpg.Codec.{
  encode_unsigned, ok, undefined_shift, Outcome, decode_loop, decode_unsigned, low_group, is_last,
  shift_defined,
}
use srpg.Codec.Varint.{varint, written-encode_unsigned}
use native.Mathlib.Nat.{mod-lt, pow-suc}

-- `n` groups of seven bits hold `v`, and no fewer do.
pub Groups : ℕ → ℕ → Type 0
Groups n v = (0 < n) × (v < 128 ^ n) × ((m : ℕ) → 0 < m → v < 128 ^ m → n ≤ m)

Groups-one : (v : ℕ) → v < 128 → Groups 1 v
unfolding Groups
Groups-one v h = (omega arith, omega arith, λ m hm hv. omega arith)

Groups-suc : (n v : ℕ) → 128 ≤ v → Groups n (v / 128) → Groups (suc n) v
unfolding Groups
Groups-suc n v h (pos, fits, least) = (omega arith, omega (arith, pow-suc 128 n), fewest)
  where
    fewest : (m : ℕ) → 0 < m → v < 128 ^ m → suc n ≤ m
    fewest zero hm hv = absurd (omega arith)
    fewest (suc zero) hm hv = absurd (omega arith)
    fewest (suc (suc m)) hm hv =
        let rest = least (suc m) (omega arith) (omega (arith, pow-suc 128 (suc m))) in omega arith

length-varint : (k v : ℕ) → v < 128 ^ suc k → Groups (length (varint k v)) v
length-varint zero v h = Groups-one v (omega arith)
length-varint (suc k) v h = elim (dec_lt v 128) [
  | yes p ↦ rw (ltb-true v 128 p) (Groups-one v p)
  | no p ↦ rw (ltb-false v 128 (omega arith)) (
      Groups-suc (length (varint k (v / 128))) v (omega arith)
        (length-varint k (v / 128) (omega (arith, pow-suc 128 (suc k)))))
]

-- `encode_unsigned` appends the bytes of the fewest groups of seven bits that hold the value, one
-- byte at least, which are ten at most for a value of 64 bits.
pub length-encode_unsigned :
    (K : Sink) (snk : K.Carrier) (v : ℕ)
    → v < 2 ^ 64
    → (n : ℕ) × Groups n v
      × (n ≤ 10)
      × (length (K.written (encode_unsigned K snk v)) ≡ length (K.written snk) + n)
unfolding Groups
length-encode_unsigned K snk v h =
    let gs = length-varint 9 v (omega arith) in
    (
      length (varint 9 v),
      gs,
      gs.2 10 (omega arith) (omega arith),
      ap length (written-encode_unsigned K snk v h) ∙ length-append (K.written snk) (varint 9 v),
    )

-- A decoded number with what is left, or an undefined shift.
unfoldable pub Bounded {ℓ} : {A : Type ℓ} → ℕ → Outcome (ℕ × A) → Type ℓ
Bounded {A = A} w o =
    ((v : ℕ) × (end : A) × (o ≡ ok (v, end)) × (v < 2 ^ w)) ⊎ (o ≡ undefined_shift)

Bounded-if {ℓ} :
    {A : Type ℓ} (w : ℕ) (defined last : Bool) (v : ℕ) (rest : A) (next : Outcome (ℕ × A))
    → v < 2 ^ w
    → (defined ≡ true → Bounded w next)
    → Bounded w (if defined then (if last then ok (v, rest) else next) else undefined_shift)
unfolding Bounded
Bounded-if w false last v rest next h b = inr refl
Bounded-if w true true v rest next h b = inl (v, rest, refl, h)
Bounded-if w true false v rest next h b = b refl

shift_defined-lt : (w g shift : ℕ) → w ≤ 64 → shift_defined w g shift ≡ true → shift < 64
shift_defined-lt w g shift hw e = ground (arith, e)

module _ (K : Source) where
  open K use {Carrier, get}

  decode_loop-Bounded :
      (fuel w : ℕ) (src : Carrier) (v shift : ℕ)
      → w ≤ 64
      → v < 2 ^ w
      → shift < 71
      → 71 ≤ shift + 7 * fuel
      → Bounded w (decode_loop K w fuel src v shift)
  unfolding decode_loop
  decode_loop-Bounded zero w src v shift hw hv hs hf = absurd (omega arith)
  decode_loop-Bounded (suc fuel) w src v shift hw hv hs hf =
      let (byte, rest) = get src in
      let v' = bit_or v (low_group byte * 2 ^ shift % 2 ^ w) in
      let small : v' < 2 ^ w =
        bit_or-lt w v (low_group byte * 2 ^ shift % 2 ^ w) hv (mod-lt _ (two_pow_pos w)) in
      Bounded-if w (shift_defined w (low_group byte) shift) (is_last byte) v' rest _ small (λ d.
        let near = shift_defined-lt w (low_group byte) shift hw d in
        decode_loop-Bounded fuel w rest v' (shift + 7) hw small (omega arith) (omega arith))

  -- On every source, `decode_unsigned` for a type of at most 64 bits ends within its eleven rounds,
  -- with a number of the type or with an undefined shift.
  pub decode_unsigned-Bounded :
      (w : ℕ) (src : Carrier) → w ≤ 64 → Bounded w (decode_unsigned K w src)
  unfolding decode_unsigned
  decode_unsigned-Bounded w src h =
      decode_loop-Bounded 11 w src 0 0 h (two_pow_pos w) (omega arith) (omega arith)
