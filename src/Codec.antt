-- ===== src/Codec.antt =====
-- common/rrpc/encode.hpp and common/rrpc/decode.hpp: integers of `w` bits as groups of seven bits,
-- signed integers in zigzag form, `fixed` integers as little-endian bytes.
-- A value of a `w`-bit type is its bit pattern, a number below `2 ^ w`.
pub mod Varint
pub mod RoundTrip
pub mod Truncated
pub mod Signed
pub mod Fixed
pub mod Vector
pub mod Bounds
pub mod Kinds
mod Runs
use srpg.Base.{
  ◌==◌, ℕ, zero, suc, ◌+◌, ◌-◌, ◌*◌, ◌/◌, ◌%◌, ◌^◌, ◌<◌, arith, bit_and, bit_or, bit_xor, Bool,
  true, false, ◌&&◌, ltb, if◌then◌else◌, Option, none, some, List, [], ◌∷◌, ◌++◌, dec_lt, length,
  drop,
}
use srpg.Base.Bytes.{to_bytes, of_bytes}
use srpg.Base.Order.{lt_wf}
use srpg.Io.{Sink, Source}
use mathlib.Core.Logic.{dite}
use mathlib.Core.WellFounded.{Acc}

-- `undefined_shift`, `int_overflow`: a shift, or a step of an `int`, that C++ leaves undefined. `stuck` is no C++ value: out of fuel.
pub data Outcome {ℓ} (A : Type ℓ) : Type ℓ where
  ok : A → Outcome A
  undefined_shift : Outcome A
  int_overflow : Outcome A
  stuck : Outcome A

infixl 5 ◌>>=◌
abbrev pub ◌>>=◌ {ℓ κ} : {A : Type ℓ} {B : Type κ} → Outcome A → (A → Outcome B) → Outcome B
ok a >>= f = f a
undefined_shift >>= f = undefined_shift
int_overflow >>= f = int_overflow
stuck >>= f = stuck

pub shift_shrinks : (v : ℕ) → 0 < v / 128 → v / 128 < v
shift_shrinks v h = omega arith

-- `(v << 1) ^ (v >> (bits - 1))`: the right shift copies the sign bit.
pub zigzag : ℕ → ℕ → ℕ
zigzag w v = let sign = if ltb v (2 ^ (w - 1)) then 0 else 2 ^ w - 1 in bit_xor (v * 2 % 2 ^ w) sign

-- `(static_cast<UT>(v) >> 1) ^ (-(v & 0x01))`
pub unzigzag : ℕ → ℕ → ℕ
unzigzag w z = let ones = if ltb 0 (bit_and z 0x01) then 2 ^ w - 1 else 0 in bit_xor (z / 2) ones

module _ (K : Sink) where
  open K use {Carrier, put}

  encode_loop : Carrier → (v : ℕ) → Acc ◌<◌ v → Carrier
  encode_loop snk v (Acc.intro _ smaller) =
      let byte = bit_and v 0x7f in
      dite (dec_lt 0 (v / 128))
        (λ more.
          encode_loop (put snk (bit_or byte 0x80)) (v / 128) (smaller _ (shift_shrinks v more)))
        (λ _. put snk byte)

  unfoldable pub encode_unsigned : Carrier → ℕ → Carrier
  unfolding encode_loop lt_wf dec_lt
  encode_unsigned snk v = encode_loop snk v (lt_wf.apply v)

  pub encode_signed : ℕ → Carrier → ℕ → Carrier
  unfolding encode_unsigned zigzag
  encode_signed w snk v = encode_unsigned snk (zigzag w v)

  -- `io::write`
  pub write : Carrier → List ℕ → Carrier
  write snk [] = snk
  write snk (b ∷ bs) = write (put snk b) bs

  -- An integer of `n` bytes; a floating point number is written as the integer of its bits.
  pub encode_fixed : ℕ → Carrier → ℕ → Carrier
  unfolding write to_bytes
  encode_fixed n snk v = write snk (to_bytes n v)

  pub encode_float : ℕ → Carrier → ℕ → Carrier
  unfolding encode_fixed
  encode_float n snk v = encode_fixed n snk v

-- `int byte`: EOF is -1, whose low seven bits are ones and which is below 0x80.
abbrev pub low_group : Option ℕ → ℕ
low_group none = 0x7f
low_group (some byte) = bit_and byte 0x7f

abbrev pub is_last : Option ℕ → Bool
is_last none = true
is_last (some byte) = ltb byte 0x80

-- `T(byte & 0x7f) << shift`: a type below 32 bits is promoted to `int` first.
abbrev pub shift_defined : ℕ → ℕ → ℕ → Bool
shift_defined w group shift =
    if ltb w 32 then ltb shift 32 && ltb (group * 2 ^ shift) (2 ^ 32) else ltb shift w

-- `++i` of an `int`
pub increment : ℕ → Outcome ℕ
increment i = if i == 2 ^ 31 - 1 then int_overflow else ok (i + 1)

module _ (K : Source) where
  open K use {Carrier, get}

  pub decode_loop : ℕ → ℕ → Carrier → ℕ → ℕ → Outcome (ℕ × Carrier)
  decode_loop w zero src v shift = stuck
  decode_loop w (suc fuel) src v shift =
      let (byte, rest) = get src in
      let v' = bit_or v (low_group byte * 2 ^ shift % 2 ^ w) in
      let next = decode_loop w fuel rest v' (shift + 7) in
      if shift_defined w (low_group byte) shift
      then (if is_last byte then ok (v', rest) else next)
      else undefined_shift

  -- Ten rounds shift by 0 to 63, and the eleventh by 70.
  unfoldable pub decode_unsigned : ℕ → Carrier → Outcome (ℕ × Carrier)
  unfolding decode_loop
  decode_unsigned w src = decode_loop w 11 src 0 0

  pub decode_signed : ℕ → Carrier → Outcome (ℕ × Carrier)
  unfolding decode_unsigned unzigzag
  decode_signed w src = do (z, rest) ← decode_unsigned w src; ok (unzigzag w z, rest)

  -- `io::read`: at most `n` bytes.
  pub read : ℕ → Carrier → List ℕ × Carrier
  read zero src = ([], src)
  read (suc n) src =
      let (byte, rest) = get src in
      let (bs, end) = read n rest in elim byte [ none ↦ ([], rest) | some b ↦ (b ∷ bs, end) ]

  -- Bytes that the source does not have stay as they were in `old`; the host is little-endian.
  pub decode_fixed : ℕ → ℕ → Carrier → ℕ × Carrier
  unfolding read to_bytes of_bytes
  decode_fixed n old src =
      let (bs, rest) = read n src in (of_bytes (bs ++ drop (length bs) (to_bytes n old)), rest)

  -- The body is a TODO: neither the value nor the source changes.
  pub decode_float : ℕ → Carrier → ℕ × Carrier
  decode_float old src = (old, src)

  -- `for(int i = 0; i < size; ++i) decode(ar, v[i]);` from `i` on, with `n` items to go.
  pub decode_items {ℓ} :
      {A : Type ℓ}
      → (Carrier → Outcome (A × Carrier))
      → ℕ
      → ℕ
      → Carrier
      → Outcome (List A × Carrier)
  unfolding increment
  decode_items decode i zero src = ok ([], src)
  decode_items decode i (suc n) src = decode src >>= λ p.
      increment i >>= λ j. decode_items decode j n p.1 >>= λ q. ok (p.0 ∷ q.0, q.1)

  pub decode_vector {ℓ} :
      {A : Type ℓ} → (Carrier → Outcome (A × Carrier)) → Carrier → Outcome (List A × Carrier)
  unfolding decode_items decode_unsigned
  decode_vector decode src = decode_unsigned 64 src >>= λ p. decode_items decode 0 p.0 p.1
