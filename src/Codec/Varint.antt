-- ===== src/Codec/Varint.antt =====
-- The bytes that `encode_unsigned` writes, described by plain arithmetic.
use srpg.Base.{
  ℕ, zero, suc, ◌+◌, ◌/◌, ◌%◌, ◌^◌, ◌<◌, ◌≡◌, arith, bit_and, bit_or, ltb, if◌then◌else◌, List, [],
  ◌∷◌, ◌++◌, append_assoc,
}
use srpg.Base.Bits.{bit_and-mask, bit_or-add}
use srpg.Base.Order.{lt_wf}
use srpg.Io.{Sink}
use srpg.Codec.{encode_loop, encode_unsigned}
use mathlib.Core.WellFounded.{Acc}

-- The groups of seven bits of `v`, lowest first, all but the last marked by the top bit.
abbrev pub varint : ℕ → ℕ → List ℕ
varint zero v = v ∷ []
varint (suc k) v = if ltb v 128 then v ∷ [] else (v % 128 + 128) ∷ varint k (v / 128)

pub low_seven : (v : ℕ) → bit_and v 0x7f ≡ v % 128
low_seven v = bit_and-mask 7 v

mark_byte : (v : ℕ) → v < 128 → bit_or v 0x80 ≡ v + 128
mark_byte v h = bit_or-add 7 v 1 h

module _ (K : Sink) where
  open K use {Carrier, put, written, put_appends}

  written-encode_loop :
      (k : ℕ) (snk : Carrier) (v : ℕ) (w : Acc ◌<◌ v)
      → v < 128 ^ suc k
      → written (encode_loop K snk v w) ≡ written snk ++ varint k v
  unfolding encode_loop
  written-encode_loop zero snk v (Acc.intro _ smaller) h =
      ground (arith, low_seven v, put_appends snk (bit_and v 127))
  written-encode_loop (suc k) snk v (Acc.intro _ smaller) h = grind (
    arith,
    low_seven v,
    mark_byte (v % 128),
    put_appends snk (bit_and v 127),
    put_appends snk (bit_or (bit_and v 127) 128),
    λ (w : Acc ◌<◌ (v / 128)).
        written-encode_loop k (put snk (bit_or (bit_and v 127) 128)) (v / 128) w (omega arith),
    append_assoc (written snk) ((v % 128 + 128) ∷ []) (varint k (v / 128)),
  )

  -- On a value of at most 64 bits `encode_unsigned` appends the groups to what was written.
  pub written-encode_unsigned :
      (snk : Carrier) (v : ℕ)
      → v < 2 ^ 64
      → written (encode_unsigned K snk v) ≡ written snk ++ varint 9 v
  unfolding encode_unsigned
  written-encode_unsigned snk v h = written-encode_loop 9 snk v (lt_wf.apply v) (omega arith)
