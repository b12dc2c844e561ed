-- ===== src/Codec/RoundTrip.antt =====
-- Reading back what `encode_unsigned` wrote, and what `decode_unsigned` does on any input.
use srpg.Base.{
  ℕ, zero, suc, ◌+◌, ◌*◌, ◌/◌, ◌%◌, ◌^◌, ◌≤◌, ◌<◌, ◌≡◌, ◌⊎◌, refl, sym, ap, ◌∙◌, arith, bit_or,
  true, inl, inr, some, List, ◌∷◌, ◌++◌,
}
use srpg.Base.Bits.{bit_or-add, lt_of_pow-lt, two_pow_add7}
use srpg.Io.{Sink, Source}
use srpg.Codec.{
  Outcome, ok, low_group, shift_defined, decode_loop, decode_unsigned, encode_unsigned,
}
use srpg.Codec.Varint.{varint, low_seven, written-encode_unsigned}
use mathlib.Core.List.{append_cancel_left}
use native.Mathlib.Decide.{dec_lt}
use native.Mathlib.Nat.{mul-le-mul_left, pow-le-pow_right, mod-eq_of_lt, div-add-mod}

-- A shift that keeps the value below `2 ^ w` is defined.
shift_defined_of_fits :
    (w group shift : ℕ)
    → 0 < w
    → (2 ^ shift < 2 ^ w) ⊎ (shift ≡ 0)
    → group * 2 ^ shift < 2 ^ w
    → shift_defined w group shift ≡ true
shift_defined_of_fits w group shift hw h fits = elim (dec_lt w 32) [
  | yes small ↦
      ground
        (arith, shift_lt, pow-le-pow_right {n = 2} (omega arith) {i = w} {j = 32} (omega arith))
  | no large ↦ ground (arith, shift_lt)
]
  where
    shift_lt : shift < w
    shift_lt = elim h [ inl p ↦ lt_of_pow-lt shift w p | inr e ↦ omega arith ]

round_value :
    (w g acc shift : ℕ)
    → acc < 2 ^ shift
    → acc + g * 2 ^ shift < 2 ^ w
    → bit_or acc (g * 2 ^ shift % 2 ^ w) ≡ acc + g * 2 ^ shift
round_value w g acc shift ha fits =
    ap (bit_or acc) (mod-eq_of_lt (omega arith)) ∙ bit_or-add shift acc g ha

low_group_last : (b : ℕ) → b < 128 → low_group (some b) ≡ b
low_group_last b h = omega (arith, low_seven b)

low_group_more : (g : ℕ) → g < 128 → low_group (some (g + 128)) ≡ g
low_group_more g h = omega (arith, low_seven (g + 128))

module _ (K : Source) where
  open K use {Carrier, get, remaining, get_byte, get_eof}

  -- One round on a byte `b`, in numbers.
  round_last :
      (w fuel : ℕ) (src rest : Carrier) (b acc shift : ℕ)
      → get src ≡ (some b, rest)
      → b < 128
      → acc < 2 ^ shift
      → shift_defined w b shift ≡ true
      → acc + b * 2 ^ shift < 2 ^ w
      → decode_loop K w (suc fuel) src acc shift ≡ ok (acc + b * 2 ^ shift, rest)
  unfolding decode_loop
  round_last w fuel src rest b acc shift e hb ha hd fits =
      ground (arith, e, low_group_last b hb, round_value w b acc shift ha fits)

  round_more :
      (w fuel : ℕ) (src rest : Carrier) (g acc shift : ℕ)
      → get src ≡ (some (g + 128), rest)
      → g < 128
      → acc < 2 ^ shift
      → shift_defined w g shift ≡ true
      → acc + g * 2 ^ shift < 2 ^ w
      → decode_loop K w (suc fuel) src acc shift
        ≡ decode_loop K w fuel rest (acc + g * 2 ^ shift) (shift + 7)
  unfolding decode_loop
  round_more w fuel src rest g acc shift e hb ha hd fits =
      ground (arith, e, low_group_more g hb, round_value w g acc shift ha fits)

-- The lowest group of `u` and the others, counted from bit `s` on.
split_low : (u s : ℕ) → u * 2 ^ s ≡ u % 128 * 2 ^ s + u / 128 * 2 ^ (s + 7)
split_low u s = omega (
  arith,
  ap (λ (t : ℕ). t * 2 ^ s) (div-add-mod u 128),
  ap (λ (t : ℕ). u / 128 * t) (two_pow_add7 s),
)

group_fits : (acc g s : ℕ) → acc < 2 ^ s → g < 128 → acc + g * 2 ^ s < 2 ^ (s + 7)
group_fits acc g s ha hg =
    omega (arith, two_pow_add7 s, mul-le-mul_left {m = g} {n = 127} (2 ^ s) (omega arith))

in_range :
    (w u shift : ℕ)
    → (0 < u) ⊎ (shift ≡ 0)
    → u * 2 ^ shift < 2 ^ w
    → (2 ^ shift < 2 ^ w) ⊎ (shift ≡ 0)
in_range w u shift (inl h) fits =
    inl (omega (arith, mul-le-mul_left {m = 1} {n = u} (2 ^ shift) (omega arith)))
in_range w u shift (inr h) fits = inr h

module _ (K : Source) where
  open K use {Carrier, get, remaining, get_byte}

  -- The outcome is the value `v`, and `rest` is left to read.
  abbrev pub Reads {ℓ} : {A : Type ℓ} → Outcome (A × Carrier) → A → List ℕ → Type ℓ
  Reads r v rest = (end : Carrier) × (r ≡ ok (v, end)) × (remaining end ≡ rest)

  get_pair :
      (src : Carrier) (b : ℕ) (bs : List ℕ)
      → remaining src ≡ b ∷ bs
      → (rest : Carrier) × (get src ≡ (some b, rest)) × (remaining rest ≡ bs)
  get_pair src b bs h = let (e, r) = get_byte src b bs h in ((get src).1, cc e, r)

  Reads-last :
      (w fuel : ℕ) (src : Carrier) (rest : List ℕ) (u acc shift : ℕ)
      → remaining src ≡ u ∷ rest
      → u < 128
      → acc < 2 ^ shift
      → shift_defined w u shift ≡ true
      → acc + u * 2 ^ shift < 2 ^ w
      → Reads (decode_loop K w (suc fuel) src acc shift) (acc + u * 2 ^ shift) rest
  Reads-last w fuel src rest u acc shift h hu ha hd fits =
      let (end, e, r) = get_pair src u rest h in
      (end, round_last K w fuel src end u acc shift e hu ha hd fits, r)

  decode_loop-varint :
      (k fuel w : ℕ) (src : Carrier) (rest : List ℕ) (u acc shift : ℕ)
      → remaining src ≡ varint k u ++ rest
      → k < fuel
      → 0 < w
      → u < 128 ^ suc k
      → (0 < u) ⊎ (shift ≡ 0)
      → acc < 2 ^ shift
      → acc + u * 2 ^ shift < 2 ^ w
      → Reads (decode_loop K w fuel src acc shift) (acc + u * 2 ^ shift) rest
  decode_loop-varint k zero w src rest u acc shift h hf hw hu hs ha fits = absurd (omega arith)
  decode_loop-varint zero (suc fuel) w src rest u acc shift h hf hw hu hs ha fits =
      Reads-last w fuel src rest u acc shift h (omega arith) ha
        (shift_defined_of_fits w u shift hw (in_range w u shift hs (omega arith)) (omega arith))
        fits
  decode_loop-varint (suc k) (suc fuel) w src rest u acc shift h hf hw hu hs ha fits =
      elim (dec_lt u 128) [
        | yes small ↦
            Reads-last w fuel src rest u acc shift (ground (arith, h)) small ha
              (shift_defined_of_fits w u shift hw (in_range w u shift hs (omega arith))
                (omega arith))
              fits
        | no large ↦
            let split = split_low u shift in
            let defined : shift_defined w (u % 128) shift ≡ true =
              shift_defined_of_fits w (u % 128) shift hw (in_range w u shift hs (omega arith))
                (omega arith) in
            let (next, e, r) =
              get_pair src (u % 128 + 128) (varint k (u / 128) ++ rest) (ground (arith, h)) in
            let (end, d, r') =
              decode_loop-varint k fuel w next rest (u / 128) (acc + u % 128 * 2 ^ shift)
                (shift + 7) r (omega arith) hw (omega arith) (inl (omega arith))
                (group_fits acc (u % 128) shift ha (omega arith)) (omega arith) in
            let sum : acc + u % 128 * 2 ^ shift + u / 128 * 2 ^ (shift + 7) ≡ acc + u * 2 ^ shift =
              omega arith in
            (
              end,
              round_more K w fuel src next (u % 128) acc shift e (omega arith) ha defined
                    (omega arith)
                  ∙ rw (← sum) d,
              r',
            )
      ]

  pub decode_unsigned-varint :
      (w v : ℕ) (src : Carrier) (rest : List ℕ)
      → 0 < w
      → w ≤ 64
      → v < 2 ^ w
      → remaining src ≡ varint 9 v ++ rest
      → Reads (decode_unsigned K w src) v rest
  unfolding decode_unsigned
  decode_unsigned-varint w v src rest hw hw' hv h =
      let bound : v < 2 ^ 64 =
        omega (arith, pow-le-pow_right {n = 2} (omega arith) {i = w} {j = 64} hw') in
      let (end, d, r) =
        decode_loop-varint 9 11 w src rest v 0 0 h (omega arith) hw (omega arith) (inr refl)
          (omega arith) (omega arith) in
      let total : 0 + v * 2 ^ 0 ≡ v = omega arith in (end, rw total at d, r)

  -- `decode_unsigned` reads the bytes that `encode_unsigned` appended for a value `v` of a type of
  -- `w` bits, at most 64: it returns `v` and leaves what follows them in the source.
  pub decode-encode_unsigned :
      (T : Sink) (snk : T.Carrier) (src : Carrier) (w v : ℕ) (bytes rest : List ℕ)
      → 0 < w
      → w ≤ 64
      → v < 2 ^ w
      → T.written (encode_unsigned T snk v) ≡ T.written snk ++ bytes
      → remaining src ≡ bytes ++ rest
      → Reads (decode_unsigned K w src) v rest
  decode-encode_unsigned T snk src w v bytes rest hw hw' hv e h =
      let bound : v < 2 ^ 64 =
        omega (arith, pow-le-pow_right {n = 2} (omega arith) {i = w} {j = 64} hw') in
      let same : bytes ≡ varint 9 v =
        append_cancel_left (T.written snk) bytes (varint 9 v)
          (sym e ∙ written-encode_unsigned T snk v bound) in
      decode_unsigned-varint w v src rest hw hw' hv (rw (← same) h)
