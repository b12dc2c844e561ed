-- ===== src/Codec/Truncated.antt =====
-- `decode_unsigned` on any source: it ends, and the end of the input is no error to it.
use srpg.Base.Bits.{bit_or-add, two_pow_add7, multiple_mod}
use srpg.Codec.Varint.{low_seven}
use native.Mathlib.Nat.{mod-eq_of_lt, pow-le-pow_right, add-mod-mod, mul-le-mul_right}
use srpg.Base.{
  none, ℕ, zero, suc, ◌+◌, ◌*◌, ◌^◌, ◌≤◌, ◌<◌, ◌≡◌, ◌≢◌, arith, bit_or, ◌%◌, List, [], ◌∷◌, some,
  All, length, ap, ◌∙◌, sym,
}
use srpg.Io.{Source}
use srpg.Codec.{ok, decode_loop, decode_unsigned, stuck, low_group}

-- The groups of seven bits of the bytes, the first one lowest, and seven ones above them.
abbrev pub made_up : List ℕ → ℕ
made_up [] = 0x7f
made_up (b ∷ bs) = b % 128 + 128 * made_up bs

made_up-cons :
    (b : ℕ) (bs : List ℕ) (v shift : ℕ)
    → v + b % 128 * 2 ^ shift + made_up bs * 2 ^ (shift + 7) ≡ v + made_up (b ∷ bs) * 2 ^ shift
made_up-cons b bs v shift = omega (arith, ap (λ (t : ℕ). made_up bs * t) (two_pow_add7 shift))

group_lt : (b v shift : ℕ) → v < 2 ^ shift → v + b % 128 * 2 ^ shift < 2 ^ (shift + 7)
group_lt b v shift h =
    let g : b % 128 ≤ 127 = omega arith in
    omega (arith, h, two_pow_add7 shift, mul-le-mul_right (2 ^ shift) g)

group_fits :
    (w b v shift : ℕ)
    → v < 2 ^ shift
    → shift + 7 ≤ w
    → bit_or v (b % 128 * 2 ^ shift % 2 ^ w) ≡ v + b % 128 * 2 ^ shift
group_fits w b v shift h hs =
    let room : 2 ^ (shift + 7) ≤ 2 ^ w = pow-le-pow_right {n = 2} (omega arith) hs in
    let small : b % 128 * 2 ^ shift < 2 ^ w = omega (arith, room, group_lt b v shift h) in
    ap (bit_or v) (mod-eq_of_lt small) ∙ bit_or-add shift v (b % 128) h

-- `|` of a group that passes the end of the type.
bit_or-wrapped :
    (w shift v g : ℕ)
    → v < 2 ^ shift
    → shift ≤ w
    → bit_or v (g * 2 ^ shift % 2 ^ w) ≡ (v + g * 2 ^ shift) % 2 ^ w
bit_or-wrapped w shift v g h le =
    let (r, e, room) = multiple_mod shift w g le in
    ap (bit_or v) e
    ∙ bit_or-add shift v r h
    ∙ sym (mod-eq_of_lt (omega (arith, h, room)))
    ∙ ap (λ (t : ℕ). (v + t) % 2 ^ w) (sym e)
    ∙ add-mod-mod v (g * 2 ^ shift) (2 ^ w)

module _ (K : Source) where
  open K use {Carrier, get, remaining, get_byte, get_eof}

  decode_loop-ne-stuck :
      (fuel w : ℕ) (src : Carrier) (v shift : ℕ)
      → w ≤ 64
      → shift < 71
      → 71 ≤ shift + 7 * fuel
      → decode_loop K w fuel src v shift ≢ stuck
  unfolding decode_loop
  decode_loop-ne-stuck zero w src v shift hw hs hf = absurd (omega arith)
  decode_loop-ne-stuck (suc fuel) w src v shift hw hs hf =
      let (byte, rest) = get src in
      ground (
        arith,
        decode_loop-ne-stuck fuel w rest (bit_or v (low_group byte * 2 ^ shift % 2 ^ w)) (shift + 7)
            hw,
      )

  -- For a type of at most 64 bits `decode_unsigned` ends on every source within its eleven rounds.
  pub decode_unsigned-ne-stuck : (w : ℕ) (src : Carrier) → w ≤ 64 → decode_unsigned K w src ≢ stuck
  unfolding decode_unsigned
  decode_unsigned-ne-stuck w src h = decode_loop-ne-stuck 11 w src 0 0 h (omega arith) (omega arith)

  -- A round whose group does not pass the end of the type.
  round_more_truncated :
      (fuel w : ℕ) (src rest : Carrier) (b v shift : ℕ)
      → get src ≡ (some b, rest)
      → 128 ≤ b
      → 32 ≤ w
      → v < 2 ^ shift
      → shift + 7 ≤ w
      → decode_loop K w (suc fuel) src v shift
        ≡ decode_loop K w fuel rest (v + b % 128 * 2 ^ shift) (shift + 7)
  unfolding decode_loop
  round_more_truncated fuel w src rest b v shift e hb hw hv hs =
      ground (arith, e, low_seven b, group_fits w b v shift hv hs)

  round_eof :
      (fuel w : ℕ) (src rest : Carrier) (v shift : ℕ)
      → get src ≡ (none, rest)
      → 32 ≤ w
      → v < 2 ^ shift
      → shift < w
      → decode_loop K w (suc fuel) src v shift ≡ ok ((v + 0x7f * 2 ^ shift) % 2 ^ w, rest)
  unfolding decode_loop
  round_eof fuel w src rest v shift e hw hv hs =
      ground (arith, e, bit_or-wrapped w shift v 0x7f hv (omega (arith, hs)))

  decode_loop_truncated :
      (bs : List ℕ) (fuel w : ℕ) (src : Carrier) (v shift : ℕ)
      → remaining src ≡ bs
      → All (λ b. 128 ≤ b) bs
      → 32 ≤ w
      → v < 2 ^ shift
      → shift + 7 * length bs < w
      → length bs < fuel
      → (end : Carrier) × (decode_loop K w fuel src v shift
          ≡ ok ((v + made_up bs * 2 ^ shift) % 2 ^ w, end))
        × (remaining end ≡ [])
  decode_loop_truncated bs zero w src v shift h hb hw hv hs hf = absurd (omega (arith, hf))
  decode_loop_truncated [] (suc fuel) w src v shift h hb hw hv hs hf =
      let (e, r) = get_eof src h in
      (
        (get src).1,
        round_eof fuel w src (get src).1 v shift (ap (λ o. (o, (get src).1)) e) hw hv
            (omega (arith, hs)),
        r,
      )
  decode_loop_truncated (b ∷ bs) (suc fuel) w src v shift h hb hw hv hs hf =
      let (e, r) = get_byte src b bs h in
      let rest = (get src).1 in
      let (end, d, r') =
        decode_loop_truncated bs fuel w rest (v + b % 128 * 2 ^ shift) (shift + 7) r hb.1 hw
          (omega (arith, group_lt b v shift hv)) (omega (arith, hs)) (omega (arith, hf)) in
      (
        end,
        round_more_truncated fuel w src rest b v shift (ap (λ o. (o, rest)) e) hb.0 hw hv
              (omega (arith, hs))
            ∙ d
            ∙ ap (λ n. ok (n % 2 ^ w, end)) (made_up-cons b bs v shift),
        r',
      )

  -- A source that ends inside a number, after bytes that all announce another one, gives no error
  -- in a type of 32 bits or more, where the bytes fill fewer than its `w` bits: `decode_unsigned`
  -- returns the groups of seven bits of these bytes, with a last group of seven ones above them that
  -- is made up from EOF, as far as it is in the type.
  pub decode_unsigned_truncated :
      (bs : List ℕ) (w : ℕ) (src : Carrier)
      → remaining src ≡ bs
      → All (λ b. 128 ≤ b) bs
      → 32 ≤ w
      → w ≤ 64
      → 7 * length bs < w
      → (end : Carrier) × (decode_unsigned K w src ≡ ok (made_up bs % 2 ^ w, end))
        × (remaining end ≡ [])
  unfolding decode_unsigned
  decode_unsigned_truncated bs w src h hb hw hw' hs =
      let (end, d, r) =
        decode_loop_truncated bs 11 w src 0 0 h hb hw (omega arith) (omega (arith, hs))
          (omega (arith, hs, hw')) in
      (end, d ∙ ap (λ n. ok (n % 2 ^ w, end)) (omega arith), r)
