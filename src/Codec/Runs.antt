-- ===== src/Codec/Runs.antt =====
-- Concrete runs of the codec, and its theorems at concrete inputs.
use srpg.Base.{◌%◌, ◌^◌, ℕ, ◌≡◌, refl, arith, List, [], ◌∷◌, ◌≤◌, length, ◌+◌, some}
use srpg.Io.{buffer_sink, buffer_source}
use srpg.Codec.{
  Outcome, ok, undefined_shift, encode_unsigned, encode_signed, encode_fixed, decode_unsigned,
  decode_vector, zigzag,
}
use srpg.Codec.Bounds.{Groups, Bounded, length-encode_unsigned, decode_unsigned-Bounded}
use srpg.Codec.Kinds.{decode-encode, can_encode, encode, decode, signed, ComesBack}
use srpg.Codec.RoundTrip.{Reads, decode-encode_unsigned}
use srpg.Codec.Signed.{zigzag_lem}
use srpg.Codec.Vector.{decode_vector-varints}
use srpg.Codec.Truncated.{made_up, decode_unsigned_truncated}

encode_300 : encode_unsigned buffer_sink [] 300 ≡ 0xac ∷ 0x02 ∷ []
unfolding encode_unsigned
encode_300 = refl

-- -3 is 5 in zigzag form.
encode_minus_three : encode_signed buffer_sink 32 [] 0xffff_fffd ≡ 5 ∷ []
unfolding encode_signed
encode_minus_three = refl

decode_nothing : decode_unsigned buffer_source 32 [] ≡ ok (127, [])
unfolding decode_unsigned
decode_nothing = refl

decode_too_long :
    decode_unsigned buffer_source 32 (0x80 ∷ 0x80 ∷ 0x80 ∷ 0x80 ∷ 0x80 ∷ 0 ∷ []) ≡ undefined_shift
unfolding decode_unsigned
decode_too_long = refl

fixed_one : encode_fixed buffer_sink 4 [] 0x01020304 ≡ 4 ∷ 3 ∷ 2 ∷ 1 ∷ []
unfolding encode_fixed
fixed_one = refl

decode-encode_unsigned_example :
    Reads buffer_source (decode_unsigned buffer_source 32 (0xac ∷ 0x02 ∷ 9 ∷ [])) 300 (9 ∷ [])
unfolding encode_unsigned
decode-encode_unsigned_example =
    decode-encode_unsigned buffer_source buffer_sink [] (0xac ∷ 0x02 ∷ 9 ∷ []) 32 300
      (0xac ∷ 0x02 ∷ []) (9 ∷ []) (omega arith) (omega arith) (omega arith) refl refl

decode_vector-varints_example :
    Reads buffer_source
      (decode_vector buffer_source (decode_unsigned buffer_source 32) (2 ∷ 0xac ∷ 2 ∷ 5 ∷ 9 ∷ []))
      (300 ∷ 5 ∷ [])
      (9 ∷ [])
decode_vector-varints_example =
    decode_vector-varints buffer_source 32 (omega arith) (omega arith) (300 ∷ 5 ∷ []) (9 ∷ [])
      (2 ∷ 0xac ∷ 2 ∷ 5 ∷ 9 ∷ []) (omega arith) (omega arith) refl

decode_unsigned_truncated_example :
    (end : List ℕ) × (decode_unsigned buffer_source 32 (0xac ∷ 0x82 ∷ [])
      ≡ ok (made_up (0xac ∷ 0x82 ∷ []) % 2 ^ 32, end))
    × (end ≡ [])
decode_unsigned_truncated_example =
    decode_unsigned_truncated buffer_source (0xac ∷ 0x82 ∷ []) 32 (0xac ∷ 0x82 ∷ []) refl
      (omega arith) (omega arith) (omega arith) (omega arith)

length-encode_unsigned_example :
    (n : ℕ) × Groups n 300 × (n ≤ 10) × (length (encode_unsigned buffer_sink (9 ∷ []) 300) ≡ 1 + n)
length-encode_unsigned_example = length-encode_unsigned buffer_sink (9 ∷ []) 300 (omega arith)

decode_unsigned-Bounded_example :
    Bounded 32 (decode_unsigned buffer_source 32 (0x80 ∷ 0x80 ∷ 0x80 ∷ 0x80 ∷ 0x80 ∷ 0 ∷ []))
decode_unsigned-Bounded_example =
    decode_unsigned-Bounded buffer_source 32 (0x80 ∷ 0x80 ∷ 0x80 ∷ 0x80 ∷ 0x80 ∷ 0 ∷ [])
      (omega arith)

zigzag_lem_example : zigzag 32 0xffff_fffd ≡ 5
zigzag_lem_example = zigzag_lem 32 0xffff_fffd (omega arith) (omega arith)

abbrev untouched : ℕ → List ℕ → Outcome (ℕ × List ℕ)
untouched old src = ok (old, src)

-- -3 as a signed number.
decode-encode_example :
    ((snk' : List ℕ) × (encode buffer_sink (signed 32) [] 0xffff_fffd ≡ some snk'))
    × ComesBack buffer_source
        (signed 32)
        77
        0xffff_fffd
        (5 ∷ 9 ∷ [])
        (9 ∷ [])
        (decode buffer_source untouched (signed 32) 77 (5 ∷ 9 ∷ []))
unfolding can_encode encode encode_signed
decode-encode_example =
    decode-encode buffer_sink buffer_source untouched (signed 32) [] (5 ∷ 9 ∷ []) 0xffff_fffd 77
      (5 ∷ []) (9 ∷ []) refl (omega arith, omega arith, omega arith) refl refl
