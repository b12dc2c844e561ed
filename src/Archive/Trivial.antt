-- ===== src/Archive/Trivial.antt =====
-- The archive of the codec: common/rrpc/trivial_binary_oarchive.hpp and
-- common/rrpc/trivial_binary_iarchive.hpp over buffers in memory.
use srpg.Base.{ℕ, ◌^◌, ◌≤◌, ◌<◌, ◌≡◌, refl, Option, none, some, List, [], ◌++◌}
use srpg.Io.{buffer_sink, buffer_source}
use srpg.Codec.{encode_unsigned, decode_unsigned, ok, undefined_shift, int_overflow, stuck, Outcome}
use srpg.Codec.RoundTrip.{decode-encode_unsigned}
use srpg.Archive.{Archive}

-- `save_override(T& t)`: `encode(snk_, t)`.
unfoldable pub save_unsigned : ℕ → ℕ → List ℕ
unfolding encode_unsigned
save_unsigned w v = encode_unsigned buffer_sink [] v

unfoldable pub defined {ℓ} : {A : Type ℓ} → Outcome A → Option A
defined (ok a) = some a
defined undefined_shift = none
defined int_overflow = none
defined stuck = none

-- `operator>>`: `decode(*this, v)`.
unfoldable pub load_unsigned : ℕ → List ℕ → Option (ℕ × List ℕ)
unfolding defined decode_unsigned
load_unsigned w src = defined (decode_unsigned buffer_source w src)

-- What `operator<<` saves, `operator>>` loads, for a value of an unsigned type of at most 64 bits.
pub load_unsigned-save_unsigned :
    (w v : ℕ) (rest : List ℕ)
    → 0 < w
    → w ≤ 64
    → v < 2 ^ w
    → load_unsigned w (save_unsigned w v ++ rest) ≡ some (v, rest)
unfolding load_unsigned save_unsigned
load_unsigned-save_unsigned w v rest hw hw' hv =
    let (end, d, r) =
      decode-encode_unsigned buffer_source buffer_sink [] (encode_unsigned buffer_sink [] v ++ rest)
        w v (encode_unsigned buffer_sink [] v) rest hw hw' hv refl refl in
    rw (d, r) refl

abbrev pub trivial_archive : Archive
trivial_archive = record {
  save = save_unsigned;
  load = load_unsigned;
  load-save = load_unsigned-save_unsigned;
}
