-- ===== src/Archive.antt =====
-- The archive that packages, headers and frames are written with: a template parameter of the
-- code, so an interface here. common/rrpc/trivial_binary_oarchive.hpp and
-- common/rrpc/trivial_binary_iarchive.hpp fill it by the codec of common/rrpc/encode.hpp and
-- common/rrpc/decode.hpp; the stream buffers that they write to and read from are lists of bytes.
pub mod Saved
pub mod Trivial
pub mod Strings
mod Runs
use srpg.Base.{ℕ, ◌^◌, ◌≤◌, ◌<◌, ◌≡◌, Option, some, List, ◌++◌}

-- `ar << v` and `ar >> v` for an unsigned type of `w` bits.
pub record Archive : Type 0 where
  pub save : ℕ → ℕ → List ℕ
  pub load : ℕ → List ℕ → Option (ℕ × List ℕ)
  pub load-save :
      (w v : ℕ) (rest : List ℕ)
      → 0 < w
      → w ≤ 64
      → v < 2 ^ w
      → load w (save w v ++ rest) ≡ some (v, rest)
