-- ===== src/Io.antt =====
-- The byte streams that the archives stand on, `Sink` and `Source` of common/rrpc/encode.hpp and
-- common/rrpc/decode.hpp. They are template parameters there, used through Boost.Iostreams alone,
-- so they are parameters here: operations with the laws that Boost documents.
use srpg.Base.{ℕ, ◌≡◌, refl, Option, none, some, List, [], ◌∷◌, ◌++◌}

-- `io::put(snk, byte)`, and `io::write(snk, bytes, size)` as a sequence of such calls.
pub record Sink : Type 1 where
  pub Carrier : Type 0
  pub put : Carrier → ℕ → Carrier
  pub written : Carrier → List ℕ
  pub put_appends : (s : Carrier) (b : ℕ) → written (put s b) ≡ written s ++ (b ∷ [])

-- `io::get(src)`: the next byte, or `none` for EOF.
pub record Source : Type 1 where
  pub Carrier : Type 0
  pub get : Carrier → Option ℕ × Carrier
  pub remaining : Carrier → List ℕ
  pub get_byte :
      (s : Carrier) (b : ℕ) (bs : List ℕ)
      → remaining s ≡ b ∷ bs
      → ((get s).0 ≡ some b) × (remaining (get s).1 ≡ bs)
  pub get_eof : (s : Carrier) → remaining s ≡ [] → ((get s).0 ≡ none) × (remaining (get s).1 ≡ [])

-- A buffer in memory: the bytes written so far, and the bytes not read yet.
abbrev pub buffer_sink : Sink
buffer_sink = record {
  Carrier = List ℕ;
  put = λ s b. s ++ (b ∷ []);
  written = λ s. s;
  put_appends = λ s b. refl;
}

abbrev pub next_byte : List ℕ → Option ℕ × List ℕ
next_byte [] = (none, [])
next_byte (b ∷ bs) = (some b, bs)

pub next_byte-cons :
    (s : List ℕ) (b : ℕ) (bs : List ℕ)
    → s ≡ b ∷ bs
    → ((next_byte s).0 ≡ some b) × ((next_byte s).1 ≡ bs)
next_byte-cons s b bs e = rw e (refl, refl)

pub next_byte-nil : (s : List ℕ) → s ≡ [] → ((next_byte s).0 ≡ none) × ((next_byte s).1 ≡ [])
next_byte-nil s e = rw e (refl, refl)

abbrev pub buffer_source : Source
buffer_source = record {
  Carrier = List ℕ;
  get = next_byte;
  remaining = λ s. s;
  get_byte = next_byte-cons;
  get_eof = next_byte-nil;
}
