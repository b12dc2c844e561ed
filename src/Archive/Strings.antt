-- ===== src/Archive/Strings.antt =====
-- common/rrpc/trivial_binary_oarchive.hpp: strings. A character of a wide string has `width` bytes,
-- the lowest first.
use srpg.Base.{
  ℕ, [], List, ◌∷◌, ◌++◌, length, take, ◌≡◌, ◌≤◌, ◌*◌, ◌<◌, ◌^◌, some, refl, ap, ◌∙◌, sym, arith,
  length-append, take_all, take-append_le, append_assoc,
}
use srpg.Base.Bytes.{to_bytes, length-to_bytes}
use srpg.Archive.{Archive}
use native.Mathlib.Nat.{suc-mul}

-- The bytes that `s.data()` points to.
abbrev pub memory : ℕ → List ℕ → List ℕ
memory width [] = []
memory width (c ∷ s) = to_bytes width c ++ memory width s

-- `save_binary(address, count)`
unfoldable pub save_binary : List ℕ → ℕ → List ℕ
save_binary bytes count = take count bytes

module _ (ar : Archive) where
  open ar use {save, load, load-save}

  -- `save(const std::string&)`
  pub save_string : List ℕ → List ℕ
  unfolding save_binary
  save_string s = save 64 (length s) ++ save_binary s (length s)

  -- `save(const std::wstring&)`
  pub save_wstring : ℕ → List ℕ → List ℕ
  unfolding save_binary
  save_wstring width s = save 64 (length s) ++ save_binary (memory width s) (length s)

  -- The size of a string is loaded back, and then its characters follow.
  pub load-save_string :
      (s rest : List ℕ)
      → length s < 2 ^ 64
      → load 64 (save_string s ++ rest) ≡ some (length s, s ++ rest)
  unfolding save_string
  load-save_string s rest h =
      ap (λ b. load 64 ((save 64 (length s) ++ b) ++ rest)) (take_all (length s) s (omega arith))
      ∙ ap (load 64) (append_assoc (save 64 (length s)) s rest)
      ∙ load-save 64 (length s) (s ++ rest) (omega arith) (omega arith) h

memory-append :
    (width : ℕ) (a b : List ℕ) → memory width (a ++ b) ≡ memory width a ++ memory width b
memory-append width [] b = refl
memory-append width (c ∷ a) b =
    ap (λ m. to_bytes width c ++ m) (memory-append width a b)
    ∙ sym (append_assoc (to_bytes width c) (memory width a) (memory width b))

length-memory : (width : ℕ) (a : List ℕ) → length (memory width a) ≡ length a * width
length-memory width [] = omega arith
length-memory width (c ∷ a) = omega (
  arith,
  length-append (to_bytes width c) (memory width a),
  length-to_bytes width c,
  length-memory width a,
  suc-mul (length a) width,
)

save_wstring-start :
    (ar : Archive) (width n : ℕ) (a b : List ℕ)
    → length (a ++ b) ≡ n
    → n ≤ length a * width
    → save_wstring ar width (a ++ b) ≡ ar.save 64 n ++ take n (memory width a)
unfolding save_wstring
save_wstring-start ar width n a b e h =
    ap (λ (k : ℕ). ar.save 64 k ++ take k (memory width (a ++ b))) e
    ∙ ap (λ m. ar.save 64 n ++ take n m) (memory-append width a b)
    ∙ ap (λ m. ar.save 64 n ++ m)
        (take-append_le n (memory width a) (memory width b) (omega (arith, length-memory width a)))

-- The size that is archived for a wide string counts its characters, and as many bytes follow: wide
-- strings of the same length are archived as the same bytes if they begin with the same characters
-- `a`, as many as have the bytes that the length counts.
pub save_wstring-same_start :
    (ar : Archive) (width : ℕ) (a b c : List ℕ)
    → length b ≡ length c
    → length (a ++ b) ≤ length a * width
    → save_wstring ar width (a ++ b) ≡ save_wstring ar width (a ++ c)
save_wstring-same_start ar width a b c e h =
    save_wstring-start ar width (length (a ++ b)) a b refl h
    ∙ sym (
        save_wstring-start ar width (length (a ++ b)) a c
          (omega (arith, e, length-append a b, length-append a c)) h)
