-- ===== src/Idl/Tuples.antt =====
-- Arguments and results on the wire.
use srpg.Base.{
  suc, ℕ, [], some, refl, List, ◌∷◌, ◌<◌, ◌≤◌, ◌++◌, ◌^◌, ◌≡◌, append_assoc, flatten, length, ap,
}
use srpg.Archive.{Archive}
use srpg.Idl.{load_tuple, load_ret, save_tuple, save_ret, ret_helper}

-- The values are of the types: of a width from 1 to 64, and below the power of two of it.
abbrev pub Fit : List ℕ → List ℕ → Type 0
Fit [] [] = Unit
Fit [] (v ∷ vs) = ⊥
Fit (t ∷ ts) [] = ⊥
Fit (t ∷ ts) (v ∷ vs) = (0 < t) × (t ≤ 64) × (v < 2 ^ t) × Fit ts vs

module _ (ar : Archive) where
  open ar use {save, load, load-save}

  -- A tuple is loaded element by element as it was saved, and what follows it is left.
  pub load_tuple-save_tuple :
      (ts vs rest : List ℕ)
      → Fit ts vs
      → load_tuple ar ts (save_tuple ar ts vs ++ rest) ≡ some (vs, rest)
  unfolding load_tuple save_tuple
  load_tuple-save_tuple [] [] rest h = refl
  load_tuple-save_tuple [] (v ∷ vs) rest h = elim h [ ]
  load_tuple-save_tuple (t ∷ ts) [] rest h = elim h [ ]
  load_tuple-save_tuple (t ∷ ts) (v ∷ vs) rest (h, h', hv, hs) =
      rw
        (
          append_assoc (save t v) (save_tuple ar ts vs) rest,
          load-save t v (save_tuple ar ts vs ++ rest) h h' hv,
          load_tuple-save_tuple ts vs rest hs,
        )
        refl

  -- So is a result, of one type or of several.
  pub load_ret-save_ret :
      (ts vs rest : List ℕ)
      → Fit ts vs
      → load_ret ar (ret_helper ts) (save_ret ar (ret_helper ts) vs ++ rest) ≡ some (vs, rest)
  unfolding load_ret save_ret ret_helper
  load_ret-save_ret [] [] rest h = refl
  load_ret-save_ret [] (v ∷ vs) rest h = elim h [ ]
  load_ret-save_ret (t ∷ []) vs rest h = load_tuple-save_tuple (t ∷ []) vs rest h
  load_ret-save_ret (t ∷ u ∷ ts) vs rest h = load_tuple-save_tuple (t ∷ u ∷ ts) vs rest h

  -- The bytes of each of the arguments.
  unfoldable pub saved_args : List ℕ → List ℕ → List (List ℕ)
  saved_args [] vs = []
  saved_args (t ∷ ts) [] = []
  saved_args (t ∷ ts) (v ∷ vs) = save t v ∷ saved_args ts vs

  pub flatten-saved_args : (ts vs : List ℕ) → flatten (saved_args ts vs) ≡ save_tuple ar ts vs
  unfolding saved_args save_tuple
  flatten-saved_args [] vs = refl
  flatten-saved_args (t ∷ ts) [] = refl
  flatten-saved_args (t ∷ ts) (v ∷ vs) = ap (λ b. save t v ++ b) (flatten-saved_args ts vs)

  pub length-saved_args : (ts vs : List ℕ) → Fit ts vs → length (saved_args ts vs) ≡ length ts
  unfolding saved_args
  length-saved_args [] vs h = refl
  length-saved_args (t ∷ ts) [] h = elim h [ ]
  length-saved_args (t ∷ ts) (v ∷ vs) (_, _, _, hs) = ap (λ n. suc n) (length-saved_args ts vs hs)
