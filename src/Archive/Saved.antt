-- ===== src/Archive/Saved.antt =====
-- No value is saved as nothing.
use srpg.Base.{
  ℕ, zero, suc, none, [], some, ap, sym, ◌∙◌, refl, List, length, ◌<◌, ◌≡◌, ◌≤◌, ◌∷◌, Option, ◌^◌,
  arith, ◌++◌, dec_lt,
}
use srpg.Archive.{Archive}
use srpg.Base.Bits.{two_pow_suc, two_pow_pos}

length_zero : (xs : List ℕ) → length xs ≡ 0 → xs ≡ []
length_zero [] h = refl
length_zero (x ∷ xs) h = absurd (omega (arith, h))

module _ (ar : Archive) (w : ℕ) (h : 0 < w) (h' : w ≤ 64) where
  open ar use {save, load, load-save}

  abbrev value_of : Option (ℕ × List ℕ) → ℕ
  value_of none = 0
  value_of (some r) = r.0

  -- A value saved as nothing would be read in front of every other.
  saved_alike : (v v' : ℕ) → v < 2 ^ w → v' < 2 ^ w → save w v ≡ [] → v ≡ v'
  saved_alike v v' hv hv' e =
      sym (ap value_of (load-save w v (save w v' ++ []) h h' hv))
      ∙ ap (λ (s : List ℕ). value_of (load w (s ++ (save w v' ++ [])))) e
      ∙ ap value_of (load-save w v' [] h h' hv')

  pub length-save_pos : (v : ℕ) → v < 2 ^ w → 0 < length (save w v)
  length-save_pos v hv = elim (dec_lt 0 (length (save w v))) [
    | yes p ↦ p
    | no p ↦
        let e : save w v ≡ [] = length_zero (save w v) (omega arith) in
        let two : 1 < 2 ^ w = two_pow_gt_one w h in
        absurd (omega (arith, saved_alike v 0 hv (omega arith) e, saved_alike v 1 hv two e))
  ]
    where
      two_pow_gt_one : (k : ℕ) → 0 < k → 1 < 2 ^ k
      two_pow_gt_one zero q = absurd (omega arith)
      two_pow_gt_one (suc k) q = omega (arith, two_pow_suc k, two_pow_pos k)
