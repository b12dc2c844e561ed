-- ===== src/Seq/Rotate.antt =====
-- `shift_left` and `shift_right` rotate by a distance below the size; at the size they may not end.
use srpg.Base.{
  ℕ, length, take, drop, length-append, drop-append_le, take-append_le, zero, suc, ◌^◌, ◌<◌, ◌≡◌,
  refl, List, [], ◌∷◌, ◌++◌, append-nil, append_assoc, arith, ◌∙◌, ◌≤◌, ◌-◌, length-drop, ◌%◌,
  length-take, drop-append, take-append, take-append-drop,
}
use srpg.Seq.{shift_left, rotate_one, made, next_dist, shift_right, shift, too_deep}
use native.Mathlib.Nat.{mod_self, mod-eq_of_lt}
use srpg.Seq.{◌>>=◌}
use srpg.Base.Int.{pos}

-- The sequence turned left by `d` places.
abbrev rotated : ℕ → List ℕ → List ℕ
rotated d s = drop d s ++ take d s

length-rotate_one : (s : List ℕ) → length (rotate_one s) ≡ length s
length-rotate_one [] = refl
length-rotate_one (x ∷ xs) = omega (arith, length-append xs (x ∷ []))

rotated-rotate_one :
    (d : ℕ) (s : List ℕ) → d < length s → rotated d (rotate_one s) ≡ rotated (suc d) s
rotated-rotate_one d [] h = absurd (omega arith)
rotated-rotate_one d (x ∷ xs) h =
    rw (drop-append_le d xs (x ∷ []) (omega arith), take-append_le d xs (x ∷ []) (omega arith))
      (append_assoc (drop d xs) (x ∷ []) (take d xs))

next_dist_below : (d n : ℕ) → suc (suc d) < n → n < 2 ^ 64 → next_dist (suc (suc d)) n ≡ suc d
next_dist_below d n h hs = rw (mod-eq_of_lt {n = suc (suc d)} {m = n} h) (omega arith)

-- For a distance below the size, `shift_left` moves that many elements from the front to the back;
-- as many instantiations as the distance, and one, are enough.
pub shift_left-rotated :
    (fuel d : ℕ) (s : List ℕ)
    → d < length s
    → d < fuel
    → length s < 2 ^ 64
    → shift_left fuel s d ≡ made (rotated d s)
unfolding shift_left
shift_left-rotated zero d s h hf hs = absurd (omega arith)
shift_left-rotated (suc fuel) zero s h hf hs = rw append-nil
shift_left-rotated (suc fuel) (suc zero) (x ∷ xs) h hf hs = ground arith
shift_left-rotated (suc fuel) (suc zero) [] h hf hs = absurd (omega arith)
shift_left-rotated (suc fuel) (suc (suc d)) s h hf hs =
    let n : length (rotate_one s) ≡ length s = length-rotate_one s in
    ground (
      arith,
      next_dist_below d (length s) (omega arith) hs,
      shift_left-rotated fuel (suc d) (rotate_one s) (omega arith) (omega arith) (omega arith),
      rotated-rotate_one (suc d) s (omega arith),
    )

length-rotated : (d : ℕ) (s : List ℕ) → length (rotated d s) ≡ length s
length-rotated d s =
    length-append (drop d s) (take d s) ∙ omega (arith, length-drop d s, length-take d s)

rotated-rotated : (d : ℕ) (s : List ℕ) → d ≤ length s → rotated (length s - d) (rotated d s) ≡ s
rotated-rotated d s h =
    let n : length s - d ≡ length (drop d s) = omega (arith, length-drop d s) in
    rw (n, drop-append (drop d s) (take d s), take-append (drop d s) (take d s))
      (take-append-drop d s)

-- For a distance above 0 and below the size, `shift_right` undoes `shift_left`.
pub shift_right-shift_left :
    (fuel d : ℕ) (s : List ℕ)
    → 0 < d
    → d < length s
    → length s < fuel
    → length s < 2 ^ 64
    → (shift_left fuel s d >>= λ t. shift_right fuel t d) ≡ made s
unfolding shift_right
shift_right-shift_left fuel d s h0 h hf hs = ground (
  arith,
  shift_left-rotated fuel d s h (omega arith) hs,
  length-rotated d s,
  mod-eq_of_lt {n = d} {m = length s} h,
  shift_left-rotated fuel (length s - d) (rotated d s) (omega (arith, length-rotated d s))
      (omega arith) (omega (arith, length-rotated d s)),
  rotated-rotated d s (omega arith),
)

shift_left-too_deep :
    (fuel d : ℕ) (s : List ℕ)
    → 0 < length s
    → (2 ^ 64 - 1) % length s ≡ 0
    → 2 ≤ d
    → d % length s ≡ 0
    → shift_left fuel s d ≡ too_deep
unfolding shift_left
shift_left-too_deep zero d s h hs hd e = refl
shift_left-too_deep (suc fuel) d s h hs hd e =
    let n : length (rotate_one s) ≡ length s = length-rotate_one s in
    let next : next_dist d (length s) ≡ 2 ^ 64 - 1 = rw e refl in
    let deeper : shift_left fuel (rotate_one s) (2 ^ 64 - 1) ≡ too_deep =
      shift_left-too_deep fuel (2 ^ 64 - 1) (rotate_one s) (omega arith) (rw n hs) (omega arith)
        (rw n hs) in
    ground (arith, next, deeper)

-- A shift to the right by a multiple of the size never ends, if the size is at least 2 and divides
-- the largest `size_t` (as 3 and 5 do): whatever the depth, the instantiations go on.
pub shift-too_deep :
    (fuel d : ℕ) (s : List ℕ)
    → 2 ≤ length s
    → (2 ^ 64 - 1) % length s ≡ 0
    → suc d % length s ≡ 0
    → shift fuel s (pos (suc d)) ≡ too_deep
unfolding shift shift_right
shift-too_deep fuel d [] h hs e = absurd (omega arith)
shift-too_deep fuel d (x ∷ xs) h hs e =
    let s : List ℕ = x ∷ xs in
    ground (
      arith,
      e,
      mod_self (length s),
      shift_left-too_deep fuel (length s) s (omega arith) hs h (mod_self (length s)),
    )
