-- ===== src/Base/Bits.antt =====
-- Bit operations as arithmetic: masks of low bits, and `|` of values whose bits do not meet.
use Prim.Native.Nat.{
  ℕ, zero, suc, ◌+◌, ◌-◌, ◌*◌, ◌/◌, ◌%◌, ◌^◌, ◌≤◌, ◌<◌, min, max, bit_and, bit_or, bit_xor, digits,
  bit_and-bitwise, bit_or-bitwise, bit_xor-bitwise, differ,
}
use mathlib.Core.Path.{◌≡◌, refl, sym, ap, ◌∙◌}
use native.Mathlib.Omega.{arith}
use native.Mathlib.Decide.{dec_lt}
use native.Mathlib.Numerals.{towards_suc}
use native.Mathlib.Nat.{
  div-div-eq-div-mul, pow-suc, pow-le-pow_right, add-mul-mod_self_left, mod-eq_of_lt, mod-lt,
  div-add-mod,
}

-- The law of the lowest digit, for each of the three operations.
module _ (left : ℕ → ℕ) (op : ℕ → ℕ → ℕ) where
  abbrev with_low : ℕ → ℕ → ℕ → ℕ
  with_low a b rest = rest * 2 + op (a % 2) (b % 2)

  spare_round : (n a b : ℕ) → a ≤ n → digits left op (suc n) a b ≡ digits left op n a b
  spare_round zero zero b h = refl
  spare_round zero (suc a) b h = absurd (omega arith)
  spare_round (suc n) zero b h = refl
  spare_round (suc n) (suc a) b h =
      ap (with_low (suc a) b) (spare_round n (suc a / 2) (b / 2) (omega arith))

  own_rounds : (n a b : ℕ) → a ≤ n → digits left op n a b ≡ digits left op a a b
  own_rounds zero a b h = let done : 0 ≡ a = omega arith in ap (λ k. digits left op k a b) done
  own_rounds (suc n) a b h = elim (dec_lt a (suc n)) [
    | yes fewer ↦ spare_round n a b (omega arith) ∙ own_rounds n a b (omega arith)
    | no all ↦ let same : suc n ≡ a = omega arith in ap (λ k. digits left op k a b) same
  ]

  low_digit :
      (a b : ℕ)
      → digits left op (suc a) (suc a) b
        ≡ with_low (suc a) b (digits left op (suc a / 2) (suc a / 2) (b / 2))
  low_digit a b = ap (with_low (suc a) b) (own_rounds a (suc a / 2) (b / 2) (omega arith))

zero-bit_and : (b : ℕ) → bit_and 0 b ≡ 0
zero-bit_and b = bit_and-bitwise 0 b

bit_and-halves : (a b : ℕ) → bit_and a b ≡ bit_and (a / 2) (b / 2) * 2 + min (a % 2) (b % 2)
bit_and-halves zero b = omega (arith, zero-bit_and b, zero-bit_and (b / 2))
bit_and-halves (suc a) b =
    bit_and-bitwise (suc a) b
    ∙ low_digit (λ b. zero) min a b
    ∙ ap (with_low (λ b. zero) min (suc a) b) (sym (bit_and-bitwise (suc a / 2) (b / 2)))

zero-bit_or : (b : ℕ) → bit_or 0 b ≡ b
zero-bit_or b = bit_or-bitwise 0 b

bit_or-halves : (a b : ℕ) → bit_or a b ≡ bit_or (a / 2) (b / 2) * 2 + max (a % 2) (b % 2)
bit_or-halves zero b = omega (arith, zero-bit_or b, zero-bit_or (b / 2))
bit_or-halves (suc a) b =
    bit_or-bitwise (suc a) b
    ∙ low_digit (λ b. b) max a b
    ∙ ap (with_low (λ b. b) max (suc a) b) (sym (bit_or-bitwise (suc a / 2) (b / 2)))

pub two_pow_suc : (s : ℕ) → 2 ^ suc s ≡ 2 * 2 ^ s
two_pow_suc s = omega (arith, pow-suc 2 s)

pub two_pow_pos : (s : ℕ) → 0 < 2 ^ s
two_pow_pos zero = omega arith
two_pow_pos (suc s) = omega (arith, two_pow_suc s, two_pow_pos s)

and_nothing : (bound a : ℕ) → a < bound → bit_and a 0 ≡ 0
and_nothing zero a h = absurd (omega arith)
and_nothing (suc bound) zero h = zero-bit_and 0
and_nothing (suc bound) (suc a) h =
    let rest = and_nothing bound (suc a / 2) (omega arith) in
    omega (arith, rest, bit_and-halves (suc a) 0)

pub bit_and-zero : (a : ℕ) → bit_and a 0 ≡ 0
bit_and-zero a = and_nothing (suc a) a (omega arith)

mod_double : (a m : ℕ) → 0 < m → a % (2 * m) ≡ a / 2 % m * 2 + a % 2
mod_double a m h =
    ap (λ (t : ℕ). t % (2 * m)) whole
    ∙ add-mul-mod_self_left (a / 2 % m * 2 + a % 2) (2 * m) (a / 2 / m)
    ∙ mod-eq_of_lt (omega (arith, mod-lt (a / 2) h))
  where
    whole : a ≡ a / 2 % m * 2 + a % 2 + 2 * m * (a / 2 / m)
    whole = omega (arith, div-add-mod (a / 2) m)

-- The mask of the `k` low bits.
pub bit_and-mask : (k a : ℕ) → bit_and a (2 ^ k - 1) ≡ a % 2 ^ k
bit_and-mask zero a = omega (arith, bit_and-zero a)
bit_and-mask (suc k) a = omega (
  arith,
  bit_and-halves a (2 ^ suc k - 1),
  two_pow_suc k,
  two_pow_pos k,
  ap (bit_and (a / 2)) half,
  bit_and-mask k (a / 2),
  ap (λ (t : ℕ). a % t) (two_pow_suc k),
  mod_double a (2 ^ k) (two_pow_pos k),
)
  where
    half : (2 ^ suc k - 1) / 2 ≡ 2 ^ k - 1
    half = omega (arith, two_pow_suc k, two_pow_pos k)

-- `|` of a value below `2 ^ s` and a multiple of `2 ^ s` is their sum.
pub bit_or-add : (s a g : ℕ) → a < 2 ^ s → bit_or a (g * 2 ^ s) ≡ a + g * 2 ^ s
bit_or-add zero a g h = let e : a ≡ 0 = omega arith in rw e (zero-bit_or _ ∙ omega arith)
bit_or-add (suc s) a g h = omega (
  arith,
  bit_or-halves a (g * 2 ^ suc s),
  two_pow_suc s,
  double,
  ap (bit_or (a / 2)) half,
  bit_or-add s (a / 2) g (omega (arith, two_pow_suc s)),
)
  where
    double : g * 2 ^ suc s ≡ 2 * (g * 2 ^ s)
    double = omega (arith, ap (λ (t : ℕ). g * t) (two_pow_suc s))

    half : (g * 2 ^ suc s) / 2 ≡ g * 2 ^ s
    half = omega (arith, double)

-- `|` of two values of `w` bits has `w` bits.
pub bit_or-lt : (w a b : ℕ) → a < 2 ^ w → b < 2 ^ w → bit_or a b < 2 ^ w
bit_or-lt zero a b ha hb = let e : a ≡ 0 = omega arith in rw e (omega (arith, zero-bit_or b))
bit_or-lt (suc w) a b ha hb = omega (
  arith,
  bit_or-halves a b,
  two_pow_suc w,
  bit_or-lt w (a / 2) (b / 2) (omega (arith, two_pow_suc w)) (omega (arith, two_pow_suc w)),
)

pub lt_of_pow-lt : (s w : ℕ) → 2 ^ s < 2 ^ w → s < w
lt_of_pow-lt s w h = elim (dec_lt s w) [
  | yes p ↦ p
  | no p ↦
      absurd (omega (arith, pow-le-pow_right {n = 2} (omega arith) {i = w} {j = s} (omega arith)))
]

pub two_pow_add7 : (s : ℕ) → 2 ^ (s + 7) ≡ 128 * 2 ^ s
two_pow_add7 s = simp towards_suc (
    omega (
      arith,
      two_pow_suc s,
      two_pow_suc (suc s),
      two_pow_suc (suc (suc s)),
      two_pow_suc (suc (suc (suc s))),
      two_pow_suc (suc (suc (suc (suc s)))),
      two_pow_suc (suc (suc (suc (suc (suc s))))),
      two_pow_suc (suc (suc (suc (suc (suc (suc s)))))),
    ))

zero-bit_xor : (b : ℕ) → bit_xor 0 b ≡ b
zero-bit_xor b = bit_xor-bitwise 0 b

bit_xor-halves : (a b : ℕ) → bit_xor a b ≡ bit_xor (a / 2) (b / 2) * 2 + differ (a % 2) (b % 2)
bit_xor-halves zero b = omega (arith, zero-bit_xor b, zero-bit_xor (b / 2))
bit_xor-halves (suc a) b =
    bit_xor-bitwise (suc a) b
    ∙ low_digit (λ b. b) differ a b
    ∙ ap (with_low (λ b. b) differ (suc a) b) (sym (bit_xor-bitwise (suc a / 2) (b / 2)))

differ_zero : (r : ℕ) → r < 2 → differ r 0 ≡ r
differ_zero zero h = refl
differ_zero (suc zero) h = refl
differ_zero (suc (suc r)) h = absurd (omega arith)

differ_one : (r : ℕ) → r < 2 → differ r 1 ≡ 1 - r
differ_one zero h = refl
differ_one (suc zero) h = refl
differ_one (suc (suc r)) h = absurd (omega arith)

bit_xor-zero_fuel : (n a : ℕ) → a ≤ n → bit_xor a 0 ≡ a
bit_xor-zero_fuel n zero h = refl
bit_xor-zero_fuel zero (suc a) h = absurd (omega arith)
bit_xor-zero_fuel (suc n) (suc a) h = omega (
  arith,
  bit_xor-halves (suc a) 0,
  differ_zero (suc a % 2) (omega arith),
  bit_xor-zero_fuel n (suc a / 2) (omega arith),
)

pub bit_xor-zero : (a : ℕ) → bit_xor a 0 ≡ a
bit_xor-zero a = bit_xor-zero_fuel a a (omega arith)

-- `^` with all ones is the complement.
pub bit_xor-mask : (k a : ℕ) → a < 2 ^ k → bit_xor a (2 ^ k - 1) ≡ 2 ^ k - 1 - a
bit_xor-mask zero a h = let e : a ≡ 0 = omega arith in rw e refl
bit_xor-mask (suc k) a h = omega (
  arith,
  bit_xor-halves a (2 ^ suc k - 1),
  two_pow_suc k,
  two_pow_pos k,
  ap (bit_xor (a / 2)) half,
  ap (differ (a % 2)) odd,
  differ_one (a % 2) (omega arith),
  bit_xor-mask k (a / 2) (omega (arith, two_pow_suc k)),
)
  where
    half : (2 ^ suc k - 1) / 2 ≡ 2 ^ k - 1
    half = omega (arith, two_pow_suc k, two_pow_pos k)

    odd : (2 ^ suc k - 1) % 2 ≡ 1
    odd = omega (arith, two_pow_suc k, two_pow_pos k)

-- The mask of the single bit `k`.
pub bit_and-two_pow : (k a : ℕ) → bit_and a (2 ^ k) ≡ a / 2 ^ k % 2 * 2 ^ k
bit_and-two_pow zero a = omega (arith, bit_and-mask 1 a)
bit_and-two_pow (suc k) a = rw quotient (
    omega (
      arith,
      bit_and-halves a (2 ^ suc k),
      two_pow_suc k,
      ap (bit_and (a / 2)) half,
      bit_and-two_pow k (a / 2),
      ap (λ (t : ℕ). a / 2 / 2 ^ k % 2 * t) (two_pow_suc k),
    ))
  where
    half : 2 ^ suc k / 2 ≡ 2 ^ k
    half = omega (arith, two_pow_suc k)

    quotient : a / 2 ^ suc k ≡ a / 2 / 2 ^ k
    quotient = ap (λ (t : ℕ). a / t) (two_pow_suc k) ∙ sym (div-div-eq-div-mul a 2 (2 ^ k))

-- A multiple of `2 ^ s` stays one in `w` bits, and leaves room for `s` bits below it.
pub multiple_mod :
    (s w g : ℕ) → s ≤ w → (r : ℕ) × (g * 2 ^ s % 2 ^ w ≡ r * 2 ^ s) × (r * 2 ^ s + 2 ^ s ≤ 2 ^ w)
multiple_mod zero w g h =
    let small = mod-lt (g * 2 ^ 0) (two_pow_pos w) in
    (g * 2 ^ 0 % 2 ^ w, omega arith, omega (arith, small))
multiple_mod (suc s) zero g h = absurd (omega (arith, h))
multiple_mod (suc s) (suc w) g h =
    let (r, e, room) = multiple_mod s w g (omega (arith, h)) in
    let twice : g * 2 ^ suc s ≡ 2 * (g * 2 ^ s) =
      omega (arith, ap (λ (t : ℕ). g * t) (two_pow_suc s)) in
    let half : g * 2 ^ suc s / 2 ≡ g * 2 ^ s = omega (arith, twice) in
    let again : r * 2 ^ suc s ≡ 2 * (r * 2 ^ s) =
      omega (arith, ap (λ (t : ℕ). r * t) (two_pow_suc s)) in
    (
      r,
      omega (
        arith,
        ap (λ (t : ℕ). g * 2 ^ suc s % t) (two_pow_suc w),
        mod_double (g * 2 ^ suc s) (2 ^ w) (two_pow_pos w),
        ap (λ (t : ℕ). t % 2 ^ w) half,
        twice,
        again,
        e,
      ),
      omega (arith, again, room, two_pow_suc s, two_pow_suc w),
    )
