-- ===== src/Double/Bounds.antt =====
-- How far the operations on doubles are from the exact results.
use erp_fashion_api.Common.{
  ℕ, zero, suc, ◌+◌, ◌-◌, ◌*◌, ◌/◌, ◌%◌, ◌≤◌, ◌<◌, ◌≡◌, ◌⊎◌, ◌==◌, refl, sym, inl, inr, ltb,
  Bool-cases, arith,
}
use Prim.Native.Nat.{◌^◌}
use Prim.Native.Nat.pow
use native.Mathlib.Nat.{mod-lt, div-add-mod', div-lt_iff_lt-mul, mul-pos, mul-le-mul_left}
use erp_fashion_api.Double.{
  Double, steps, spacing, nearest, rounded, of_decimal, of_cents, add, sub, to_fixed,
}

even_or_odd : (n : ℕ) → n % 2 ≡ 0 ⊎ n % 2 ≡ 1
even_or_odd n = elim (Bool-cases (n % 2 == 0)) [
  | inl e ↦ inl (ground arith)
  | inr e ↦ inr (ground arith)
]

-- What the three ways to round leave of `p = a q + r`.
nearest_core :
    (p q a r : ℕ)
    → p ≡ a * q + r
    → r < q
    → (r * 2 < q → (2 * p ≤ 2 * (a * q) + q) × (2 * (a * q) ≤ 2 * p + q))
      × (q ≤ r * 2 → (2 * p ≤ 2 * ((a + 1) * q) + q) × (2 * ((a + 1) * q) ≤ 2 * p + q))
      × (r * 2 ≡ q → (2 * p ≤ 2 * ((a + 0) * q) + q) × (2 * ((a + 0) * q) ≤ 2 * p + q))
nearest_core p q a r e lt = (
  λ h. (omega arith, omega arith),
  λ h. (omega arith, omega arith),
  λ h. (omega arith, omega arith),
)

-- The nearest whole number is at most a half away.
pub nearest-close :
    (p q : ℕ) → 0 < q → (2 * p ≤ 2 * (nearest p q * q) + q) × (2 * (nearest p q * q) ≤ 2 * p + q)
unfolding nearest
nearest-close p q positive =
    let (below, above, tied) =
      nearest_core p q (p / q) (p % q) (sym (div-add-mod' p q)) (mod-lt p positive) in
    elim (Bool-cases (ltb (p % q * 2) q)) [
      | inl low ↦ rw low (below (ground arith))
      | inr not_low ↦ elim (Bool-cases (ltb q (p % q * 2))) [
        | inl high ↦ rw not_low (rw high (above (ground arith)))
        | inr not_high ↦
            let tie : p % q * 2 ≡ q = ground arith in
            elim (even_or_odd (p / q)) [
              | inl even ↦ rw not_low (rw not_high (rw even (tied tie)))
              | inr odd ↦ rw not_low (rw not_high (rw odd (above (ground arith))))
            ]
      ]
    ]

pow_positive : (k : ℕ) → 1 ≤ 2 ^ k
pow_positive zero = omega arith
pow_positive (suc k) = rw (pow.suc 2 k) (omega (arith, pow_positive k))

pub spacing-le : (fuel k n : ℕ) → n < 2 ^ 53 * 2 ^ k → spacing fuel n ≤ 2 ^ k
unfolding spacing
spacing-le zero k n h = pow_positive k
spacing-le (suc fuel) zero n h = elim (Bool-cases (ltb n (2 ^ 53))) [
  | inl few ↦ rw (few, spacing) (omega arith)
  | inr many ↦ absurd (ground arith)
]
spacing-le (suc fuel) (suc k) n h = elim (Bool-cases (ltb n (2 ^ 53))) [
  | inl few ↦ rw (few, spacing) (pow_positive (suc k))
  | inr many ↦
      let h' : n < 2 ^ 53 * (2 ^ k * 2) = rw (← pow.suc 2 k) h in
      let half : n / 2 < 2 ^ 53 * 2 ^ k = omega arith in
      rw (many, spacing, pow.suc 2 k) (omega (arith, spacing-le fuel k (n / 2) half))
]

spacing_positive : (fuel n : ℕ) → 1 ≤ spacing fuel n
unfolding spacing
spacing_positive zero n = omega arith
spacing_positive (suc fuel) n = elim (Bool-cases (ltb n (2 ^ 53))) [
  | inl few ↦ rw (few, spacing) (omega arith)
  | inr many ↦ rw (many, spacing) (omega (arith, spacing_positive fuel (n / 2)))
]

-- The spacing of the doubles below 2^40, and the bound of these.
unfoldable pub widest_gap : ℕ
widest_gap = 2 ^ 137

unfoldable pub limit : ℕ
limit = 2 ^ 190

pub steps-gap : (steps ≡ 8192 * widest_gap) × (limit ≡ 1_099_511_627_776 * steps) × (0 < widest_gap)
unfolding steps widest_gap limit
steps-gap = (refl, refl, omega arith)

scaled :
    (p q n gap bound : ℕ)
    → (2 * p ≤ 2 * (n * (q * gap)) + q * gap) × (2 * (n * (q * gap)) ≤ 2 * p + q * gap)
    → q * gap ≤ q * bound
    → (2 * p ≤ 2 * (n * gap * q) + q * bound) × (2 * (n * gap * q) ≤ 2 * p + q * bound)
scaled p q n gap bound (up, down) le = (omega arith, omega arith)

-- Below the limit, rounding moves a value by at most half a gap.
pub rounded-close :
    (p q : ℕ)
    → 0 < q
    → p < limit * q
    → (2 * p ≤ 2 * (rounded p q * q) + q * widest_gap)
      × (2 * (rounded p q * q) ≤ 2 * p + q * widest_gap)
unfolding rounded widest_gap limit
rounded-close p q positive low =
    let gap = spacing 161 (p / q) in
    let small : p / q < limit = (div-lt_iff_lt-mul positive).1 low in
    let gap_le : gap ≤ 2 ^ 137 = spacing-le 161 137 (p / q) small in
    let gap_positive = spacing_positive 161 (p / q) in
    scaled p q (nearest p (q * gap)) gap (2 ^ 137)
      (nearest-close p (q * gap) (mul-pos positive gap_positive)) (mul-le-mul_left q gap_le)

-- `x` is at most `n` half gaps away from `y`.
abbrev pub Near : ℕ → Double → ℕ → Type 0
Near n x y = (2 * x ≤ 2 * y + n * widest_gap) × (2 * y ≤ 2 * x + n * widest_gap)

pub add-close : (x y : Double) → x + y < limit → Near 1 (add x y) (x + y)
unfolding add
add-close x y low =
    let (up, down) = rounded-close (x + y) 1 (omega arith) (omega (arith, low)) in
    (omega arith, omega arith)

pub sub-close : (x y : Double) → x - y < limit → Near 1 (sub x y) (x - y)
unfolding sub
sub-close x y low =
    let (up, down) = rounded-close (x - y) 1 (omega arith) (omega (arith, low)) in
    (omega arith, omega arith)

-- The double of `n` cents, with the number of cents.
pub of_cents-close :
    (n : ℕ)
    → n * steps < limit * 100
    → (2 * (of_cents n * 100) ≤ 2 * (n * steps) + 100 * widest_gap)
      × (2 * (n * steps) ≤ 2 * (of_cents n * 100) + 100 * widest_gap)
unfolding of_decimal
of_cents-close n low =
    let (up, down) = rounded-close (n * steps) 100 (omega arith) low in (omega arith, omega arith)

-- A value between the middles around `n` cents prints as `n` cents, or one more.
pub to_fixed-close :
    (x : Double)
    → (to_fixed x * (steps * 2) ≤ x * 200 + steps)
      × (x * 200 + steps < to_fixed x * (steps * 2) + steps * 2)
unfolding to_fixed
to_fixed-close x =
    let q = steps * 2 in
    let positive : 0 < q = omega (arith, steps-gap) in
    let e = div-add-mod' (x * 200 + steps) q in
    let lt = mod-lt (x * 200 + steps) positive in (omega arith, omega arith)
