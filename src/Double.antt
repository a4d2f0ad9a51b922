-- ===== src/Double.antt =====
-- The JavaScript numbers (IEEE 754 doubles) that the services compute rates and discounts in. A double
-- that is not negative is the number of steps of 2^-150 that it has. Every value here is zero or at
-- least 2^-97, so that its last digit is a step or more, and below 2^63: there are no subnormal
-- values and no overflow.
pub mod Bounds
use erp_fashion_api.Common.{
  ℕ, zero, suc, ◌+◌, ◌-◌, ◌*◌, ◌/◌, ◌%◌, ◌==◌, Bool, true, false, ltb, leb, if◌then◌else◌,
}
use erp_fashion_api.Common.{◌≡◌, refl}
use Prim.Native.Nat.{◌^◌}

abbrev pub Double : Type 0
Double = ℕ

unfoldable pub steps : ℕ
steps = 2 ^ 150

-- The step between the doubles around `n`, which have 53 binary digits.
unfoldable pub spacing : ℕ → ℕ → ℕ
spacing zero n = 1
spacing (suc fuel) n = elim (ltb n (2 ^ 53)) [ true ↦ 1 | false ↦ 2 * spacing fuel (n / 2) ]

-- The whole number nearest to `p / q`, the even one of two.
unfoldable pub nearest : ℕ → ℕ → ℕ
nearest p q =
    let low = p / q in
    let rest = p % q * 2 in
    if ltb rest q then low else if ltb q rest then low + 1 else low + low % 2

-- The double nearest to `p / q` steps. Values below 2^63 have fewer than 214 binary digits.
unfoldable pub rounded : ℕ → ℕ → Double
unfolding spacing nearest
rounded p q = let gap = spacing 161 (p / q) in nearest p (q * gap) * gap

-- `Number(text)` of a decimal `p / q`.
unfoldable pub of_decimal : ℕ → ℕ → Double
unfolding steps rounded
of_decimal p q = rounded (p * steps) q

abbrev pub of_cents : ℕ → Double
of_cents n = of_decimal n 100

-- `x + y`, `x - y` for `y <= x`, `x * y` and `x / y`
unfoldable pub add : Double → Double → Double
unfolding rounded
add x y = rounded (x + y) 1

unfoldable pub sub : Double → Double → Double
unfolding rounded
sub x y = rounded (x - y) 1

unfoldable pub mul : Double → Double → Double
unfolding steps rounded
mul x y = rounded (x * y) steps

unfoldable pub div : Double → Double → Double
unfolding steps rounded
div x y = rounded (x * steps) y

-- `Math.min(x, y)`
abbrev pub min : Double → Double → Double
min x y = if leb x y then x else y

-- `Math.floor(x)`
unfoldable pub floor : Double → ℕ
unfolding steps
floor x = x / steps

-- `x.toFixed(2)`, in cents: the nearest number of cents, the larger one of two.
unfoldable pub to_fixed : Double → ℕ
unfolding steps
to_fixed x = (x * 200 + steps) / (steps * 2)

-- 0.29 times 100 is less than 29.
floor_of_product : floor (mul (of_decimal 29 100) (of_decimal 100 1)) ≡ 28
unfolding floor mul of_decimal rounded spacing nearest steps
floor_of_product = refl

-- 5% of 0.30 and the rest of it both round down.
five_percent : to_fixed (div (mul (of_cents 30) (of_decimal 5 1)) (of_decimal 100 1)) ≡ 1
unfolding to_fixed mul div of_decimal rounded spacing nearest steps
five_percent = refl
