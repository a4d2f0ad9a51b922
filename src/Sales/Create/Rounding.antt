-- ===== src/Sales/Create/Rounding.antt =====
-- How the amounts of a sale that `SalesService.create` rounds add up
-- (src/modules/sales/services/sales.service.ts).
use native.Mathlib.Nat.{lt_of_mul-lt-mul_right, mul-le-mul_right}
use Prim.Native.String.{String}
use erp_fashion_api.Common.{
  ℕ, ◌+◌, ◌*◌, ◌≤◌, ◌<◌, ◌≡◌, refl, inl, inr, false, leb, Bool-cases, Option, none, some, List, ok,
  >>=-eq-ok, arith,
}
use erp_fashion_api.Double.{Double, steps, of_cents, sub, min, to_fixed}
use erp_fashion_api.Double.Bounds.{
  widest_gap, limit, steps-gap, Near, add-close, sub-close, of_cents-close, to_fixed-close,
}
use erp_fashion_api.Promotions.{
  Promotion, compute_discount_amount, full_discount, resolve_and_lock_for_use, increment_usage,
}
use erp_fashion_api.Sales.Create.{Priced, apply_promotion, discount_total, grand_total}

-- What a column of an amount holds, in cents.
abbrev pub largest : ℕ
largest = 100_000_000_000_000

cents_lt : (a b : ℕ) → a * steps < b * steps → a < b
cents_lt a b h = lt_of_mul-lt-mul_right steps h

≤_of_cents : (a b : ℕ) → a * steps < (b + 1) * steps → a ≤ b
≤_of_cents a b h = omega (arith, cents_lt a (b + 1) h)

antisym : {a b : ℕ} → a ≤ b → b ≤ a → a ≡ b
antisym h h' = omega arith

lt_of_leb : (a b : ℕ) → leb a b ≡ false → b < a
lt_of_leb a b h = ground arith

min-le : (x y : Double) → min x y ≤ y
min-le x y = ground arith

in_range : (n : ℕ) → n ≤ largest → n * steps < limit * 100
in_range n le =
    let (s, l, positive) = steps-gap in omega (arith, s, l, positive, mul-le-mul_right steps le)

-- The two rounded amounts of a sale.
pub record AddUp (subtotal tax lines discount total : ℕ) : Type 0 where
  pub at_least : lines ≤ discount
  pub at_most : discount ≤ subtotal
  pub not_less : subtotal + tax ≤ total + discount + 1
  pub not_more : total + discount ≤ subtotal + tax + 1

module _ (priced : Priced) (promotion : Double) (covered : priced.discount ≤ priced.subtotal)
    (fits : priced.subtotal + priced.tax ≤ largest)
    (left : promotion ≤ sub (of_cents priced.subtotal) (of_cents priced.discount)) where
  abbrev subtotal : Double
  subtotal = of_cents priced.subtotal

  abbrev lines : Double
  lines = of_cents priced.discount

  abbrev tax : Double
  tax = of_cents priced.tax

  abbrev discount : Double
  discount = discount_total priced promotion

  abbrev total : Double
  total = grand_total priced promotion

  -- The doubles of the amounts, each within half a gap of its cents.
  record Closeness : Type 0 where
    of_subtotal :
        (2 * (subtotal * 100) ≤ 2 * (priced.subtotal * steps) + 100 * widest_gap)
        × (2 * (priced.subtotal * steps) ≤ 2 * (subtotal * 100) + 100 * widest_gap)
    of_lines :
        (2 * (lines * 100) ≤ 2 * (priced.discount * steps) + 100 * widest_gap)
        × (2 * (priced.discount * steps) ≤ 2 * (lines * 100) + 100 * widest_gap)
    of_tax :
        (2 * (tax * 100) ≤ 2 * (priced.tax * steps) + 100 * widest_gap)
        × (2 * (priced.tax * steps) ≤ 2 * (tax * 100) + 100 * widest_gap)
    ordered : priced.discount * steps ≤ priced.subtotal * steps
    bounded : priced.subtotal * steps + priced.tax * steps ≤ largest * steps

  close : Closeness
  close = record {
    of_subtotal = of_cents-close priced.subtotal (in_range priced.subtotal (omega arith));
    of_lines = of_cents-close priced.discount (in_range priced.discount (omega arith));
    of_tax = of_cents-close priced.tax (in_range priced.tax (omega arith));
    ordered = mul-le-mul_right steps covered;
    bounded = omega (arith, mul-le-mul_right steps fits);
  }

  discount_close : Near 1 discount (lines + promotion) × (discount ≤ subtotal + 2 * widest_gap)
  unfolding discount_total
  discount_close =
      let (s, l, positive) = steps-gap in
      let c = close in
      let rest = sub-close subtotal lines (omega (arith, c.of_subtotal, c.bounded)) in
      let sum =
        add-close lines promotion
          (omega (arith, c.of_subtotal, c.of_lines, c.bounded, c.ordered)) in
      (sum, omega (arith, c.of_subtotal, c.of_lines, c.ordered))

  -- Total and discount are the subtotal and the tax, but for three gaps.
  total_close : Near 6 (total + discount) (subtotal + tax)
  unfolding grand_total
  total_close =
      let (s, l, positive) = steps-gap in
      let c = close in
      let (near, low) = discount_close in
      elim (Bool-cases (leb discount subtotal)) [
        | inl covers ↦
            let rest = sub-close subtotal discount (omega (arith, c.of_subtotal, c.bounded)) in
            let sum =
              add-close (sub subtotal discount) tax
                (omega (arith, c.of_subtotal, c.of_tax, c.bounded)) in
            rw (covers, grand_total) (omega arith, omega arith)
        | inr over ↦
            let rest = sub-close discount subtotal (omega (arith, c.of_subtotal, c.bounded)) in
            let left = sub-close tax (sub discount subtotal) (omega (arith, c.of_tax, c.bounded)) in
            let more = lt_of_leb discount subtotal over in
            rw (over, grand_total) (omega arith, omega arith)
      ]

  -- The amounts that are written add up but for a cent.
  pub totals-AddUp :
      AddUp priced.subtotal priced.tax priced.discount (to_fixed discount) (to_fixed total)
  totals-AddUp =
      let (s, l, positive) = steps-gap in
      let c = close in
      let (near, low) = discount_close in
      let whole = total_close in
      let (d_up, d_down) = to_fixed-close discount in
      let (t_up, t_down) = to_fixed-close total in
      record {
        at_least = ≤_of_cents priced.discount (to_fixed discount) (omega (arith, c.of_lines));
        at_most = ≤_of_cents (to_fixed discount) priced.subtotal (omega (arith, c.of_subtotal));
        not_less =
            ≤_of_cents (priced.subtotal + priced.tax) (to_fixed total + to_fixed discount + 1)
              (omega (arith, c.of_subtotal, c.of_tax));
        not_more =
            ≤_of_cents (to_fixed total + to_fixed discount) (priced.subtotal + priced.tax + 1)
              (omega (arith, c.of_subtotal, c.of_tax));
      }

  -- Without a promotion, the amounts are those of the items.
  pub totals_without_promotion :
      promotion ≡ 0
      → (to_fixed discount ≡ priced.discount)
        × (to_fixed total + priced.discount ≡ priced.subtotal + priced.tax)
  totals_without_promotion none_given =
      let (s, l, positive) = steps-gap in
      let c = close in
      let (near, low) = discount_close in
      let whole = total_close in
      let (d_up, d_down) = to_fixed-close discount in
      let (t_up, t_down) = to_fixed-close total in
      (
        antisym (≤_of_cents (to_fixed discount) priced.discount (omega (arith, c.of_lines)))
            (≤_of_cents priced.discount (to_fixed discount) (omega (arith, c.of_lines))),
        antisym
            (≤_of_cents (to_fixed total + priced.discount) (priced.subtotal + priced.tax)
              (omega (arith, c.of_subtotal, c.of_tax, c.of_lines)))
            (≤_of_cents (priced.subtotal + priced.tax) (to_fixed total + priced.discount)
              (omega (arith, c.of_subtotal, c.of_tax, c.of_lines))),
      )

compute_discount_amount-le :
    (p : Promotion) (subtotal : Double) → compute_discount_amount p subtotal ≤ subtotal
unfolding compute_discount_amount
compute_discount_amount-le p subtotal =
    min-le (full_discount p.discount_type p.discount_value p.maximum_discount_amount subtotal)
      subtotal

-- A promotion takes off at most what is left.
pub apply_promotion-le :
    (company : ℕ) (code : Option String) (priced : Priced) (time : ℕ) (promotions : List Promotion)
    (used : Double × List Promotion)
    → apply_promotion company code priced time promotions ≡ ok used
    → (used.0 ≤ sub (of_cents priced.subtotal) (of_cents priced.discount))
      × (code ≡ none → used.0 ≡ 0)
unfolding apply_promotion
apply_promotion-le company none priced time promotions used h =
    let e : ◌≡◌ {A = Double × List Promotion} (0, promotions) used = cc in
    rw (← e) (omega arith, λ _. refl)
apply_promotion-le company (some code) priced time promotions used h =
    let (p, found, h1) =
      >>=-eq-ok (resolve_and_lock_for_use company code priced.subtotal time promotions) _ h in
    let left = sub (of_cents priced.subtotal) (of_cents priced.discount) in
    let e : ◌≡◌ {A = Double × List Promotion}
        (compute_discount_amount p left, increment_usage p.id promotions) used =
      cc in
    rw (← e) (compute_discount_amount-le p left, λ none_given. cc)
