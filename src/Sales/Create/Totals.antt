-- ===== src/Sales/Create/Totals.antt =====
-- The amounts of a sale that `SalesService.create` makes (src/modules/sales/services).
use erp_fashion_api.Common.{
  ℕ, ◌+◌, ◌-◌, ◌*◌, ◌≤◌, ◌≡◌, refl, Option, List, [], ◌∷◌, ltb, sum_of, ok, throw_if,
  validation_error, >>=-eq-ok, arith,
}
use erp_fashion_api.Sales.{SaleRow}
use erp_fashion_api.Sales.Pricing.{resolve_item_pricing}
use erp_fashion_api.Sales.Catalog.{Catalog, CreateSaleItem, ResolvedSaleItemPricing}
use erp_fashion_api.Sales.Create.{Priced, price_items, row_for, or_zero}

abbrev pub gross_of : SaleRow → ℕ
gross_of row = row.unit_price_snapshot * row.quantity

abbrev pub discount_of : SaleRow → ℕ
discount_of row = row.discount_snapshot

abbrev pub tax_of : SaleRow → ℕ
tax_of row = row.tax_snapshot

abbrev pub line_total_of : SaleRow → ℕ
line_total_of row = row.line_total

-- The sums are those of the rows, no line's discount exceeds the line, and the lines' totals add up.
pub record IsSummed (priced : Priced) : Type 0 where
  pub subtotal : priced.subtotal ≡ sum_of gross_of priced.rows
  pub discount : priced.discount ≡ sum_of discount_of priced.rows
  pub tax : priced.tax ≡ sum_of tax_of priced.rows
  pub lines : sum_of line_total_of priced.rows + priced.discount ≡ priced.subtotal + priced.tax
  pub covered : priced.discount ≤ priced.subtotal

line_sum :
    (gross discount tax lines discounts subtotal taxes : ℕ)
    → discount ≤ gross
    → lines + discounts ≡ subtotal + taxes
    → (gross - discount + tax + lines) + (discount + discounts) ≡ (gross + subtotal) + (tax + taxes)
line_sum gross discount tax lines discounts subtotal taxes le h = omega arith

≤_add : {a b c d : ℕ} → a ≤ b → c ≤ d → a + c ≤ b + d
≤_add le le' = omega arith

not_less : (a b : ℕ) (u : Unit {0}) → throw_if (ltb a b) validation_error ≡ ok u → b ≤ a
not_less a b u h = ground arith

-- What one item adds to the sums of the others.
abbrev with_item : CreateSaleItem → ResolvedSaleItemPricing → Priced → Priced
with_item item r rest = record {
  subtotal = r.unit_price * item.quantity + rest.subtotal;
  discount = or_zero item.discount_amount + rest.discount;
  tax = or_zero item.tax_amount + rest.tax;
  rows = row_for item r ∷ rest.rows;
}

with_item-IsSummed :
    (item : CreateSaleItem) (r : ResolvedSaleItemPricing) (rest : Priced)
    → or_zero item.discount_amount ≤ r.unit_price * item.quantity
    → IsSummed rest
    → IsSummed (with_item item r rest)
with_item-IsSummed item r rest le was = record {
  subtotal = rw was.subtotal refl;
  discount = rw was.discount refl;
  tax = rw was.tax refl;
  lines =
      line_sum (r.unit_price * item.quantity) (or_zero item.discount_amount)
        (or_zero item.tax_amount) (sum_of line_total_of rest.rows) rest.discount rest.subtotal
        rest.tax le was.lines;
  covered = ≤_add le was.covered;
}

pub price_items-IsSummed :
    (products : Catalog) (company : ℕ) (default : Option ℕ) (time : ℕ) (items : List CreateSaleItem)
    (priced : Priced)
    → price_items products company default time items ≡ ok priced
    → IsSummed priced
unfolding price_items
price_items-IsSummed products company default time [] priced h =
    let e : ◌≡◌ {A = Priced} (record { subtotal = 0; discount = 0; tax = 0; rows = [] }) priced =
      cc in
    rw (← e)
      (record { subtotal = refl; discount = refl; tax = refl; lines = refl; covered = omega arith })
price_items-IsSummed products company default time (item ∷ items) priced h =
    let (r, resolved, h1) =
      >>=-eq-ok (resolve_item_pricing products company default time item) _ h in
    let (u, checked, h2) =
      >>=-eq-ok
        (throw_if (ltb (r.unit_price * item.quantity) (or_zero item.discount_amount))
          validation_error)
        _ h1 in
    let (rest, priced_rest, h3) =
      >>=-eq-ok (price_items products company default time items) _ h2 in
    let e : with_item item r rest ≡ priced = cc in
    rw (← e) (
      with_item-IsSummed item r rest
        (not_less (r.unit_price * item.quantity) (or_zero item.discount_amount) u checked)
        (price_items-IsSummed products company default time items rest priced_rest))
