-- ===== src/Sales/Create/Outcome.antt =====
-- What `SalesService.create` writes (src/modules/sales/services/sales.service.ts).
use erp_fashion_api.Double.{Double}
use erp_fashion_api.Common.{
  ◌+◌, ◌≤◌, ◌≡◌, refl, Option, none, List, [], ◌∷◌, ◌++◌, sum_of, Result, ok, throw, >>=-eq-ok,
}
use erp_fashion_api.Promotions.{Promotion}
use erp_fashion_api.Sales.{Sale, SaleRow, SaleStatus, Store}
use erp_fashion_api.Sales.Pricing.{resolve_default_price_list_id}
use erp_fashion_api.Sales.Create.{
  Priced, apply_create, write_sale, new_sale, sale_numbered, sale_items_for, count_rows,
  price_items, apply_promotion, given, time_of,
}
use erp_fashion_api.Sales.Checks.{
  SaleCatalog, Asked, CreateSale, Creation, find_replay, assert_valid_sales_account,
}
use erp_fashion_api.Sales.Create.Totals.{
  gross_of, discount_of, tax_of, line_total_of, price_items-IsSummed,
}
use erp_fashion_api.Sales.Create.Rounding.{
  largest, AddUp, totals-AddUp, totals_without_promotion, apply_promotion-le,
}

-- The subtotal and the tax together are an amount that a column holds.
abbrev pub IsStorable : Sale → Type 0
IsStorable sale = sale.subtotal + sale.tax_amount ≤ largest

-- A sale that has been added to the store `t` is a draft with nothing paid, and its amounts are those
-- of its rows.
pub record IsCreated (dto : CreateSale) (t s : Store) (sale : Sale) : Type 0 where
  pub rows : List SaleRow
  pub sales : s.sales ≡ t.sales ++ (sale ∷ [])
  pub items : s.sale_items ≡ t.sale_items ++ sale_items_for sale.id rows (t.next_id + 2)
  pub draft : sale.status ≡ SaleStatus.draft
  pub unpaid : sale.paid_amount ≡ 0
  pub unsettled : sale.balance_amount ≡ sale.grand_total
  pub subtotal : sale.subtotal ≡ sum_of gross_of rows
  pub tax : sale.tax_amount ≡ sum_of tax_of rows
  pub amounts :
      AddUp sale.subtotal sale.tax_amount
        (sum_of discount_of rows)
        sale.discount_amount
        sale.grand_total
  pub exact :
      given dto.promotion_code ≡ none
      → (sale.discount_amount ≡ sum_of discount_of rows)
        × (sale.grand_total + sale.discount_amount ≡ sale.subtotal + sale.tax_amount)
  pub lines : sum_of line_total_of rows + sum_of discount_of rows ≡ sale.subtotal + sale.tax_amount

IsStorable-back : {q sale : Sale} → q ≡ sale → IsStorable sale → IsStorable q
IsStorable-back e fits = rw e fits

IsCreated-along :
    (dto : CreateSale) (t : Store) {q sale : Sale} {r s : Store}
    → q ≡ sale
    → r ≡ s
    → IsCreated dto t r q
    → IsCreated dto t s sale
IsCreated-along dto t e e' was = rw (← e, ← e') was

module _ (catalog : SaleCatalog) (asked : Asked) (dto : CreateSale)
    (creation : Option Creation) where
  -- The sale that is added, for what the items and the promotion come to.
  abbrev pub made : Store → Priced → Double → Sale
  made t priced promotion =
      new_sale asked dto creation (t.next_id + 1) (sale_numbered asked dto t).0 priced promotion

  abbrev pub written : Store → Priced → Double × List Promotion → Store
  written t priced used = record t {
    sales = t.sales ++ (made t priced used.0 ∷ []);
    sale_items =
        t.sale_items ++ sale_items_for (made t priced used.0).id priced.rows (t.next_id + 2);
    sale_counters = (sale_numbered asked dto t).1;
    promotions = used.1;
    next_id = t.next_id + 2 + count_rows priced.rows;
  }

  abbrev pub PricedOf : Priced → Type 0
  PricedOf priced =
      price_items catalog.products asked.company_id
        (resolve_default_price_list_id asked.company_id catalog.products.price_lists)
        (time_of dto asked) dto.items
      ≡ ok priced

  abbrev pub UsedOf : Store → Priced → Double × List Promotion → Type 0
  UsedOf t priced used =
      apply_promotion asked.company_id (given dto.promotion_code) priced (time_of dto asked)
        t.promotions
      ≡ ok used

  -- What a run that writes a sale went through.
  pub write_sale-eq-ok :
      (t s : Store) (sale : Sale)
      → write_sale catalog asked dto creation t ≡ ok (sale, s)
      → (priced : Priced) × (used : Double × List Promotion) × PricedOf priced
        × UsedOf t priced used
        × (made t priced used.0 ≡ sale)
        × (written t priced used ≡ s)
  unfolding write_sale
  write_sale-eq-ok t s sale h =
      let (priced, p, h1) =
        >>=-eq-ok
          (price_items catalog.products asked.company_id
            (resolve_default_price_list_id asked.company_id catalog.products.price_lists)
            (time_of dto asked) dto.items)
          _ h in
      let (used, u, h2) =
        >>=-eq-ok
          (apply_promotion asked.company_id (given dto.promotion_code) priced (time_of dto asked)
            t.promotions)
          _ h1 in
      (priced, used, p, u, cc, cc)

  written-IsCreated :
      (t : Store) (priced : Priced) (used : Double × List Promotion)
      → PricedOf priced
      → UsedOf t priced used
      → priced.subtotal + priced.tax ≤ largest
      → IsCreated dto t (written t priced used) (made t priced used.0)
  written-IsCreated t priced used p u fits =
      let sums = price_items-IsSummed _ _ _ _ _ priced p in
      let (le, none_used) = apply_promotion-le _ _ priced _ _ used u in
      record {
        rows = priced.rows;
        amounts = rw (← sums.discount) (totals-AddUp priced used.0 sums.covered fits le);
        exact = λ no_code.
            let (same, whole) =
              totals_without_promotion priced used.0 sums.covered fits le (none_used no_code) in
            (rw (← sums.discount) same, rw same whole);
        sales = refl;
        items = refl;
        draft = refl;
        unpaid = refl;
        unsettled = refl;
        subtotal = sums.subtotal;
        tax = sums.tax;
        lines = rw (← sums.discount) sums.lines;
      }

  -- The outcome of a creation whose key, if it has one, is not taken.
  pub apply_create-IsCreated :
      (t s : Store) (sale : Sale)
      → find_replay asked.company_id creation t.sales ≡ ok none
      → apply_create catalog asked dto creation t ≡ ok (sale, s)
      → IsStorable sale
      → IsCreated dto t s sale
  unfolding apply_create
  apply_create-IsCreated t s sale fresh h fits =
      let (u, _, h1) =
        >>=-eq-ok
          (assert_valid_sales_account catalog dto.sales_account_id asked.company_id asked.user_id) _
          h in
      let h2 : write_sale catalog asked dto creation t ≡ ok (sale, s) = rw fresh at h1 in
      let (priced, used, p, us, e, e') = write_sale-eq-ok t s sale h2 in
      IsCreated-along dto t e e' (written-IsCreated t priced used p us (IsStorable-back e fits))

module _ (catalog : SaleCatalog) (asked : Asked) (dto : CreateSale) (creation : Option Creation)
    (others : Store → Store) (s : Store)
    (fresh : find_replay asked.company_id creation (others s).sales ≡ ok none) where
  abbrev Outcome : Type 0
  Outcome = Result Sale × Store

abbrev pub IsStorableIfAny : Result Sale → Type 0
IsStorableIfAny (ok sale) = IsStorable sale
IsStorableIfAny (throw e) = Unit

-- What a creation leaves, `t` being the store that its transaction began in.
abbrev pub Leaves : CreateSale → Store → Store → Result Sale → Type 0
Leaves dto t s (ok sale) = IsCreated dto t s sale
Leaves dto t s (throw e) = s ≡ t
