-- ===== src/Sales/Create.antt =====
-- `create` of src/modules/sales/services/sales.service.ts: the lines, the promotion and the totals,
-- and the whole, with the checks of Sales/Checks before it.
pub mod Totals
pub mod Rounding
pub mod Outcome
pub mod Replay
pub mod Usage
mod Examples
use Prim.Native.String.{String}
use text.Mathlib.Text.{◌==◌ as str_eq}
use erp_fashion_api.Double.{Double, of_cents, of_decimal, add, sub, to_fixed}
use erp_fashion_api.Common.{
  ℕ, ◌+◌, ◌-◌, ◌*◌, ◌/◌, false, Option, none, some, List, [], ◌∷◌, ◌++◌, ltb, leb, if◌then◌else◌,
  Result, ok, throw, ◌>>=◌, ◌>>◌, throw_if, settle, validation_error,
}
use erp_fashion_api.Decimal.{Text}
use erp_fashion_api.Numbering.{Counter, generate_number}
use erp_fashion_api.Accounting.Store.{year_of}
use erp_fashion_api.Promotions.{
  Promotion, resolve_and_lock_for_use, compute_discount_amount, increment_usage,
}
use erp_fashion_api.Sales.{Sale, SaleItem, SaleRow, SaleStatus, SaleType, Store}
use erp_fashion_api.Sales.Pricing.{resolve_default_price_list_id, resolve_item_pricing}
use erp_fashion_api.Sales.Catalog.{Catalog, CreateSaleItem, ResolvedSaleItemPricing}
use erp_fashion_api.Sales.Checks.{
  SaleCatalog, CreateSale, Creation, Asked, find_replay, check_sale, assert_valid_sales_account,
}

-- What the loop over the items adds up, in cents, and the rows that it makes.
pub record Priced : Type 0 where
  pub subtotal : ℕ
  pub discount : ℕ
  pub tax : ℕ
  pub rows : List SaleRow

-- `Number(amount ?? '0')`
abbrev pub or_zero : Option ℕ → ℕ
or_zero none = 0
or_zero (some n) = n

abbrev pub row_for : CreateSaleItem → ResolvedSaleItemPricing → SaleRow
row_for item r = record {
  product_variant_id = item.product_variant_id;
  uom_id = r.uom_id;
  uom_code_snapshot = r.uom_code;
  uom_name_snapshot = r.uom_name;
  quantity = item.quantity;
  base_quantity_snapshot = some r.base_quantity;
  conversion_factor_to_base_snapshot = r.conversion_factor_to_base;
  unit_price_snapshot = r.unit_price;
  discount_snapshot = or_zero item.discount_amount;
  tax_snapshot = or_zero item.tax_amount;
  line_total =
      r.unit_price * item.quantity - or_zero item.discount_amount + or_zero item.tax_amount;
  product_name_snapshot = r.variant.product_name;
  sku_snapshot = r.variant.sku;
}

-- The loop over the items. Amounts of a request are not negative.
unfoldable pub price_items : Catalog → ℕ → Option ℕ → ℕ → List CreateSaleItem → Result Priced
unfolding resolve_item_pricing
price_items products company default time [] =
    ok (record { subtotal = 0; discount = 0; tax = 0; rows = [] })
price_items products company default time (item ∷ items) = do
  resolved ← resolve_item_pricing products company default time item
  throw_if (ltb (resolved.unit_price * item.quantity) (or_zero item.discount_amount))
      validation_error
  rest ← price_items products company default time items
  ok (record {
    subtotal = resolved.unit_price * item.quantity + rest.subtotal;
    discount = or_zero item.discount_amount + rest.discount;
    tax = or_zero item.tax_amount + rest.tax;
    rows = row_for item resolved ∷ rest.rows;
  })

-- `if (dto.promotionCode)`
abbrev given : Option String → Option String
given none = none
given (some code) = if str_eq code "" then none else some code

-- The promotion's discount, and the promotions after its use.
unfoldable pub apply_promotion :
    ℕ → Option String → Priced → ℕ → List Promotion → Result (Double × List Promotion)
apply_promotion company none priced time promotions = ok (0, promotions)
apply_promotion company (some code) priced time promotions = do
  promotion ← resolve_and_lock_for_use company code priced.subtotal time promotions
  ok (
    compute_discount_amount promotion (sub (of_cents priced.subtotal) (of_cents priced.discount)),
    increment_usage promotion.id promotions,
  )

-- `discountTotal`
unfoldable pub discount_total : Priced → Double → Double
unfolding add of_decimal
discount_total priced promotion = add (of_cents priced.discount) promotion

-- `subtotal - discountTotal + taxTotal`; the last digit of the discount can exceed the subtotal's.
unfoldable pub grand_total : Priced → Double → Double
unfolding discount_total add sub of_decimal
grand_total priced promotion =
    let subtotal = of_cents priced.subtotal in
    let discount = discount_total priced promotion in
    let tax = of_cents priced.tax in
    if leb discount subtotal
    then add (sub subtotal discount) tax
    else sub tax (sub discount subtotal)

abbrev pub key_of : Option Creation → Option String
key_of none = none
key_of (some c) = some c.key

abbrev pub hash_of : Option Creation → Option String
hash_of none = none
hash_of (some c) = some c.hash

abbrev pub time_of : CreateSale → Asked → ℕ
time_of dto asked = elim dto.transaction_date [ none ↦ asked.now | some time ↦ time ]

abbrev pub new_sale : Asked → CreateSale → Option Creation → ℕ → Text → Priced → Double → Sale
new_sale asked dto creation id number priced promotion = record {
  id = id;
  creation_key = key_of creation;
  creation_hash = hash_of creation;
  sale_number = number;
  sale_type = elim dto.sale_type [ none ↦ SaleType.retail | some type ↦ type ];
  customer_id = dto.customer_id;
  sales_account_id = dto.sales_account_id;
  company_id = asked.company_id;
  branch_id = dto.branch_id;
  warehouse_id = dto.warehouse_id;
  transaction_date = time_of dto asked;
  status = SaleStatus.draft;
  subtotal = priced.subtotal;
  discount_amount = to_fixed (discount_total priced promotion);
  tax_amount = priced.tax;
  grand_total = to_fixed (grand_total priced promotion);
  paid_amount = 0;
  balance_amount = to_fixed (grand_total priced promotion);
  currency = dto.currency;
  notes = dto.notes;
  fulfillment_status = none;
  shipped_at = none;
  delivered_at = none;
  created_by = asked.user_id;
  updated_by = asked.user_id;
  deleted = false;
}

-- The items of a sale, `id` being the next id.
unfoldable pub sale_items_for : ℕ → List SaleRow → ℕ → List SaleItem
sale_items_for sale [] id = []
sale_items_for sale (row ∷ rows) id =
    record { id = id; sale_id = sale; row = row } ∷ sale_items_for sale rows (id + 1)

unfoldable pub count_rows : List SaleRow → ℕ
count_rows [] = 0
count_rows (row ∷ rows) = count_rows rows + 1

abbrev pub sal : Text
sal = b'S' ∷ b'A' ∷ b'L' ∷ []

-- The number that a sale gets, and the counters after it.
abbrev pub sale_numbered : Asked → CreateSale → Store → Text × List Counter
sale_numbered asked dto s =
    generate_number sal s.next_id asked.company_id (year_of (time_of dto asked)) s.sale_counters

-- The transaction after the second lookup of the key.
unfoldable pub write_sale :
    SaleCatalog → Asked → CreateSale → Option Creation → Store → Result (Sale × Store)
unfolding price_items apply_promotion sale_items_for count_rows
write_sale catalog asked dto creation s = do
  let company = asked.company_id
  let time = time_of dto asked
  let default = resolve_default_price_list_id company catalog.products.price_lists
  priced ← price_items catalog.products company default time dto.items
  used ← apply_promotion company (given dto.promotion_code) priced time s.promotions
  let number = sale_numbered asked dto s
  let sale = new_sale asked dto creation (s.next_id + 1) number.0 priced used.0
  ok (
    sale,
    record s {
      sales = s.sales ++ (sale ∷ []);
      sale_items = s.sale_items ++ sale_items_for sale.id priced.rows (s.next_id + 2);
      sale_counters = number.1;
      promotions = used.1;
      next_id = s.next_id + 2 + count_rows priced.rows;
    },
  )

-- The second lookup's answer: a sale that exists is returned, its number being used up.
abbrev pub after_lookup :
    SaleCatalog → Asked → CreateSale → Option Creation → Store → Option Sale → Result (Sale × Store)
after_lookup catalog asked dto creation s (some sale) =
    ok (sale, record s { sale_counters = (sale_numbered asked dto s).1; next_id = s.next_id + 1 })
after_lookup catalog asked dto creation s none = write_sale catalog asked dto creation s

-- The body of the transaction.
unfoldable pub apply_create :
    SaleCatalog → Asked → CreateSale → Option Creation → Store → Result (Sale × Store)
unfolding find_replay assert_valid_sales_account write_sale
apply_create catalog asked dto creation s = do
  assert_valid_sales_account catalog dto.sales_account_id asked.company_id asked.user_id
  replay ← find_replay asked.company_id creation s.sales
  after_lookup catalog asked dto creation s replay

-- The first lookup's answer, and what follows it.
abbrev pub after_first :
    SaleCatalog
    → Asked
    → CreateSale
    → Option Creation
    → (Store → Store)
    → Store
    → Result (Option Sale)
    → Result Sale × Store
after_first catalog asked dto creation others s (throw e) = (throw e, s)
after_first catalog asked dto creation others s (ok (some sale)) = (ok sale, s)
after_first catalog asked dto creation others s (ok none) =
    elim (check_sale catalog asked.company_id dto) [
      | throw e ↦ (throw e, others s)
      | ok _ ↦ settle (apply_create catalog asked dto creation (others s)) (others s)
    ]

-- `create`, with what other requests do between the first lookup of the key and the transaction.
-- A transaction runs on its own, so that its own lookup sees every sale that is there, and its
-- insertion finds no duplicate.
unfoldable pub create_sale :
    SaleCatalog
    → Asked
    → CreateSale
    → Option Creation
    → (Store → Store)
    → Store
    → Result Sale × Store
unfolding find_replay check_sale apply_create
create_sale catalog asked dto creation others s =
    after_first catalog asked dto creation others s (find_replay asked.company_id creation s.sales)
