-- ===== src/SaleReturns.antt =====
-- `SaleReturnsService` (src/modules/sales-returns/services/sale-returns.service.ts): `create`.
-- `confirm` and `cancel` are in SaleReturns/Confirm, `applyRefund` is in Payments/Documents.
pub mod Creation
pub mod Confirm
pub mod Restock
mod Examples
use Prim.Native.String.{String}
use erp_fashion_api.Common.{
  ℕ, ◌+◌, ◌-◌, ◌*◌, Bool, true, false, not, ◌&&◌, Option, none, some, List, [], ◌∷◌, ◌++◌, ◌==◌,
  ltb, leb, if◌then◌else◌, row, find_row, sort_by, Result, ok, ◌>>=◌, ◌>>◌, throw_if, or_throw, run,
  validation_error, conflict, unprocessable_entity,
}
use erp_fashion_api.Decimal.{Text}
use erp_fashion_api.Numbering.{Counter, generate_number}
use erp_fashion_api.Accounting.Store.{year_of}
use erp_fashion_api.Payments.{SaleReturnStatus}
use erp_fashion_api.Sales.{Sale, SaleItem, SaleStatus, same_status, find_sale}
use erp_fashion_api.Sales as Sales

pub data SaleReturnItemCondition : Type 0 where
  restock damaged : SaleReturnItemCondition

-- Amounts count cents.
pub record SaleReturn : Type 0 where
  pub id : ℕ
  pub return_number : Text
  pub company_id : ℕ
  pub branch_id : Option ℕ
  pub sale_id : ℕ
  pub customer_id : ℕ
  pub status : SaleReturnStatus
  pub reason : Option String
  pub notes : Option String
  pub subtotal : ℕ
  pub discount_amount : ℕ
  pub refund_amount : ℕ
  pub refunded_amount : ℕ
  pub currency : String
  pub created_by : ℕ
  pub confirmed_by : Option ℕ
  pub confirmed_at : Option ℕ

-- What a line keeps of the sale item that it returns.
pub record ReturnRow : Type 0 where
  pub sale_item_id : ℕ
  pub product_variant_id : ℕ
  pub quantity : ℕ
  pub unit_price_snapshot : ℕ
  pub discount_amount : ℕ
  pub line_total : ℕ
  pub condition : SaleReturnItemCondition
  pub product_name_snapshot : String
  pub sku_snapshot : String

pub record SaleReturnItem : Type 0 where
  pub id : ℕ
  pub sale_return_id : ℕ
  pub row : ReturnRow

pub record CreateSaleReturnItem : Type 0 where
  pub sale_item_id : ℕ
  pub quantity : ℕ
  pub discount_amount : Option ℕ
  pub condition : Option SaleReturnItemCondition

pub record CreateSaleReturn : Type 0 where
  pub sale_id : ℕ
  pub reason : Option String
  pub notes : Option String
  pub items : List CreateSaleReturnItem

-- The tables of the sales, and those of the returns.
pub record Store : Type 0 where
  pub shop : Sales.Store
  pub returns : List SaleReturn
  pub return_items : List SaleReturnItem
  pub return_counters : List Counter
  pub next_id : ℕ

abbrev pub return_key : SaleReturn → ℕ
return_key r = r.id

abbrev is_cancelled : SaleReturnStatus → Bool
is_cancelled SaleReturnStatus.draft = false
is_cancelled SaleReturnStatus.confirmed = false
is_cancelled SaleReturnStatus.refunded = false
is_cancelled SaleReturnStatus.cancelled = true

abbrev pub is_draft : SaleReturnStatus → Bool
is_draft SaleReturnStatus.draft = true
is_draft SaleReturnStatus.confirmed = false
is_draft SaleReturnStatus.refunded = false
is_draft SaleReturnStatus.cancelled = false

-- The join with a return that is not cancelled.
abbrev pub counts : List SaleReturn → SaleReturnItem → Bool
counts returns item = elim (row return_key item.sale_return_id returns) [
  | none ↦ false
  | some r ↦ not (is_cancelled r.status)
]

-- `COALESCE(SUM(item.quantity), 0)`, of one sale item.
unfoldable pub already_returned : ℕ → List SaleReturn → List SaleReturnItem → ℕ
already_returned item returns [] = 0
already_returned item returns (i ∷ items) =
    (if item == i.row.sale_item_id && counts returns i then i.row.quantity else 0)
    + already_returned item returns items

abbrev pub find_sale_item : ℕ → ℕ → List SaleItem → Option SaleItem
find_sale_item id sale = find_row (λ (i : SaleItem). i.id) (λ i. sale == i.sale_id) id

abbrev pub discount_of : CreateSaleReturnItem → ℕ
discount_of line = elim line.discount_amount [ none ↦ 0 | some n ↦ n ]

abbrev pub return_row : CreateSaleReturnItem → SaleItem → ReturnRow
return_row line item = record {
  sale_item_id = item.id;
  product_variant_id = item.row.product_variant_id;
  quantity = line.quantity;
  unit_price_snapshot = item.row.unit_price_snapshot;
  discount_amount = discount_of line;
  line_total = item.row.unit_price_snapshot * line.quantity - discount_of line;
  condition = elim line.condition [ none ↦ SaleReturnItemCondition.restock | some c ↦ c ];
  product_name_snapshot = item.row.product_name_snapshot;
  sku_snapshot = item.row.sku_snapshot;
}

-- One line, with its item locked: `getRemainingReturnableQuantity` and the checks that follow.
unfoldable pub check_return_line :
    ℕ
    → List SaleItem
    → List SaleReturn
    → List SaleReturnItem
    → CreateSaleReturnItem
    → Result ReturnRow
check_return_line sale sale_items returns items line = do
  item ← or_throw (find_sale_item line.sale_item_id sale sale_items) validation_error
  throw_if (ltb item.row.quantity (already_returned item.id returns items + line.quantity)) conflict
  throw_if (ltb (item.row.unit_price_snapshot * line.quantity) (discount_of line)) validation_error
  ok (return_row line item)

-- The loop over the sorted lines.
unfoldable pub check_return_lines :
    ℕ
    → List SaleItem
    → List SaleReturn
    → List SaleReturnItem
    → List CreateSaleReturnItem
    → Result (List ReturnRow)
check_return_lines sale sale_items returns items [] = ok []
check_return_lines sale sale_items returns items (line ∷ lines) = do
  first ← check_return_line sale sale_items returns items line
  rest ← check_return_lines sale sale_items returns items lines
  ok (first ∷ rest)

abbrev pub by_sale_item : CreateSaleReturnItem → CreateSaleReturnItem → Bool
by_sale_item a b = leb a.sale_item_id b.sale_item_id

-- The two sums of the loop.
unfoldable pub subtotal_of : List ReturnRow → ℕ
subtotal_of [] = 0
subtotal_of (r ∷ rows) = r.unit_price_snapshot * r.quantity + subtotal_of rows

unfoldable pub discounts_of : List ReturnRow → ℕ
discounts_of [] = 0
discounts_of (r ∷ rows) = r.discount_amount + discounts_of rows

abbrev pub ret : Text
ret = b'R' ∷ b'E' ∷ b'T' ∷ []

abbrev pub new_return : ℕ → ℕ → CreateSaleReturn → Sale → ℕ → Text → List ReturnRow → SaleReturn
new_return company user dto sale id number rows = record {
  id = id;
  return_number = number;
  company_id = company;
  branch_id = sale.branch_id;
  sale_id = sale.id;
  customer_id = sale.customer_id;
  status = SaleReturnStatus.draft;
  reason = dto.reason;
  notes = dto.notes;
  subtotal = subtotal_of rows;
  discount_amount = discounts_of rows;
  refund_amount = subtotal_of rows - discounts_of rows;
  refunded_amount = 0;
  currency = sale.currency;
  created_by = user;
  confirmed_by = none;
  confirmed_at = none;
}

unfoldable pub return_items_for : ℕ → List ReturnRow → ℕ → List SaleReturnItem
return_items_for return [] id = []
return_items_for return (r ∷ rows) id =
    record { id = id; sale_return_id = return; row = r } ∷ return_items_for return rows (id + 1)

unfoldable pub count_of : List ReturnRow → ℕ
count_of [] = 0
count_of (r ∷ rows) = count_of rows + 1

-- The store with everything written.
abbrev pub finish_return :
    ℕ → ℕ → CreateSaleReturn → Sale → ℕ → List ReturnRow → Store → SaleReturn × Store
finish_return company user dto sale now rows s =
    let number = generate_number ret s.next_id company (year_of now) s.return_counters in
    let r = new_return company user dto sale (s.next_id + 1) number.0 rows in
    (
      r,
      record s {
        returns = s.returns ++ (r ∷ []);
        return_items = s.return_items ++ return_items_for r.id rows (s.next_id + 2);
        return_counters = number.1;
        next_id = s.next_id + 2 + count_of rows;
      },
    )

-- The body of `create`.
unfoldable pub apply_create_return :
    ℕ → ℕ → CreateSaleReturn → ℕ → Store → Result (SaleReturn × Store)
unfolding check_return_lines return_items_for subtotal_of discounts_of count_of
apply_create_return company user dto now s = do
  sale ← or_throw (find_sale dto.sale_id company s.shop.sales) validation_error
  throw_if (not (same_status sale.status SaleStatus.confirmed)) unprocessable_entity
  rows ←
      check_return_lines sale.id s.shop.sale_items s.returns s.return_items
        (sort_by by_sale_item dto.items)
  ok (finish_return company user dto sale now rows s)

-- `create`
unfoldable pub create_return : ℕ → ℕ → CreateSaleReturn → ℕ → Store → Result SaleReturn × Store
create_return company user dto now = run (apply_create_return company user dto now)
