-- ===== src/SaleReturns/Confirm.antt =====
-- `confirm` and `cancel` of src/modules/sales-returns/services/sale-returns.service.ts.
use erp_fashion_api.Double.{floor, mul, div, min, of_cents, of_decimal}
use erp_fashion_api.Common.{
  ℕ, ◌+◌, Bool, false, not, ◌&&◌, Option, none, some, List, [], ◌∷◌, ◌++◌, ◌==◌, leb, if◌then◌else◌,
  ℤ, pos, negsuc, ◌+ℤ◌, find_row, update_row, sort_by, Result, ok, throw, ◌>>=◌, ◌>>◌, throw_if,
  or_throw, run, validation_error, not_found, unprocessable_entity, internal_error,
}
use erp_fashion_api.Inventory.Stock.{
  WarehouseStock, StockMovement, StockMovementType, StockMovementReferenceType, find_stock,
  upsert_stock, update_stock,
}
use erp_fashion_api.Inventory.Store.{Warehouse, is_active}
use erp_fashion_api.Loyalty.{
  SourceType, LoyaltyPointTransaction, Ledger, find_transaction, reverse_for_sale_return,
}
use erp_fashion_api.Payments.{SaleReturnStatus}
use erp_fashion_api.Sales.{Sale}
use erp_fashion_api.SaleReturns.{
  Store, SaleReturn, SaleReturnItem, SaleReturnItemCondition, return_key, is_draft,
}

abbrev pub find_return : ℕ → ℕ → List SaleReturn → Option SaleReturn
find_return id company = find_row return_key (λ r. company == r.company_id) id

-- `find(SaleReturnItem, { where: { saleReturnId } })`
unfoldable pub return_items_of : ℕ → List SaleReturnItem → List SaleReturnItem
return_items_of return [] = []
return_items_of return (i ∷ items) =
    if return == i.sale_return_id
    then i ∷ return_items_of return items
    else return_items_of return items

abbrev is_in : ℕ → Option ℕ → Bool
is_in branch none = false
is_in branch (some b) = branch == b

unfoldable pub active_warehouses : ℕ → ℕ → List Warehouse → List Warehouse
active_warehouses company branch [] = []
active_warehouses company branch (w ∷ warehouses) =
    if company == w.company_id && is_in branch w.branch_id && is_active w.status
    then w ∷ active_warehouses company branch warehouses
    else active_warehouses company branch warehouses

abbrev only_one : List Warehouse → Result ℕ
only_one (w ∷ []) = ok w.id
only_one [] = throw validation_error
only_one (_ ∷ (_ ∷ _)) = throw validation_error

-- `resolveWarehouseIdForReturnConfirmation`, without its write.
unfoldable pub resolve_warehouse : List Warehouse → ℕ → Option ℕ → Option ℕ → Result ℕ
unfolding active_warehouses
resolve_warehouse warehouses company (some w) branch = ok w
resolve_warehouse warehouses company none none = throw validation_error
resolve_warehouse warehouses company none (some branch) =
    only_one (active_warehouses company branch warehouses)

abbrev pub by_return_variant : SaleReturnItem → SaleReturnItem → Bool
by_return_variant a b = leb a.row.product_variant_id b.row.product_variant_id

-- How much of an item goes back on the shelf.
abbrev pub back_on_shelf : SaleReturnItemCondition → ℕ → ℕ
back_on_shelf SaleReturnItemCondition.restock quantity = quantity
back_on_shelf SaleReturnItemCondition.damaged quantity = 0

-- The update of the stock, for an item that goes back.
abbrev pub put_back :
    SaleReturnItemCondition → ℕ → ℕ → ℤ → List WarehouseStock → List WarehouseStock
put_back SaleReturnItemCondition.restock w v raised stocks = update_stock w v raised stocks
put_back SaleReturnItemCondition.damaged w v raised stocks = stocks

abbrev pub return_movement : ℕ → ℕ → ℕ → ℕ → SaleReturnItem → WarehouseStock → StockMovement
return_movement id w return user item stock = record {
  id = id;
  warehouse_id = w;
  product_variant_id = item.row.product_variant_id;
  movement_type = StockMovementType.sale_return;
  quantity_change = pos (back_on_shelf item.row.condition item.row.quantity);
  quantity_after =
      stock.on_hand_quantity +ℤ pos (back_on_shelf item.row.condition item.row.quantity);
  reference_type = StockMovementReferenceType.sale_return;
  reference_id = return;
  created_by = some user;
}

-- The loop over the sorted items: the row is upserted and locked, raised, and logged.
unfoldable pub restock_items :
    ℕ
    → ℕ
    → ℕ
    → List SaleReturnItem
    → List WarehouseStock
    → ℕ
    → Result (List WarehouseStock × List StockMovement × ℕ)
restock_items w return user [] stocks id = ok (stocks, [], id)
restock_items w return user (item ∷ items) stocks id = do
  let v = item.row.product_variant_id
  let next = upsert_stock id w v stocks
  stock ← or_throw (find_stock w v next) internal_error
  let raised = stock.on_hand_quantity +ℤ pos (back_on_shelf item.row.condition item.row.quantity)
  rest ← restock_items w return user items (put_back item.row.condition w v raised next) (id + 2)
  ok (rest.0, return_movement (id + 1) w return user item stock ∷ rest.1, rest.2)

-- A sale earns points, never fewer than none.
abbrev earned_points : ℤ → ℕ
earned_points (pos n) = n
earned_points (negsuc n) = 0

-- `Math.floor(pointsDelta * Math.min(proportion, 1))`, the total not being zero.
unfoldable pub reversal_points : ℕ → ℕ → ℕ → ℕ
unfolding floor mul div of_decimal
reversal_points earned refund total =
    let proportion = div (of_cents refund) (of_cents total) in
    floor (mul (of_decimal earned 1) (min proportion (of_decimal 1 1)))

abbrev reverse_points : ℕ → ℕ → SaleReturn → Sale → Option LoyaltyPointTransaction → Ledger → Ledger
reverse_points company user r sale none ledger = ledger
reverse_points company user r sale (some original) ledger =
    (reverse_for_sale_return company r.customer_id sale.id r.id
      (reversal_points (earned_points original.points_delta) r.refund_amount sale.grand_total) user
      ledger).1

-- The points that a return takes back.
abbrev pub reverse_loyalty : ℕ → ℕ → SaleReturn → Sale → Ledger → Ledger
reverse_loyalty company user r sale ledger =
    if sale.grand_total == 0
    then ledger
    else reverse_points company user r sale
        (find_transaction company SourceType.sale sale.id ledger.transactions) ledger

abbrev pub confirmed_return : ℕ → ℕ → SaleReturn → SaleReturn
confirmed_return user now r = record r {
  status = SaleReturnStatus.confirmed;
  confirmed_by = some user;
  confirmed_at = some now;
}

abbrev sale_key : Sale → ℕ
sale_key sale = sale.id

abbrev pub find_any_sale : ℕ → List Sale → Option Sale
find_any_sale id = find_row sale_key (λ sale. not sale.deleted) id

-- The store with everything written; a sale without a warehouse gets the one that was found.
abbrev pub finish_confirm_return :
    ℕ
    → ℕ
    → ℕ
    → SaleReturn
    → Sale
    → ℕ
    → Store
    → List WarehouseStock × List StockMovement × ℕ
    → SaleReturn × Store
finish_confirm_return company user now r sale w s moved =
    let shop = s.shop in
    let inventory = shop.inventory in
    (
      confirmed_return user now r,
      record s {
        shop = record shop {
          inventory = record inventory {
            stocks = moved.0;
            movements = inventory.movements ++ moved.1;
            next_id = moved.2;
          };
          loyalty = reverse_loyalty company user r sale shop.loyalty;
          sales =
              update_row sale_key sale.id (λ (x : Sale). record x { warehouse_id = some w })
                shop.sales;
        };
        returns = update_row return_key r.id (confirmed_return user now) s.returns;
      },
    )

-- The body of `confirm`.
unfoldable pub apply_confirm_return :
    List Warehouse → ℕ → ℕ → ℕ → ℕ → Store → Result (SaleReturn × Store)
unfolding return_items_of
apply_confirm_return warehouses id company user now s = do
  r ← or_throw (find_return id company s.returns) not_found
  throw_if (not (is_draft r.status)) unprocessable_entity
  sale ← or_throw (find_any_sale r.sale_id s.shop.sales) internal_error
  w ← resolve_warehouse warehouses company sale.warehouse_id sale.branch_id
  moved ←
      restock_items w r.id user (sort_by by_return_variant (return_items_of r.id s.return_items))
        s.shop.inventory.stocks s.shop.inventory.next_id
  ok (finish_confirm_return company user now r sale w s moved)

-- `confirm`
unfoldable pub confirm_return : List Warehouse → ℕ → ℕ → ℕ → ℕ → Store → Result SaleReturn × Store
confirm_return warehouses id company user now =
    run (apply_confirm_return warehouses id company user now)

abbrev cancelled_return : SaleReturn → SaleReturn
cancelled_return r = record r { status = SaleReturnStatus.cancelled }

-- The body of `cancel`.
unfoldable pub apply_cancel_return : ℕ → ℕ → Store → Result (SaleReturn × Store)
apply_cancel_return id company s = do
  r ← or_throw (find_return id company s.returns) not_found
  throw_if (not (is_draft r.status)) unprocessable_entity
  ok (
    cancelled_return r,
    record s { returns = update_row return_key r.id cancelled_return s.returns },
  )

-- `cancel`
unfoldable pub cancel_return : ℕ → ℕ → Store → Result SaleReturn × Store
cancel_return id company = run (apply_cancel_return id company)
