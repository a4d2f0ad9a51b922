-- ===== src/Sales/Confirm.antt =====
-- `confirm` of src/modules/sales/services/sales.service.ts: the stock issue and the points earned.
pub mod Effect
pub mod Outcome
use erp_fashion_api.Common.{
  ℕ, ◌+◌, Bool, none, some, List, [], ◌∷◌, ◌++◌, map, leb, pos, ◌+ℤ◌, neg, ltb_ℤ, sort_by, Result,
  ok, ◌>>=◌, ◌>>◌, throw_if, or_throw, run_after, validation_error, conflict, internal_error,
}
use erp_fashion_api.Inventory.Stock.{
  WarehouseStock, StockMovement, StockMovementType, StockMovementReferenceType, find_stock,
  update_stock,
}
use erp_fashion_api.Inventory.Transfer.{Target, lock_rows}
use erp_fashion_api.Loyalty.{LoyaltyProgram, earn_for_sale}
use erp_fashion_api.Sales.{
  Sale, SaleItem, SaleStatus, SaleFulfillmentStatus, Store, find_sale, items_of, read_sale,
  save_sale, assert_transition_allowed,
}

-- `item.baseQuantitySnapshot ?? item.quantity`
abbrev pub base_quantity : SaleItem → ℕ
base_quantity item = elim item.row.base_quantity_snapshot [ none ↦ item.row.quantity | some n ↦ n ]

abbrev by_variant : SaleItem → SaleItem → Bool
by_variant a b = leb a.row.product_variant_id b.row.product_variant_id

-- `sortedItems`
abbrev pub sorted_items : List SaleItem → List SaleItem
sorted_items items = sort_by by_variant items

abbrev pub rows_of : ℕ → List SaleItem → List Target
rows_of w items = map (λ (i : SaleItem). (w, i.row.product_variant_id)) items

-- Every item is covered by its locked row.
unfoldable pub check_stock : ℕ → List SaleItem → List WarehouseStock → Result (Unit {0})
check_stock w [] rows = ok tt
check_stock w (item ∷ items) rows = do
  row ← or_throw (find_stock w item.row.product_variant_id rows) internal_error
  throw_if (ltb_ℤ row.on_hand_quantity (pos (base_quantity item))) conflict
  check_stock w items rows

abbrev pub issue_movement : ℕ → ℕ → ℕ → ℕ → SaleItem → WarehouseStock → StockMovement
issue_movement id w sale user item row = record {
  id = id;
  warehouse_id = w;
  product_variant_id = item.row.product_variant_id;
  movement_type = StockMovementType.sale_issue;
  quantity_change = neg (pos (base_quantity item));
  quantity_after = row.on_hand_quantity +ℤ neg (pos (base_quantity item));
  reference_type = StockMovementReferenceType.sale;
  reference_id = sale;
  created_by = some user;
}

-- The loop that lowers the stock, on the locked row objects and on the table, and logs it.
unfoldable pub issue_items :
    ℕ
    → ℕ
    → ℕ
    → List SaleItem
    → List WarehouseStock
    → List WarehouseStock
    → ℕ
    → Result (List WarehouseStock × List StockMovement × ℕ)
issue_items w sale user [] rows stocks id = ok (stocks, [], id)
issue_items w sale user (item ∷ items) rows stocks id = do
  let v = item.row.product_variant_id
  row ← or_throw (find_stock w v rows) internal_error
  let lowered = row.on_hand_quantity +ℤ neg (pos (base_quantity item))
  rest ←
      issue_items w sale user items (update_stock w v lowered rows)
        (update_stock w v lowered stocks) (id + 1)
  ok (rest.0, issue_movement id w sale user item row ∷ rest.1, rest.2)

abbrev pub confirmed_of : ℕ → Sale → Sale
confirmed_of user sale = record sale {
  status = SaleStatus.confirmed;
  fulfillment_status = some SaleFulfillmentStatus.pending_shipment;
  updated_by = user;
}

-- What `confirm` reads and checks before it opens its transaction: the warehouse, the sale and its
-- items.
unfoldable pub confirm_checks : ℕ → ℕ → Store → Result (ℕ × Sale × List SaleItem)
unfolding find_sale items_of
confirm_checks id company s = do
  sale ← read_sale id company s
  assert_transition_allowed sale.status SaleStatus.confirmed
  w ← or_throw sale.warehouse_id validation_error
  ok (w, sale, items_of sale.id s.sale_items)

-- The store with everything written.
abbrev pub finish_confirm :
    List LoyaltyProgram
    → ℕ
    → Sale
    → Store
    → List WarehouseStock × List StockMovement × ℕ
    → Sale × Store
finish_confirm programs user sale s issued =
    let entity = confirmed_of user sale in
    let earned =
      earn_for_sale programs entity.company_id entity.customer_id entity.id entity.grand_total user
        s.loyalty in
    let inventory = s.inventory in
    (
      entity,
      record s {
        inventory = record inventory {
          stocks = issued.0;
          movements = inventory.movements ++ issued.1;
          next_id = issued.2;
        };
        loyalty = earned.1;
        sales = save_sale entity s.sales;
      },
    )

-- The body of the transaction.
unfoldable pub apply_confirm :
    List LoyaltyProgram → ℕ → ℕ × Sale × List SaleItem → Store → Result (Sale × Store)
unfolding save_sale
apply_confirm programs user (w, sale, items) s = do
  let sorted = sorted_items items
  locked ← lock_rows (rows_of w sorted) s.inventory.next_id s.inventory.stocks []
  check_stock w sorted locked.0
  issued ← issue_items w sale.id user sorted locked.0 locked.1 locked.2
  ok (finish_confirm programs user sale s issued)

-- `confirm`, with what runs between its read and its transaction.
unfoldable pub confirm :
    List LoyaltyProgram → ℕ → ℕ → ℕ → (Store → Store) → Store → Result Sale × Store
confirm programs id company user others s =
    run_after (confirm_checks id company s) (apply_confirm programs user) (others s)
