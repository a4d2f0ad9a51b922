-- ===== src/Inventory/Receipt.antt =====
-- `GoodsReceiptsService` (src/modules/inventory/services/goods-receipts.service.ts).
pub mod Lines
pub mod Effect
pub mod Ordered
use erp_fashion_api.Common.{
  ℕ, ◌+◌, true, not, none, some, List, [], ◌∷◌, ◌++◌, ◌==◌, leb, ltb, if◌then◌else◌, ℤ, pos, ◌+ℤ◌,
  Result, ok, ◌>>=◌, ◌>>◌, throw_if, or_throw, run_after, validation_error, not_found, conflict,
  internal_error,
}
use erp_fashion_api.Decimal.{Text}
use erp_fashion_api.Numbering.{Counter, generate_number}
use erp_fashion_api.Inventory.Stock.{
  WarehouseStock, StockMovement, StockMovementType, StockMovementReferenceType, find_stock,
  upsert_stock, update_stock,
}
use erp_fashion_api.Inventory.Store.{
  Store, Warehouse, GoodsReceipt, GoodsReceiptItem, ReceiptRow, find_variant,
}
use erp_fashion_api.Inventory.Orders.{
  PurchaseOrder, PurchaseOrderItem, Catalog, ReceiptLine, CreateGoodsReceipt, find_order_item,
  compute_base_quantity, validate, check_order,
}

insert_line : ReceiptLine → List ReceiptLine → List ReceiptLine
insert_line x [] = x ∷ []
insert_line x (y ∷ ys) =
    if leb x.purchase_order_item_id y.purchase_order_item_id
    then x ∷ y ∷ ys
    else y ∷ insert_line x ys

-- `[...dto.items].sort(...)`, by order item. The sort is stable.
unfoldable pub sort_lines : List ReceiptLine → List ReceiptLine
unfolding insert_line
sort_lines [] = []
sort_lines (x ∷ xs) = insert_line x (sort_lines xs)

-- `COALESCE(SUM(gri.receivedQuantity + gri.rejectedQuantity), 0)` for one order item.
unfoldable pub prior_handled : ℕ → List GoodsReceiptItem → ℕ
prior_handled item [] = 0
prior_handled item (g ∷ gs) =
    (if item == g.row.purchase_order_item_id
      then g.row.received_quantity + g.row.rejected_quantity
      else 0)
    + prior_handled item gs

-- `itemDto.rejectedQuantity ?? 0`
abbrev pub rejected_of : ReceiptLine → ℕ
rejected_of line = elim line.rejected_quantity [ none ↦ 0 | some n ↦ n ]

-- `purchaseOrderItem.conversionFactorToBaseSnapshot ?? '1.0000'`
abbrev pub factor_of : PurchaseOrderItem → ℕ
factor_of item = elim item.conversion_factor_to_base_snapshot [ none ↦ 10_000 | some f ↦ f ]

-- The checks of one line against its order item, and the row that it becomes.
unfoldable pub check_line :
    Catalog → ℕ → CreateGoodsReceipt → List GoodsReceiptItem → ReceiptLine → Result ReceiptRow
unfolding find_order_item
check_line catalog company dto receipt_items line = do
  item ←
      or_throw
        (find_order_item line.purchase_order_item_id dto.purchase_order_id catalog.order_items)
        not_found
  throw_if (not (item.product_variant_id == line.product_variant_id)) validation_error
  variant ← or_throw (find_variant true line.product_variant_id company catalog.variants) not_found
  let handled = line.received_quantity + rejected_of line
  base_received ← compute_base_quantity line.received_quantity (factor_of item)
  base_rejected ← compute_base_quantity (rejected_of line) (factor_of item)
  throw_if (handled == 0) validation_error
  throw_if (ltb item.quantity (prior_handled line.purchase_order_item_id receipt_items + handled))
      conflict
  ok (record {
    purchase_order_item_id = line.purchase_order_item_id;
    product_variant_id = line.product_variant_id;
    uom_id = item.uom_id;
    uom_code_snapshot = item.uom_code_snapshot;
    uom_name_snapshot = item.uom_name_snapshot;
    received_quantity = line.received_quantity;
    rejected_quantity = rejected_of line;
    conversion_factor_to_base_snapshot = factor_of item;
    base_received_quantity = base_received;
    base_rejected_quantity = base_rejected;
  })

-- The stock of one accepted row: upserted, locked and raised, if anything was received.
unfoldable pub receive_stock :
    ℕ → ReceiptRow → ℕ → List WarehouseStock → Result (List WarehouseStock × ℕ)
receive_stock w row id stocks =
    let next = upsert_stock id w row.product_variant_id stocks in
    let received = (do
      stock ← or_throw (find_stock w row.product_variant_id next) internal_error
      ok (
        update_stock w row.product_variant_id
            (stock.on_hand_quantity +ℤ pos row.base_received_quantity) next,
        id + 1,
      )) in
    if ltb 0 row.received_quantity then received else ok (stocks, id)

-- The loop over the sorted lines.
unfoldable pub receive_lines :
    Catalog
    → ℕ
    → CreateGoodsReceipt
    → List GoodsReceiptItem
    → List ReceiptLine
    → ℕ
    → List WarehouseStock
    → Result (List ReceiptRow × List WarehouseStock × ℕ)
receive_lines catalog company dto receipt_items [] id stocks = ok ([], stocks, id)
receive_lines catalog company dto receipt_items (line ∷ lines) id stocks = do
  row ← check_line catalog company dto receipt_items line
  raised ← receive_stock dto.warehouse_id row id stocks
  rest ← receive_lines catalog company dto receipt_items lines raised.1 raised.0
  ok (row ∷ rest.0, rest.1, rest.2)

abbrev pub receipt_movement : ℕ → ℕ → ℕ → ℕ → ReceiptRow → WarehouseStock → StockMovement
receipt_movement id receipt user w row stock = record {
  id = id;
  warehouse_id = w;
  product_variant_id = row.product_variant_id;
  movement_type = StockMovementType.purchase_receipt;
  quantity_change = pos row.base_received_quantity;
  quantity_after = stock.on_hand_quantity;
  reference_type = StockMovementReferenceType.goods_receipt;
  reference_id = receipt;
  created_by = some user;
}

abbrev pub written_item : ℕ → ℕ → ReceiptRow → GoodsReceiptItem
written_item id receipt row = record { id = id; goods_receipt_id = receipt; row = row }

-- The movement of one row, if anything was received.
abbrev pub log_row : ℕ → ℕ → ℕ → ℕ → ReceiptRow → List WarehouseStock → Result (List StockMovement)
log_row id receipt user w row stocks =
    let logged = (do
      stock ← or_throw (find_stock w row.product_variant_id stocks) internal_error
      ok (receipt_movement id receipt user w row stock ∷ [])) in
    if ltb 0 row.received_quantity then logged else ok []

-- The loop that writes the items and their movements.
unfoldable pub write_rows :
    ℕ
    → ℕ
    → ℕ
    → List ReceiptRow
    → List WarehouseStock
    → ℕ
    → Result (List GoodsReceiptItem × List StockMovement × ℕ)
write_rows w receipt user [] stocks id = ok ([], [], id)
write_rows w receipt user (row ∷ rows) stocks id = do
  logged ← log_row (id + 1) receipt user w row stocks
  rest ← write_rows w receipt user rows stocks (id + 2)
  ok (written_item id receipt row ∷ rest.0, logged ++ rest.1, rest.2)

abbrev pub gr : Text
gr = b'G' ∷ b'R' ∷ []

-- The receipt row, and the store with everything written.
abbrev pub finish_receipt :
    ℕ
    → ℕ
    → CreateGoodsReceipt
    → ℕ
    → PurchaseOrder
    → Store
    → Text
    → List Counter
    → ℕ
    → List WarehouseStock
    → List GoodsReceiptItem × List StockMovement × ℕ
    → GoodsReceipt × Store
finish_receipt company user dto date order s number counters id stocks written =
    let receipt : GoodsReceipt = record {
      id = id;
      receipt_number = number;
      purchase_order_id = dto.purchase_order_id;
      warehouse_id = dto.warehouse_id;
      supplier_id = order.supplier_id;
      company_id = company;
      receipt_date = date;
      notes = dto.notes;
      received_by = user;
    } in
    (
      receipt,
      record s {
        stocks = stocks;
        movements = s.movements ++ written.1;
        receipts = s.receipts ++ (receipt ∷ []);
        receipt_items = s.receipt_items ++ written.0;
        receipt_counters = counters;
        next_id = written.2;
      },
    )

-- The body of the transaction, `date` being the receipt date and `year` its year.
unfoldable pub apply_receipt :
    Catalog → ℕ → ℕ → CreateGoodsReceipt → ℕ → ℕ → Warehouse → Store → Result (GoodsReceipt × Store)
apply_receipt catalog company user dto date year warehouse s = do
  order ← check_order catalog company dto warehouse
  let (number, counters) = generate_number gr s.next_id company year s.receipt_counters
  received ←
      receive_lines catalog company dto s.receipt_items (sort_lines dto.items) (s.next_id + 1)
        s.stocks
  written ← write_rows dto.warehouse_id received.2 user received.0 received.1 (received.2 + 1)
  ok (finish_receipt company user dto date order s number counters received.2 received.1 written)

-- `create`
unfoldable pub create_receipt :
    Catalog → ℕ → ℕ → CreateGoodsReceipt → ℕ → ℕ → Store → Result GoodsReceipt × Store
create_receipt catalog company user dto date year =
    run_after (validate catalog company dto) (apply_receipt catalog company user dto date year)
