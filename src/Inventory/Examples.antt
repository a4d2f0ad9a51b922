-- ===== src/Inventory/Examples.antt =====
-- Runs of the inventory services, and the theorems about them at the requests of Inventory/Sample.
use erp_fashion_api.Common.{
  ℕ, ◌≡◌, ◌⊎◌, refl, true, some, All, [], ◌∷◌, ok, throw, conflict, ℤ, pos, negsuc, ◌+ℤ◌, ◌≤ℤ◌,
  ◌<ℤ◌, ◌≤◌, ◌<◌, arith, run_after,
}
use erp_fashion_api.Inventory.Stock.{
  upsert_stock, update_stock, WarehouseStock, on_hand, find_stock, ledger_balance,
}
use erp_fashion_api.Inventory.Store.{
  find_warehouse, find_variant, Store, StockAdjustment, StockTransfer, GoodsReceipt, IsReconciled,
  IsNonNegative, MovesBy,
}
use erp_fashion_api.Inventory.Reconciliation.{
  ReconciliationResult, get_reconciliation, is_warehouse_of,
}
use erp_fashion_api.Inventory.Stock.Balance.{change_at}
use erp_fashion_api.Inventory.Adjustment.{validate, apply_adjustment, create_adjustment}
use erp_fashion_api.Inventory.Adjustment.Effect.{create_adjustment_lem}
use erp_fashion_api.Inventory.Transfer
use erp_fashion_api.Inventory.Transfer.{CreateStockTransfer, TransferLine, create_transfer}
use erp_fashion_api.Inventory.Transfer.Conservation.{
  create_transfer_lem, create_transfer-IsNonNegative, create_transfer_overdraws, IsMoved,
}
use erp_fashion_api.Inventory.Transfer.Effect.{Fits}
use erp_fashion_api.Inventory.Transfer.Deadlock.{IsWaiting, Holds, transfers_never_deadlock}
use erp_fashion_api.Inventory.Receipt
use erp_fashion_api.Inventory.Receipt.{create_receipt, prior_handled}
use erp_fashion_api.Inventory.Orders
use erp_fashion_api.Inventory.Orders.{PurchaseOrderStatus}
use erp_fashion_api.Inventory.Orders.{
  Catalog, CreateGoodsReceipt, ReceiptLine, PurchaseOrder, PurchaseOrderItem, compute_base_quantity,
}
use erp_fashion_api.Inventory.Receipt.Ordered.{
  create_receipt_within_order, create_receipt_over_receives,
}
use erp_fashion_api.Inventory.History.{empty, start, adjusted, get_reconciliation_holds}
use erp_fashion_api.Inventory.Sample.{
  boxes, order, shop, catalog, opening, shelf, breakage, doubled, single, delivery, one_line,
}

shelf-IsNonNegative : IsNonNegative shelf
unfolding on_hand find_stock
shelf-IsNonNegative w v = ground arith

-- One unit of the log for each unit on the shelf.
abbrev counted_shelf : Store
counted_shelf = record shelf { movements = opening ∷ [] }

counted_shelf-IsReconciled : IsReconciled counted_shelf
unfolding on_hand find_stock ledger_balance ◌+ℤ◌
counted_shelf-IsReconciled w v = ground arith

-- The breakage of three units leaves seven.
breakage_run :
    on_hand 10 20
      (create_adjustment catalog.warehouses catalog.variants 1 7 breakage 2026 shelf).1.stocks
    ≡ pos 7
unfolding create_adjustment validate apply_adjustment run_after find_warehouse find_variant
    find_stock upsert_stock update_stock on_hand ◌+ℤ◌
breakage_run = refl

create_adjustment_lem_example :
    let made = create_adjustment catalog.warehouses catalog.variants 1 7 breakage 2026 shelf in
    (pos 0 ≤ℤ on_hand 10 20 shelf.stocks +ℤ negsuc 2
      → (a : StockAdjustment) × (made.0 ≡ ok a)
        × MovesBy (λ w v. change_at w v 10 20 (negsuc 2)) shelf made.1)
    × (on_hand 10 20 shelf.stocks +ℤ negsuc 2 <ℤ pos 0 → made ≡ (throw conflict, shelf))
unfolding validate find_warehouse find_variant
create_adjustment_lem_example =
    create_adjustment_lem catalog.warehouses catalog.variants 1 7 breakage 2026 shelf refl

-- The source has ten units of the variant, and each line of six fits.
Fits-shelf : Fits 10 shelf.stocks (record { product_variant_id = 20; quantity = 6 })
unfolding on_hand find_stock
Fits-shelf = omega arith

create_transfer_lem_example :
    let made = create_transfer catalog.warehouses catalog.variants 1 7 single 2026 shelf in
    All (Fits 10 shelf.stocks) single.items
      × ((t : StockTransfer) × (made.0 ≡ ok t)
          × IsMoved catalog.warehouses catalog.variants 1 7 single 2026 shelf made.1)
    ⊎ (¬ All (Fits 10 shelf.stocks) single.items) × (made ≡ (throw conflict, shelf))
unfolding Transfer.validate Transfer.check_variants find_warehouse find_variant
create_transfer_lem_example =
    create_transfer_lem catalog.warehouses catalog.variants 1 7 single 2026 shelf refl refl

create_transfer-IsNonNegative_example :
    IsNonNegative (create_transfer catalog.warehouses catalog.variants 1 7 single 2026 shelf).1
create_transfer-IsNonNegative_example =
    create_transfer-IsNonNegative catalog.warehouses catalog.variants 1 7 single 2026 shelf
      (refl, tt) shelf-IsNonNegative

-- Twelve units leave a shelf of ten.
create_transfer_overdraws_example :
    let made = create_transfer catalog.warehouses catalog.variants 1 7 doubled 2026 shelf in
    (t : StockTransfer) × (made.0 ≡ ok t) × (on_hand 10 20 made.1.stocks <ℤ pos 0)
unfolding Transfer.validate Transfer.check_variants find_warehouse find_variant on_hand find_stock
create_transfer_overdraws_example =
    create_transfer_overdraws catalog.warehouses catalog.variants 1 7 doubled 2026 shelf 20 refl
      refl (Fits-shelf, (Fits-shelf, tt)) (omega arith)

create_receipt_within_order_example :
    prior_handled 31 (create_receipt catalog 1 7 one_line 0 2026 shelf).1.receipt_items ≤ 10
unfolding Orders.find_order_item prior_handled
create_receipt_within_order_example =
    create_receipt_within_order catalog 1 7 one_line 0 2026 shelf 31 boxes (refl, tt) refl
      (omega arith)

-- Twelve boxes are received against an order of ten.
create_receipt_over_receives_example :
    let made = create_receipt catalog 1 7 delivery 0 2026 shelf in
    (g : GoodsReceipt) × (made.0 ≡ ok g) × (10 < prior_handled 31 made.1.receipt_items)
unfolding Orders.validate Orders.check_order find_warehouse Receipt.sort_lines Receipt.check_line
    find_variant compute_base_quantity prior_handled
create_receipt_over_receives_example =
    create_receipt_over_receives catalog 1 7 delivery 0 2026 shelf shop order 31 boxes refl refl
      ((_, refl), ((_, refl), tt)) refl (omega arith)

get_reconciliation_holds_example :
    let s = (create_adjustment catalog.warehouses catalog.variants 1 7 breakage 2026 empty).1 in
    (res : ReconciliationResult) × (get_reconciliation 1 catalog.warehouses
        (some 10)
        (some 20)
        s.stocks
        s.movements
      ≡ ok res)
    × (res.warehouse_stock_balance ≡ on_hand 10 20 s.stocks)
    × (res.ledger_balance_sum ≡ on_hand 10 20 s.stocks)
    × (res.difference ≡ pos 0)
    × (res.reconciled ≡ true)
unfolding is_warehouse_of
get_reconciliation_holds_example =
    get_reconciliation_holds 1 catalog.warehouses 10 20 (adjusted catalog 1 7 breakage 2026 start)

abbrev row_of : ℕ → ℕ → ℕ → ℤ → WarehouseStock
row_of id w v n = record {
  id = id;
  warehouse_id = w;
  product_variant_id = v;
  on_hand_quantity = n;
  reserved_quantity = pos 0;
}

-- One transfer from the shop has locked the shop's row and waits for the other warehouse's, which a
-- transfer back has not asked for before it has the shop's.
there_waits : IsWaiting (row_of 1 10 20 (pos 10) ∷ []) (row_of 3 11 20 (pos 0))
unfolding Transfer.lock_rows Transfer.sort_targets Transfer.lock_targets find_stock upsert_stock
there_waits = record {
  dto = single;
  id = 2;
  stocks = shelf.stocks;
  later = [];
  stocks' = row_of 1 10 20 (pos 10) ∷ row_of 3 11 20 (pos 0) ∷ [];
  id' = 4;
  locks = refl;
}

back_waits : IsWaiting [] (row_of 1 10 20 (pos 10))
unfolding Transfer.lock_rows Transfer.sort_targets Transfer.lock_targets find_stock upsert_stock
back_waits = record {
  dto = record single { source_warehouse_id = 11; destination_warehouse_id = 10 };
  id = 2;
  stocks = shelf.stocks;
  later = row_of 3 11 20 (pos 0) ∷ [];
  stocks' = row_of 1 10 20 (pos 10) ∷ row_of 3 11 20 (pos 0) ∷ [];
  id' = 4;
  locks = refl;
}

transfers_never_deadlock_example :
    ¬ (Holds [] (11, 20) × Holds (row_of 1 10 20 (pos 10) ∷ []) (10, 20))
transfers_never_deadlock_example =
    transfers_never_deadlock (row_of 1 10 20 (pos 10) ∷ []) [] (row_of 3 11 20 (pos 0))
      (row_of 1 10 20 (pos 10)) there_waits back_waits
