-- ===== src/Inventory/History.antt =====
-- Every history of adjustments, transfers, receipts and confirmations of sales and of sale returns,
-- and what reconciliation finds after it.
use erp_fashion_api.Common.{ℕ, ◌≡◌, refl, ◌∙◌, true, some, List, [], ok, pos, if◌then◌else◌}
use erp_fashion_api.Inventory.Stock.{on_hand, ledger_balance, find_stock}
use erp_fashion_api.Inventory.Reconciliation.{
  ReconciliationResult, get_reconciliation, is_warehouse_of, get_reconciliation-reconciled,
}
use erp_fashion_api.Inventory.Store.{Store, Warehouse, IsReconciled}
use erp_fashion_api.Inventory.Adjustment.{CreateStockAdjustment, create_adjustment}
use erp_fashion_api.Inventory.Adjustment.Effect.{create_adjustment-IsReconciled}
use erp_fashion_api.Inventory.Transfer.{CreateStockTransfer, create_transfer}
use erp_fashion_api.Inventory.Transfer.Conservation.{create_transfer-IsReconciled}
use erp_fashion_api.Inventory.Receipt.{create_receipt}
use erp_fashion_api.Inventory.Orders.{Catalog, CreateGoodsReceipt}
use erp_fashion_api.Inventory.Receipt.Ordered.{create_receipt-IsReconciled}
use erp_fashion_api.Loyalty.{LoyaltyProgram}
use erp_fashion_api.Sales.{Store as Shop}
use erp_fashion_api.Sales.Confirm.{confirm}
use erp_fashion_api.Sales.Confirm.Outcome.{confirm-IsReconciled}
use erp_fashion_api.SaleReturns.{Store as ReturnStore}
use erp_fashion_api.SaleReturns.Confirm.{confirm_return}
use erp_fashion_api.SaleReturns.Restock.{confirm_return-IsReconciled}

abbrev pub empty : Store
empty = record {
  stocks = [];
  movements = [];
  adjustments = [];
  adjustment_counters = [];
  transfers = [];
  transfer_items = [];
  transfer_counters = [];
  receipts = [];
  receipt_items = [];
  receipt_counters = [];
  next_id = 0;
}

-- The stores that requests lead to from the empty one, served or refused, by any users at any time.
pub data Reach : Store → Type 0 where
  start : Reach empty
  adjusted :
      {s : Store} (catalog : Catalog) (company user : ℕ) (dto : CreateStockAdjustment) (year : ℕ)
      → Reach s
      → Reach (create_adjustment catalog.warehouses catalog.variants company user dto year s).1
  transferred :
      {s : Store} (catalog : Catalog) (company user : ℕ) (dto : CreateStockTransfer) (year : ℕ)
      → Reach s
      → Reach (create_transfer catalog.warehouses catalog.variants company user dto year s).1
  received :
      {s : Store} (catalog : Catalog) (company user : ℕ) (dto : CreateGoodsReceipt) (date year : ℕ)
      → Reach s
      → Reach (create_receipt catalog company user dto date year s).1
  -- `t` holds the sales too, and others may write the stock between the read and the transaction
  sold :
      (t : Shop) (programs : List LoyaltyProgram) (id company user : ℕ) (others : Shop → Shop)
      → Reach t.inventory
      → Reach (others t).inventory
      → Reach (confirm programs id company user others t).1.inventory
  taken_back :
      (t : ReturnStore) (warehouses : List Warehouse) (id company user now : ℕ)
      → Reach t.shop.inventory
      → Reach (confirm_return warehouses id company user now t).1.shop.inventory

Reach-IsReconciled : {s : Store} → Reach s → IsReconciled s
unfolding on_hand find_stock ledger_balance
Reach-IsReconciled start = λ w v. refl
Reach-IsReconciled (adjusted {s} catalog company user dto year r) =
    create_adjustment-IsReconciled catalog.warehouses catalog.variants company user dto year s
      (Reach-IsReconciled r)
Reach-IsReconciled (transferred {s} catalog company user dto year r) =
    create_transfer-IsReconciled catalog.warehouses catalog.variants company user dto year s
      (Reach-IsReconciled r)
Reach-IsReconciled (received {s} catalog company user dto date year r) =
    create_receipt-IsReconciled catalog company user dto date year s (Reach-IsReconciled r)
Reach-IsReconciled (sold t programs id company user others r r') =
    confirm-IsReconciled programs id company user others t (Reach-IsReconciled r')
Reach-IsReconciled (taken_back t warehouses id company user now r) =
    confirm_return-IsReconciled warehouses id company user now t (Reach-IsReconciled r)

-- After any history of adjustments, transfers, receipts, confirmations of sales and confirmations of
-- sale returns, a company's reconciliation of any pair finds a difference of zero and reports the
-- pair as reconciled: both sides are the balance of the pair where the warehouse is the company's,
-- and zero where it is not.
pub get_reconciliation_holds :
    {s : Store} (company : ℕ) (warehouses : List Warehouse) (w v : ℕ)
    → Reach s
    → (res : ReconciliationResult) × (get_reconciliation company warehouses
          (some w)
          (some v)
          s.stocks
          s.movements
        ≡ ok res)
      × (res.warehouse_stock_balance
          ≡ (if is_warehouse_of company w warehouses then on_hand w v s.stocks else pos 0))
      × (res.ledger_balance_sum
          ≡ (if is_warehouse_of company w warehouses then on_hand w v s.stocks else pos 0))
      × (res.difference ≡ pos 0)
      × (res.reconciled ≡ true)
get_reconciliation_holds {s} company warehouses w v r =
    let was = Reach-IsReconciled r in
    let (res, found, balance, logged, no_difference, same) =
      get_reconciliation-reconciled company warehouses w v s was in
    (res, found, balance, logged ∙ rw (was w v) refl, no_difference, same)
