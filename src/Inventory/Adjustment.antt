-- ===== src/Inventory/Adjustment.antt =====
-- `StockAdjustmentsService` (src/modules/inventory/services/stock-adjustments.service.ts).
pub mod Effect
use Prim.Native.String.{String}
use erp_fashion_api.Common.{
  ℕ, ◌+◌, Bool, not, Option, some, List, [], ◌∷◌, ◌++◌, ◌==◌, ℤ, pos, ◌+ℤ◌, ltb_ℤ, eqb_ℤ, Result,
  ok, ◌>>=◌, ◌>>◌, throw_if, or_throw, run_after, validation_error, not_found, conflict,
  internal_error,
}
use erp_fashion_api.Decimal.{Text}
use erp_fashion_api.Numbering.{generate_number}
use erp_fashion_api.Inventory.Stock.{
  StockMovement, StockMovementType, StockMovementReferenceType, find_stock, upsert_stock,
  update_stock,
}
use erp_fashion_api.Inventory.Store.{
  Store, Warehouse, ProductVariant, StockAdjustment, StockAdjustmentReason, opening_balance,
  is_active, find_warehouse, find_variant,
}

pub record CreateStockAdjustment : Type 0 where
  pub warehouse_id : ℕ
  pub product_variant_id : ℕ
  pub quantity_change : ℤ
  pub reason : StockAdjustmentReason
  pub notes : Option String

-- The checks that `create` makes before it opens its transaction.
unfoldable pub validate :
    List Warehouse → List ProductVariant → ℕ → CreateStockAdjustment → Result (Unit {0})
unfolding find_warehouse find_variant
validate warehouses variants company dto = do
  warehouse ← or_throw (find_warehouse dto.warehouse_id warehouses) not_found
  throw_if (not (is_active warehouse.status)) validation_error
  throw_if (not (warehouse.company_id == company)) validation_error
  variant ← or_throw (find_variant Bool.false dto.product_variant_id company variants) not_found
  throw_if (not (is_active variant.status)) validation_error
  throw_if (eqb_ℤ dto.quantity_change (pos 0)) validation_error

-- `dto.reason === OpeningBalance ? OpeningBalance : Adjustment`
abbrev pub movement_type_of : StockAdjustmentReason → StockMovementType
movement_type_of opening_balance = StockMovementType.opening_balance
movement_type_of _ = StockMovementType.adjustment

abbrev adj : Text
adj = b'A' ∷ b'D' ∷ b'J' ∷ []

-- The movement that logs an adjustment, `next_id` being the first id of the transaction.
abbrev pub adjustment_movement : ℕ → CreateStockAdjustment → ℕ → ℤ → StockMovement
adjustment_movement user dto next_id new_quantity = record {
  id = next_id + 3;
  warehouse_id = dto.warehouse_id;
  product_variant_id = dto.product_variant_id;
  movement_type = movement_type_of dto.reason;
  quantity_change = dto.quantity_change;
  quantity_after = new_quantity;
  reference_type = StockMovementReferenceType.stock_adjustment;
  reference_id = next_id + 2;
  created_by = some user;
}

-- The body of the transaction.
unfoldable pub apply_adjustment :
    ℕ → ℕ → CreateStockAdjustment → ℕ → Store → Result (StockAdjustment × Store)
apply_adjustment company user dto year s = do
  let (number, counters) = generate_number adj s.next_id company year s.adjustment_counters
  let stocks = upsert_stock (s.next_id + 1) dto.warehouse_id dto.product_variant_id s.stocks
  stock ← or_throw (find_stock dto.warehouse_id dto.product_variant_id stocks) internal_error
  let new_quantity = stock.on_hand_quantity +ℤ dto.quantity_change
  throw_if (ltb_ℤ new_quantity (pos 0)) conflict
  let adjustment : StockAdjustment = record {
    id = s.next_id + 2;
    adjustment_number = number;
    warehouse_id = dto.warehouse_id;
    product_variant_id = dto.product_variant_id;
    quantity_change = dto.quantity_change;
    reason = dto.reason;
    company_id = company;
    notes = dto.notes;
    created_by = user;
  }
  let movement = adjustment_movement user dto s.next_id new_quantity
  ok (
    adjustment,
    record s {
      stocks = update_stock dto.warehouse_id dto.product_variant_id new_quantity stocks;
      movements = s.movements ++ (movement ∷ []);
      adjustments = s.adjustments ++ (adjustment ∷ []);
      adjustment_counters = counters;
      next_id = s.next_id + 4;
    },
  )

-- `create`
unfoldable pub create_adjustment :
    List Warehouse
    → List ProductVariant
    → ℕ
    → ℕ
    → CreateStockAdjustment
    → ℕ
    → Store
    → Result StockAdjustment × Store
create_adjustment warehouses variants company user dto year =
    run_after (validate warehouses variants company dto)
      (λ _. apply_adjustment company user dto year)
