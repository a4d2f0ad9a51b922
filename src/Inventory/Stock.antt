-- ===== src/Inventory/Stock.antt =====
-- The `warehouse_stock` and `stock_movements` tables, their entities, and the row lock of
-- utils/stock-lock.ts. Ids are numbers: the code only compares them.
pub mod Balance
use erp_fashion_api.Common.{
  ℕ, Bool, ◌&&◌, Option, none, some, List, [], ◌∷◌, ◌==◌, if◌then◌else◌, ℤ, pos, ◌+ℤ◌, ◌-ℤ◌, eqb_ℤ,
  Result, ok, validation_error,
}

pub record WarehouseStock : Type 0 where
  pub id : ℕ
  pub warehouse_id : ℕ
  pub product_variant_id : ℕ
  pub on_hand_quantity : ℤ
  pub reserved_quantity : ℤ

pub data StockMovementType : Type 0 where
  purchase_receipt sale_issue transfer_in transfer_out adjustment : StockMovementType
  opening_balance sale_return purchase_return : StockMovementType

pub data StockMovementReferenceType : Type 0 where
  goods_receipt sale stock_transfer stock_adjustment sale_return : StockMovementReferenceType
  purchase_return : StockMovementReferenceType

pub record StockMovement : Type 0 where
  pub id : ℕ
  pub warehouse_id : ℕ
  pub product_variant_id : ℕ
  pub movement_type : StockMovementType
  pub quantity_change : ℤ
  pub quantity_after : ℤ
  pub reference_type : StockMovementReferenceType
  pub reference_id : ℕ
  pub created_by : Option ℕ

abbrev pub is_row : ℕ → ℕ → WarehouseStock → Bool
is_row w v r = w == r.warehouse_id && v == r.product_variant_id

-- The row of one (warehouse, variant) pair; the pair is unique in the table.
unfoldable pub find_stock : ℕ → ℕ → List WarehouseStock → Option WarehouseStock
find_stock w v [] = none
find_stock w v (r ∷ rows) = if is_row w v r then some r else find_stock w v rows

-- `INSERT ... ON DUPLICATE KEY UPDATE on_hand_quantity = on_hand_quantity`, with a candidate id.
unfoldable pub upsert_stock : ℕ → ℕ → ℕ → List WarehouseStock → List WarehouseStock
upsert_stock id w v [] =
    record {
      id = id;
      warehouse_id = w;
      product_variant_id = v;
      on_hand_quantity = pos 0;
      reserved_quantity = pos 0;
    }
    ∷ []
upsert_stock id w v (r ∷ rows) = if is_row w v r then r ∷ rows else r ∷ upsert_stock id w v rows

-- `manager.update(WarehouseStock, ..., { onHandQuantity })`: no row, no effect.
unfoldable pub update_stock : ℕ → ℕ → ℤ → List WarehouseStock → List WarehouseStock
update_stock w v n [] = []
update_stock w v n (r ∷ rows) =
    if is_row w v r then record r { on_hand_quantity = n } ∷ rows else r ∷ update_stock w v n rows

-- `stockRow?.onHandQuantity ?? 0`
abbrev pub quantity_of : Option WarehouseStock → ℤ
quantity_of none = pos 0
quantity_of (some r) = r.on_hand_quantity

unfoldable pub on_hand : ℕ → ℕ → List WarehouseStock → ℤ
on_hand w v rows = quantity_of (find_stock w v rows)

abbrev pub is_movement_of : ℕ → ℕ → StockMovement → Bool
is_movement_of w v m = w == m.warehouse_id && v == m.product_variant_id

-- `COALESCE(SUM(movement.quantityChange), 0)` over one (warehouse, variant) pair.
unfoldable pub ledger_balance : ℕ → ℕ → List StockMovement → ℤ
ledger_balance w v [] = pos 0
ledger_balance w v (m ∷ ms) =
    (if is_movement_of w v m then m.quantity_change else pos 0) +ℤ ledger_balance w v ms

pub record StockCardEntry : Type 0 where
  pub balance_before : ℤ
  pub balance_after : ℤ
  pub quantity_change : ℤ

-- The balances of `toStockCardEntryResponseDto`.
unfoldable pub stock_card_entry : StockMovement → StockCardEntry
stock_card_entry m = record {
  balance_before = m.quantity_after -ℤ m.quantity_change;
  balance_after = m.quantity_after;
  quantity_change = m.quantity_change;
}
