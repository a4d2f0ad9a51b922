-- ===== src/Inventory/Store.antt =====
-- The tables that the inventory services write, the tables that they only read, and the
-- well-formedness of the first: every balance is what its movements add up to.
use erp_fashion_api.Common.{
  ℕ, ◌≡◌, Bool, ◌&&◌, ◌||◌, not, Option, none, some, List, [], ◌∷◌, ◌==◌, if◌then◌else◌, ℤ, pos,
  ◌≤ℤ◌, ◌+ℤ◌,
}
use Prim.Native.String.{String}
use erp_fashion_api.Decimal.{Text}
use erp_fashion_api.Numbering.{Counter}
use erp_fashion_api.Inventory.Stock.{WarehouseStock, StockMovement, on_hand, ledger_balance}

pub data Status : Type 0 where
  active inactive : Status

abbrev pub is_active : Status → Bool
is_active active = Bool.true
is_active inactive = Bool.false

pub record Warehouse : Type 0 where
  pub id : ℕ
  pub company_id : ℕ
  pub branch_id : Option ℕ
  pub status : Status

pub record ProductVariant : Type 0 where
  pub id : ℕ
  pub company_id : ℕ
  pub status : Status
  -- soft-deleted rows are hidden from a plain find
  pub deleted : Bool

pub data StockAdjustmentReason : Type 0 where
  opening_balance damage loss found correction : StockAdjustmentReason

pub record StockAdjustment : Type 0 where
  pub id : ℕ
  pub adjustment_number : Text
  pub warehouse_id : ℕ
  pub product_variant_id : ℕ
  pub quantity_change : ℤ
  pub reason : StockAdjustmentReason
  pub company_id : ℕ
  pub notes : Option String
  pub created_by : ℕ

pub record StockTransfer : Type 0 where
  pub id : ℕ
  pub transfer_number : Text
  pub source_warehouse_id : ℕ
  pub destination_warehouse_id : ℕ
  pub company_id : ℕ
  pub notes : Option String
  pub created_by : ℕ

pub record StockTransferItem : Type 0 where
  pub id : ℕ
  pub stock_transfer_id : ℕ
  pub product_variant_id : ℕ
  pub quantity : ℕ

pub record GoodsReceipt : Type 0 where
  pub id : ℕ
  pub receipt_number : Text
  pub purchase_order_id : ℕ
  pub warehouse_id : ℕ
  pub supplier_id : ℕ
  pub company_id : ℕ
  pub receipt_date : ℕ
  pub notes : Option String
  pub received_by : ℕ

-- What a receipt line keeps; `conversion_factor_to_base_snapshot` counts ten-thousandths.
pub record ReceiptRow : Type 0 where
  pub purchase_order_item_id : ℕ
  pub product_variant_id : ℕ
  pub uom_id : Option ℕ
  pub uom_code_snapshot : Option String
  pub uom_name_snapshot : Option String
  pub received_quantity : ℕ
  pub rejected_quantity : ℕ
  pub conversion_factor_to_base_snapshot : ℕ
  pub base_received_quantity : ℕ
  pub base_rejected_quantity : ℕ

pub record GoodsReceiptItem : Type 0 where
  pub id : ℕ
  pub goods_receipt_id : ℕ
  pub row : ReceiptRow

pub record Store : Type 0 where
  pub stocks : List WarehouseStock
  pub movements : List StockMovement
  pub adjustments : List StockAdjustment
  pub adjustment_counters : List Counter
  pub transfers : List StockTransfer
  pub transfer_items : List StockTransferItem
  pub transfer_counters : List Counter
  pub receipts : List GoodsReceipt
  pub receipt_items : List GoodsReceiptItem
  pub receipt_counters : List Counter
  -- the next id that the database or `randomUUID` gives out
  pub next_id : ℕ

unfoldable pub find_warehouse : ℕ → List Warehouse → Option Warehouse
find_warehouse id [] = none
find_warehouse id (w ∷ ws) = if id == w.id then some w else find_warehouse id ws

-- `findOne({ where: { id, companyId } })`; `with_deleted` is the option of that name.
unfoldable pub find_variant : Bool → ℕ → ℕ → List ProductVariant → Option ProductVariant
find_variant with_deleted id company [] = none
find_variant with_deleted id company (v ∷ vs) =
    if id == v.id && company == v.company_id && (with_deleted || not v.deleted)
    then some v
    else find_variant with_deleted id company vs

-- Every balance is the sum of its pair's movements.
abbrev pub IsReconciled : Store → Type 0
IsReconciled s = (w v : ℕ) → on_hand w v s.stocks ≡ ledger_balance w v s.movements

-- No balance is negative.
abbrev pub IsNonNegative : Store → Type 0
IsNonNegative s = (w v : ℕ) → pos 0 ≤ℤ on_hand w v s.stocks

-- From `s` to `s'` every balance moves by `d`, and the log records the same change.
abbrev pub MovesBy : (ℕ → ℕ → ℤ) → Store → Store → Type 0
MovesBy d s s' =
    (w v : ℕ)
    → (on_hand w v s'.stocks ≡ on_hand w v s.stocks +ℤ d w v)
      × (ledger_balance w v s'.movements ≡ ledger_balance w v s.movements +ℤ d w v)

pub MovesBy-IsReconciled :
    (d : ℕ → ℕ → ℤ) (s s' : Store) → MovesBy d s s' → IsReconciled s → IsReconciled s'
MovesBy-IsReconciled d s s' m h w v = let (stock, log) = m w v in rw (stock, log, h w v)
