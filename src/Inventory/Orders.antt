-- ===== src/Inventory/Orders.antt =====
-- Purchase orders and the request for a receipt, with the checks that come before its lines
-- (src/modules/inventory/services/goods-receipts.service.ts, src/modules/purchase/entities).
use Prim.Native.String.{String}
use erp_fashion_api.Common.{
  ℕ, ◌*◌, ◌/◌, ◌%◌, Bool, true, not, ◌&&◌, Option, none, some, List, [], ◌∷◌, ◌==◌, if◌then◌else◌,
  Result, ok, throw, ◌>>=◌, ◌>>◌, throw_if, or_throw, validation_error, not_found, conflict,
}
use erp_fashion_api.Inventory.Store.{Warehouse, ProductVariant, is_active, find_warehouse}

pub data PurchaseOrderStatus : Type 0 where
  draft submitted approved confirmed rejected closed cancelled : PurchaseOrderStatus

pub record PurchaseOrder : Type 0 where
  pub id : ℕ
  pub company_id : ℕ
  pub supplier_id : ℕ
  pub branch_id : Option ℕ
  pub warehouse_id : Option ℕ
  pub status : PurchaseOrderStatus

-- `conversion_factor_to_base_snapshot` is a DECIMAL(14,4), counted in ten-thousandths.
pub record PurchaseOrderItem : Type 0 where
  pub id : ℕ
  pub purchase_order_id : ℕ
  pub product_variant_id : ℕ
  pub quantity : ℕ
  pub uom_id : Option ℕ
  pub uom_code_snapshot : Option String
  pub uom_name_snapshot : Option String
  pub conversion_factor_to_base_snapshot : Option ℕ

-- The tables that a receipt only reads.
pub record Catalog : Type 0 where
  pub warehouses : List Warehouse
  pub variants : List ProductVariant
  pub orders : List PurchaseOrder
  pub order_items : List PurchaseOrderItem

pub record ReceiptLine : Type 0 where
  pub purchase_order_item_id : ℕ
  pub product_variant_id : ℕ
  pub received_quantity : ℕ
  pub rejected_quantity : Option ℕ

pub record CreateGoodsReceipt : Type 0 where
  pub purchase_order_id : ℕ
  pub warehouse_id : ℕ
  pub notes : Option String
  pub items : List ReceiptLine

unfoldable pub find_order : ℕ → ℕ → List PurchaseOrder → Option PurchaseOrder
find_order id company [] = none
find_order id company (o ∷ os) =
    if id == o.id && company == o.company_id then some o else find_order id company os

unfoldable pub find_order_item : ℕ → ℕ → List PurchaseOrderItem → Option PurchaseOrderItem
find_order_item id order [] = none
find_order_item id order (i ∷ is) =
    if id == i.id && order == i.purchase_order_id then some i else find_order_item id order is

-- `computeBaseQuantity`: the quantity times the factor, where that is a whole number.
unfoldable pub compute_base_quantity : ℕ → ℕ → Result ℕ
compute_base_quantity quantity factor =
    if quantity * factor % 10_000 == 0
    then ok (quantity * factor / 10_000)
    else throw validation_error

-- The statuses against which nothing can be received.
abbrev check_status : PurchaseOrderStatus → Result (Unit {0})
check_status PurchaseOrderStatus.draft = throw conflict
check_status PurchaseOrderStatus.submitted = throw conflict
check_status PurchaseOrderStatus.cancelled = throw conflict
check_status PurchaseOrderStatus.rejected = throw conflict
check_status PurchaseOrderStatus.closed = throw conflict
check_status PurchaseOrderStatus.approved = ok tt
check_status PurchaseOrderStatus.confirmed = ok tt

-- `wanted && actual !== wanted`, for an id that may be missing.
abbrev differs : Option ℕ → Option ℕ → Bool
differs none actual = Bool.false
differs (some wanted) none = true
differs (some wanted) (some actual) = not (actual == wanted)

-- The checks that `create` makes before it opens its transaction.
unfoldable pub validate : Catalog → ℕ → CreateGoodsReceipt → Result Warehouse
validate catalog company dto = do
  warehouse ← or_throw (find_warehouse dto.warehouse_id catalog.warehouses) not_found
  throw_if (not (is_active warehouse.status)) validation_error
  throw_if (not (warehouse.company_id == company)) validation_error
  ok warehouse

-- The checks of the order, inside the transaction.
unfoldable pub check_order : Catalog → ℕ → CreateGoodsReceipt → Warehouse → Result PurchaseOrder
unfolding find_order
check_order catalog company dto warehouse = do
  order ← or_throw (find_order dto.purchase_order_id company catalog.orders) not_found
  check_status order.status
  throw_if (differs order.branch_id warehouse.branch_id) validation_error
  throw_if (differs order.warehouse_id (some warehouse.id)) validation_error
  ok order
