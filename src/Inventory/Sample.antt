-- ===== src/Inventory/Sample.antt =====
-- A small company: two warehouses, one variant, one order, and requests about them.
use erp_fashion_api.Common.{false, some, none, [], ◌∷◌, pos, negsuc}
use erp_fashion_api.Inventory.Stock.{StockMovement, StockMovementType, StockMovementReferenceType}
use erp_fashion_api.Inventory.Store.{Store, Warehouse, active, damage}
use erp_fashion_api.Inventory.Adjustment.{CreateStockAdjustment}
use erp_fashion_api.Inventory.Transfer.{CreateStockTransfer}
use erp_fashion_api.Inventory.Orders.{
  PurchaseOrderStatus, Catalog, CreateGoodsReceipt, ReceiptLine, PurchaseOrder, PurchaseOrderItem,
}
use erp_fashion_api.Inventory.History.{empty}

-- Ten boxes of twelve.
abbrev pub boxes : PurchaseOrderItem
boxes = record {
  id = 31;
  purchase_order_id = 30;
  product_variant_id = 20;
  quantity = 10;
  uom_id = none;
  uom_code_snapshot = none;
  uom_name_snapshot = none;
  conversion_factor_to_base_snapshot = some 120_000;
}

abbrev pub order : PurchaseOrder
order = record {
  id = 30;
  company_id = 1;
  supplier_id = 40;
  branch_id = none;
  warehouse_id = some 10;
  status = PurchaseOrderStatus.confirmed;
}

abbrev pub shop : Warehouse
shop = record { id = 10; company_id = 1; branch_id = none; status = active }

-- Company 1 with warehouses 10 and 11, variant 20 and the order.
abbrev pub catalog : Catalog
catalog = record {
  warehouses = shop ∷ record { id = 11; company_id = 1; branch_id = none; status = active } ∷ [];
  variants = record { id = 20; company_id = 1; status = active; deleted = false } ∷ [];
  orders = order ∷ [];
  order_items = boxes ∷ [];
}

abbrev pub opening : StockMovement
opening = record {
  id = 2;
  warehouse_id = 10;
  product_variant_id = 20;
  movement_type = StockMovementType.opening_balance;
  quantity_change = pos 10;
  quantity_after = pos 10;
  reference_type = StockMovementReferenceType.stock_adjustment;
  reference_id = 3;
  created_by = none;
}

-- Ten units on hand in the shop, with no log of how they came there.
abbrev pub shelf : Store
shelf = record empty {
  stocks =
      record {
        id = 1;
        warehouse_id = 10;
        product_variant_id = 20;
        on_hand_quantity = pos 10;
        reserved_quantity = pos 0;
      }
      ∷ [];
}

abbrev pub breakage : CreateStockAdjustment
breakage = record {
  warehouse_id = 10;
  product_variant_id = 20;
  quantity_change = negsuc 2;
  reason = damage;
  notes = none;
}

-- Two lines of six units of one variant.
abbrev pub doubled : CreateStockTransfer
doubled = record {
  source_warehouse_id = 10;
  destination_warehouse_id = 11;
  notes = none;
  items =
      record { product_variant_id = 20; quantity = 6 }
      ∷ record { product_variant_id = 20; quantity = 6 }
      ∷ [];
}

abbrev pub single : CreateStockTransfer
single = record doubled { items = record { product_variant_id = 20; quantity = 6 } ∷ [] }

abbrev six_boxes : ReceiptLine
six_boxes = record {
  purchase_order_item_id = 31;
  product_variant_id = 20;
  received_quantity = 6;
  rejected_quantity = none;
}

-- Two lines of six boxes of the one order item.
abbrev pub delivery : CreateGoodsReceipt
delivery = record {
  purchase_order_id = 30;
  warehouse_id = 10;
  notes = none;
  items = six_boxes ∷ six_boxes ∷ [];
}

abbrev pub one_line : CreateGoodsReceipt
one_line = record delivery { items = six_boxes ∷ [] }
