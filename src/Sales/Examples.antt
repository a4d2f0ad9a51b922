-- ===== src/Sales/Examples.antt =====
-- A draft of two units, a shelf of ten, and a payment on the way.
use erp_fashion_api.Common.{
  ◌≡◌, refl, false, none, some, All, List, [], ◌∷◌, pos, ◌+ℤ◌, Result, ok, throw, conflict, arith,
  run_after, sort_by, neg,
}
use erp_fashion_api.Inventory.Stock.{on_hand, find_stock}
use erp_fashion_api.Inventory.Store.{Store as InventoryStore, MovesBy}
use erp_fashion_api.Inventory.Stock.{update_stock, upsert_stock}
use erp_fashion_api.Inventory.History.{empty}
use erp_fashion_api.Inventory.Transfer.{lock_rows}
use erp_fashion_api.Sales.{
  Sale, SaleItem, SaleStatus, SaleType, Store, find_sale, items_of, apply_payment, cancelled_of,
  shipped_of, delivered_of, cancel_sale, ship, deliver,
}
use erp_fashion_api.Sales.Confirm.{
  confirmed_of, confirm, confirm_checks, apply_confirm, check_stock, issue_items,
}
use erp_fashion_api.Sales.Confirm.Effect.{Fits, issued}
use erp_fashion_api.Sales.Confirm.Outcome.{
  IsConfirmable, Confirmed, confirm_lem, confirm_issues_twice,
}
use erp_fashion_api.Sales.Late.{PaymentIsLost, late_save_loses_payment}

abbrev two_units : SaleItem
two_units = record {
  id = 51;
  sale_id = 50;
  row = record {
    product_variant_id = 20;
    uom_id = none;
    uom_code_snapshot = none;
    uom_name_snapshot = none;
    quantity = 2;
    base_quantity_snapshot = some 2;
    conversion_factor_to_base_snapshot = 10_000;
    unit_price_snapshot = 1500;
    discount_snapshot = 0;
    tax_snapshot = 0;
    line_total = 3000;
    product_name_snapshot = "Shirt";
    sku_snapshot = "S-1";
  };
}

abbrev pub order : Sale
order = record {
  id = 50;
  creation_key = none;
  creation_hash = none;
  sale_number = [];
  sale_type = SaleType.retail;
  customer_id = 5;
  sales_account_id = none;
  company_id = 1;
  branch_id = none;
  warehouse_id = some 10;
  transaction_date = 20_260_105_120_000;
  status = SaleStatus.draft;
  subtotal = 3000;
  discount_amount = 0;
  tax_amount = 0;
  grand_total = 3000;
  paid_amount = 0;
  balance_amount = 3000;
  currency = "EUR";
  notes = none;
  fulfillment_status = none;
  shipped_at = none;
  delivered_at = none;
  created_by = 7;
  updated_by = 7;
  deleted = false;
}

abbrev shelf : InventoryStore
shelf = record empty {
  stocks =
      record {
        id = 1;
        warehouse_id = 10;
        product_variant_id = 20;
        on_hand_quantity = pos 10;
        reserved_quantity = pos 0;
      }
      ∷ [];
}

abbrev shop : Store
shop = record {
  inventory = shelf;
  loyalty = record { transactions = []; next_id = 0 };
  sales = order ∷ [];
  sale_items = two_units ∷ [];
  sale_counters = [];
  promotions = [];
  next_id = 60;
}

order_is_there : find_sale 50 1 shop.sales ≡ some order
unfolding find_sale
order_is_there = refl

order-IsConfirmable : IsConfirmable 50 1 10 order shop
order-IsConfirmable = record {
  keyed = (refl, tt);
  found = order_is_there;
  is_draft = refl;
  from_warehouse = refl;
}

covers_order : All (Fits 10 shelf.stocks) (items_of 50 shop.sale_items)
unfolding items_of on_hand find_stock
covers_order = omega arith

abbrev confirmed : Result Sale × Store
confirmed = confirm [] 50 1 7 (λ t. t) shop

confirm_lem_example :
    (All (Fits 10 shelf.stocks) (items_of 50 shop.sale_items)
      → (confirmed.0 ≡ ok (confirmed_of 7 order))
        × Confirmed [] 7 10 order (items_of 50 shop.sale_items) shop confirmed.1)
    × (¬ All (Fits 10 shelf.stocks) (items_of 50 shop.sale_items)
        → confirmed ≡ (throw conflict, shop))
confirm_lem_example = confirm_lem [] 50 1 7 10 order shop order-IsConfirmable

eight_left : on_hand 10 20 (confirm [] 50 1 8 (λ t. t) shop).1.inventory.stocks ≡ pos 8
unfolding confirm confirm_checks apply_confirm check_stock issue_items lock_rows items_of find_sale
    run_after sort_by ◌+ℤ◌ neg on_hand find_stock update_stock upsert_stock
eight_left = refl

covers_order_again :
    All (Fits 10 (confirm [] 50 1 8 (λ t. t) shop).1.inventory.stocks) (items_of 50 shop.sale_items)
unfolding items_of
covers_order_again = (rw eight_left (omega arith), tt)

-- Two units are sold, and four leave the shelf.
confirm_issues_twice_example :
    let twice = confirm [] 50 1 7 (λ t. (confirm [] 50 1 8 (λ u. u) t).1) shop in
    ((confirm [] 50 1 8 (λ t. t) shop).0 ≡ ok (confirmed_of 8 order))
    × (twice.0 ≡ ok (confirmed_of 7 order))
    × MovesBy
        (λ a b.
          issued 10 (items_of 50 shop.sale_items) a b
          +ℤ issued 10 (items_of 50 shop.sale_items) a b)
        shop.inventory
        twice.1.inventory
confirm_issues_twice_example =
    confirm_issues_twice [] 50 1 7 8 10 order shop order-IsConfirmable covers_order
      covers_order_again

abbrev paid_sales : List Sale
paid_sales = record order { paid_amount = 1000; balance_amount = 2000; updated_by = 9 } ∷ []

part_payment : apply_payment 50 1 1000 9 shop.sales ≡ ok paid_sales
unfolding apply_payment
part_payment = refl

late_save_loses_payment_example :
    let gone = cancelled_of 7 order in
    let left = record order { status = SaleStatus.cancelled } in
    let others = λ (t : Store). record t { sales = paid_sales } in
    (gone ≡ ok left
      → PaymentIsLost 50 1 order shop 1000 9 paid_sales
          (refl, tt)
          order_is_there
          part_payment
          (cancel_sale 50 1 7 others shop)
          left)
    × (shipped_of 7 20_260_106_090_000 order ≡ ok left
        → PaymentIsLost 50 1 order shop 1000 9 paid_sales
            (refl, tt)
            order_is_there
            part_payment
            (ship 50 1 7 20_260_106_090_000 others shop)
            left)
    × (delivered_of 7 20_260_106_090_000 order ≡ ok left
        → PaymentIsLost 50 1 order shop 1000 9 paid_sales
            (refl, tt)
            order_is_there
            part_payment
            (deliver 50 1 7 20_260_106_090_000 others shop)
            left)
late_save_loses_payment_example =
    late_save_loses_payment 50 1 order shop 1000 9 paid_sales (refl, tt) order_is_there part_payment
      7 20_260_106_090_000 (record order { status = SaleStatus.cancelled })
