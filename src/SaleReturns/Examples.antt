-- ===== src/SaleReturns/Examples.antt =====
-- A box of twelve, sold by the box and returned whole.
use erp_fashion_api.Common.{
  true, ◌≡◌, refl, none, some, All, List, [], ◌∷◌, ◌+◌, ℕ, ok, pos, find_row, run, sort_by, ◌+ℤ◌,
}
use erp_fashion_api.Inventory.Store.{MovesBy}
use erp_fashion_api.Inventory.History.{empty}
use erp_fashion_api.Sales.{same_status, Sale, SaleItem, SaleStatus, find_sale}
use erp_fashion_api.Sales.Examples.{order}
use erp_fashion_api.SaleReturns.{
  Store, SaleReturn, ReturnRow, CreateSaleReturn, already_returned, finish_return, create_return,
  apply_create_return, check_return_line, return_row, return_items_for,
}
use erp_fashion_api.SaleReturns.Creation.{FitsAlone, asked, create_return_lem}
use erp_fashion_api.SaleReturns.Confirm.{
  return_items_of, confirmed_return, confirm_return, find_any_sale, resolve_warehouse, find_return,
}
use erp_fashion_api.SaleReturns.Restock.{restocked, confirm_return_lem}

abbrev sold : Sale
sold = record order { status = SaleStatus.confirmed }

abbrev box : SaleItem
box = record {
  id = 51;
  sale_id = 50;
  row = record {
    product_variant_id = 20;
    uom_id = some 4;
    uom_code_snapshot = some "BOX";
    uom_name_snapshot = some "Box";
    quantity = 1;
    base_quantity_snapshot = some 12;
    conversion_factor_to_base_snapshot = 120_000;
    unit_price_snapshot = 3000;
    discount_snapshot = 0;
    tax_snapshot = 0;
    line_total = 3000;
    product_name_snapshot = "Shirt";
    sku_snapshot = "S-1";
  };
}

abbrev opening : Store
opening = record {
  shop = record {
    inventory = empty;
    loyalty = record { transactions = []; next_id = 0 };
    sales = sold ∷ [];
    sale_items = box ∷ [];
    sale_counters = [];
    promotions = [];
    next_id = 60;
  };
  returns = [];
  return_items = [];
  return_counters = [];
  next_id = 70;
}

abbrev give_back : CreateSaleReturn
give_back = record {
  sale_id = 50;
  reason = none;
  notes = none;
  items = record { sale_item_id = 51; quantity = 1; discount_amount = none; condition = none } ∷ [];
}

abbrev rows : List ReturnRow
rows =
    return_row
      (record { sale_item_id = 51; quantity = 1; discount_amount = none; condition = none }) box
    ∷ []

abbrev draft : SaleReturn
draft = (finish_return 1 7 give_back sold 20_260_110_120_000 rows opening).0

abbrev after : Store
after = (finish_return 1 7 give_back sold 20_260_110_120_000 rows opening).1

creates : create_return 1 7 give_back 20_260_110_120_000 opening ≡ (ok draft, after)
unfolding create_return run apply_create_return find_sale sort_by check_return_line find_row
    already_returned
creates = refl

create_return_lem_example :
    ((sale : Sale) × (find_sale 50 1 opening.shop.sales ≡ some sale)
      × (same_status sale.status SaleStatus.confirmed ≡ true))
    × All (FitsAlone 50 opening) give_back.items
    × ((item : ℕ)
        → already_returned item after.returns after.return_items
          ≡ already_returned item [] [] + asked item give_back.items)
    × (draft.refund_amount + draft.discount_amount ≡ draft.subtotal)
create_return_lem_example =
    create_return_lem 1 7 give_back 20_260_110_120_000 opening (record { returns = tt; items = tt })
      draft after creates

found : find_return 71 1 after.returns ≡ some draft
unfolding find_row
found = refl

sale_found : find_any_sale 50 after.shop.sales ≡ some sold
unfolding find_row
sale_found = refl

resolved : resolve_warehouse [] 1 sold.warehouse_id sold.branch_id ≡ ok 10
unfolding resolve_warehouse
resolved = refl

confirm_return_lem_example :
    ((confirm_return [] 71 1 7 20_260_111_120_000 after).0
      ≡ ok (confirmed_return 7 20_260_111_120_000 draft))
    × MovesBy
        (restocked 10 (return_items_of 71 after.return_items))
        after.shop.inventory
        (confirm_return [] 71 1 7 20_260_111_120_000 after).1.shop.inventory
confirm_return_lem_example =
    confirm_return_lem [] 71 1 7 20_260_111_120_000 10 after draft sold found refl sale_found
      resolved

-- Of the twelve pieces that left the shelf, one comes back.
comes_back : restocked 10 (return_items_of 71 after.return_items) 10 20 ≡ pos 1
unfolding return_items_of return_items_for ◌+ℤ◌
comes_back = refl
