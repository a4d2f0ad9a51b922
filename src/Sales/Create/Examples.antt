-- ===== src/Sales/Create/Examples.antt =====
-- Three shirts at ten percent off, asked for with and without the key of a checkout.
use Prim.Native.String.{String}
use erp_fashion_api.Double.{
  Double, of_cents, of_decimal, add, sub, mul, div, rounded, spacing, nearest, steps, to_fixed,
}
use erp_fashion_api.Common.{
  ◌≡◌, ◌≢◌, refl, true, false, none, some, Option, List, [], ◌∷◌, All, ok, throw, conflict,
  find_row, sort_by, update_row,
}
use erp_fashion_api.Inventory.History.{empty}
use erp_fashion_api.Accounting.Journal.{Company}
use erp_fashion_api.Payments.{PartyStatus}
use erp_fashion_api.Promotions.{
  Promotion, PromotionDiscountType, CreatePromotion, create_promotion, one_more_use, full_discount,
  resolve_and_lock_for_use, compute_discount_amount,
}
use erp_fashion_api.Promotions.Examples.{ten_percent}
use erp_fashion_api.Promotions.Usage.{IsWithinLimit}
use erp_fashion_api.Sales.{Sale, SaleRow, Store}
use erp_fashion_api.Sales.Pricing.{active_lists, first_price}
use erp_fashion_api.Sales.Create.{Priced, create_sale, discount_total, grand_total}
use erp_fashion_api.Sales.Checks.{SaleCatalog, Asked, CreateSale, Creation, find_by_creation_key}
use erp_fashion_api.Sales.Create.Outcome.{made, written}
use erp_fashion_api.Sales.Create.Replay.{create_sale_replays}
use erp_fashion_api.Sales.Create.Usage.{start, added, sold, table_of, with_table, usage_is_limited}

abbrev company : Company
company = record { id = 1; is_active = true }

abbrev catalog : SaleCatalog
catalog = record {
  directory = record { companies = company ∷ []; branches = []; accounts = [] };
  warehouses = [];
  customers =
      record { id = 2; company_id = 1; status = PartyStatus.active; account_id = none } ∷ [];
  sales_accounts = [];
  assignments = [];
  products = record {
    variants =
        record {
          id = 20;
          company_id = 1;
          is_active = true;
          base_uom_id = none;
          sku = "S-1";
          product_name = "Shirt";
          deleted = false;
        }
        ∷ [];
    uoms = [];
    variant_uoms = [];
    price_lists = record { id = 5; company_id = 1; is_active = true } ∷ [];
    prices =
        record {
          company_id = 1;
          price_list_id = 5;
          product_variant_id = 20;
          uom_id = none;
          price = 1500;
          valid_from = 20260101000000;
          valid_to = none;
          is_active = true;
        }
        ∷ [];
  };
}

abbrev asked : Asked
asked = record { company_id = 1; user_id = 9; now = 20260301120000 }

abbrev three_shirts : CreateSale
three_shirts = record {
  branch_id = none;
  warehouse_id = none;
  sale_type = none;
  customer_id = 2;
  sales_account_id = none;
  transaction_date = none;
  currency = "MMK";
  notes = none;
  promotion_code = some "TEN";
  items =
      record {
        product_variant_id = 20;
        uom_id = none;
        quantity = 3;
        discount_amount = some 100;
        tax_amount = some 50;
        price_list_id = none;
      }
      ∷ [];
}

abbrev ten_off : CreatePromotion
ten_off = record {
  code = "TEN";
  name = "Ten off";
  description = none;
  discount_type = PromotionDiscountType.percentage;
  discount_value = 100_000;
  minimum_purchase = none;
  maximum_discount_amount = none;
  start_date = 20260101000000;
  end_date = none;
  usage_limit = some 1;
}

abbrev new_shop : Store
new_shop = record {
  inventory = empty;
  loyalty = record { transactions = []; next_id = 0 };
  sales = [];
  sale_items = [];
  sale_counters = [];
  promotions = [];
  next_id = 100;
}

-- The promotion is there, and may be used once.
abbrev shop : Store
shop =
    with_table (create_promotion (company ∷ []) 1 9 ten_off (λ t. t) (table_of new_shop)).1 new_shop

usage_is_limited_example :
    All IsWithinLimit (create_sale catalog asked three_shirts none (λ t. t) shop).1.promotions
usage_is_limited_example = usage_is_limited (
    sold catalog asked three_shirts none (λ t. t)
      (added (company ∷ []) 1 9 ten_off (λ t. t) (start new_shop refl) (start new_shop refl))
      (added (company ∷ []) 1 9 ten_off (λ t. t) (start new_shop refl) (start new_shop refl)))

abbrev checkout : Creation
checkout = record { key = "K"; hash = "H" }

abbrev open_shop : Store
open_shop = record new_shop { promotions = ten_percent ∷ [] }

abbrev shirt_row : SaleRow
shirt_row = record {
  product_variant_id = 20;
  uom_id = none;
  uom_code_snapshot = none;
  uom_name_snapshot = none;
  quantity = 3;
  base_quantity_snapshot = some 3;
  conversion_factor_to_base_snapshot = 10_000;
  unit_price_snapshot = 1500;
  discount_snapshot = 100;
  tax_snapshot = 50;
  line_total = 4450;
  product_name_snapshot = "Shirt";
  sku_snapshot = "S-1";
}

-- The loop over the items, and the promotion's discount of a tenth of 44.00.
abbrev sums : Priced
sums = record { subtotal = 4500; discount = 100; tax = 50; rows = shirt_row ∷ [] }

abbrev used : Double × List Promotion
used = (
  div (mul (sub (of_cents 4500) (of_cents 100)) (of_decimal 100_000 10_000)) (of_decimal 100 1),
  one_more_use ten_percent ∷ [],
)

abbrev the_sale : Option Creation → Sale
the_sale creation = made catalog asked three_shirts creation open_shop sums used.0

abbrev sold_shop : Option Creation → Store
sold_shop creation = written catalog asked three_shirts creation open_shop sums used

-- 45.00, less 5.40, and 0.50 of tax.
grand_total_of : (the_sale none).grand_total ≡ 4010
unfolding discount_total grand_total add sub mul div of_decimal rounded spacing nearest steps
    to_fixed
grand_total_of = refl

sells_checkout :
    create_sale catalog asked three_shirts (some checkout) (λ t. t) open_shop
    ≡ (ok (the_sale (some checkout)), sold_shop (some checkout))
unfolding create_sale find_by_creation_key find_row active_lists first_price sort_by
    resolve_and_lock_for_use compute_discount_amount full_discount update_row discount_total
    grand_total add sub mul div of_decimal rounded spacing nearest steps to_fixed
sells_checkout = refl

create_sale_replays_example :
    (create_sale catalog asked three_shirts (some checkout) (λ t. t) (sold_shop (some checkout))
      ≡ (ok (the_sale (some checkout)), sold_shop (some checkout)))
    × ((hash : String)
        → hash ≢ "H"
        → create_sale catalog asked three_shirts
            (some (record { key = "K"; hash = hash }))
            (λ t. t)
            (sold_shop (some checkout))
          ≡ (throw conflict, sold_shop (some checkout)))
create_sale_replays_example =
    create_sale_replays catalog catalog asked asked three_shirts three_shirts checkout (λ t. t)
      (λ t. t) open_shop (sold_shop (some checkout)) (the_sale (some checkout)) refl sells_checkout
