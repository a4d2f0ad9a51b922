-- ===== src/Promotions/Examples.antt =====
-- Ten percent off, at most twice, and a change of its name on the way.
use erp_fashion_api.Common.{◌≡◌, ◌==◌, refl, none, some, [], ◌∷◌, row, ok, find_row}
use erp_fashion_api.Double.{
  of_cents, of_decimal, mul, div, rounded, spacing, nearest, steps, to_fixed,
}
use erp_fashion_api.Promotions.{full_discount}
use erp_fashion_api.Promotions.{
  Promotion, PromotionDiscountType, PromotionStatus, Table, UpdatePromotion, promotion_key,
  compute_discount_amount, updated_of, update_promotion, one_more_use,
}
use erp_fashion_api.Promotions.Late.{used_once, update_promotion_loses_use}

abbrev pub ten_percent : Promotion
ten_percent = record {
  id = 70;
  company_id = 1;
  code = "TEN";
  name = "Ten off";
  description = none;
  discount_type = PromotionDiscountType.percentage;
  discount_value = 100_000;
  minimum_purchase = 1000;
  maximum_discount_amount = none;
  start_date = 20260101;
  end_date = none;
  usage_limit = some 2;
  usage_count = 0;
  status = PromotionStatus.active;
  created_by = 9;
  updated_by = 9;
}

abbrev board : Table
board = record { promotions = ten_percent ∷ []; next_id = 71 }

abbrev new_name : UpdatePromotion
new_name = record {
  name = some "Ten percent off";
  description = none;
  minimum_purchase = none;
  maximum_discount_amount = none;
  end_date = none;
  usage_limit = none;
  status = none;
}

abbrev renamed : Promotion
renamed = record ten_percent { name = "Ten percent off"; updated_by = 8 }

-- A tenth of 44.05 prints as 4.41.
ten_percent_of : to_fixed (compute_discount_amount ten_percent (of_cents 4405)) ≡ 441
unfolding compute_discount_amount full_discount mul div of_decimal rounded spacing nearest steps
    to_fixed
ten_percent_of = refl

found : find_row promotion_key (λ p. 1 == p.company_id) 70 board.promotions ≡ some ten_percent
unfolding find_row
found = refl

changed : updated_of 8 new_name ten_percent ≡ ok renamed
unfolding updated_of
changed = refl

update_promotion_loses_use_example :
    ((update_promotion 70 1 8 new_name (used_once 70) board).0 ≡ ok renamed)
    × (row promotion_key 70 (used_once 70 board).promotions ≡ some (one_more_use ten_percent))
    × (row promotion_key 70 (update_promotion 70 1 8 new_name (used_once 70) board).1.promotions
        ≡ some renamed)
    × (renamed.usage_count ≡ ten_percent.usage_count)
update_promotion_loses_use_example =
    update_promotion_loses_use 70 1 8 new_name board ten_percent renamed (refl, tt) found changed
