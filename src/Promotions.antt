-- ===== src/Promotions.antt =====
-- `PromotionsService` (src/modules/promotions/services/promotions.service.ts): the changes of
-- promotions, and what the creation of a sale asks of them.
pub mod Usage
pub mod Late
pub mod Examples
use Prim.Native.String.{String}
use text.Mathlib.Text.{◌==◌ as str_eq}
use erp_fashion_api.Double.{Double, mul, div, min, of_cents, of_decimal}
use erp_fashion_api.Common.{
  ℕ, ◌+◌, ◌*◌, Bool, false, true, not, ◌&&◌, Option, none, some, List, [], ◌∷◌, ◌++◌, ◌==◌, ltb,
  leb, if◌then◌else◌, is_some, find_row, update_row, Result, ok, ◌>>=◌, ◌>>◌, throw_if, or_throw,
  settle, validation_error, not_found, conflict, internal_error,
}
use erp_fashion_api.Accounting.Store.{date_only}
use erp_fashion_api.Accounting.Journal.{Company, find_active_company}

pub data PromotionDiscountType : Type 0 where
  percentage fixed_amount : PromotionDiscountType

pub data PromotionStatus : Type 0 where
  active inactive : PromotionStatus

-- `discount_value` counts ten-thousandths, of a percent or of the unit of currency; the other
-- amounts count cents.
pub record Promotion : Type 0 where
  pub id : ℕ
  pub company_id : ℕ
  pub code : String
  pub name : String
  pub description : Option String
  pub discount_type : PromotionDiscountType
  pub discount_value : ℕ
  pub minimum_purchase : ℕ
  pub maximum_discount_amount : Option ℕ
  pub start_date : ℕ
  pub end_date : Option ℕ
  pub usage_limit : Option ℕ
  pub usage_count : ℕ
  pub status : PromotionStatus
  pub created_by : ℕ
  pub updated_by : ℕ

-- The table of promotions, and the next id.
pub record Table : Type 0 where
  pub promotions : List Promotion
  pub next_id : ℕ

-- Dates of a request are times.
pub record CreatePromotion : Type 0 where
  pub code : String
  pub name : String
  pub description : Option String
  pub discount_type : PromotionDiscountType
  pub discount_value : ℕ
  pub minimum_purchase : Option ℕ
  pub maximum_discount_amount : Option ℕ
  pub start_date : ℕ
  pub end_date : Option ℕ
  pub usage_limit : Option ℕ

-- What is missing stays as it is. `description` is the trimmed text.
pub record UpdatePromotion : Type 0 where
  pub name : Option String
  pub description : Option String
  pub minimum_purchase : Option ℕ
  pub maximum_discount_amount : Option ℕ
  pub end_date : Option ℕ
  pub usage_limit : Option ℕ
  pub status : Option PromotionStatus

abbrev pub promotion_key : Promotion → ℕ
promotion_key p = p.id

abbrev pub find_promotion : ℕ → ℕ → List Promotion → Option Promotion
find_promotion id company = find_row promotion_key (λ p. company == p.company_id) id

unfoldable pub find_code : ℕ → String → List Promotion → Option Promotion
find_code company code [] = none
find_code company code (p ∷ promotions) =
    if company == p.company_id && str_eq code p.code
    then some p
    else find_code company code promotions

-- A later value in place of an earlier one, if there is one.
abbrev or_keep {ℓ} : {A : Type ℓ} → Option A → A → A
or_keep none old = old
or_keep (some new) old = new

abbrev is_before : Option ℕ → ℕ → Bool
is_before none start = false
is_before (some time) start = ltb time start

abbrev is_percentage : PromotionDiscountType → Bool
is_percentage PromotionDiscountType.percentage = true
is_percentage PromotionDiscountType.fixed_amount = false

abbrev day_of : Option ℕ → Option ℕ
day_of none = none
day_of (some time) = some (date_only time)

abbrev pub new_promotion : ℕ → ℕ → CreatePromotion → ℕ → Promotion
new_promotion company user dto id = record {
  id = id;
  company_id = company;
  code = dto.code;
  name = dto.name;
  description = dto.description;
  discount_type = dto.discount_type;
  discount_value = dto.discount_value;
  minimum_purchase = or_keep dto.minimum_purchase 0;
  maximum_discount_amount = dto.maximum_discount_amount;
  start_date = date_only dto.start_date;
  end_date = day_of dto.end_date;
  usage_limit = dto.usage_limit;
  usage_count = 0;
  status = PromotionStatus.active;
  created_by = user;
  updated_by = user;
}

-- What `create` checks before it saves.
unfoldable pub check_promotion :
    List Company → ℕ → CreatePromotion → List Promotion → Result (Unit {0})
unfolding find_active_company find_code
check_promotion companies company dto promotions = do
  found ← or_throw (find_active_company company companies) validation_error
  throw_if (is_before dto.end_date dto.start_date) validation_error
  throw_if (is_percentage dto.discount_type && ltb 1_000_000 dto.discount_value) validation_error
  throw_if (is_some (find_code company dto.code promotions)) conflict

-- The insertion: the index on the company and the code is unique.
unfoldable pub insert_promotion : ℕ → ℕ → CreatePromotion → Table → Result (Promotion × Table)
unfolding find_code
insert_promotion company user dto t = do
  throw_if (is_some (find_code company dto.code t.promotions)) internal_error
  let promotion = new_promotion company user dto t.next_id
  ok (promotion, record { promotions = t.promotions ++ (promotion ∷ []); next_id = t.next_id + 1 })

-- `create`, with what other requests do between its checks and its insertion.
unfoldable pub create_promotion :
    List Company → ℕ → ℕ → CreatePromotion → (Table → Table) → Table → Result Promotion × Table
unfolding insert_promotion
create_promotion companies company user dto others t =
    settle
      (do
        check_promotion companies company dto t.promotions
        insert_promotion company user dto (others t))
      (others t)

-- `dto.description?.trim() || null`
abbrev new_description : Option String → Option String → Option String
new_description none old = old
new_description (some text) old = if str_eq text "" then none else some text

abbrev later_end : Option ℕ → Option ℕ → Option ℕ
later_end none old = old
later_end (some time) old = some (date_only time)

-- The entity that `update` saves. A start date is the midnight that it begins with.
unfoldable pub updated_of : ℕ → UpdatePromotion → Promotion → Result Promotion
updated_of user dto p = do
  throw_if (is_before dto.end_date (p.start_date * 1_000_000)) validation_error
  ok (record p {
    name = or_keep dto.name p.name;
    description = new_description dto.description p.description;
    minimum_purchase = or_keep dto.minimum_purchase p.minimum_purchase;
    maximum_discount_amount = elim dto.maximum_discount_amount [
      | none ↦ p.maximum_discount_amount
      | some n ↦ some n
    ];
    end_date = later_end dto.end_date p.end_date;
    usage_limit = elim dto.usage_limit [ none ↦ p.usage_limit | some n ↦ some n ];
    status = or_keep dto.status p.status;
    updated_by = user;
  })

-- `save(entity)` of a row that was read: the row becomes what the entity holds.
abbrev pub save_promotion : Promotion → Table → Table
save_promotion entity t = record t {
  promotions = update_row promotion_key entity.id (λ _. entity) t.promotions;
}

-- `update`, with what other requests do between its read and its save.
unfoldable pub update_promotion :
    ℕ → ℕ → ℕ → UpdatePromotion → (Table → Table) → Table → Result Promotion × Table
unfolding updated_of
update_promotion id company user dto others t =
    settle
      (do
        p ← or_throw (find_promotion id company t.promotions) not_found
        entity ← updated_of user dto p
        ok (entity, save_promotion entity (others t)))
      (others t)

abbrev is_active : PromotionStatus → Bool
is_active PromotionStatus.active = true
is_active PromotionStatus.inactive = false

abbrev has_ended : Option ℕ → ℕ → Bool
has_ended none day = false
has_ended (some last) day = ltb last day

abbrev pub is_used_up : Option ℕ → ℕ → Bool
is_used_up none uses = false
is_used_up (some limit) uses = leb limit uses

-- `resolveAndLockForUse`
unfoldable pub resolve_and_lock_for_use : ℕ → String → ℕ → ℕ → List Promotion → Result Promotion
unfolding find_code
resolve_and_lock_for_use company code subtotal time promotions = do
  p ← or_throw (find_code company code promotions) validation_error
  throw_if (not (is_active p.status)) validation_error
  throw_if (ltb (date_only time) p.start_date) validation_error
  throw_if (has_ended p.end_date (date_only time)) validation_error
  throw_if (ltb subtotal p.minimum_purchase) validation_error
  throw_if (is_used_up p.usage_limit p.usage_count) validation_error
  ok p

abbrev pub one_more_use : Promotion → Promotion
one_more_use p = record p { usage_count = p.usage_count + 1 }

-- `incrementUsage`
abbrev pub increment_usage : ℕ → List Promotion → List Promotion
increment_usage id promotions = update_row promotion_key id one_more_use promotions

abbrev at_most : Option ℕ → Double → Double
at_most none discount = discount
at_most (some cents) discount = min discount (of_cents cents)

-- The discount before the subtotal caps it.
unfoldable pub full_discount : PromotionDiscountType → ℕ → Option ℕ → Double → Double
unfolding mul div of_decimal
full_discount PromotionDiscountType.percentage value maximum subtotal =
    at_most maximum (div (mul subtotal (of_decimal value 10_000)) (of_decimal 100 1))
full_discount PromotionDiscountType.fixed_amount value maximum subtotal = of_decimal value 10_000

-- `computeDiscountAmount`
unfoldable pub compute_discount_amount : Promotion → Double → Double
unfolding full_discount
compute_discount_amount p subtotal =
    min (full_discount p.discount_type p.discount_value p.maximum_discount_amount subtotal) subtotal
