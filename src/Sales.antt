-- ===== src/Sales.antt =====
-- The sales of src/modules/sales (its entities), and `SalesService` but for `create`:
-- `findByIdInCompany`, `cancel`, `ship`, `deliver` and `applyPayment` of services/sales.service.ts.
-- `confirm` is in Sales/Confirm, `create` in Sales/Create.
pub mod Confirm
pub mod Table
pub mod Catalog
pub mod Pricing
pub mod Checks
pub mod Create
pub mod Late
pub mod Examples
use Prim.Native.String.{String}
use erp_fashion_api.Common.{
  ℕ, ◌+◌, ◌-◌, Bool, not, ◌&&◌, ◌||◌, Option, none, some, List, [], ◌∷◌, ◌==◌, ltb, if◌then◌else◌,
  Result, ok, ◌>>=◌, ◌>>◌, throw_if, or_throw, settle, not_found, conflict,
}
use erp_fashion_api.Decimal.{Text}
use erp_fashion_api.Numbering.{Counter}
use erp_fashion_api.Loyalty.{Ledger}
use erp_fashion_api.Promotions.{Promotion}
use erp_fashion_api.Inventory.Store.{Store as InventoryStore}

pub data SaleStatus : Type 0 where
  draft confirmed cancelled : SaleStatus

pub data SaleType : Type 0 where
  point_of_sale retail wholesale : SaleType

pub data SaleFulfillmentStatus : Type 0 where
  pending_shipment shipped delivered : SaleFulfillmentStatus

-- A row of `sales`. `deleted` stands for a `deletedAt` that is set; amounts count cents.
pub record Sale : Type 0 where
  pub id : ℕ
  pub creation_key : Option String
  pub creation_hash : Option String
  pub sale_number : Text
  pub sale_type : SaleType
  pub customer_id : ℕ
  pub sales_account_id : Option ℕ
  pub company_id : ℕ
  pub branch_id : Option ℕ
  pub warehouse_id : Option ℕ
  pub transaction_date : ℕ
  pub status : SaleStatus
  pub subtotal : ℕ
  pub discount_amount : ℕ
  pub tax_amount : ℕ
  pub grand_total : ℕ
  pub paid_amount : ℕ
  pub balance_amount : ℕ
  pub currency : String
  pub notes : Option String
  pub fulfillment_status : Option SaleFulfillmentStatus
  pub shipped_at : Option ℕ
  pub delivered_at : Option ℕ
  pub created_by : ℕ
  pub updated_by : ℕ
  pub deleted : Bool

-- What a line keeps; `conversion_factor_to_base_snapshot` counts ten-thousandths.
pub record SaleRow : Type 0 where
  pub product_variant_id : ℕ
  pub uom_id : Option ℕ
  pub uom_code_snapshot : Option String
  pub uom_name_snapshot : Option String
  pub quantity : ℕ
  pub base_quantity_snapshot : Option ℕ
  pub conversion_factor_to_base_snapshot : ℕ
  pub unit_price_snapshot : ℕ
  pub discount_snapshot : ℕ
  pub tax_snapshot : ℕ
  pub line_total : ℕ
  pub product_name_snapshot : String
  pub sku_snapshot : String

pub record SaleItem : Type 0 where
  pub id : ℕ
  pub sale_id : ℕ
  pub row : SaleRow

-- The tables that sales write, their own and those of the inventory, of loyalty and of promotions.
pub record Store : Type 0 where
  pub inventory : InventoryStore
  pub loyalty : Ledger
  pub sales : List Sale
  pub sale_items : List SaleItem
  pub sale_counters : List Counter
  pub promotions : List Promotion
  pub next_id : ℕ

abbrev pub same_status : SaleStatus → SaleStatus → Bool
same_status SaleStatus.draft SaleStatus.draft = Bool.true
same_status SaleStatus.confirmed SaleStatus.confirmed = Bool.true
same_status SaleStatus.cancelled SaleStatus.cancelled = Bool.true
same_status _ _ = Bool.false

-- `ALLOWED_TRANSITIONS`
abbrev pub allowed_transitions : SaleStatus → List SaleStatus
allowed_transitions SaleStatus.draft = SaleStatus.confirmed ∷ SaleStatus.cancelled ∷ []
allowed_transitions SaleStatus.confirmed = []
allowed_transitions SaleStatus.cancelled = []

abbrev includes : SaleStatus → List SaleStatus → Bool
includes target [] = Bool.false
includes target (status ∷ statuses) = same_status target status || includes target statuses

abbrev pub assert_transition_allowed : SaleStatus → SaleStatus → Result (Unit {0})
assert_transition_allowed current target =
    throw_if (not (includes target (allowed_transitions current))) conflict

unfoldable pub find_sale : ℕ → ℕ → List Sale → Option Sale
find_sale id company [] = none
find_sale id company (sale ∷ sales) =
    if id == sale.id && company == sale.company_id && not sale.deleted
    then some sale
    else find_sale id company sales

unfoldable pub items_of : ℕ → List SaleItem → List SaleItem
items_of sale [] = []
items_of sale (item ∷ items) =
    if sale == item.sale_id then item ∷ items_of sale items else items_of sale items

-- `findByIdInCompany`, without the items.
abbrev pub read_sale : ℕ → ℕ → Store → Result Sale
read_sale id company s = or_throw (find_sale id company s.sales) not_found

-- `save(sale)` of an entity that was read: the row becomes what the entity holds.
unfoldable pub save_sale : Sale → List Sale → List Sale
save_sale entity [] = []
save_sale entity (sale ∷ sales) =
    if entity.id == sale.id then entity ∷ sales else sale ∷ save_sale entity sales

abbrev pub saved : Sale → Store → Sale × Store
saved entity s = (entity, record s { sales = save_sale entity s.sales })

abbrev pub is_fulfillment : SaleFulfillmentStatus → Option SaleFulfillmentStatus → Bool
is_fulfillment _ none = Bool.false
is_fulfillment SaleFulfillmentStatus.pending_shipment
      (some SaleFulfillmentStatus.pending_shipment) =
    Bool.true
is_fulfillment SaleFulfillmentStatus.shipped (some SaleFulfillmentStatus.shipped) = Bool.true
is_fulfillment SaleFulfillmentStatus.delivered (some SaleFulfillmentStatus.delivered) = Bool.true
is_fulfillment _ (some _) = Bool.false

-- The entity that `cancel` saves, from the one that it has read.
unfoldable pub cancelled_of : ℕ → Sale → Result Sale
cancelled_of user sale = do
  assert_transition_allowed sale.status SaleStatus.cancelled
  ok (record sale { status = SaleStatus.cancelled; updated_by = user })

-- The entity that `ship` saves.
unfoldable pub shipped_of : ℕ → ℕ → Sale → Result Sale
shipped_of user now sale = do
  throw_if (not (is_fulfillment SaleFulfillmentStatus.pending_shipment sale.fulfillment_status))
      conflict
  ok (record sale {
    fulfillment_status = some SaleFulfillmentStatus.shipped;
    shipped_at = some now;
    updated_by = user;
  })

-- The entity that `deliver` saves.
unfoldable pub delivered_of : ℕ → ℕ → Sale → Result Sale
delivered_of user now sale = do
  throw_if (not (is_fulfillment SaleFulfillmentStatus.shipped sale.fulfillment_status)) conflict
  ok (record sale {
    fulfillment_status = some SaleFulfillmentStatus.delivered;
    delivered_at = some now;
    updated_by = user;
  })

-- A handler that runs in no transaction: it reads the sale, changes the entity and saves it, and
-- between its read and its save other requests may run.
abbrev pub read_then_save :
    (Sale → Result Sale) → ℕ → ℕ → (Store → Store) → Store → Result Sale × Store
read_then_save change id company others s =
    settle (do sale ← read_sale id company s; entity ← change sale; ok (saved entity (others s)))
      (others s)

-- `cancel`, `ship` and `deliver`, with what runs between their read and their save.
unfoldable pub cancel_sale : ℕ → ℕ → ℕ → (Store → Store) → Store → Result Sale × Store
unfolding find_sale save_sale cancelled_of
cancel_sale id company user others = read_then_save (cancelled_of user) id company others

unfoldable pub ship : ℕ → ℕ → ℕ → ℕ → (Store → Store) → Store → Result Sale × Store
unfolding find_sale save_sale shipped_of
ship id company user now others = read_then_save (shipped_of user now) id company others

unfoldable pub deliver : ℕ → ℕ → ℕ → ℕ → (Store → Store) → Store → Result Sale × Store
unfolding find_sale save_sale delivered_of
deliver id company user now others = read_then_save (delivered_of user now) id company others

-- `update(Sale, id, { paidAmount, balanceAmount, updatedBy })`
unfoldable pub update_paid : ℕ → ℕ → ℕ → ℕ → List Sale → List Sale
update_paid id paid balance user [] = []
update_paid id paid balance user (sale ∷ sales) =
    if id == sale.id
    then record sale { paid_amount = paid; balance_amount = balance; updated_by = user } ∷ sales
    else sale ∷ update_paid id paid balance user sales

-- `applyPayment`, in its caller's transaction, on the table of sales.
unfoldable pub apply_payment : ℕ → ℕ → ℕ → ℕ → List Sale → Result (List Sale)
unfolding find_sale update_paid
apply_payment id company allocated user sales = do
  sale ← or_throw (find_sale id company sales) not_found
  let new_paid = sale.paid_amount + allocated
  throw_if (ltb sale.grand_total new_paid) conflict
  ok (update_paid sale.id new_paid (sale.grand_total - new_paid) user sales)
