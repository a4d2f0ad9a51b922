-- ===== src/Sales/Checks.antt =====
-- What `create` of src/modules/sales/services/sales.service.ts asks for, the key that it may carry, and
-- what it checks before it prices the lines.
use Prim.Native.String.{String}
use text.Mathlib.Text.{◌==◌ as str_eq}
use erp_fashion_api.Common.{
  ℕ, Bool, true, false, not, ◌||◌, ◌&&◌, Option, none, some, List, [], ◌∷◌, ◌==◌, if◌then◌else◌,
  find_row, Result, ok, ◌>>=◌, ◌>>◌, throw_if, or_throw, validation_error, not_found, conflict,
  forbidden,
}
use erp_fashion_api.Accounting.Journal.{Directory, find_active_company, check_branch}
use erp_fashion_api.Inventory.Store.{Warehouse, is_active, find_warehouse}
use erp_fashion_api.Payments.{Party, find_party, is_blocked}
use erp_fashion_api.Sales.{Sale, SaleType}
use erp_fashion_api.Sales.Pricing.{find_sale_variant}
use erp_fashion_api.Sales.Catalog.{Catalog, CreateSaleItem}

pub record SalesAccount : Type 0 where
  pub id : ℕ
  pub company_id : ℕ
  pub is_active : Bool

pub record SalesAccountAssignment : Type 0 where
  pub user_id : ℕ
  pub sales_account_id : ℕ
  pub is_active : Bool

-- The tables that a creation only reads.
pub record SaleCatalog : Type 0 where
  pub directory : Directory
  pub warehouses : List Warehouse
  pub customers : List Party
  pub sales_accounts : List SalesAccount
  pub assignments : List SalesAccountAssignment
  pub products : Catalog

pub record CreateSale : Type 0 where
  pub branch_id : Option ℕ
  pub warehouse_id : Option ℕ
  pub sale_type : Option SaleType
  pub customer_id : ℕ
  pub sales_account_id : Option ℕ
  pub transaction_date : Option ℕ
  pub currency : String
  pub notes : Option String
  pub promotion_code : Option String
  pub items : List CreateSaleItem

-- The key of a checkout, and the hash of what it asks for.
pub record Creation : Type 0 where
  pub key : String
  pub hash : String

-- Who asks, for which company, and when.
pub record Asked : Type 0 where
  pub company_id : ℕ
  pub user_id : ℕ
  pub now : ℕ

abbrev pub equals : Option String → String → Bool
equals none text = false
equals (some other) text = str_eq text other

unfoldable pub find_by_creation_key : ℕ → String → List Sale → Option Sale
find_by_creation_key company key [] = none
find_by_creation_key company key (sale ∷ sales) =
    if company == sale.company_id && equals sale.creation_key key
    then some sale
    else find_by_creation_key company key sales

-- `assertCreationHash`
abbrev pub assert_creation_hash : Sale → String → Result (Unit {0})
assert_creation_hash sale hash =
    throw_if (not (equals sale.creation_hash hash) || sale.deleted) conflict

abbrev pub checked_replay : Option Sale → String → Result (Option Sale)
checked_replay none hash = ok none
checked_replay (some sale) hash = do assert_creation_hash sale hash; ok (some sale)

-- `findByCreationKey`, where the request has a key.
unfoldable pub find_replay : ℕ → Option Creation → List Sale → Result (Option Sale)
find_replay company none sales = ok none
find_replay company (some c) sales =
    checked_replay (find_by_creation_key company c.key sales) c.hash

abbrev is_elsewhere : Option ℕ → Option ℕ → Bool
is_elsewhere none actual = false
is_elsewhere (some branch) none = true
is_elsewhere (some branch) (some actual) = not (actual == branch)

-- `assertValidWarehouse`, where there is one.
abbrev pub assert_valid_warehouse : List Warehouse → Option ℕ → ℕ → Option ℕ → Result (Unit {0})
assert_valid_warehouse warehouses none company branch = ok tt
assert_valid_warehouse warehouses (some id) company branch = do
  warehouse ← or_throw (find_warehouse id warehouses) not_found
  throw_if (not (is_active warehouse.status)) validation_error
  throw_if (not (warehouse.company_id == company)) validation_error
  throw_if (is_elsewhere branch warehouse.branch_id) validation_error

-- `assertValidCustomer`
abbrev pub assert_valid_customer : List Party → ℕ → ℕ → Result (Unit {0})
assert_valid_customer customers id company = do
  customer ← or_throw (find_party id company customers) not_found
  throw_if (is_blocked customer.status) validation_error

-- The loop that checks that the variants exist and are active.
unfoldable pub check_variants : Catalog → ℕ → List CreateSaleItem → Result (Unit {0})
check_variants products company [] = ok tt
check_variants products company (item ∷ items) = do
  variant ← or_throw (find_sale_variant item.product_variant_id company products.variants) not_found
  throw_if (not variant.is_active) validation_error
  check_variants products company items

-- What `create` checks before it opens its transaction.
unfoldable pub check_sale : SaleCatalog → ℕ → CreateSale → Result (Unit {0})
unfolding find_active_company check_variants
check_sale catalog company dto = do
  found ← or_throw (find_active_company company catalog.directory.companies) validation_error
  check_branch company catalog.directory.branches dto.branch_id
  assert_valid_warehouse catalog.warehouses dto.warehouse_id company dto.branch_id
  assert_valid_customer catalog.customers dto.customer_id company
  check_variants catalog.products company dto.items

-- `canAccessSalesAccount`
unfoldable pub can_access_sales_account : ℕ → ℕ → List SalesAccountAssignment → Bool
can_access_sales_account user account [] = false
can_access_sales_account user account (a ∷ assignments) =
    (user == a.user_id && account == a.sales_account_id && a.is_active)
    || can_access_sales_account user account assignments

-- `assertValidSalesAccount`, where there is one.
unfoldable pub assert_valid_sales_account : SaleCatalog → Option ℕ → ℕ → ℕ → Result (Unit {0})
unfolding can_access_sales_account
assert_valid_sales_account catalog none company user = ok tt
assert_valid_sales_account catalog (some id) company user = do
  account ←
      or_throw
        (find_row (λ (a : SalesAccount). a.id) (λ a. company == a.company_id) id
          catalog.sales_accounts)
        not_found
  throw_if (not account.is_active) validation_error
  throw_if (not (can_access_sales_account user id catalog.assignments)) forbidden
