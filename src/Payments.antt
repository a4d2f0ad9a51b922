-- ===== src/Payments.antt =====
-- The tables of src/modules/payments, the documents that payments settle, and the checks that
-- `PaymentsService` (services/payments.service.ts) makes on a request.
pub mod Documents
pub mod Create
pub mod Change
pub mod PaidSales
pub mod Paid
pub mod Applied
pub mod Totals
pub mod Allocated
pub mod Settled
pub mod History
pub mod Later
pub mod Idempotency
mod Examples
use Prim.Native.String.{String}
use erp_fashion_api.Common.{
  ℕ, ◌+◌, Bool, true, false, not, ◌&&◌, Option, none, some, List, [], ◌∷◌, ◌==◌, ltb, ℤ, is_some,
  pos, find_row, Result, ok, throw, ◌>>=◌, ◌>>◌, throw_if, or_throw, validation_error, not_found,
}
use erp_fashion_api.Decimal.{Text}
use erp_fashion_api.Decimal.Printed.{to_string}
use erp_fashion_api.Numbering.{Counter}
use erp_fashion_api.Accounting.Store.{Store as AccountingStore}
use erp_fashion_api.Accounting.Journal.{Directory, find_active_company, check_branch}
use erp_fashion_api.Accounting.Posting.{
  PaymentDirection, Payment as PostedPayment, PaymentMethod as PostedMethod,
  Customer as PostedCustomer, Supplier as PostedSupplier,
}
use erp_fashion_api.Outbox.{System}
use erp_fashion_api.Sales.{Sale}

pub data PaymentReferenceType : Type 0 where
  purchase_invoice purchase_order sale sale_return : PaymentReferenceType

pub data PaymentStatus : Type 0 where
  confirmed cancelled : PaymentStatus

-- A document that a payment is allocated to.
abbrev pub Target : Type 0
Target = PaymentReferenceType × ℕ

-- An allocation as the request gives it; amounts count cents.
pub record Allocation : Type 0 where
  pub reference_type : PaymentReferenceType
  pub reference_id : ℕ
  pub allocated_amount : ℕ

pub record PaymentAllocation : Type 0 where
  pub id : ℕ
  pub payment_id : ℕ
  pub allocation : Allocation

pub record Payment : Type 0 where
  pub id : ℕ
  pub payment_number : Text
  pub company_id : ℕ
  pub branch_id : Option ℕ
  pub direction : PaymentDirection
  pub customer_id : Option ℕ
  pub supplier_id : Option ℕ
  pub payment_method_id : ℕ
  pub amount : ℕ
  pub currency : String
  pub reference : Option String
  pub idempotency_key : Option String
  pub status : PaymentStatus
  pub payment_date : ℕ
  pub notes : Option String
  pub created_by : ℕ
  pub updated_by : ℕ
  pub reversed_at : Option ℕ
  pub reversed_by : Option ℕ
  pub reversal_reason : Option String
  pub reallocated_at : Option ℕ
  pub reallocated_by : Option ℕ
  pub reallocation_reason : Option String

pub record CreatePayment : Type 0 where
  pub branch_id : Option ℕ
  pub direction : PaymentDirection
  pub customer_id : Option ℕ
  pub supplier_id : Option ℕ
  pub payment_method_id : ℕ
  pub amount : ℕ
  pub currency : String
  pub reference : Option String
  pub payment_date : Option ℕ
  pub notes : Option String
  pub allocations : List Allocation

pub data PartyStatus : Type 0 where
  active inactive blocked : PartyStatus

-- A customer or a supplier: the columns that are read here.
pub record Party : Type 0 where
  pub id : ℕ
  pub company_id : ℕ
  pub status : PartyStatus
  pub account_id : Option ℕ

pub record PaymentMethod : Type 0 where
  pub id : ℕ
  pub company_id : ℕ
  pub is_active : Bool
  pub gl_account_id : Option ℕ

-- The tables that the service only reads.
pub record Catalog : Type 0 where
  pub directory : Directory
  pub customers : List Party
  pub suppliers : List Party
  pub methods : List PaymentMethod

pub data PurchaseInvoiceStatus : Type 0 where
  draft posted voided : PurchaseInvoiceStatus

-- The columns of an invoice that payments read and write. A balance may be negative.
pub record PurchaseInvoice : Type 0 where
  pub id : ℕ
  pub company_id : ℕ
  pub purchase_order_id : ℕ
  pub status : PurchaseInvoiceStatus
  pub grand_total : ℕ
  pub paid_amount : ℕ
  pub credited_amount : ℕ
  pub balance_amount : ℤ
  pub updated_by : ℕ

-- The columns of an order that payments read and write; `is_released` is what `isReleasedStatus`
-- says of its status.
pub record PurchaseOrder : Type 0 where
  pub id : ℕ
  pub company_id : ℕ
  pub is_released : Bool
  pub grand_total : ℕ
  pub paid_amount : ℕ
  pub balance_amount : ℤ
  pub updated_by : ℕ

pub data SaleReturnStatus : Type 0 where
  draft confirmed refunded cancelled : SaleReturnStatus

-- The columns of a sale return that refunds read and write.
pub record SaleReturn : Type 0 where
  pub id : ℕ
  pub company_id : ℕ
  pub status : SaleReturnStatus
  pub refund_amount : ℕ
  pub refunded_amount : ℕ

-- The documents that payments settle.
pub record DocumentTables : Type 0 where
  pub sales : List Sale
  pub orders : List PurchaseOrder
  pub invoices : List PurchaseInvoice
  pub returns : List SaleReturn

pub record Store : Type 0 where
  pub documents : DocumentTables
  pub payments : List Payment
  pub allocations : List PaymentAllocation
  pub counters : List Counter
  pub accounting : AccountingStore
  pub outbox : System
  pub next_id : ℕ

abbrev pub same_type : PaymentReferenceType → PaymentReferenceType → Bool
same_type purchase_invoice purchase_invoice = true
same_type purchase_order purchase_order = true
same_type sale sale = true
same_type sale_return sale_return = true
same_type _ _ = false

abbrev pub same_target : Target → Target → Bool
same_target (t, r) (u, q) = same_type t u && r == q

abbrev pub target_of : Allocation → Target
target_of a = (a.reference_type, a.reference_id)

-- `VALID_DIRECTION_REFERENCE_PAIRS`
abbrev pub reference_type_for : PaymentDirection → PaymentReferenceType
reference_type_for PaymentDirection.receipt = sale
reference_type_for PaymentDirection.payment = purchase_invoice
reference_type_for PaymentDirection.refund = sale_return

abbrev pub is_blocked : PartyStatus → Bool
is_blocked PartyStatus.active = false
is_blocked PartyStatus.inactive = false
is_blocked PartyStatus.blocked = true

abbrev pub find_party : ℕ → ℕ → List Party → Option Party
find_party id company = find_row (λ (p : Party). p.id) (λ p. company == p.company_id) id

abbrev check_party : Option ℕ → Option ℕ → ℕ → List Party → Result (Unit {0})
check_party none other company parties = throw validation_error
check_party (some id) other company parties = do
  throw_if (is_some other) validation_error
  party ← or_throw (find_party id company parties) not_found
  throw_if (is_blocked party.status) validation_error

-- `assertValidPartyForDirection`
unfoldable pub assert_valid_party_for_direction :
    Catalog → PaymentDirection → ℕ → Option ℕ → Option ℕ → Result (Unit {0})
assert_valid_party_for_direction catalog PaymentDirection.payment company customer supplier =
    check_party supplier customer company catalog.suppliers
assert_valid_party_for_direction catalog _ company customer supplier =
    check_party customer supplier company catalog.customers

abbrev pub find_method : ℕ → ℕ → List PaymentMethod → Option PaymentMethod
find_method id company = find_row (λ (m : PaymentMethod). m.id) (λ m. company == m.company_id) id

-- `assertValidPaymentMethod`
unfoldable pub assert_valid_payment_method : Catalog → ℕ → ℕ → Result (Unit {0})
assert_valid_payment_method catalog id company = do
  method ← or_throw (find_method id company catalog.methods) not_found
  throw_if (not method.is_active) validation_error

-- The loop of `assertAllocationsValid`: the sum of the amounts.
unfoldable pub allocated_total : PaymentReferenceType → List Allocation → ℕ → Result ℕ
allocated_total expected [] sum = ok sum
allocated_total expected (a ∷ allocations) sum = do
  throw_if (not (same_type a.reference_type expected)) validation_error
  throw_if (not (ltb 0 a.allocated_amount)) validation_error
  allocated_total expected allocations (sum + a.allocated_amount)

-- `assertAllocationsValid`
unfoldable pub assert_allocations_valid : PaymentDirection → ℕ → List Allocation → Result (Unit {0})
assert_allocations_valid direction amount allocations = do
  sum ← allocated_total (reference_type_for direction) allocations 0
  throw_if (ltb amount sum) validation_error

unfoldable pub sum_allocations : List Allocation → ℕ
sum_allocations [] = 0
sum_allocations (a ∷ allocations) = a.allocated_amount + sum_allocations allocations

-- `assertAllocationsFullyCoverAmount`
abbrev pub assert_allocations_fully_cover_amount : ℕ → List Allocation → Result (Unit {0})
assert_allocations_fully_cover_amount amount allocations =
    throw_if (not (sum_allocations allocations == amount)) validation_error

-- What `create` checks of the company, the branch, the party and the method.
unfoldable pub validate_parties : Catalog → ℕ → CreatePayment → Result (Unit {0})
unfolding find_active_company assert_valid_party_for_direction assert_valid_payment_method
validate_parties catalog company dto = do
  found ← or_throw (find_active_company company catalog.directory.companies) validation_error
  check_branch company catalog.directory.branches dto.branch_id
  assert_valid_party_for_direction catalog dto.direction company dto.customer_id dto.supplier_id
  assert_valid_payment_method catalog dto.payment_method_id company

-- What `create` checks before it opens its transaction.
unfoldable pub validate : Catalog → ℕ → CreatePayment → Result (Unit {0})
unfolding validate_parties assert_allocations_valid
validate catalog company dto = do
  validate_parties catalog company dto
  assert_allocations_valid dto.direction dto.amount dto.allocations

-- The columns of a payment, its method and its parties that posting reads.
abbrev pub posted_payment : Payment → PostedPayment
posted_payment p = record {
  id = p.id;
  payment_number = to_string p.payment_number;
  company_id = p.company_id;
  branch_id = p.branch_id;
  direction = p.direction;
  amount = pos p.amount;
  payment_date = p.payment_date;
}

abbrev pub posted_method : PaymentMethod → PostedMethod
posted_method m = record { gl_account_id = m.gl_account_id }

abbrev pub posted_customer : Party → PostedCustomer
posted_customer p = record { receivable_account_id = p.account_id }

abbrev pub posted_supplier : Party → PostedSupplier
posted_supplier p = record { payable_account_id = p.account_id }
