-- ===== src/Payments/Examples.antt =====
-- A receipt of 10.00 for a sale of 30.00.
use Prim.Native.String.{String}
use erp_fashion_api.Common.{
  ◌≡◌, refl, Bool, true, false, none, some, [], ◌∷◌, Result, ok, throw, ErrorCode, arith,
}
use erp_fashion_api.Accounting.Store.{Store as AccountingStore}
use erp_fashion_api.Accounting.Posting.{PaymentDirection}
use erp_fashion_api.Outbox.{System}
use erp_fashion_api.Sales.Examples.{order}
use erp_fashion_api.Payments.{
  Store, Payment, PaymentReferenceType, CreatePayment, Catalog, PartyStatus, DocumentTables, Target,
  validate,
}
use erp_fashion_api.Payments.Documents.{apply_all, totals_by_target}
use erp_fashion_api.Payments.Create.{
  Call, PaymentConfirmedEventPayload, create_payment, find_existing, apply_create,
}
use erp_fashion_api.Payments.PaidSales.{paid_at}
use erp_fashion_api.Payments.Allocated.{allocated}
use erp_fashion_api.Payments.History.{Reach, opening, start, documents, created, paid_is_allocated}
use erp_fashion_api.Payments.Change.{reverse}
use erp_fashion_api.Payments.Later.{at_once, reversed_one}
use erp_fashion_api.Payments.Idempotency.{
  create_payment_replays, concurrent_replay_lem, found_of_answer,
}
use erp_fashion_api.Payments.Create.{
  new_payment, numbered, insert_payment, post_if_due, find_by_idempotency_key, settle_create,
  allocation_rows, count,
}
use erp_fashion_api.Payments.{
  validate_parties, allocated_total, assert_allocations_valid, assert_valid_party_for_direction,
  assert_valid_payment_method,
}
use erp_fashion_api.Common.{find_row, sort_by, ◌+ℤ◌, ◌-ℤ◌}
use erp_fashion_api.Accounting.Journal.{
  create_internal, find_active_branch, find_active_company, line_rows, save_new,
}
use erp_fashion_api.Payments.Documents.{build_totals}
use erp_fashion_api.Sales.{apply_payment, find_sale, update_paid}
use erp_fashion_api.Accounting.Posting.{
  post_payment, resolve_account, payment_accounts, find_active_account,
}
use erp_fashion_api.Accounting.Store.{find_by_source, find_fiscal_year}
use erp_fashion_api.Accounting.DoubleEntry.{assert_balanced, assert_one_sided_line, sum_lines}
use erp_fashion_api.Accounting.Period.{find_joined, open_year, resolve_open_period}
use erp_fashion_api.Numbering.{generate_number, last_sequence_of}

abbrev books : AccountingStore
books = record {
  entries = [];
  lines = [];
  periods = [];
  fiscal_years = [];
  counters = [];
  next_id = 0;
}

abbrev outbox : System
outbox = record { events = []; delivered = []; in_flight = []; next_id = 0 }

-- Company 1 with customer 5, a cash method 6, and the two accounts that a receipt needs.
abbrev catalog : Catalog
catalog = record {
  directory = record {
    companies = record { id = 1; is_active = true } ∷ [];
    branches = [];
    accounts =
        record { id = 100; company_id = 1; is_active = true }
        ∷ record { id = 101; company_id = 1; is_active = true }
        ∷ [];
  };
  customers =
      record { id = 5; company_id = 1; status = PartyStatus.active; account_id = some 101 } ∷ [];
  suppliers = [];
  methods = record { id = 6; company_id = 1; is_active = true; gl_account_id = some 100 } ∷ [];
}

abbrev json : PaymentConfirmedEventPayload → String
json _ = "{}"

abbrev call : Call
call = record { company_id = 1; user_id = 7; now = 20_260_105_120_000; request_id = none }

abbrev receipt : CreatePayment
receipt = record {
  branch_id = none;
  direction = PaymentDirection.receipt;
  customer_id = some 5;
  supplier_id = none;
  payment_method_id = 6;
  amount = 1000;
  currency = "EUR";
  reference = none;
  payment_date = none;
  notes = none;
  allocations =
      record {
        reference_type = PaymentReferenceType.sale;
        reference_id = 50;
        allocated_amount = 1000;
      }
      ∷ [];
}

abbrev unpaid : Store
unpaid = record (opening books outbox) {
  documents = record { sales = order ∷ []; orders = []; invoices = []; returns = [] };
}

nothing_paid_yet :
    (k : Target) → paid_at k unpaid.documents ≡ paid_at k (opening books outbox).documents
nothing_paid_yet (PaymentReferenceType.sale, r) = ground arith
nothing_paid_yet (PaymentReferenceType.purchase_invoice, r) = refl
nothing_paid_yet (PaymentReferenceType.purchase_order, r) = refl
nothing_paid_yet (PaymentReferenceType.sale_return, r) = refl

unpaid-Reach : Reach unpaid
unpaid-Reach =
    documents unpaid.documents (record { of_sales = (refl, tt); of_invoices = tt; of_returns = tt })
      nothing_paid_yet (start books outbox)

abbrev answer : Result (Payment × Bool) × Store
answer = create_payment catalog json call receipt (some "k-1") (λ t. t) unpaid

paid_is_allocated_example :
    paid_at (PaymentReferenceType.sale, 50) answer.1.documents
    ≡ allocated (PaymentReferenceType.sale, 50) answer.1.payments answer.1.allocations
paid_is_allocated_example =
    paid_is_allocated (PaymentReferenceType.sale, 50)
      (created catalog json call receipt (some "k-1") (λ t. t) unpaid-Reach unpaid-Reach)

abbrev paid : Payment
paid = new_payment call receipt (some "k-1") 1 (numbered call receipt unpaid).0

answered : answer ≡ (ok (paid, false), answer.1)
unfolding create_payment validate validate_parties find_row allocated_total apply_create apply_all
    sort_by build_totals apply_payment insert_payment post_if_due post_payment find_by_source
    resolve_account payment_accounts create_internal assert_balanced assert_one_sided_line sum_lines
    find_active_branch find_active_company line_rows save_new find_joined open_year
    resolve_open_period find_active_account find_fiscal_year ◌+ℤ◌ ◌-ℤ◌ find_by_idempotency_key
    settle_create assert_allocations_valid assert_valid_party_for_direction
    assert_valid_payment_method find_sale update_paid generate_number last_sequence_of
    allocation_rows count
answered = refl

create_payment_replays_example :
    let t = (reverse 1 call "wrong" answer.1).1 in
    (q : Payment) × (q.id ≡ paid.id)
    × (create_payment catalog json call receipt (some "k-1") (λ t. t) t ≡ (ok (q, true), t))
create_payment_replays_example =
    create_payment_replays catalog catalog json json call call receipt receipt "k-1" (λ t. t)
      (λ t. t) unpaid answer.1 (reverse 1 call "wrong" answer.1).1 paid false refl answered
      (reversed_one 1 call "wrong" at_once)

key_is_new : find_existing 1 (some "k-1") unpaid.payments ≡ none
unfolding find_by_idempotency_key
key_is_new = refl

receipt_is_valid : validate catalog 1 receipt ≡ ok tt
unfolding validate find_row allocated_total
receipt_is_valid = refl

key_is_taken : find_existing 1 (some "k-1") answer.1.payments ≡ some paid
key_is_taken =
    found_of_answer catalog json call receipt "k-1" (λ t. t) unpaid paid false answer.1 answered

concurrent_replay_lem_example :
    ((d : DocumentTables)
      → apply_all 1 7 (totals_by_target receipt.allocations) answer.1.documents ≡ ok d
      → create_payment catalog json call receipt (some "k-1") (λ _. answer.1) unpaid
        ≡ (ok (paid, true), answer.1))
    × ((e : ErrorCode)
        → apply_all 1 7 (totals_by_target receipt.allocations) answer.1.documents ≡ throw e
        → create_payment catalog json call receipt (some "k-1") (λ _. answer.1) unpaid
          ≡ (throw e, answer.1))
concurrent_replay_lem_example =
    concurrent_replay_lem catalog json call receipt "k-1" (λ _. answer.1) unpaid paid key_is_new
      receipt_is_valid key_is_taken
