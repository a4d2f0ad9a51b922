-- ===== src/Payments/Create.antt =====
-- `PaymentsService.create` (src/modules/payments/services/payments.service.ts).
use Prim.Native.String.{String}
use text.Mathlib.Text.{◌==◌ as str_eq}
use erp_fashion_api.Common.{
  ℕ, ◌+◌, Bool, true, false, ◌&&◌, Option, none, some, List, [], ◌∷◌, ◌++◌, map, ◌==◌,
  if◌then◌else◌, is_some, find_row, Result, ok, throw, ◌>>=◌, or_throw, internal_error,
}
use erp_fashion_api.Decimal.{Text}
use erp_fashion_api.Numbering.{Counter, generate_number}
use erp_fashion_api.Accounting.Store.{Store as AccountingStore, year_of}
use erp_fashion_api.Accounting.Posting.{post_payment, is_refund}
use erp_fashion_api.Outbox.{CreateOutboxEvent, create_event}
use erp_fashion_api.Payments.{
  Store, Payment, PaymentStatus, PaymentAllocation, Allocation, CreatePayment, Catalog, Party,
  PaymentMethod, DocumentTables, validate, posted_payment, posted_method, posted_customer,
  posted_supplier,
}
use erp_fashion_api.Payments.Documents.{apply_all, totals_by_target}

-- Who asks, for which company, when, and under which request id.
pub record Call : Type 0 where
  pub company_id : ℕ
  pub user_id : ℕ
  pub now : ℕ
  pub request_id : Option String

-- What the event of a payment carries.
pub record PaymentConfirmedEventPayload : Type 0 where
  pub payment : Payment
  pub allocation_ids : List ℕ

abbrev pub has_key : ℕ → String → Payment → Bool
has_key company key p =
    company == p.company_id && elim p.idempotency_key [ none ↦ false | some k ↦ str_eq key k ]

-- `findByIdempotencyKey`
unfoldable pub find_by_idempotency_key : ℕ → String → List Payment → Option Payment
find_by_idempotency_key company key [] = none
find_by_idempotency_key company key (p ∷ payments) =
    if has_key company key p then some p else find_by_idempotency_key company key payments

-- The payment that the key of the request names, if it has a key.
abbrev pub find_existing : ℕ → Option String → List Payment → Option Payment
find_existing company none payments = none
find_existing company (some key) payments = find_by_idempotency_key company key payments

abbrev pub pmt : Text
pmt = b'P' ∷ b'M' ∷ b'T' ∷ []

-- `dto.paymentDate ? new Date(dto.paymentDate) : new Date()`
abbrev pub payment_date_of : CreatePayment → ℕ → ℕ
payment_date_of dto now = elim dto.payment_date [ none ↦ now | some date ↦ date ]

abbrev pub new_payment : Call → CreatePayment → Option String → ℕ → Text → Payment
new_payment call dto key id number = record {
  id = id;
  payment_number = number;
  company_id = call.company_id;
  branch_id = dto.branch_id;
  direction = dto.direction;
  customer_id = dto.customer_id;
  supplier_id = dto.supplier_id;
  payment_method_id = dto.payment_method_id;
  amount = dto.amount;
  currency = dto.currency;
  reference = dto.reference;
  idempotency_key = key;
  status = PaymentStatus.confirmed;
  payment_date = payment_date_of dto call.now;
  notes = dto.notes;
  created_by = call.user_id;
  updated_by = call.user_id;
  reversed_at = none;
  reversed_by = none;
  reversal_reason = none;
  reallocated_at = none;
  reallocated_by = none;
  reallocation_reason = none;
}

-- The rows of the allocations of a payment, `id` being the next id.
unfoldable pub allocation_rows : ℕ → List Allocation → ℕ → List PaymentAllocation
allocation_rows payment [] id = []
allocation_rows payment (a ∷ allocations) id =
    record { id = id; payment_id = payment; allocation = a }
    ∷ allocation_rows payment allocations (id + 1)

unfoldable pub count : List Allocation → ℕ
count [] = 0
count (a ∷ allocations) = count allocations + 1

abbrev find_optional : Option ℕ → List Party → Option Party
find_optional none parties = none
find_optional (some id) parties = find_row (λ (p : Party). p.id) (λ _. true) id parties

-- The posting of a payment that is no refund.
unfoldable pub post_if_due : Catalog → Call → Payment → AccountingStore → Result AccountingStore
post_if_due catalog call payment accounting =
    let post = (do
      method ←
          or_throw
            (find_row (λ (m : PaymentMethod). m.id) (λ _. true) payment.payment_method_id
              catalog.methods)
            internal_error
      posted ←
          post_payment catalog.directory.accounts (posted_payment payment) (posted_method method)
            (elim (find_optional payment.customer_id catalog.customers) [
              | none ↦ none
              | some c ↦ some (posted_customer c)
            ])
            (elim (find_optional payment.supplier_id catalog.suppliers) [
              | none ↦ none
              | some c ↦ some (posted_supplier c)
            ])
            call.user_id call.now accounting
      ok posted.1) in
    if is_refund payment.direction then ok accounting else post

abbrev pub confirmed_event :
    (PaymentConfirmedEventPayload → String)
    → Call
    → Payment
    → List PaymentAllocation
    → CreateOutboxEvent
confirmed_event json call payment rows = record {
  event_type = "payment.confirmed";
  event_version = some 1;
  aggregate_type = "Payment";
  aggregate_id = payment.id;
  company_id = payment.company_id;
  branch_id = payment.branch_id;
  correlation_id = call.request_id;
  causation_id = none;
  payload =
      json
        (record { payment = payment; allocation_ids = map (λ (a : PaymentAllocation). a.id) rows });
}

-- The store with everything written; the ids of the payment and its rows follow `next_id`.
abbrev pub finish_create :
    (PaymentConfirmedEventPayload → String)
    → Call
    → CreatePayment
    → Payment
    → List Counter
    → DocumentTables
    → AccountingStore
    → Store
    → Store
finish_create json call dto payment counters documents accounting s =
    let rows = allocation_rows payment.id dto.allocations (s.next_id + 2) in
    record s {
      documents = documents;
      payments = s.payments ++ (payment ∷ []);
      allocations = s.allocations ++ rows;
      counters = counters;
      accounting = accounting;
      outbox = create_event (confirmed_event json call payment rows) call.now s.outbox;
      next_id = s.next_id + 2 + count dto.allocations;
    }

-- The insertion of the payment and what follows it. A key that is taken violates the unique index:
-- `ok none`.
unfoldable pub insert_payment :
    Catalog
    → (PaymentConfirmedEventPayload → String)
    → Call
    → CreatePayment
    → Option String
    → Payment
    → List Counter
    → DocumentTables
    → Store
    → Result (Option (Payment × Store))
insert_payment catalog json call dto key payment counters documents s =
    let inserted = (do
      accounting ← post_if_due catalog call payment s.accounting
      ok (some (payment, finish_create json call dto payment counters documents accounting s))) in
    if is_some (find_existing call.company_id key s.payments) then ok none else inserted

-- The number that a payment gets, and the counters after it.
abbrev pub numbered : Call → CreatePayment → Store → Text × List Counter
numbered call dto s =
    generate_number pmt s.next_id call.company_id (year_of (payment_date_of dto call.now))
      s.counters

-- The body of the transaction.
unfoldable pub apply_create :
    Catalog
    → (PaymentConfirmedEventPayload → String)
    → Call
    → CreatePayment
    → Option String
    → Store
    → Result (Option (Payment × Store))
apply_create catalog json call dto key s = do
  let number = numbered call dto s
  documents ← apply_all call.company_id call.user_id (totals_by_target dto.allocations) s.documents
  insert_payment catalog json call dto key (new_payment call dto key (s.next_id + 1) number.0)
      number.1 documents s

-- The response, and whether the payment existed.
abbrev pub Answer : Type 0
Answer = Result (Payment × Bool) × Store

-- What becomes of the transaction's end: the payment of a duplicate key is looked up again.
unfoldable pub settle_create :
    Call → Option String → Result (Option (Payment × Store)) → Store → Answer
unfolding find_by_idempotency_key
settle_create call key (throw e) s = (throw e, s)
settle_create call key (ok (some (payment, s'))) s = (ok (payment, false), s')
settle_create call key (ok none) s = elim (find_existing call.company_id key s.payments) [
  | some existing ↦ (ok (existing, true), s)
  | none ↦ (throw internal_error, s)
]

-- The part after the first lookup, `t` being the store when the transaction begins.
abbrev pub create_new :
    Catalog
    → (PaymentConfirmedEventPayload → String)
    → Call
    → CreatePayment
    → Option String
    → Store
    → Answer
create_new catalog json call dto key t = elim (validate catalog call.company_id dto) [
  | throw e ↦ (throw e, t)
  | ok _ ↦ settle_create call key (apply_create catalog json call dto key t) t
]

-- `create`, with the trimmed key if it is not empty, and with what other requests do between the
-- lookup of the key and the transaction.
unfoldable pub create_payment :
    Catalog
    → (PaymentConfirmedEventPayload → String)
    → Call
    → CreatePayment
    → Option String
    → (Store → Store)
    → Store
    → Answer
unfolding find_by_idempotency_key settle_create
create_payment catalog json call dto key others s =
    elim (find_existing call.company_id key s.payments) [
      | some existing ↦ (ok (existing, true), s)
      | none ↦ create_new catalog json call dto key (others s)
    ]
