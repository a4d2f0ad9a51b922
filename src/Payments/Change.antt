-- ===== src/Payments/Change.antt =====
-- `PaymentsService.reverse` and `PaymentsService.reallocate`
-- (src/modules/payments/services/payments.service.ts).
use Prim.Native.String.{String}
use erp_fashion_api.Common.{
  ℕ, ◌+◌, Bool, true, false, not, Option, some, List, [], ◌∷◌, ◌++◌, ◌==◌, if◌then◌else◌, find_row,
  update_row, Result, ok, ◌>>=◌, ◌>>◌, throw_if, or_throw, run, not_found, conflict,
}
use erp_fashion_api.Accounting.Posting.{PaymentDirection, reverse_payment}
use erp_fashion_api.Payments.{
  Store, Payment, PaymentStatus, PaymentAllocation, Allocation, purchase_invoice, same_type,
  assert_allocations_valid, assert_allocations_fully_cover_amount, posted_payment,
}
use erp_fashion_api.Payments.Create.{Call, allocation_rows, count}
use erp_fashion_api.Payments.Documents.{unapply_all, apply_all_invoices, totals_by_id}

abbrev pub payment_key : Payment → ℕ
payment_key p = p.id

abbrev pub find_payment : ℕ → ℕ → List Payment → Option Payment
find_payment id company = find_row payment_key (λ p. company == p.company_id) id

abbrev pub is_confirmed : PaymentStatus → Bool
is_confirmed PaymentStatus.confirmed = true
is_confirmed PaymentStatus.cancelled = false

-- `find(PaymentAllocation, { where: { paymentId } })`, without the rows' own ids.
unfoldable pub allocations_of : ℕ → List PaymentAllocation → List Allocation
allocations_of payment [] = []
allocations_of payment (a ∷ allocations) =
    if payment == a.payment_id
    then a.allocation ∷ allocations_of payment allocations
    else allocations_of payment allocations

-- `delete(PaymentAllocation, { paymentId })`
unfoldable pub delete_allocations : ℕ → List PaymentAllocation → List PaymentAllocation
delete_allocations payment [] = []
delete_allocations payment (a ∷ allocations) =
    if payment == a.payment_id
    then delete_allocations payment allocations
    else a ∷ delete_allocations payment allocations

abbrev pub is_outgoing : PaymentDirection → Bool
is_outgoing PaymentDirection.receipt = false
is_outgoing PaymentDirection.payment = true
is_outgoing PaymentDirection.refund = false

unfoldable pub only_invoices : List Allocation → Bool
only_invoices [] = true
only_invoices (a ∷ allocations) =
    if same_type a.reference_type purchase_invoice then only_invoices allocations else false

-- `assertPurchaseInvoiceOnlyAllocations`
unfoldable pub assert_purchase_invoice_only_allocations :
    Payment → List Allocation → Result (Unit {0})
assert_purchase_invoice_only_allocations payment allocations = do
  throw_if (not (is_outgoing payment.direction)) conflict
  throw_if (not (only_invoices allocations)) conflict

-- What both requests read and check first.
unfoldable pub changeable : ℕ → Call → Store → Result Payment
changeable id call s = do
  payment ← or_throw (find_payment id call.company_id s.payments) not_found
  throw_if (not (is_confirmed payment.status)) conflict
  assert_purchase_invoice_only_allocations payment (allocations_of payment.id s.allocations)
  ok payment

abbrev pub reversed : Call → String → Payment → Payment
reversed call reason p = record p {
  status = PaymentStatus.cancelled;
  updated_by = call.user_id;
  reversed_at = some call.now;
  reversed_by = some call.user_id;
  reversal_reason = some reason;
}

-- The body of `reverse`.
unfoldable pub apply_reverse : ℕ → Call → String → Store → Result (Payment × Store)
apply_reverse id call reason s = do
  payment ← changeable id call s
  documents ←
      unapply_all call.company_id call.user_id
        (totals_by_id (allocations_of payment.id s.allocations)) s.documents
  let cancelled = reversed call reason payment
  accounting ←
      reverse_payment (posted_payment cancelled) call.user_id (some reason) call.now s.accounting
  ok (
    cancelled,
    record s {
      documents = documents;
      payments = update_row payment_key payment.id (reversed call reason) s.payments;
      accounting = accounting.1;
    },
  )

-- `reverse`
unfoldable pub reverse : ℕ → Call → String → Store → Result Payment × Store
reverse id call reason = run (apply_reverse id call reason)

abbrev pub reallocated : Call → Option String → Payment → Payment
reallocated call reason p = record p {
  updated_by = call.user_id;
  reallocated_at = some call.now;
  reallocated_by = some call.user_id;
  reallocation_reason = reason;
}

-- The body of `reallocate`.
unfoldable pub apply_reallocate :
    ℕ → Call → Option String → List Allocation → Store → Result (Payment × Store)
apply_reallocate id call reason allocations s = do
  payment ← changeable id call s
  assert_allocations_valid payment.direction payment.amount allocations
  assert_allocations_fully_cover_amount payment.amount allocations
  released ←
      unapply_all call.company_id call.user_id
        (totals_by_id (allocations_of payment.id s.allocations)) s.documents
  documents ← apply_all_invoices call.company_id call.user_id (totals_by_id allocations) released
  ok (
    reallocated call reason payment,
    record s {
      documents = documents;
      payments = update_row payment_key payment.id (reallocated call reason) s.payments;
      allocations =
          delete_allocations payment.id s.allocations
          ++ allocation_rows payment.id allocations s.next_id;
      next_id = s.next_id + count allocations;
    },
  )

-- `reallocate`
unfoldable pub reallocate :
    ℕ → Call → Option String → List Allocation → Store → Result Payment × Store
reallocate id call reason allocations = run (apply_reallocate id call reason allocations)
