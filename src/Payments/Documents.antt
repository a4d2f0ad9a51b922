-- ===== src/Payments/Documents.antt =====
-- How a payment's amounts reach the documents: `applyPayment` of sales.service.ts,
-- purchase-invoices.service.ts and purchase-orders.service.ts, `applyRefund` of
-- sale-returns.service.ts, `unapplyPayment` of purchase-invoices.service.ts, and the loops of
-- payments.service.ts that call them.
use erp_fashion_api.Common.{
  ℕ, ◌+◌, ◌-◌, Bool, true, false, not, Option, List, [], ◌∷◌, ◌==◌, ltb, leb, if◌then◌else◌, ℤ, pos,
  ◌-ℤ◌, find_row, update_row, sort_by, Result, ok, ◌>>=◌, ◌>>◌, throw_if, or_throw, not_found,
  conflict, unprocessable_entity,
}
use erp_fashion_api.Sales.{apply_payment}
use erp_fashion_api.Payments.{
  Target, Allocation, PaymentReferenceType, purchase_invoice, purchase_order, sale, sale_return,
  PurchaseInvoice, PurchaseInvoiceStatus, PurchaseOrder, SaleReturn, SaleReturnStatus,
  DocumentTables, same_target, target_of,
}

abbrev pub invoice_key : PurchaseInvoice → ℕ
invoice_key i = i.id

abbrev pub order_key : PurchaseOrder → ℕ
order_key o = o.id

abbrev pub return_key : SaleReturn → ℕ
return_key r = r.id

abbrev pub find_invoice : ℕ → ℕ → List PurchaseInvoice → Option PurchaseInvoice
find_invoice id company = find_row invoice_key (λ i. company == i.company_id) id

abbrev pub find_order : ℕ → ℕ → List PurchaseOrder → Option PurchaseOrder
find_order id company = find_row order_key (λ o. company == o.company_id) id

abbrev pub find_return : ℕ → ℕ → List SaleReturn → Option SaleReturn
find_return id company = find_row return_key (λ r. company == r.company_id) id

abbrev pub is_posted : PurchaseInvoiceStatus → Bool
is_posted PurchaseInvoiceStatus.draft = false
is_posted PurchaseInvoiceStatus.posted = true
is_posted PurchaseInvoiceStatus.voided = false

abbrev pub paid_invoice : ℕ → ℕ → PurchaseInvoice → PurchaseInvoice
paid_invoice paid user i = record i {
  paid_amount = paid;
  balance_amount = pos i.grand_total -ℤ pos (i.credited_amount + paid);
  updated_by = user;
}

abbrev paid_order : ℕ → ℤ → ℕ → PurchaseOrder → PurchaseOrder
paid_order paid balance user o = record o {
  paid_amount = paid;
  balance_amount = balance;
  updated_by = user;
}

-- The two updates of one payload, to the invoice and to its order.
abbrev pub write_invoice : PurchaseInvoice → ℕ → ℕ → ℕ → DocumentTables → DocumentTables
write_invoice invoice order paid user d = record d {
  invoices = update_row invoice_key invoice.id (paid_invoice paid user) d.invoices;
  orders =
      update_row order_key order
        (paid_order paid (pos invoice.grand_total -ℤ pos (invoice.credited_amount + paid)) user)
        d.orders;
}

-- `PurchaseInvoicesService.applyPayment`
unfoldable pub apply_to_invoice : ℕ → ℕ → ℕ → ℕ → DocumentTables → Result DocumentTables
apply_to_invoice id company allocated user d = do
  invoice ← or_throw (find_invoice id company d.invoices) not_found
  throw_if (not (is_posted invoice.status)) conflict
  order ← or_throw (find_order invoice.purchase_order_id company d.orders) not_found
  let paid = invoice.paid_amount + allocated
  throw_if (ltb invoice.grand_total (invoice.credited_amount + paid)) conflict
  ok (write_invoice invoice order.id paid user d)

-- `PurchaseInvoicesService.unapplyPayment`
unfoldable pub unapply_from_invoice : ℕ → ℕ → ℕ → ℕ → DocumentTables → Result DocumentTables
unapply_from_invoice id company allocated user d = do
  invoice ← or_throw (find_invoice id company d.invoices) not_found
  order ← or_throw (find_order invoice.purchase_order_id company d.orders) not_found
  throw_if (ltb invoice.paid_amount allocated) conflict
  ok (write_invoice invoice order.id (invoice.paid_amount - allocated) user d)

-- `PurchaseOrdersService.applyPayment`
unfoldable pub apply_to_order : ℕ → ℕ → ℕ → ℕ → DocumentTables → Result DocumentTables
apply_to_order id company allocated user d = do
  order ← or_throw (find_order id company d.orders) not_found
  throw_if (not order.is_released) conflict
  let paid = order.paid_amount + allocated
  throw_if (ltb order.grand_total paid) conflict
  ok (record d {
    orders =
        update_row order_key order.id (paid_order paid (pos order.grand_total -ℤ pos paid) user)
          d.orders;
  })

abbrev is_refundable : SaleReturnStatus → Bool
is_refundable SaleReturnStatus.draft = false
is_refundable SaleReturnStatus.confirmed = true
is_refundable SaleReturnStatus.refunded = true
is_refundable SaleReturnStatus.cancelled = false

abbrev pub refunded_return : ℕ → SaleReturn → SaleReturn
refunded_return refunded r = record r {
  refunded_amount = refunded;
  status =
      if leb r.refund_amount refunded
      then SaleReturnStatus.refunded
      else SaleReturnStatus.confirmed;
}

-- `SaleReturnsService.applyRefund`
unfoldable pub apply_refund : ℕ → ℕ → ℕ → DocumentTables → Result DocumentTables
apply_refund id company allocated d = do
  found ← or_throw (find_return id company d.returns) not_found
  throw_if (not (is_refundable found.status)) unprocessable_entity
  let refunded = found.refunded_amount + allocated
  throw_if (ltb found.refund_amount refunded) conflict
  ok (record d { returns = update_row return_key found.id (refunded_return refunded) d.returns })

abbrev pub apply_to_sale : ℕ → ℕ → ℕ → ℕ → DocumentTables → Result DocumentTables
apply_to_sale id company allocated user d = do
  sales ← apply_payment id company allocated user d.sales
  ok (record d { sales = sales })

-- The branches on the reference type.
abbrev pub apply_to : ℕ → ℕ → Target → ℕ → DocumentTables → Result DocumentTables
apply_to company user (sale, id) amount d = apply_to_sale id company amount user d
apply_to company user (purchase_invoice, id) amount d = apply_to_invoice id company amount user d
apply_to company user (purchase_order, id) amount d = apply_to_order id company amount user d
apply_to company user (sale_return, id) amount d = apply_refund id company amount d

unfoldable pub apply_all : ℕ → ℕ → List (Target × ℕ) → DocumentTables → Result DocumentTables
apply_all company user [] d = ok d
apply_all company user ((target, amount) ∷ totals) d = do
  next ← apply_to company user target amount d
  apply_all company user totals next

-- The loops of `reverse` and `reallocate`: only the id of a target is used.
unfoldable pub unapply_all : ℕ → ℕ → List (Target × ℕ) → DocumentTables → Result DocumentTables
unapply_all company user [] d = ok d
unapply_all company user (((type, id), amount) ∷ totals) d = do
  next ← unapply_from_invoice id company amount user d
  unapply_all company user totals next

unfoldable pub apply_all_invoices :
    ℕ → ℕ → List (Target × ℕ) → DocumentTables → Result DocumentTables
apply_all_invoices company user [] d = ok d
apply_all_invoices company user (((type, id), amount) ∷ totals) d = do
  next ← apply_to_invoice id company amount user d
  apply_all_invoices company user totals next

-- One step of the map of totals by target, in the order of insertion.
unfoldable pub add_total : Target → ℕ → List (Target × ℕ) → List (Target × ℕ)
add_total target amount [] = (target, amount) ∷ []
add_total target amount ((t, n) ∷ totals) =
    if same_target target t
    then (t, n + amount) ∷ totals
    else (t, n) ∷ add_total target amount totals

-- `buildAllocationTotals`, and the two maps that `create` builds.
unfoldable pub build_totals : List Allocation → List (Target × ℕ) → List (Target × ℕ)
unfolding add_total
build_totals [] totals = totals
build_totals (a ∷ allocations) totals =
    build_totals allocations (add_total (target_of a) a.allocated_amount totals)

-- The order of the names of the types.
abbrev rank : PaymentReferenceType → ℕ
rank purchase_invoice = 0
rank purchase_order = 1
rank sale = 2
rank sale_return = 3

abbrev by_target : Target × ℕ → Target × ℕ → Bool
by_target ((t, r), n) ((u, q), m) = if rank t == rank u then leb r q else leb (rank t) (rank u)

abbrev by_id : Target × ℕ → Target × ℕ → Bool
by_id ((t, r), n) ((u, q), m) = leb r q

-- The totals in the order in which `create` locks their documents, and in that of the other two.
abbrev pub totals_by_target : List Allocation → List (Target × ℕ)
totals_by_target allocations = sort_by by_target (build_totals allocations [])

abbrev pub totals_by_id : List Allocation → List (Target × ℕ)
totals_by_id allocations = sort_by by_id (build_totals allocations [])
