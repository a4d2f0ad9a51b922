-- ===== src/Payments/Paid.antt =====
-- How the payment of a purchase invoice, and the withdrawal of one, move what is paid of each document.
use mathlib.Core.Path.{subst}
use erp_fashion_api.Common.{
  ℕ, ◌+◌, ◌-◌, ◌≤◌, ◌≡◌, refl, ap, sym, true, Bool-cases, Option-cases, inl, inr, some, List, ◌==◌,
  if◌then◌else◌, row, find_row-key, row_of_find, row-update, IsKeyed-update, update_row, ok, arith,
}
use erp_fashion_api.Payments.{
  Target, PaymentReferenceType, purchase_invoice, purchase_order, sale, sale_return,
  PurchaseInvoice, DocumentTables, same_target,
}
use erp_fashion_api.Payments.Documents.{
  invoice_key, find_invoice, find_order, paid_invoice, write_invoice, apply_to_invoice,
  unapply_from_invoice,
}
use erp_fashion_api.Payments.PaidSales.{invoice_paid, paid_at, HasKeys, Pays}

invoice_moved :
    (id paid user r : ℕ) (invoices : List PurchaseInvoice) (old : PurchaseInvoice)
    → row invoice_key id invoices ≡ some old
    → invoice_paid (row invoice_key r (update_row invoice_key id (paid_invoice paid user) invoices))
      ≡ (if r == id then paid else invoice_paid (row invoice_key r invoices))
invoice_moved id paid user r invoices old found =
    ground (arith, row-update invoice_key (paid_invoice paid user) (λ x. refl) id r invoices old)

-- Writing an invoice and its order sets what is paid of the invoice.
write_invoice-sets :
    (invoice : PurchaseInvoice) (order paid user : ℕ) (d : DocumentTables)
    → HasKeys d
    → row invoice_key invoice.id d.invoices ≡ some invoice
    → HasKeys (write_invoice invoice order paid user d)
      × ((k : Target)
          → paid_at k (write_invoice invoice order paid user d)
            ≡ (if same_target k (purchase_invoice, invoice.id) then paid else paid_at k d))
write_invoice-sets invoice order paid user d keys found = (
  record {
    of_sales = keys.of_sales;
    of_invoices =
        IsKeyed-update invoice_key (paid_invoice paid user) (λ x. refl) invoice.id d.invoices
          keys.of_invoices;
    of_returns = keys.of_returns;
  },
  λ (t, r).
      elim t
        as (λ t. paid_at (t, r) (write_invoice invoice order paid user d) ≡ (
          if same_target (t, r) (purchase_invoice, invoice.id) then paid else paid_at (t, r) d)) [
            | sale ↦ refl
            | purchase_invoice ↦ invoice_moved invoice.id paid user r d.invoices invoice found
            | purchase_order ↦ refl
            | sale_return ↦ refl
          ],
)

-- What a successful call has found.
apply_to_invoice-eq-ok :
    (id company n user : ℕ) (d d' : DocumentTables)
    → apply_to_invoice id company n user d ≡ ok d'
    → (i : PurchaseInvoice) × (find_invoice id company d.invoices ≡ some i)
      × ((order : ℕ) × (write_invoice i order (i.paid_amount + n) user d ≡ d'))
unfolding apply_to_invoice
apply_to_invoice-eq-ok id company n user d d' h =
    elim (Option-cases (find_invoice id company d.invoices)) [
      | inl e ↦ absurd (ground arith)
      | inr (i, e) ↦ elim (Option-cases (find_order i.purchase_order_id company d.orders)) [
        | inl e' ↦ absurd (ground arith)
        | inr (o, e') ↦ (i, e, (o.id, ground arith))
      ]
    ]

unapply_from_invoice-eq-ok :
    (id company n user : ℕ) (d d' : DocumentTables)
    → unapply_from_invoice id company n user d ≡ ok d'
    → (i : PurchaseInvoice) × (find_invoice id company d.invoices ≡ some i)
      × (n ≤ i.paid_amount)
      × ((order : ℕ) × (write_invoice i order (i.paid_amount - n) user d ≡ d'))
unfolding unapply_from_invoice
unapply_from_invoice-eq-ok id company n user d d' h =
    elim (Option-cases (find_invoice id company d.invoices)) [
      | inl e ↦ absurd (ground arith)
      | inr (i, e) ↦ elim (Option-cases (find_order i.purchase_order_id company d.orders)) [
        | inl e' ↦ absurd (ground arith)
        | inr (o, e') ↦ (i, e, ground arith, (o.id, ground arith))
      ]
    ]

-- What is paid at the target of an invoice is what its row says.
paid_at_own :
    (t : PaymentReferenceType) (r id : ℕ) (d : DocumentTables) (i : PurchaseInvoice)
    → row invoice_key id d.invoices ≡ some i
    → same_target (t, r) (purchase_invoice, id) ≡ true
    → paid_at (t, r) d ≡ i.paid_amount
paid_at_own sale r id d i found h = cc
paid_at_own purchase_order r id d i found h = cc
paid_at_own sale_return r id d i found h = cc
paid_at_own purchase_invoice r id d i found h =
    let e : r ≡ id = ground arith in
    subst (λ x. invoice_paid (row invoice_key x d.invoices) ≡ i.paid_amount) (sym e)
      (ap invoice_paid found)

found_own :
    (id company : ℕ) (d : DocumentTables) (i : PurchaseInvoice)
    → HasKeys d
    → find_invoice id company d.invoices ≡ some i
    → (i.id ≡ id) × (row invoice_key i.id d.invoices ≡ some i)
found_own id company d i keys found =
    let (same, _) = find_row-key invoice_key _ id d.invoices i found in
    (
      same,
      subst (λ x. row invoice_key x d.invoices ≡ some i) (sym same)
          (row_of_find invoice_key _ id d.invoices i keys.of_invoices found),
    )

pub apply_to_invoice-Pays :
    (company user id n : ℕ) (d d' : DocumentTables)
    → HasKeys d
    → apply_to_invoice id company n user d ≡ ok d'
    → Pays (purchase_invoice, id) n d d'
apply_to_invoice-Pays company user id n d d' keys h =
    let (i, found, (order, written)) = apply_to_invoice-eq-ok id company n user d d' h in
    let (same, own) = found_own id company d i keys found in
    let (keys', sets) = write_invoice-sets i order (i.paid_amount + n) user d keys own in
    subst (λ x. Pays (purchase_invoice, x) n d d') same
      (subst (λ z. Pays (purchase_invoice, i.id) n d z) written
        (record {
          keyed = keys';
          moved = λ k. elim (Bool-cases (same_target k (purchase_invoice, i.id))) [
            | inl e ↦ rw (sets k, e) (omega (arith, paid_at_own k.0 k.1 i.id d i own e))
            | inr e ↦ rw (sets k, e) (omega arith)
          ];
        }))

-- A reversed amount is taken off again.
pub unapply_from_invoice-Pays :
    (company user id n : ℕ) (d d' : DocumentTables)
    → HasKeys d
    → unapply_from_invoice id company n user d ≡ ok d'
    → Pays (purchase_invoice, id) n d' d × HasKeys d'
unapply_from_invoice-Pays company user id n d d' keys h =
    let (i, found, enough, (order, written)) =
      unapply_from_invoice-eq-ok id company n user d d' h in
    let (same, own) = found_own id company d i keys found in
    let (keys', sets) = write_invoice-sets i order (i.paid_amount - n) user d keys own in
    subst (λ x. Pays (purchase_invoice, x) n d' d × HasKeys d') same
      (subst (λ z. Pays (purchase_invoice, i.id) n z d × HasKeys z) written
        (
          record {
            keyed = keys;
            moved = λ k. elim (Bool-cases (same_target k (purchase_invoice, i.id))) [
              | inl e ↦ rw (sets k, e) (omega (arith, paid_at_own k.0 k.1 i.id d i own e))
              | inr e ↦ rw (sets k, e) (omega arith)
            ];
          },
          keys',
        ))
