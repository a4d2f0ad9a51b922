-- ===== src/Payments/PaidSales.antt =====
-- What is paid of each document, and how a payment of a sale moves it.
use mathlib.Core.Path.{subst}
use erp_fashion_api.Common.{
  ℕ, ◌+◌, ◌-◌, ◌≡◌, Option, none, some, List, ◌==◌, if◌then◌else◌, row, IsKeyed, ok, arith,
  >>=-eq-ok,
}
use erp_fashion_api.Sales.{Sale, apply_payment, update_paid}
use erp_fashion_api.Sales.Table.{
  sale_row, apply_payment-eq-ok, sale_row-update_paid, IsKeyed-update_paid, sale_row_of_find,
}
use erp_fashion_api.Sales.Table as SalesTable
use erp_fashion_api.Sales.Late.{paid_of}
use erp_fashion_api.Payments.{
  Target, purchase_invoice, purchase_order, sale, sale_return, PurchaseInvoice, SaleReturn,
  DocumentTables, same_target,
}
use erp_fashion_api.Payments.Documents.{invoice_key, return_key, apply_to_sale}

abbrev pub invoice_paid : Option PurchaseInvoice → ℕ
invoice_paid o = elim o [ none ↦ 0 | some i ↦ i.paid_amount ]

abbrev pub return_paid : Option SaleReturn → ℕ
return_paid o = elim o [ none ↦ 0 | some r ↦ r.refunded_amount ]

-- The amount paid of a document. That of an order is a copy of its invoice's, and not counted.
abbrev pub paid_at : Target → DocumentTables → ℕ
paid_at (sale, r) d = paid_of (sale_row r d.sales)
paid_at (purchase_invoice, r) d = invoice_paid (row invoice_key r d.invoices)
paid_at (sale_return, r) d = return_paid (row return_key r d.returns)
paid_at (purchase_order, r) d = 0

-- The ids of each kind of document are a primary key.
pub record HasKeys (d : DocumentTables) : Type 0 where
  pub of_sales : SalesTable.IsKeyed d.sales
  pub of_invoices : IsKeyed invoice_key d.invoices
  pub of_returns : IsKeyed return_key d.returns

-- What a target counts for at `k`.
abbrev pub at : Target → Target → ℕ → ℕ
at k t n = if same_target k t then n else 0

pub record Pays (t : Target) (n : ℕ) (d d' : DocumentTables) : Type 0 where
  pub keyed : HasKeys d'
  pub moved : (k : Target) → paid_at k d' ≡ paid_at k d + at k t n

sale_moved :
    (id n balance user r : ℕ) (sales : List Sale) (old : Sale)
    → sale_row id sales ≡ some old
    → paid_of (sale_row r (update_paid id (old.paid_amount + n) balance user sales))
      ≡ paid_of (sale_row r sales) + (if r == id then n else 0)
sale_moved id n balance user r sales old found =
    ground (arith, sale_row-update_paid id (old.paid_amount + n) balance user r sales old)

pub apply_to_sale-Pays :
    (company user id n : ℕ) (d d' : DocumentTables)
    → HasKeys d
    → apply_to_sale id company n user d ≡ ok d'
    → Pays (sale, id) n d d'
apply_to_sale-Pays company user id n d d' keys h =
    let (sales, applied, same) = >>=-eq-ok (apply_payment id company n user d.sales) _ h in
    let (old, found, _, written) =
      apply_payment-eq-ok id company n user d.sales sales keys.of_sales applied in
    let new = old.paid_amount + n in
    let own = sale_row_of_find id company d.sales old keys.of_sales found in
    let next : DocumentTables = record d {
      sales = update_paid id new (old.grand_total - new) user d.sales;
    } in
    let e : next ≡ d' = cc in
    subst (λ z. Pays (sale, id) n d z) e
      (record {
        keyed = record {
          of_sales = IsKeyed-update_paid id new (old.grand_total - new) user d.sales keys.of_sales;
          of_invoices = keys.of_invoices;
          of_returns = keys.of_returns;
        };
        moved = λ (t, r).
            elim t as (λ t. paid_at (t, r) next ≡ paid_at (t, r) d + at (t, r) (sale, id) n) [
              | sale ↦ sale_moved id n (old.grand_total - new) user r d.sales old own
              | purchase_invoice ↦ omega arith
              | purchase_order ↦ omega arith
              | sale_return ↦ omega arith
            ];
      })
