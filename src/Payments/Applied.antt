-- ===== src/Payments/Applied.antt =====
-- How the application of an amount to a target, whatever it is, moves what is paid.
use mathlib.Core.Path.{subst}
use erp_fashion_api.Common.{
  ℕ, ◌+◌, ◌≡◌, refl, sym, false, Option-cases, inl, inr, some, List, ◌==◌, if◌then◌else◌, row,
  find_row-key, row_of_find, row-update, IsKeyed-update, update_row, ok, arith,
}
use erp_fashion_api.Payments.{
  PaymentReferenceType, purchase_invoice, purchase_order, sale, sale_return, SaleReturn,
  DocumentTables, same_type,
}
use erp_fashion_api.Payments.Documents.{
  return_key, find_return, refunded_return, apply_refund, apply_to,
}
use erp_fashion_api.Payments.PaidSales.{return_paid, paid_at, HasKeys, at, Pays, apply_to_sale-Pays}
use erp_fashion_api.Payments.Paid.{apply_to_invoice-Pays}

return_moved :
    (id n r : ℕ) (returns : List SaleReturn) (old : SaleReturn)
    → row return_key id returns ≡ some old
    → return_paid (
        row return_key r
          (update_row return_key id (refunded_return (old.refunded_amount + n)) returns))
      ≡ return_paid (row return_key r returns) + (if r == id then n else 0)
return_moved id n r returns old found = ground (
  arith,
  row-update return_key (refunded_return (old.refunded_amount + n)) (λ x. refl) id r returns old,
)

apply_refund-eq-ok :
    (id company n : ℕ) (d d' : DocumentTables)
    → apply_refund id company n d ≡ ok d'
    → (r : SaleReturn) × (find_return id company d.returns ≡ some r)
      × (record d {
        returns = update_row return_key r.id (refunded_return (r.refunded_amount + n)) d.returns;
      }
          ≡ d')
unfolding apply_refund
apply_refund-eq-ok id company n d d' h = elim (Option-cases (find_return id company d.returns)) [
  | inl e ↦ absurd (ground arith)
  | inr (r, e) ↦ (r, e, ground arith)
]

apply_refund-Pays :
    (company id n : ℕ) (d d' : DocumentTables)
    → HasKeys d
    → apply_refund id company n d ≡ ok d'
    → Pays (sale_return, id) n d d'
apply_refund-Pays company id n d d' keys h =
    let (x, found, written) = apply_refund-eq-ok id company n d d' h in
    let (same, _) = find_row-key return_key _ id d.returns x found in
    let own = row_of_find return_key _ id d.returns x keys.of_returns found in
    let own' = subst (λ y. row return_key y d.returns ≡ some x) (sym same) own in
    let change = refunded_return (x.refunded_amount + n) in
    let next : DocumentTables = record d {
      returns = update_row return_key x.id change d.returns;
    } in
    subst (λ y. Pays (sale_return, y) n d d') same
      (subst (λ z. Pays (sale_return, x.id) n d z) written
        (record {
          keyed = record {
            of_sales = keys.of_sales;
            of_invoices = keys.of_invoices;
            of_returns =
                IsKeyed-update return_key change (λ y. refl) x.id d.returns keys.of_returns;
          };
          moved = λ (t, r).
              elim t
                as (λ t. paid_at (t, r) next ≡ paid_at (t, r) d + at (t, r) (sale_return, x.id) n) [
                  | sale ↦ omega arith
                  | purchase_invoice ↦ omega arith
                  | purchase_order ↦ omega arith
                  | sale_return ↦ return_moved x.id n r d.returns x own'
                ];
        }))

-- A settled document's paid amount rises by the amount, and no other's changes.
pub apply_to-Pays :
    (company user : ℕ) (t : PaymentReferenceType) (id n : ℕ) (d d' : DocumentTables)
    → same_type t purchase_order ≡ false
    → HasKeys d
    → apply_to company user (t, id) n d ≡ ok d'
    → Pays (t, id) n d d'
apply_to-Pays company user sale id n d d' settled keys h =
    apply_to_sale-Pays company user id n d d' keys h
apply_to-Pays company user purchase_invoice id n d d' settled keys h =
    apply_to_invoice-Pays company user id n d d' keys h
apply_to-Pays company user purchase_order id n d d' settled keys h = cc
apply_to-Pays company user sale_return id n d d' settled keys h =
    apply_refund-Pays company id n d d' keys h
