-- ===== src/Payments/Totals.antt =====
-- The totals by document that the payments service builds, and the loops over them.
use mathlib.Core.Path.{subst}
use erp_fashion_api.Common.{
  ℕ, ◌+◌, ◌≡◌, refl, sym, Bool, true, false, Bool-cases, inl, inr, List, [], ◌∷◌, All, sum_of,
  sum_of-sort_by, ok, arith, >>=-eq-ok,
}
use erp_fashion_api.Payments.{
  Target, Allocation, PaymentReferenceType, purchase_invoice, purchase_order, DocumentTables,
  same_target, same_type, target_of,
}
use erp_fashion_api.Payments.Documents.{
  apply_to, apply_all, unapply_all, apply_all_invoices, add_total, build_totals, totals_by_target,
  totals_by_id, apply_to_invoice, unapply_from_invoice,
}
use erp_fashion_api.Payments.Paid.{apply_to_invoice-Pays, unapply_from_invoice-Pays}
use erp_fashion_api.Payments.Applied.{apply_to-Pays}
use erp_fashion_api.Payments.PaidSales.{paid_at, HasKeys, at, Pays}

-- What a list of totals, and a list of allocations, have for one document.
abbrev pub amount_at : Target → List (Target × ℕ) → ℕ
amount_at k totals = sum_of (λ (p : Target × ℕ). at k p.0 p.1) totals

abbrev pub asked_at : Target → List Allocation → ℕ
asked_at k allocations =
    sum_of (λ (a : Allocation). at k (target_of a) a.allocated_amount) allocations

pub same_type_eq : (t u : PaymentReferenceType) → same_type t u ≡ true → t ≡ u
same_type_eq t u h = ground arith

-- One document's total does not depend on which of two equal targets asks.
at_same : (k t u : Target) (n : ℕ) → same_target t u ≡ true → at k t n ≡ at k u n
at_same k (t, r) (u, q) n h =
    let e : t ≡ u = same_type_eq t u (ground arith) in let e' : r ≡ q = ground arith in rw (e, e')

amount_at-add_total :
    (k t : Target) (n : ℕ) (totals : List (Target × ℕ))
    → amount_at k (add_total t n totals) ≡ at k t n + amount_at k totals
unfolding add_total
amount_at-add_total k t n [] = refl
amount_at-add_total k t n ((u, m) ∷ totals) = elim (Bool-cases (same_target t u)) [
  | inl e ↦ rw (e, at_same k t u n e) (ground arith)
  | inr e ↦ rw (e, amount_at-add_total k t n totals) (omega arith)
]

-- Adding up by document loses nothing.
pub amount_at-build_totals :
    (k : Target) (allocations : List Allocation) (totals : List (Target × ℕ))
    → amount_at k (build_totals allocations totals) ≡ asked_at k allocations + amount_at k totals
unfolding build_totals
amount_at-build_totals k [] totals = omega arith
amount_at-build_totals k (a ∷ allocations) totals =
    rw
      (
        amount_at-build_totals k allocations (add_total (target_of a) a.allocated_amount totals),
        amount_at-add_total k (target_of a) a.allocated_amount totals,
      )
      (omega arith)

pub amount_at-totals_by_target :
    (k : Target) (allocations : List Allocation)
    → amount_at k (totals_by_target allocations) ≡ asked_at k allocations
amount_at-totals_by_target k allocations = omega (
  arith,
  sum_of-sort_by (λ (p : Target × ℕ). at k p.0 p.1) _ (build_totals allocations []),
  amount_at-build_totals k allocations [],
)

pub amount_at-totals_by_id :
    (k : Target) (allocations : List Allocation)
    → amount_at k (totals_by_id allocations) ≡ asked_at k allocations
amount_at-totals_by_id k allocations = omega (
  arith,
  sum_of-sort_by (λ (p : Target × ℕ). at k p.0 p.1) _ (build_totals allocations []),
  amount_at-build_totals k allocations [],
)

-- A predicate on the types of all targets.
abbrev pub OfType : (PaymentReferenceType → Bool) → Target × ℕ → Type 0
OfType test p = test p.0.0 ≡ true

module _ (test : PaymentReferenceType → Bool) where
  OfType-add_total :
      (t : Target) (n : ℕ) (totals : List (Target × ℕ))
      → test t.0 ≡ true
      → All (OfType test) totals
      → All (OfType test) (add_total t n totals)
  unfolding add_total
  OfType-add_total t n [] h all = (h, tt)
  OfType-add_total t n ((u, m) ∷ totals) h (p, all) = elim (Bool-cases (same_target t u)) [
    | inl e ↦ rw e (p, all)
    | inr e ↦ rw e (p, OfType-add_total t n totals h all)
  ]

  pub OfType-build_totals :
      (allocations : List Allocation) (totals : List (Target × ℕ))
      → All (λ (a : Allocation). test a.reference_type ≡ true) allocations
      → All (OfType test) totals
      → All (OfType test) (build_totals allocations totals)
  unfolding build_totals
  OfType-build_totals [] totals asked all = all
  OfType-build_totals (a ∷ allocations) totals (h, asked) all =
      OfType-build_totals allocations (add_total (target_of a) a.allocated_amount totals) asked
        (OfType-add_total (target_of a) a.allocated_amount totals h all)

-- After a loop every document's paid amount has moved by its total.
pub record PaysAll (totals : List (Target × ℕ)) (d d' : DocumentTables) : Type 0 where
  pub keyed : HasKeys d'
  pub moved : (k : Target) → paid_at k d' ≡ paid_at k d + amount_at k totals

abbrev pub is_settled : PaymentReferenceType → Bool
is_settled purchase_order = false
is_settled _ = true

abbrev pub is_invoice : PaymentReferenceType → Bool
is_invoice purchase_invoice = true
is_invoice _ = false

settled_type : (t : PaymentReferenceType) → is_settled t ≡ true → same_type t purchase_order ≡ false
settled_type t h = ground arith

invoice_type : (t : PaymentReferenceType) → is_invoice t ≡ true → t ≡ purchase_invoice
invoice_type t h = ground arith

pub apply_all-PaysAll :
    (company user : ℕ) (totals : List (Target × ℕ)) (d d' : DocumentTables)
    → All (OfType is_settled) totals
    → HasKeys d
    → apply_all company user totals d ≡ ok d'
    → PaysAll totals d d'
unfolding apply_all
apply_all-PaysAll company user [] d d' all keys h =
    let e : d ≡ d' = cc in
    subst (λ z. PaysAll [] d z) e (record { keyed = keys; moved = λ k. omega arith })
apply_all-PaysAll company user (((t, id), n) ∷ totals) d d' (first, all) keys h =
    let (next, applied, rest) = >>=-eq-ok (apply_to company user (t, id) n d) _ h in
    let p = apply_to-Pays company user t id n d next (settled_type t first) keys applied in
    let q = apply_all-PaysAll company user totals next d' all p.keyed rest in
    record { keyed = q.keyed; moved = λ k. omega (arith, p.moved k, q.moved k) }

pub apply_all_invoices-PaysAll :
    (company user : ℕ) (totals : List (Target × ℕ)) (d d' : DocumentTables)
    → All (OfType is_invoice) totals
    → HasKeys d
    → apply_all_invoices company user totals d ≡ ok d'
    → PaysAll totals d d'
unfolding apply_all_invoices
apply_all_invoices-PaysAll company user [] d d' all keys h =
    let e : d ≡ d' = cc in
    subst (λ z. PaysAll [] d z) e (record { keyed = keys; moved = λ k. omega arith })
apply_all_invoices-PaysAll company user (((t, id), n) ∷ totals) d d' (first, all) keys h =
    let (next, applied, rest) = >>=-eq-ok (apply_to_invoice id company n user d) _ h in
    let p =
      subst (λ u. Pays (u, id) n d next) (sym (invoice_type t first))
        (apply_to_invoice-Pays company user id n d next keys applied) in
    let q = apply_all_invoices-PaysAll company user totals next d' all p.keyed rest in
    record { keyed = q.keyed; moved = λ k. omega (arith, p.moved k, q.moved k) }

-- Taking the totals off and paying them are inverse to one another.
pub unapply_all-PaysAll :
    (company user : ℕ) (totals : List (Target × ℕ)) (d d' : DocumentTables)
    → All (OfType is_invoice) totals
    → HasKeys d
    → unapply_all company user totals d ≡ ok d'
    → PaysAll totals d' d × HasKeys d'
unfolding unapply_all
unapply_all-PaysAll company user [] d d' all keys h =
    let e : d ≡ d' = cc in
    subst (λ z. PaysAll [] z d × HasKeys z) e
      (record { keyed = keys; moved = λ k. omega arith }, keys)
unapply_all-PaysAll company user (((t, id), n) ∷ totals) d d' (first, all) keys h =
    let (next, applied, rest) = >>=-eq-ok (unapply_from_invoice id company n user d) _ h in
    let (p', keys') = unapply_from_invoice-Pays company user id n d next keys applied in
    let p = subst (λ u. Pays (u, id) n next d) (sym (invoice_type t first)) p' in
    let (q, keys'') = unapply_all-PaysAll company user totals next d' all keys' rest in
    (record { keyed = keys; moved = λ k. omega (arith, p.moved k, q.moved k) }, keys'')
