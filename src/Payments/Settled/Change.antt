-- ===== src/Payments/Settled/Change.antt =====
-- So do the reversal and the reallocation of a payment.
use Prim.Native.String.{String}
use mathlib.Core.Path.{subst}
use erp_fashion_api.Common.{
  ℕ, ◌+◌, ◌≤◌, ◌<◌, ◌≡◌, refl, ◌∙◌, sym, true, Bool-cases, inl, inr, Option, none, some, List, [],
  ◌∷◌, ◌++◌, All, All-append, All-sort_by, row, IsKeyed-update, row-update, row_of_find,
  find_row-key, update_row, sum_of-append, ok, arith, >>=-eq-ok, ltb,
}
use erp_fashion_api.Accounting.Store.{Store as AccountingStore}
use erp_fashion_api.Accounting.Posting.{PaymentDirection, reverse_payment}
use erp_fashion_api.Payments.{
  Allocation, Payment, Store, DocumentTables, assert_allocations_valid, posted_payment,
  assert_allocations_fully_cover_amount,
}
use erp_fashion_api.Payments.Documents.{unapply_all, apply_all_invoices, totals_by_id, build_totals}
use erp_fashion_api.Payments.Create.{Call, allocation_rows, count}
use erp_fashion_api.Payments.Change.{
  payment_key, delete_allocations, is_confirmed, changeable, find_payment, allocations_of,
  only_invoices, assert_purchase_invoice_only_allocations, reversed, reallocated, apply_reverse,
  apply_reallocate,
}
use erp_fashion_api.Payments.Totals.{
  OfType, OfType-build_totals, is_invoice, apply_all_invoices-PaysAll, unapply_all-PaysAll,
  amount_at-totals_by_id,
}
use erp_fashion_api.Payments.Allocated.{
  share, counts, IsBelow, IsBelow-rows, IsBelow-mono, IsBelow-delete, allocated-rows,
  allocated-update, allocated-cancel, allocated-delete, counts-update_self,
}
use erp_fashion_api.Payments.Settled.{IsSettled, assert_allocations_valid-types}

only_invoices-types :
    (allocations : List Allocation)
    → only_invoices allocations ≡ true
    → All (λ (a : Allocation). is_invoice a.reference_type ≡ true) allocations
unfolding only_invoices
only_invoices-types [] h = tt
only_invoices-types (a ∷ allocations) h =
    (ground arith, only_invoices-types allocations (ground arith))

changeable-eq-ok :
    (id : ℕ) (call : Call) (s : Store) (p : Payment)
    → changeable id call s ≡ ok p
    → (find_payment id call.company_id s.payments ≡ some p)
      × (is_confirmed p.status ≡ true)
      × (p.direction ≡ PaymentDirection.payment)
      × (only_invoices (allocations_of p.id s.allocations) ≡ true)
unfolding changeable assert_purchase_invoice_only_allocations
changeable-eq-ok id call s p h = ground arith

-- The payment that a request changes, and the totals of its allocations.
record Current (id : ℕ) (s : Store) (p : Payment) : Type 0 where
  own : row payment_key p.id s.payments ≡ some p
  confirmed : is_confirmed p.status ≡ true
  outgoing : p.direction ≡ PaymentDirection.payment
  invoices : All (OfType is_invoice) (totals_by_id (allocations_of p.id s.allocations))

Current-of_changeable :
    (id : ℕ) (call : Call) (s : Store) (p : Payment)
    → IsSettled s
    → changeable id call s ≡ ok p
    → Current id s p
Current-of_changeable id call s p was h =
    let (found, confirmed, outgoing, only) = changeable-eq-ok id call s p h in
    let (same, _) = find_row-key payment_key _ id s.payments p found in
    let allocations = allocations_of p.id s.allocations in
    record {
      own =
          subst (λ x. row payment_key x s.payments ≡ some p) (sym same)
            (row_of_find payment_key _ id s.payments p was.payments_keyed found);
      confirmed = confirmed;
      outgoing = outgoing;
      invoices =
          All-sort_by _ (OfType is_invoice) (build_totals allocations []) (
            OfType-build_totals is_invoice allocations [] (only_invoices-types allocations only)
              tt);
    }

-- A change to a payment keeps the keys.
fresh-update :
    (change : Payment → Payment) (keeps : (x : Payment) → payment_key (change x) ≡ payment_key x)
    (id n : ℕ) (payments : List Payment) (p : Payment)
    → row payment_key id payments ≡ some p
    → ((x : ℕ) → n ≤ x → row payment_key x payments ≡ none)
    → (x : ℕ) → n ≤ x
    → row payment_key x (update_row payment_key id change payments) ≡ none
fresh-update change keeps id n payments p found fresh x le =
    ground (arith, row-update payment_key change keeps id x payments p, fresh x)

module _ (id : ℕ) (call : Call) (reason : String) (s : Store) where
  pub apply_reverse-eq-ok :
      (q : Payment) (s' : Store)
      → apply_reverse id call reason s ≡ ok (q, s')
      → (p : Payment) × (changeable id call s ≡ ok p)
        × ((documents : DocumentTables) × (unapply_all call.company_id call.user_id
                (totals_by_id (allocations_of p.id s.allocations))
                s.documents
              ≡ ok documents)
            × ((accounting : AccountingStore) × (record s {
              documents = documents;
              payments = update_row payment_key p.id (reversed call reason) s.payments;
              accounting = accounting;
            }
                  ≡ s')))
  unfolding apply_reverse
  apply_reverse-eq-ok q s' h =
      let (p, checked, rest) = >>=-eq-ok (changeable id call s) _ h in
      let (documents, released, rest') =
        >>=-eq-ok
          (unapply_all call.company_id call.user_id
            (totals_by_id (allocations_of p.id s.allocations)) s.documents)
          _ rest in
      let (accounting, _, written) =
        >>=-eq-ok
          (reverse_payment (posted_payment (reversed call reason p)) call.user_id (some reason)
            call.now s.accounting)
          _ rest' in
      (p, checked, (documents, released, (accounting.1, cc)))

  -- A reversal keeps the store settled.
  pub apply_reverse-IsSettled :
      (q : Payment) (s' : Store)
      → apply_reverse id call reason s ≡ ok (q, s')
      → IsSettled s
      → IsSettled s'
  apply_reverse-IsSettled q s' h was =
      let (p, checked, (documents, released, (accounting, written))) = apply_reverse-eq-ok q s' h in
      let c = Current-of_changeable id call s p was checked in
      let totals = totals_by_id (allocations_of p.id s.allocations) in
      let (pays, keys) =
        unapply_all-PaysAll call.company_id call.user_id totals s.documents documents c.invoices
          was.documents_keyed released in
      let change = reversed call reason in
      subst IsSettled written (record {
        documents_keyed = keys;
        payments_keyed =
            IsKeyed-update payment_key change (λ x. refl) p.id s.payments was.payments_keyed;
        fresh = fresh-update change (λ x. refl) p.id s.next_id s.payments p c.own was.fresh;
        owned = was.owned;
        settled = λ k. omega (
          arith,
          pays.moved k,
          amount_at-totals_by_id k (allocations_of p.id s.allocations),
          was.settled k,
          allocated-cancel change (λ x. refl) p.id s.payments p c.own k s.allocations c.confirmed
              refl,
        );
      })

-- The id of a payment that is there has been given out.
below_of_row :
    (s : Store) (p : Payment)
    → IsSettled s
    → row payment_key p.id s.payments ≡ some p
    → p.id < s.next_id
below_of_row s p was own = elim (Bool-cases (ltb p.id s.next_id)) [
  | inl e ↦ ground arith
  | inr e ↦ absurd (cc (was.fresh p.id (ground arith), own))
]

module _ (id : ℕ) (call : Call) (reason : Option String) (allocations : List Allocation)
    (s : Store) where
  pub apply_reallocate-eq-ok :
      (q : Payment) (s' : Store)
      → apply_reallocate id call reason allocations s ≡ ok (q, s')
      → (p : Payment) × (changeable id call s ≡ ok p)
        × (assert_allocations_valid p.direction p.amount allocations ≡ ok tt)
        × ((released : DocumentTables) × (unapply_all call.company_id call.user_id
                (totals_by_id (allocations_of p.id s.allocations))
                s.documents
              ≡ ok released)
            × ((documents : DocumentTables) × (apply_all_invoices call.company_id call.user_id
                    (totals_by_id allocations)
                    released
                  ≡ ok documents)
                × (record s {
                  documents = documents;
                  payments = update_row payment_key p.id (reallocated call reason) s.payments;
                  allocations =
                      delete_allocations p.id s.allocations
                      ++ allocation_rows p.id allocations s.next_id;
                  next_id = s.next_id + count allocations;
                }
                    ≡ s')))
  unfolding apply_reallocate
  apply_reallocate-eq-ok q s' h =
      let (p, checked, rest) = >>=-eq-ok (changeable id call s) _ h in
      let (_, valid, rest₁) =
        >>=-eq-ok (assert_allocations_valid p.direction p.amount allocations) _ rest in
      let (_, _, rest₂) =
        >>=-eq-ok (assert_allocations_fully_cover_amount p.amount allocations) _ rest₁ in
      let (released, off, rest₃) =
        >>=-eq-ok
          (unapply_all call.company_id call.user_id
            (totals_by_id (allocations_of p.id s.allocations)) s.documents)
          _ rest₂ in
      let (documents, on, written) =
        >>=-eq-ok
          (apply_all_invoices call.company_id call.user_id (totals_by_id allocations) released) _
          rest₃ in
      (p, checked, valid, (released, off, (documents, on, cc)))

  -- A reallocation keeps the store settled.
  pub apply_reallocate-IsSettled :
      (q : Payment) (s' : Store)
      → apply_reallocate id call reason allocations s ≡ ok (q, s')
      → IsSettled s
      → IsSettled s'
  apply_reallocate-IsSettled q s' h was =
      let (p, checked, valid, (released, off, (documents, on, written))) =
        apply_reallocate-eq-ok q s' h in
      let c = Current-of_changeable id call s p was checked in
      let old = allocations_of p.id s.allocations in
      let (pays, keys) =
        unapply_all-PaysAll call.company_id call.user_id (totals_by_id old) s.documents released
          c.invoices was.documents_keyed off in
      let types =
        assert_allocations_valid-types is_invoice p.direction p.amount allocations
          (ground (arith, c.outgoing)) valid in
      let pays' =
        apply_all_invoices-PaysAll call.company_id call.user_id (totals_by_id allocations) released
          documents
          (All-sort_by _ (OfType is_invoice) (build_totals allocations [])
            (OfType-build_totals is_invoice allocations [] types tt))
          keys on in
      let change = reallocated call reason in
      let payments = update_row payment_key p.id change s.payments in
      let kept = delete_allocations p.id s.allocations in
      let rows = allocation_rows p.id allocations s.next_id in
      let end : ℕ = s.next_id + count allocations in
      let below : p.id < s.next_id = below_of_row s p was c.own in
      let counted : counts p.id payments ≡ true =
        counts-update_self change (λ x. refl) p.id s.payments p c.own ∙ c.confirmed in
      subst IsSettled written (record {
        documents_keyed = pays'.keyed;
        payments_keyed =
            IsKeyed-update payment_key change (λ x. refl) p.id s.payments was.payments_keyed;
        fresh = λ x le.
            fresh-update change (λ x. refl) p.id s.next_id s.payments p c.own was.fresh x
              (omega arith);
        owned =
            All-append (IsBelow end) kept rows
              (IsBelow-mono s.next_id end kept (omega arith)
                (IsBelow-delete s.next_id p.id s.allocations was.owned))
              (IsBelow-rows end p.id allocations s.next_id (omega arith));
        settled = λ k.
            let same = allocated-update change (λ x. refl) p.id s.payments p c.own k in
            omega (
              arith,
              pays.moved k,
              pays'.moved k,
              amount_at-totals_by_id k old,
              amount_at-totals_by_id k allocations,
              was.settled k,
              allocated-delete k s.payments p.id s.allocations (rw c.own c.confirmed),
              sum_of-append (share k payments) kept rows,
              same kept refl,
              allocated-rows k payments p.id allocations s.next_id counted,
            );
      })
