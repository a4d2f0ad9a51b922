-- ===== src/Payments/Settled/Creation.antt =====
-- A payment that is created keeps what is paid of a document and what is allocated to it the same.
use Prim.Native.String.{String}
use mathlib.Core.Path.{subst}
use erp_fashion_api.Common.{
  ℕ, ◌+◌, ◌≡◌, false, Bool-cases, inl, inr, Option, some, List, [], ◌∷◌, ◌++◌, is_some, All-append,
  All-sort_by, IsKeyed-snoc, row-snoc, sum_of-append, Result-cases, ok, arith, >>=-eq-ok,
}
use erp_fashion_api.Numbering.{Counter}
use erp_fashion_api.Accounting.Store.{Store as AccountingStore}
use erp_fashion_api.Payments.{Payment, CreatePayment, Catalog, Store, DocumentTables, validate}
use erp_fashion_api.Payments.Documents.{apply_all, totals_by_target, build_totals}
use erp_fashion_api.Payments.Create.{
  Call, PaymentConfirmedEventPayload, new_payment, finish_create, apply_create, allocation_rows,
  count, find_existing, post_if_due, numbered, insert_payment,
}
use erp_fashion_api.Payments.Change.{payment_key}
use erp_fashion_api.Payments.Totals.{
  OfType, OfType-build_totals, is_settled, apply_all-PaysAll, amount_at-totals_by_target,
}
use erp_fashion_api.Payments.Allocated.{
  share, IsBelow, IsBelow-rows, IsBelow-mono, allocated-snoc, allocated-rows, counts-snoc_self,
}
use erp_fashion_api.Payments.Settled.{IsSettled, validate-types}

module _ (catalog : Catalog) (json : PaymentConfirmedEventPayload → String) (call : Call)
    (dto : CreatePayment) (key : Option String) (s : Store) where
  insert_payment-eq-ok :
      (payment q : Payment) (counters : List Counter) (documents : DocumentTables) (s' : Store)
      → insert_payment catalog json call dto key payment counters documents s ≡ ok (some (q, s'))
      → (accounting : AccountingStore) × (payment ≡ q)
        × (is_some (find_existing call.company_id key s.payments) ≡ false)
        × (finish_create json call dto payment counters documents accounting s ≡ s')
  unfolding insert_payment
  insert_payment-eq-ok payment q counters documents s' h =
      elim (Bool-cases (is_some (find_existing call.company_id key s.payments))) [
        | inl e ↦ absurd (ground arith)
        | inr e ↦ elim (Result-cases (post_if_due catalog call payment s.accounting)) [
          | inl (accounting, e') ↦ (accounting, ground arith, e, ground arith)
          | inr (c, e') ↦ absurd (ground arith)
        ]
      ]

  abbrev pub made : Payment
  made = new_payment call dto key (s.next_id + 1) (numbered call dto s).0

  -- What a transaction that commits has found and written.
  pub apply_create-eq-ok :
      (q : Payment) (s' : Store)
      → apply_create catalog json call dto key s ≡ ok (some (q, s'))
      → (documents : DocumentTables) × (apply_all call.company_id call.user_id
            (totals_by_target dto.allocations)
            s.documents
          ≡ ok documents)
        × ((accounting : AccountingStore) × (finish_create json call dto made
                (numbered call dto s).1
                documents
                accounting
                s
              ≡ s'))
        × (made ≡ q)
        × (is_some (find_existing call.company_id key s.payments) ≡ false)
  unfolding apply_create
  apply_create-eq-ok q s' h =
      let (documents, applied, rest) =
        >>=-eq-ok
          (apply_all call.company_id call.user_id (totals_by_target dto.allocations) s.documents) _
          h in
      let (accounting, same, new, written) =
        insert_payment-eq-ok made q (numbered call dto s).1 documents s' rest in
      (documents, applied, (accounting, written), same, new)

  -- A payment that is created keeps the store settled.
  pub apply_create-IsSettled :
      (q : Payment) (s' : Store)
      → validate catalog call.company_id dto ≡ ok tt
      → apply_create catalog json call dto key s ≡ ok (some (q, s'))
      → IsSettled s
      → IsSettled s'
  apply_create-IsSettled q s' good h was =
      let (documents, applied, (accounting, written), _, _) = apply_create-eq-ok q s' h in
      let types = validate-types catalog call.company_id dto good in
      let pays =
        apply_all-PaysAll call.company_id call.user_id (totals_by_target dto.allocations)
          s.documents documents
          (All-sort_by _ (OfType is_settled) (build_totals dto.allocations [])
            (OfType-build_totals is_settled dto.allocations [] types tt))
          was.documents_keyed applied in
      let absent = was.fresh (s.next_id + 1) (omega arith) in
      let rows = allocation_rows (s.next_id + 1) dto.allocations (s.next_id + 2) in
      let end : ℕ = s.next_id + 2 + count dto.allocations in
      subst IsSettled written (record {
        documents_keyed = pays.keyed;
        payments_keyed = IsKeyed-snoc payment_key s.payments made was.payments_keyed absent;
        fresh = λ x le. ground (arith, row-snoc payment_key x s.payments made, was.fresh x);
        owned =
            All-append (IsBelow end) s.allocations rows
              (IsBelow-mono s.next_id end s.allocations (omega arith) was.owned)
              (IsBelow-rows end (s.next_id + 1) dto.allocations (s.next_id + 2) (omega arith));
        settled = λ k.
            let old =
              allocated-snoc k s.payments made s.next_id s.allocations (omega arith) was.owned in
            let new =
              allocated-rows k (s.payments ++ (made ∷ [])) (s.next_id + 1) dto.allocations
                (s.next_id + 2) (counts-snoc_self s.payments made absent) in
            omega (
              arith,
              pays.moved k,
              amount_at-totals_by_target k dto.allocations,
              was.settled k,
              sum_of-append (share k (s.payments ++ (made ∷ []))) s.allocations rows,
              old,
              new,
            );
      })
