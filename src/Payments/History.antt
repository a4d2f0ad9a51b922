-- ===== src/Payments/History.antt =====
-- Every history of payments, reversals and reallocations.
use Prim.Native.String.{String}
use erp_fashion_api.Common.{
  ℕ, ◌≡◌, refl, Option, none, some, List, [], inl, inr, Result, Result-cases, ok, throw,
  Option-cases, run_inv,
}
use erp_fashion_api.Accounting.Store.{Store as AccountingStore}
use erp_fashion_api.Outbox.{System}
use erp_fashion_api.Payments.{
  Store, Payment, Allocation, DocumentTables, CreatePayment, Catalog, Target, validate,
  PaymentReferenceType,
}
use erp_fashion_api.Payments.Create.{
  Call, PaymentConfirmedEventPayload, apply_create, create_new, create_payment, find_existing,
  settle_create,
}
use erp_fashion_api.Payments.Change.{apply_reverse, reverse, apply_reallocate, reallocate}
use erp_fashion_api.Payments.PaidSales.{paid_at, HasKeys}
use erp_fashion_api.Payments.Allocated.{allocated}
use erp_fashion_api.Payments.Settled.{IsSettled}
use erp_fashion_api.Payments.Settled.Creation.{apply_create-IsSettled}
use erp_fashion_api.Payments.Settled.Change.{apply_reverse-IsSettled, apply_reallocate-IsSettled}

-- A company with no documents and no payments.
abbrev pub opening : AccountingStore → System → Store
opening accounting outbox = record {
  documents = record { sales = []; orders = []; invoices = []; returns = [] };
  payments = [];
  allocations = [];
  counters = [];
  accounting = accounting;
  outbox = outbox;
  next_id = 0;
}

-- The stores that requests lead to, served or refused, by any users at any time, while other services
-- add and change documents and leave what is paid of them alone.
pub data Reach : Store → Type 0 where
  start : (accounting : AccountingStore) (outbox : System) → Reach (opening accounting outbox)
  documents :
      {s : Store} (d : DocumentTables)
      → HasKeys d
      → ((k : Target) → paid_at k d ≡ paid_at k s.documents)
      → Reach s
      → Reach (record s { documents = d })
  -- between the lookup of a key and the transaction, others may lead to another such store
  created :
      {s : Store} (catalog : Catalog) (json : PaymentConfirmedEventPayload → String) (call : Call)
      (dto : CreatePayment) (key : Option String) (others : Store → Store)
      → Reach s
      → Reach (others s)
      → Reach (create_payment catalog json call dto key others s).1
  reversed :
      {s : Store} (id : ℕ) (call : Call) (reason : String)
      → Reach s
      → Reach (reverse id call reason s).1
  reallocated :
      {s : Store} (id : ℕ) (call : Call) (reason : Option String) (allocations : List Allocation)
      → Reach s
      → Reach (reallocate id call reason allocations s).1

module _ (catalog : Catalog) (json : PaymentConfirmedEventPayload → String) (call : Call)
    (dto : CreatePayment) (key : Option String) where
  settle_create-IsSettled :
      (t : Store) (r : Result (Option (Payment × Store)))
      → IsSettled t
      → ((q : Payment) (s' : Store) → r ≡ ok (some (q, s')) → IsSettled s')
      → IsSettled (settle_create call key r t).1
  unfolding settle_create
  settle_create-IsSettled t (throw e) was keep = was
  settle_create-IsSettled t (ok (some (q, s'))) was keep = keep q s' refl
  settle_create-IsSettled t (ok none) was keep =
      elim (Option-cases (find_existing call.company_id key t.payments)) [
        | inl e ↦ rw (e, settle_create) was
        | inr (p, e) ↦ rw (e, settle_create) was
      ]

  create_new-IsSettled :
      (t : Store) → IsSettled t → IsSettled (create_new catalog json call dto key t).1
  create_new-IsSettled t was = elim (Result-cases (validate catalog call.company_id dto)) [
    | inl (u, good) ↦
        rw (good, create_new)
          (settle_create-IsSettled t (apply_create catalog json call dto key t) was
            λ q s' done. apply_create-IsSettled catalog json call dto key t q s' good done was)
    | inr (e, bad) ↦ rw (bad, create_new) was
  ]

  create_payment-IsSettled :
      (others : Store → Store) (s : Store)
      → IsSettled s
      → IsSettled (others s)
      → IsSettled (create_payment catalog json call dto key others s).1
  unfolding create_payment
  create_payment-IsSettled others s was then_was =
      elim (Option-cases (find_existing call.company_id key s.payments)) [
        | inl e ↦ rw (e, create_payment) (create_new-IsSettled (others s) then_was)
        | inr (p, e) ↦ rw (e, create_payment) was
      ]

nothing_paid :
    (k : Target) → paid_at k (record { sales = []; orders = []; invoices = []; returns = [] }) ≡ 0
nothing_paid (PaymentReferenceType.sale, r) = refl
nothing_paid (PaymentReferenceType.purchase_invoice, r) = refl
nothing_paid (PaymentReferenceType.purchase_order, r) = refl
nothing_paid (PaymentReferenceType.sale_return, r) = refl

Reach-IsSettled : {s : Store} → Reach s → IsSettled s
unfolding reverse reallocate
Reach-IsSettled (start accounting outbox) = record {
  documents_keyed = record { of_sales = tt; of_invoices = tt; of_returns = tt };
  payments_keyed = tt;
  fresh = λ x le. refl;
  owned = tt;
  settled = nothing_paid;
}
Reach-IsSettled (documents {s} d keys same r) =
    let was = Reach-IsSettled r in
    record {
      documents_keyed = keys;
      payments_keyed = was.payments_keyed;
      fresh = was.fresh;
      owned = was.owned;
      settled = λ k. rw (same k) (was.settled k);
    }
Reach-IsSettled (created {s} catalog json call dto key others r r') =
    create_payment-IsSettled catalog json call dto key others s (Reach-IsSettled r)
      (Reach-IsSettled r')
Reach-IsSettled (reversed {s} id call reason r) =
    run_inv IsSettled (apply_reverse id call reason) s (Reach-IsSettled r)
      λ q s' done. apply_reverse-IsSettled id call reason s q s' done (Reach-IsSettled r)
Reach-IsSettled (reallocated {s} id call reason allocations r) =
    run_inv IsSettled (apply_reallocate id call reason allocations) s (Reach-IsSettled r)
      λ q s' done.
        apply_reallocate-IsSettled id call reason allocations s q s' done (Reach-IsSettled r)

-- After any history of payments, reversals and reallocations, whatever was refused and however
-- requests of one key interleave, what a sale, a purchase invoice or a sale return says is paid is
-- the sum of the allocations to it of the payments that are confirmed.
pub paid_is_allocated :
    {s : Store} (k : Target)
    → Reach s
    → paid_at k s.documents ≡ allocated k s.payments s.allocations
paid_is_allocated k r = (Reach-IsSettled r).settled k
