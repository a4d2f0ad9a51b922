-- ===== src/Payments/Later.antt =====
-- What later requests leave of a payment that has an idempotency key.
use Prim.Native.String.{String}
use erp_fashion_api.Common.{
  ℕ, ◌≡◌, refl, ◌∙◌, ap, Bool-cases, Option, none, some, Option-cases, List, [], ◌∷◌, ◌++◌, inl,
  inr, Result, Result-cases, ok, throw, ◌==◌, update_row, run_inv, arith,
}
use erp_fashion_api.Payments.{Store, Payment, Allocation, CreatePayment, Catalog, validate}
use erp_fashion_api.Payments.Create.{
  Call, PaymentConfirmedEventPayload, apply_create, create_new, create_payment, find_existing,
  find_by_idempotency_key, has_key, settle_create,
}
use erp_fashion_api.Payments.Change.{
  payment_key, reversed, reallocated, apply_reverse, reverse, apply_reallocate, reallocate,
}
use erp_fashion_api.Payments.Settled.Creation.{made, apply_create-eq-ok}
use erp_fashion_api.Payments.Settled.Change.{apply_reverse-eq-ok, apply_reallocate-eq-ok}

-- The stores that requests lead to from `s`, served or refused, while others change all else.
pub data Later (s : Store) : Store → Type 0 where
  at_once : Later s s
  elsewhere : {t : Store} (t' : Store) → t'.payments ≡ t.payments → Later s t → Later s t'
  -- between the lookup of a key and the transaction, others may lead on
  created :
      {t : Store} (catalog : Catalog) (json : PaymentConfirmedEventPayload → String) (call : Call)
      (dto : CreatePayment) (key : Option String) (others : Store → Store)
      → Later s t
      → Later s (others t)
      → Later s (create_payment catalog json call dto key others t).1
  reversed_one :
      {t : Store} (id : ℕ) (call : Call) (reason : String)
      → Later s t
      → Later s (reverse id call reason t).1
  reallocated_one :
      {t : Store} (id : ℕ) (call : Call) (reason : Option String) (allocations : List Allocation)
      → Later s t
      → Later s (reallocate id call reason allocations t).1

-- The key still finds the payment `id`.
abbrev pub IsTaken : ℕ → String → ℕ → List Payment → Type 0
IsTaken company key id payments =
    (q : Payment) × (find_by_idempotency_key company key payments ≡ some q) × (q.id ≡ id)

module _ (company : ℕ) (key : String) (id : ℕ) where
  IsTaken-append :
      (payments : List Payment) (p : Payment)
      → IsTaken company key id payments
      → IsTaken company key id (payments ++ (p ∷ []))
  unfolding find_by_idempotency_key
  IsTaken-append [] p (q, found, same) = absurd (cc found)
  IsTaken-append (x ∷ payments) p (q, found, same) = elim (Bool-cases (has_key company key x)) [
    | inl here ↦ (q, ground arith, same)
    | inr there ↦
        let (r, found', same') = IsTaken-append payments p (q, ground arith, same) in
        (r, rw there found', same')
  ]

  -- A change that keeps the id, the company and the key of a payment.
  IsTaken-update :
      (change : Payment → Payment)
      → ((x : Payment) → (change x).id ≡ x.id)
      → ((x : Payment) → has_key company key (change x) ≡ has_key company key x)
      → (a : ℕ) (payments : List Payment) → IsTaken company key id payments
      → IsTaken company key id (update_row payment_key a change payments)
  unfolding find_by_idempotency_key update_row
  IsTaken-update change ids keys a [] (q, found, same) = absurd (cc found)
  IsTaken-update change ids keys a (x ∷ payments) (q, found, same) =
      elim (Bool-cases (has_key company key x)) [
        | inl here ↦
            let it : x ≡ q = ground arith in
            elim (Bool-cases (a == x.id)) [
              | inl changed ↦ (
                change x,
                rw changed (rw (keys x, here) refl),
                ids x ∙ ap (λ (z : Payment). z.id) it ∙ same,
              )
              | inr kept ↦ (q, rw kept (rw here (ap some it)), same)
            ]
        | inr there ↦
            let found' : find_by_idempotency_key company key payments ≡ some q = ground arith in
            elim (Bool-cases (a == x.id)) [
              | inl changed ↦ (q, rw changed (rw (keys x, there) found'), same)
              | inr kept ↦
                  let (r, found'', same') =
                    IsTaken-update change ids keys a payments (q, found', same) in
                  (r, rw kept (rw there found''), same')
            ]
      ]

  module _ (catalog : Catalog) (json : PaymentConfirmedEventPayload → String) (call : Call)
      (dto : CreatePayment) (other : Option String) where
    committed-IsTaken :
        (t : Store) (q : Payment) (s' : Store)
        → IsTaken company key id t.payments
        → apply_create catalog json call dto other t ≡ ok (some (q, s'))
        → IsTaken company key id s'.payments
    committed-IsTaken t q s' was h =
        let (documents, _, (accounting, written), _, _) =
          apply_create-eq-ok catalog json call dto other t q s' h in
        let rows : t.payments ++ (made catalog json call dto other t ∷ []) ≡ s'.payments =
          ap (λ (z : Store). z.payments) written in
        rw (← rows) (IsTaken-append t.payments (made catalog json call dto other t) was)

    settled-IsTaken :
        (t : Store) (r : Result (Option (Payment × Store)))
        → IsTaken company key id t.payments
        → ((q : Payment) (s' : Store) → r ≡ ok (some (q, s')) → IsTaken company key id s'.payments)
        → IsTaken company key id (settle_create call other r t).1.payments
    unfolding settle_create
    settled-IsTaken t (throw e) was commit = was
    settled-IsTaken t (ok (some (q, s'))) was commit = commit q s' refl
    settled-IsTaken t (ok none) was commit =
        elim (Option-cases (find_existing call.company_id other t.payments)) [
          | inl e ↦ rw (e, settle_create) was
          | inr (x, e) ↦ rw (e, settle_create) was
        ]

    created-IsTaken :
        (others : Store → Store) (t : Store)
        → IsTaken company key id t.payments
        → IsTaken company key id (others t).payments
        → IsTaken company key id (create_payment catalog json call dto other others t).1.payments
    unfolding create_payment
    created-IsTaken others t was then_was =
        elim (Option-cases (find_existing call.company_id other t.payments)) [
          | inr (x, e) ↦ rw (e, create_payment) was
          | inl e ↦ elim (Result-cases (validate catalog call.company_id dto)) [
            | inr (c, bad) ↦ rw (e, create_payment) (rw (bad, create_new) then_was)
            | inl (u, good) ↦
                rw (e, create_payment)
                  (rw (good, create_new)
                    (settled-IsTaken (others t)
                      (apply_create catalog json call dto other (others t)) then_was
                      (λ q s' h. committed-IsTaken (others t) q s' then_was h)))
          ]
        ]

  -- Whatever is asked later, a key that has found a payment finds the same one.
  pub Later-IsTaken :
      {s t : Store}
      → IsTaken company key id s.payments
      → Later s t
      → IsTaken company key id t.payments
  unfolding reverse reallocate
  Later-IsTaken was at_once = was
  Later-IsTaken was (elsewhere t' same l) = rw same (Later-IsTaken was l)
  Later-IsTaken was (created {t} catalog json call dto other others l l') =
      created-IsTaken catalog json call dto other others t (Later-IsTaken was l)
        (Later-IsTaken was l')
  Later-IsTaken was (reversed_one {t} a call reason l) =
      let now = Later-IsTaken was l in
      run_inv (λ (z : Store). IsTaken company key id z.payments) (apply_reverse a call reason) t now
        λ q s' done.
          let (p, _, (documents, _, (accounting, written))) =
            apply_reverse-eq-ok a call reason t q s' done in
          rw (← ap (λ (z : Store). z.payments) written)
            (IsTaken-update (reversed call reason) (λ x. refl) (λ x. refl) p.id t.payments now)
  Later-IsTaken was (reallocated_one {t} a call reason allocations l) =
      let now = Later-IsTaken was l in
      run_inv (λ (z : Store). IsTaken company key id z.payments)
        (apply_reallocate a call reason allocations) t now
        λ q s' done.
          let (p, _, _, (_, _, (documents, _, written))) =
            apply_reallocate-eq-ok a call reason allocations t q s' done in
          rw (← ap (λ (z : Store). z.payments) written)
            (IsTaken-update (reallocated call reason) (λ x. refl) (λ x. refl) p.id t.payments now)
