-- ===== src/Payments/Idempotency.antt =====
-- What the idempotency key of a payment promises, and what it does not.
use Prim.Native.String.{String}
use erp_fashion_api.Common.{
  ℕ, ◌≡◌, refl, ◌∙◌, Bool, true, false, Bool-cases, Option, none, some, List, [], ◌∷◌, ◌++◌, inl,
  inr, is_some, ErrorCode, Result, Result-cases, ok, throw, Option-cases, arith, ap,
}
use text.Mathlib.TextEquality.{eq_iff}
use erp_fashion_api.Payments.{Store, Payment, DocumentTables, CreatePayment, Catalog, validate}
use erp_fashion_api.Payments.Documents.{apply_all, totals_by_target}
use erp_fashion_api.Payments.Create.{
  Call, PaymentConfirmedEventPayload, Answer, apply_create, insert_payment, create_new,
  create_payment, find_existing, find_by_idempotency_key, has_key, settle_create,
}
use erp_fashion_api.Payments.Later.{Later, Later-IsTaken}
use erp_fashion_api.Payments.Settled.Creation.{made, apply_create-eq-ok}

-- A payment that is added at the end is found by its key where none was.
find_by_key-snoc :
    (company : ℕ) (key : String) (payments : List Payment) (p : Payment)
    → find_by_idempotency_key company key payments ≡ none
    → has_key company key p ≡ true
    → find_by_idempotency_key company key (payments ++ (p ∷ [])) ≡ some p
unfolding find_by_idempotency_key
find_by_key-snoc company key [] p h own = rw own
find_by_key-snoc company key (x ∷ payments) p h own = elim (Bool-cases (has_key company key x)) [
  | inl e ↦ absurd (ground arith)
  | inr e ↦ rw e (find_by_key-snoc company key payments p (ground arith) own)
]

none_of_is_some : (o : Option Payment) → is_some o ≡ false → o ≡ none
none_of_is_some none h = refl
none_of_is_some (some p) h = cc

module _ (catalog : Catalog) (json : PaymentConfirmedEventPayload → String) (call : Call)
    (dto : CreatePayment) (key : String) where
  own_key :
      (t : Store) → has_key call.company_id key (made catalog json call dto (some key) t) ≡ true
  own_key t = ground (arith, eq_iff key key)

  -- A payment that a transaction commits is found by its key.
  found_of_commit :
      (t : Store) (q : Payment) (s' : Store)
      → apply_create catalog json call dto (some key) t ≡ ok (some (q, s'))
      → find_existing call.company_id (some key) s'.payments ≡ some q
  found_of_commit t q s' h =
      let (documents, _, (accounting, written), same, new) =
        apply_create-eq-ok catalog json call dto (some key) t q s' h in
      let rows : t.payments ++ (made catalog json call dto (some key) t ∷ []) ≡ s'.payments =
        ap (λ (z : Store). z.payments) written in
      rw (← rows) (
        find_by_key-snoc call.company_id key t.payments (made catalog json call dto (some key) t)
          (none_of_is_some _ new) (own_key t)
        ∙ ap some same)

  found_of_settle :
      (t : Store) (r : Result (Option (Payment × Store))) (p : Payment) (b : Bool) (s' : Store)
      → ((q : Payment) (s'' : Store)
          → r ≡ ok (some (q, s''))
          → find_existing call.company_id (some key) s''.payments ≡ some q)
      → settle_create call (some key) r t ≡ (ok (p, b), s')
      → find_existing call.company_id (some key) s'.payments ≡ some p
  unfolding settle_create
  found_of_settle t (throw e) p b s' commit h = cc
  found_of_settle t (ok (some (q, s''))) p b s' commit h =
      let at = commit q s'' refl in
      let e : q ≡ p = cc in let e' : s'' ≡ s' = cc in rw (← e, ← e') at
  found_of_settle t (ok none) p b s' commit h =
      elim (Option-cases (find_existing call.company_id (some key) t.payments)) [
        | inl e ↦ absurd (ground arith)
        | inr (x, e) ↦
            let h' : ◌≡◌ {A = Answer} (ok (x, true), t) (ok (p, b), s') =
              rw (e, settle_create) at h in
            let same : x ≡ p = cc in let same' : t ≡ s' = cc in rw (← same, ← same') e
      ]

  -- What has been answered is found by the key afterwards.
  pub found_of_answer :
      (others : Store → Store) (s : Store) (p : Payment) (b : Bool) (s' : Store)
      → create_payment catalog json call dto (some key) others s ≡ (ok (p, b), s')
      → find_existing call.company_id (some key) s'.payments ≡ some p
  unfolding create_payment
  found_of_answer others s p b s' h =
      elim (Option-cases (find_existing call.company_id (some key) s.payments)) [
        | inr (x, e) ↦
            let h' : ◌≡◌ {A = Answer} (ok (x, true), s) (ok (p, b), s') =
              rw (e, create_payment) at h in
            let same : x ≡ p = cc in let same' : s ≡ s' = cc in rw (← same, ← same') e
        | inl e ↦
            let h' : create_new catalog json call dto (some key) (others s) ≡ (ok (p, b), s') =
              rw (e, create_payment) at h in
            elim (Result-cases (validate catalog call.company_id dto)) [
              | inr (c, bad) ↦
                  let h'' : ◌≡◌ {A = Answer} (throw c, others s) (ok (p, b), s') =
                    rw (bad, create_new) at h' in
                  absurd (cc h'')
              | inl (u, good) ↦
                  let h'' : settle_create call (some key)
                        (apply_create catalog json call dto (some key) (others s)) (others s)
                      ≡ (ok (p, b), s') =
                    rw (good, create_new) at h' in
                  found_of_settle (others s)
                    (apply_create catalog json call dto (some key) (others s)) p b s'
                    (found_of_commit (others s)) h''
            ]
      ]

-- Once a request with a key has been answered with a payment, a request of the company with that
-- key, whatever else it asks and whatever payments, reversals and reallocations have been asked for
-- since then, is answered with the same payment, as it then is, is told that it existed, and changes
-- nothing.
pub create_payment_replays :
    (catalog catalog' : Catalog) (json json' : PaymentConfirmedEventPayload → String)
    (call call' : Call) (dto dto' : CreatePayment) (key : String) (others others' : Store → Store)
    (s s' t : Store) (p : Payment) (b : Bool)
    → call'.company_id ≡ call.company_id
    → create_payment catalog json call dto (some key) others s ≡ (ok (p, b), s')
    → Later s' t
    → (q : Payment) × (q.id ≡ p.id)
      × (create_payment catalog' json' call' dto' (some key) others' t ≡ (ok (q, true), t))
unfolding create_payment
create_payment_replays catalog catalog' json json' call call' dto dto' key others others' s s' t p b
      same h later =
    let found = found_of_answer catalog json call dto key others s p b s' h in
    let (q, there, own) = Later-IsTaken call.company_id key p.id (p, found, refl) later in
    let there' : find_existing call'.company_id (some key) t.payments ≡ some q =
      ap (λ c. find_existing c (some key) t.payments) same ∙ there in
    (q, own, rw (there', create_payment))

-- What the transaction ends in where the key is taken, and where the amounts do not fit.
duplicate :
    (catalog : Catalog) (json : PaymentConfirmedEventPayload → String) (call : Call)
    (dto : CreatePayment) (key : String) (t : Store)
    → ((d : DocumentTables) (p : Payment)
        → find_existing call.company_id (some key) t.payments ≡ some p
        → apply_all call.company_id call.user_id (totals_by_target dto.allocations) t.documents
          ≡ ok d
        → apply_create catalog json call dto (some key) t ≡ ok none)
      × ((e : ErrorCode)
          → apply_all call.company_id call.user_id (totals_by_target dto.allocations) t.documents
            ≡ throw e
          → apply_create catalog json call dto (some key) t ≡ throw e)
unfolding apply_create insert_payment
duplicate catalog json call dto key t =
    (λ d p there applied. rw applied (rw there), λ e failed. rw failed)

-- Where another request with the same key commits between a valid request's lookup of the key and
-- its transaction, the request is answered with that payment exactly if its allocations can be
-- applied once more, and with the error of applying them otherwise: a document that the first one
-- has paid in full makes the second one fail instead of repeating the answer.
pub concurrent_replay_lem :
    (catalog : Catalog) (json : PaymentConfirmedEventPayload → String) (call : Call)
    (dto : CreatePayment) (key : String) (others : Store → Store) (s : Store) (p : Payment)
    → find_existing call.company_id (some key) s.payments ≡ none
    → validate catalog call.company_id dto ≡ ok tt
    → find_existing call.company_id (some key) (others s).payments ≡ some p
    → ((d : DocumentTables)
        → apply_all call.company_id call.user_id
            (totals_by_target dto.allocations)
            (others s).documents
          ≡ ok d
        → create_payment catalog json call dto (some key) others s ≡ (ok (p, true), others s))
      × ((e : ErrorCode)
          → apply_all call.company_id call.user_id
              (totals_by_target dto.allocations)
              (others s).documents
            ≡ throw e
          → create_payment catalog json call dto (some key) others s ≡ (throw e, others s))
unfolding create_payment settle_create
concurrent_replay_lem catalog json call dto key others s p fresh good there =
    let taken = duplicate catalog json call dto key (others s) in
    (
      λ d applied.
          rw (fresh, create_payment)
            (rw (good, create_new)
              (rw (taken.0 d p there applied, settle_create) (rw (there, settle_create)))),
      λ e failed.
          rw (fresh, create_payment) (rw (good, create_new) (rw (taken.1 e failed, settle_create))),
    )
