-- ===== src/Accounting/Posting/Success.antt =====
-- When a payment is posted.
use erp_fashion_api.Common.{
  ℕ, ◌≡◌, ◌⊎◌, ◌↔◌, refl, inl, inr, true, Bool-cases, Option, none, some, List, [], ◌∷◌, ◌==◌, ◌&&◌,
  pos, ◌<ℤ◌, ok, ◌>>=◌, or_throw, validation_error, >>=-eq-ok, arith,
}
use erp_fashion_api.Accounting.Store.{
  Store, Account, JournalEntry, JournalSourceType, find_by_source,
}
use erp_fashion_api.Accounting.Period.Open.{IsOpenFor, resolve_open_period_iff}
use erp_fashion_api.Accounting.Posting.{
  Payment, PaymentDirection, PaymentMethod, Customer, Supplier, post_payment, payment_accounts,
  resolve_account, find_active_account,
}
use erp_fashion_api.Accounting.Posting.Effect.{post_payment_iff}

-- An account of the company with this id is in the table and active.
abbrev pub IsThere : ℕ → ℕ → List Account → Type 0
IsThere id company [] = ⊥
IsThere id company (a ∷ accounts) =
    (a.id ≡ id) × (a.company_id ≡ company) × (a.is_active ≡ true) ⊎ IsThere id company accounts

abbrev pub IsConfigured : Option ℕ → ℕ → List Account → Type 0
IsConfigured none company accounts = ⊥
IsConfigured (some id) company accounts = IsThere id company accounts

-- The account that stands against the cash or bank account: the customer's for a receipt, the
-- supplier's for a payment, and none for a refund.
abbrev pub HasParty :
    PaymentDirection → ℕ → List Account → Option Customer → Option Supplier → Type 0
HasParty PaymentDirection.receipt company accounts customer supplier =
    (c : Customer) × (customer ≡ some c) × IsConfigured c.receivable_account_id company accounts
HasParty PaymentDirection.payment company accounts customer supplier =
    (s : Supplier) × (supplier ≡ some s) × IsConfigured s.payable_account_id company accounts
HasParty PaymentDirection.refund company accounts customer supplier = ⊥

direction_cases :
    (d : PaymentDirection)
    → (d ≡ PaymentDirection.receipt ⊎ d ≡ PaymentDirection.payment) ⊎ d ≡ PaymentDirection.refund
direction_cases PaymentDirection.receipt = inl (inl refl)
direction_cases PaymentDirection.payment = inl (inr refl)
direction_cases PaymentDirection.refund = inr refl

find_active_account_iff :
    (id company : ℕ) (accounts : List Account)
    → ((a : Account) × (find_active_account id company accounts ≡ some a))
      ↔ IsThere id company accounts
unfolding find_active_account
find_active_account_iff id company [] = (λ (a, h). absurd (cc h), λ none_there. absurd none_there)
find_active_account_iff id company (a ∷ accounts) =
    let (to, from) = find_active_account_iff id company accounts in
    elim (Bool-cases (id == a.id && company == a.company_id && a.is_active)) [
      | inl it ↦ (λ _. inl (ground arith, ground arith, ground arith), λ _. (a, rw it refl))
      | inr other ↦ (
        λ (b, h). inr (to (b, ground arith)),
        λ there. elim there [
          | inl (same, ours, active) ↦ absurd (ground arith)
          | inr further ↦ let (b, found) = from further in (b, rw other found)
        ],
      )
    ]

resolve_account_iff :
    (id : Option ℕ) (company : ℕ) (accounts : List Account)
    → ((a : Account) × (resolve_account id company accounts ≡ ok a))
      ↔ IsConfigured id company accounts
unfolding resolve_account
resolve_account_iff none company accounts = (λ (a, h). absurd (cc h), λ never. absurd never)
resolve_account_iff (some id) company accounts =
    let (to, from) = find_active_account_iff id company accounts in
    (λ (a, h). to (a, ground arith), λ there. let (a, found) = from there in (a, rw found refl))

receipt_accounts_iff :
    (accounts : List Account) (company : ℕ) (party : Option Customer) (pair : ℕ → ℕ × ℕ)
    → ((sides : ℕ × ℕ) × (◌>>=◌ (or_throw party validation_error) (λ p.
            ◌>>=◌ (resolve_account p.receivable_account_id company accounts) (λ a. ok (pair a.id)))
          ≡ ok sides))
      ↔ ((p : Customer) × (party ≡ some p) × IsConfigured p.receivable_account_id company accounts)
receipt_accounts_iff accounts company none pair =
    (λ (sides, h). absurd (cc h), λ (p, there, _). absurd (cc there))
receipt_accounts_iff accounts company (some p) pair =
    let (to, from) = resolve_account_iff p.receivable_account_id company accounts in
    (
      λ (sides, h).
          let (a, found, _) =
            >>=-eq-ok (resolve_account p.receivable_account_id company accounts) _ h in
          (p, refl, to (a, found)),
      λ (q, there, configured).
          let same : p ≡ q = cc there in
          let (a, found) = from (rw same configured) in (pair a.id, rw found refl),
    )

supplier_accounts_iff :
    (accounts : List Account) (company : ℕ) (party : Option Supplier) (pair : ℕ → ℕ × ℕ)
    → ((sides : ℕ × ℕ) × (◌>>=◌ (or_throw party validation_error) (λ p.
            ◌>>=◌ (resolve_account p.payable_account_id company accounts) (λ a. ok (pair a.id)))
          ≡ ok sides))
      ↔ ((p : Supplier) × (party ≡ some p) × IsConfigured p.payable_account_id company accounts)
supplier_accounts_iff accounts company none pair =
    (λ (sides, h). absurd (cc h), λ (p, there, _). absurd (cc there))
supplier_accounts_iff accounts company (some p) pair =
    let (to, from) = resolve_account_iff p.payable_account_id company accounts in
    (
      λ (sides, h).
          let (a, found, _) =
            >>=-eq-ok (resolve_account p.payable_account_id company accounts) _ h in
          (p, refl, to (a, found)),
      λ (q, there, configured).
          let same : p ≡ q = cc there in
          let (a, found) = from (rw same configured) in (pair a.id, rw found refl),
    )

payment_accounts_iff :
    (accounts : List Account) (paid : Payment) (cash : Account) (customer : Option Customer)
    (supplier : Option Supplier)
    → ((sides : ℕ × ℕ) × (payment_accounts accounts paid cash customer supplier ≡ ok sides))
      ↔ HasParty paid.direction paid.company_id accounts customer supplier
unfolding payment_accounts
payment_accounts_iff accounts paid cash customer supplier = elim (direction_cases paid.direction) [
  | inl (inl e) ↦ rw e (receipt_accounts_iff accounts paid.company_id customer (λ a. (cash.id, a)))
  | inl (inr e) ↦ rw e (supplier_accounts_iff accounts paid.company_id supplier (λ a. (a, cash.id)))
  | inr e ↦ rw e (λ (sides, h). absurd (cc h), λ never. absurd never)
]

module _ (accounts : List Account) (paid : Payment) (method : PaymentMethod)
    (customer : Option Customer) (supplier : Option Supplier) (user now : ℕ) (s : Store) where
  -- A payment that has no journal yet is posted exactly when its method names an account of its
  -- company that is there and active, so does the customer of a receipt or the supplier of a payment
  -- to one (a refund is never posted), the amount is positive, and the first period that covers its
  -- date, if there is one, is neither locked nor in a closed year.
  pub post_payment_succeeds :
      find_by_source paid.company_id JournalSourceType.payment paid.id s.entries ≡ none
      → ((e : JournalEntry) × (s' : Store) × (post_payment accounts paid method customer supplier
              user now s
            ≡ ok (e, s')))
        ↔ IsConfigured method.gl_account_id paid.company_id accounts
          × HasParty paid.direction paid.company_id accounts customer supplier
          × (pos 0 <ℤ paid.amount)
          × IsOpenFor paid.company_id paid.payment_date s
  post_payment_succeeds fresh =
      let (to, from) = post_payment_iff accounts paid method customer supplier user now s fresh in
      let cash_iff = resolve_account_iff method.gl_account_id paid.company_id accounts in
      let open_iff = resolve_open_period_iff paid.company_id paid.payment_date s in
      (
        λ posted.
            let p = to posted in
            (
              cash_iff.0 (p.cash, p.has_cash),
              (payment_accounts_iff accounts paid p.cash customer supplier).0
                  (p.sides, p.has_sides),
              p.is_positive,
              open_iff.0 (p.resolved, p.in_period),
            ),
        λ (configured, party, positive, clear).
            let (cash, has_cash) = cash_iff.1 configured in
            let (sides, has_sides) =
              (payment_accounts_iff accounts paid cash customer supplier).1 party in
            let (resolved, in_period) = open_iff.1 clear in
            from (record {
              cash = cash;
              sides = sides;
              resolved = resolved;
              has_cash = has_cash;
              has_sides = has_sides;
              is_positive = positive;
              in_period = in_period;
            }),
      )
