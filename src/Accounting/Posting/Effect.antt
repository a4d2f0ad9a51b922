-- ===== src/Accounting/Posting/Effect.antt =====
-- What posting a payment, and reversing it, does to the ledger.
use Prim.Native.String.{String}
use erp_fashion_api.Common.{
  ℕ, ◌+◌, ◌≡◌, ◌↔◌, refl, sym, ap, ◌∙◌, inl, inr, Bool, Bool-cases, Option-cases, Option, none,
  some, List, [], ◌∷◌, ◌==◌, if◌then◌else◌, arith, ℤ, pos, neg, ◌+ℤ◌, ◌-ℤ◌, ◌<ℤ◌, int_laws, Result,
  Result-cases, ok,
}
use erp_fashion_api.Accounting.DoubleEntry.{IsBalanced, total_debit, total_credit}
use erp_fashion_api.Accounting.Store.{
  Store, Account, AccountingPeriod, JournalEntry, JournalSourceType, find_by_source,
}
use erp_fashion_api.Accounting.Period.{resolve_open_period}
use erp_fashion_api.Accounting.Journal.{create_internal}
use erp_fashion_api.Accounting.Journal.Balanced.{IsSound-next, create_internal-IsSound}
use erp_fashion_api.Accounting.Journal.Lines.{IsSound}
use erp_fashion_api.Accounting.TrialBalance.{account_sum}
use erp_fashion_api.Accounting.Posting.{
  Payment, PaymentMethod, Customer, Supplier, payment_entry, post_payment, reverse_payment,
  payment_accounts, resolve_account, reversal_entry, is_refund,
}
use erp_fashion_api.Accounting.Posting.Ledger.{ledger_net, net, net-swap}
use erp_fashion_api.Accounting.Posting.Internal.{
  swap-IsBalanced, create_internal-eq-ok, create_internal-passes, create_internal-ledger_net,
  create_internal-resolves, create_internal-IsBalanced, find_by_source-append, find_by_source-own,
}

abbrev pub share : ℕ → ℕ → ℤ → ℤ
share account side amount = if side == account then amount else pos 0

+ℤ_neg_cancel : (x n : ℤ) → x +ℤ n +ℤ neg n ≡ x
+ℤ_neg_cancel x n = omega int_laws

payment_entry-net :
    (paid : Payment) (user account : ℕ) (sides : ℕ × ℕ)
    → net account (payment_entry paid user sides).lines
      ≡ share account sides.0 paid.amount -ℤ share account sides.1 paid.amount
unfolding net account_sum
payment_entry-net paid user account sides = elim (Bool-cases (sides.0 == account)) [
  | inl debit ↦ elim (Bool-cases (sides.1 == account)) [
    | inl credit ↦ rw (debit, credit) (omega int_laws)
    | inr other ↦ rw (debit, other) (omega int_laws)
  ]
  | inr other ↦ elim (Bool-cases (sides.1 == account)) [
    | inl credit ↦ rw (other, credit) (omega int_laws)
    | inr neither ↦ rw (other, neither) (omega int_laws)
  ]
]

payment_entry-IsBalanced :
    (paid : Payment) (user : ℕ) (sides : ℕ × ℕ)
    → (IsBalanced (payment_entry paid user sides).lines) ↔ (pos 0 <ℤ paid.amount)
unfolding total_debit total_credit
payment_entry-IsBalanced paid user sides = (
  λ b. elim b.1.0 [ inl debit ↦ debit.0 | inr credit ↦ absurd (omega (arith, credit.0)) ],
  λ positive. ((λ e. cc e), (inl (positive, refl), (inr (positive, refl), tt)), omega int_laws),
)

module _ (accounts : List Account) (paid : Payment) (method : PaymentMethod)
    (customer : Option Customer) (supplier : Option Supplier) (user now : ℕ) (s : Store) where
  abbrev outcome : Result (JournalEntry × Store)
  outcome = post_payment accounts paid method customer supplier user now s

  -- The results of the steps that come before the journal.
  pub record IsPayable : Type 0 where
    pub cash : Account
    pub sides : ℕ × ℕ
    pub resolved : AccountingPeriod × Store
    pub has_cash : resolve_account method.gl_account_id paid.company_id accounts ≡ ok cash
    pub has_sides : payment_accounts accounts paid cash customer supplier ≡ ok sides
    pub is_positive : pos 0 <ℤ paid.amount
    pub in_period : resolve_open_period paid.company_id paid.payment_date s ≡ ok resolved

  post_payment-create :
      find_by_source paid.company_id JournalSourceType.payment paid.id s.entries ≡ none
      → (cash : Account) (sides : ℕ × ℕ)
      → resolve_account method.gl_account_id paid.company_id accounts ≡ ok cash
      → payment_accounts accounts paid cash customer supplier ≡ ok sides
      → outcome ≡ create_internal (payment_entry paid user sides) now s
  unfolding post_payment
  post_payment-create fresh cash sides has_cash has_sides =
      rw (outcome, post_payment, fresh, has_cash, has_sides) refl

  pub post_payment-eq-ok :
      find_by_source paid.company_id JournalSourceType.payment paid.id s.entries ≡ none
      → {e : JournalEntry} {s' : Store} → outcome ≡ ok (e, s')
      → (cash : Account) × (sides : ℕ × ℕ) × (resolve_account method.gl_account_id paid.company_id
            accounts
          ≡ ok cash)
        × (payment_accounts accounts paid cash customer supplier ≡ ok sides)
        × (create_internal (payment_entry paid user sides) now s ≡ ok (e, s'))
  unfolding post_payment
  post_payment-eq-ok fresh h =
      elim (Result-cases (resolve_account method.gl_account_id paid.company_id accounts)) [
        | inl (cash, has_cash) ↦
            elim (Result-cases (payment_accounts accounts paid cash customer supplier)) [
              | inl (sides, has_sides) ↦ (
                cash,
                sides,
                has_cash,
                has_sides,
                sym (post_payment-create fresh cash sides has_cash has_sides) ∙ h,
              )
              | inr (code, thrown) ↦ absurd (ground arith)
            ]
        | inr (code, thrown) ↦ absurd (ground arith)
      ]

  pub post_payment-existing :
      {existing e : JournalEntry} {s' : Store}
      → find_by_source paid.company_id JournalSourceType.payment paid.id s.entries ≡ some existing
      → outcome ≡ ok (e, s')
      → s ≡ s'
  unfolding post_payment
  post_payment-existing found h = ground arith

  post_payment-found :
      (sides : ℕ × ℕ) {e : JournalEntry} {s' : Store}
      → IsSound s
      → find_by_source paid.company_id JournalSourceType.payment paid.id s.entries ≡ none
      → create_internal (payment_entry paid user sides) now s ≡ ok (e, s')
      → find_by_source paid.company_id JournalSourceType.payment paid.id s'.entries ≡ some e
  post_payment-found sides {e} {s'} sound fresh made =
      let (_, _, company, source, id, entries, _, _, _) =
        create_internal-eq-ok (payment_entry paid user sides) now s sound made in
      rw entries (
        find_by_source-append paid.company_id paid.id JournalSourceType.payment s.entries (e ∷ [])
          fresh
        ∙ find_by_source-own paid.company_id paid.id e company source id)

  pub post_payment-IsSound :
      {e : JournalEntry} {s' : Store} → outcome ≡ ok (e, s') → IsSound s → IsSound s'
  post_payment-IsSound {e} {s'} done sound =
      elim (Option-cases
        (find_by_source paid.company_id JournalSourceType.payment paid.id s.entries)) [
          | inl fresh ↦
              let (_, sides, _, _, made) = post_payment-eq-ok fresh done in
              create_internal-IsSound (payment_entry paid user sides) now s e s' made sound
          | inr (existing, found) ↦ rw (sym (post_payment-existing found done)) sound
        ]

  -- A payment without a journal is posted exactly when each step goes through.
  pub post_payment_iff :
      find_by_source paid.company_id JournalSourceType.payment paid.id s.entries ≡ none
      → ((e : JournalEntry) × (s' : Store) × (outcome ≡ ok (e, s'))) ↔ IsPayable
  post_payment_iff fresh = (
    λ (e, s', done).
        let (cash, sides, has_cash, has_sides, made) = post_payment-eq-ok fresh done in
        let (resolved, in_period) =
          create_internal-resolves (payment_entry paid user sides) now s made in
        record {
          cash = cash;
          sides = sides;
          resolved = resolved;
          has_cash = has_cash;
          has_sides = has_sides;
          is_positive =
              (payment_entry-IsBalanced paid user sides).0
                (create_internal-IsBalanced (payment_entry paid user sides) now s made);
          in_period = in_period;
        },
    λ p.
        let (e, s', made) =
          create_internal-passes (payment_entry paid user p.sides) now s
            ((payment_entry-IsBalanced paid user p.sides).1 p.is_positive) p.in_period in
        (e, s', post_payment-create fresh p.cash p.sides p.has_cash p.has_sides ∙ made),
  )

  -- A payment that is posted debits one of its two accounts by its amount and credits the other,
  -- keeps every posted journal balanced, and is posted once: to post it again returns the same
  -- journal and writes nothing.
  pub post_payment_lem :
      {e : JournalEntry} {s' : Store}
      → IsSound s
      → find_by_source paid.company_id JournalSourceType.payment paid.id s.entries ≡ none
      → outcome ≡ ok (e, s')
      → (cash : Account) × (sides : ℕ × ℕ) × (resolve_account method.gl_account_id paid.company_id
            accounts
          ≡ ok cash)
        × (payment_accounts accounts paid cash customer supplier ≡ ok sides)
        × ((account : ℕ)
            → ledger_net account s'
              ≡ ledger_net account s
                +ℤ (share account sides.0 paid.amount -ℤ share account sides.1 paid.amount))
        × IsSound s'
        × (post_payment accounts paid method customer supplier user now s' ≡ ok (e, s'))
  unfolding post_payment
  post_payment_lem {e} {s'} sound fresh done =
      let (cash, sides, has_cash, has_sides, made) = post_payment-eq-ok fresh done in
      let params = payment_entry paid user sides in
      (
        cash,
        sides,
        has_cash,
        has_sides,
        λ account.
            create_internal-ledger_net params now account s sound made
            ∙ ap (λ n. ledger_net account s +ℤ n) (payment_entry-net paid user account sides),
        create_internal-IsSound params now s e s' made sound,
        rw (post_payment, post_payment-found sides sound fresh made) refl,
      )

  -- A refund is never posted.
  payment_accounts-eq-ok :
      (cash : Account) {sides : ℕ × ℕ}
      → payment_accounts accounts paid cash customer supplier ≡ ok sides
      → is_refund paid.direction ≡ Bool.false
  unfolding payment_accounts
  payment_accounts-eq-ok cash h = ground arith

  -- A posted payment can be reversed whenever a period is open for the day of the reversal, and
  -- then every account of the ledger has the balance that it had before the payment, and every
  -- posted journal is still balanced.
  pub reverse_payment_lem :
      {e : JournalEntry} {s' : Store} (reason : Option String) (later : ℕ)
      {resolved : AccountingPeriod × Store}
      → IsSound s
      → find_by_source paid.company_id JournalSourceType.payment paid.id s.entries ≡ none
      → outcome ≡ ok (e, s')
      → resolve_open_period paid.company_id later (record s' { next_id = s'.next_id + 1 })
        ≡ ok resolved
      → (r : JournalEntry) × (s'' : Store) × (reverse_payment paid user reason later s'
          ≡ ok (some r, s''))
        × ((account : ℕ) → ledger_net account s'' ≡ ledger_net account s)
        × IsSound s''
  unfolding reverse_payment ledger_net
  reverse_payment_lem {e} {s'} reason later {resolved} sound fresh done in_period =
      let (cash, sides, _, has_sides, made) = post_payment-eq-ok fresh done in
      let params = payment_entry paid user sides in
      let (balanced, _, _, _, _, _, _, own, _) = create_internal-eq-ok params now s sound made in
      let ready = record s' { next_id = s'.next_id + 1 } in
      let sound' = IsSound-next s' (create_internal-IsSound params now s e s' made sound) in
      let back = reversal_entry paid user reason later s'.next_id params.lines in
      let (r, s'', reversed) =
        create_internal-passes back later ready (swap-IsBalanced paid params.lines balanced)
          in_period in
      (
        r,
        s'',
        rw
            (
              payment_accounts-eq-ok cash has_sides,
              post_payment-found sides sound fresh made,
              own,
              reversed,
            )
            refl,
        λ account.
            create_internal-ledger_net back later account ready sound' reversed
            ∙ ap (λ n. n +ℤ net account back.lines)
                (create_internal-ledger_net params now account s sound made)
            ∙ ap (λ n. ledger_net account s +ℤ net account params.lines +ℤ n)
                (net-swap paid account params.lines)
            ∙ +ℤ_neg_cancel (ledger_net account s) (net account params.lines),
        create_internal-IsSound back later ready r s'' reversed sound',
      )
