-- ===== src/Accounting/History/Accounts.antt =====
-- Every line that is ever written names an account of the table.
use erp_fashion_api.Common.{
  ℕ, ◌+◌, ◌≡◌, ◌⊎◌, refl, sym, inl, inr, Bool-cases, Option-cases, Option, none, some, List, [],
  ◌∷◌, map, ◌==◌, ◌&&◌, arith, All, All-append, Result-cases, ok, >>=-eq-ok,
}
use Prim.Native.String.{String}
use erp_fashion_api.Accounting.DoubleEntry.{LineInput, assert_balanced}
use erp_fashion_api.Accounting.Store.{
  Store, Account, JournalEntry, JournalEntryLine, JournalSourceType, find_account, find_by_source,
  lines_of,
}
use erp_fashion_api.Accounting.Period.{resolve_open_period}
use erp_fashion_api.Accounting.Journal.{
  CreateJournalEntry, InternalEntry, check_accounts, line_rows, save_new, draft_entry,
  internal_entry, apply_create, create_internal,
}
use erp_fashion_api.Accounting.Journal.Balanced.{resolve-keeps}
use erp_fashion_api.Accounting.Posting.{
  Payment, PaymentDirection, receipt, refund, PaymentMethod, Customer, Supplier,
  find_active_account, resolve_account, payment_accounts, payment_entry, post_payment, swap_sides,
  reverse_payment, reversal_entry,
}
use erp_fashion_api.Accounting.Posting.Internal.{reverse_payment-eq-ok}
use erp_fashion_api.Accounting.Posting.Effect.{post_payment-eq-ok, post_payment-existing}

direction-cases :
    (d : PaymentDirection) → (d ≡ receipt) ⊎ ((d ≡ PaymentDirection.payment) ⊎ (d ≡ refund))
direction-cases receipt = inl refl
direction-cases PaymentDirection.payment = inr (inl refl)
direction-cases refund = inr (inr refl)

module _ (P : ℕ → Type 0) where
  abbrev pub Holds : List JournalEntryLine → Type 0
  Holds lines = All (λ l. P l.input.account_id) lines

  abbrev Named : List LineInput → Type 0
  Named lines = All (λ l. P l.account_id) lines

  line_rows-Holds :
      (entry id : ℕ) (lines : List LineInput) → Named lines → Holds (line_rows entry id lines)
  unfolding line_rows
  line_rows-Holds entry id [] h = tt
  line_rows-Holds entry id (l ∷ lines) h = (h.0, line_rows-Holds entry (id + 1) lines h.1)

  lines_of-Named :
      (entry : ℕ) (lines : List JournalEntryLine) → Holds lines → Named (lines_of entry lines)
  unfolding lines_of
  lines_of-Named entry [] h = tt
  lines_of-Named entry (l ∷ lines) h = elim (Bool-cases (entry == l.journal_entry_id)) [
    | inl own ↦ rw own (h.0, lines_of-Named entry lines h.1)
    | inr other ↦ rw other (lines_of-Named entry lines h.1)
  ]

  swap-Named :
      (paid : Payment) (lines : List LineInput) → Named lines → Named (map (swap_sides paid) lines)
  swap-Named paid [] h = tt
  swap-Named paid (l ∷ lines) h = (h.0, swap-Named paid lines h.1)

  create_internal-Holds :
      (params : InternalEntry) (now : ℕ) (s : Store) (e : JournalEntry) (s' : Store)
      → create_internal params now s ≡ ok (e, s')
      → Named params.lines
      → Holds s.lines
      → Holds s'.lines
  unfolding create_internal save_new
  create_internal-Holds params now s e s' h named holds =
      elim (Result-cases (assert_balanced params.lines)) [
        | inl (totals, balanced) ↦
            elim (Result-cases (resolve_open_period params.company_id params.entry_date s)) [
              | inl (resolved, opened) ↦
                  let (_, same_lines, _) =
                    resolve-keeps params.company_id params.entry_date s opened in
                  let written =
                    save_new (internal_entry params now totals resolved.0) params.lines
                      params.company_id params.entry_date resolved.1 in
                  let same : written.1 ≡ s' = ground arith in
                  rw (sym same, same_lines)
                    (All-append _ s.lines _ holds (line_rows-Holds _ _ params.lines named))
              | inr (code, thrown) ↦ absurd (ground arith)
            ]
        | inr (code, thrown) ↦ absurd (ground arith)
      ]

  pub reverse_payment-Holds :
      (paid : Payment) (user : ℕ) (reason : Option String) (now : ℕ) (s : Store)
      (r : Option JournalEntry) (s' : Store)
      → reverse_payment paid user reason now s ≡ ok (r, s')
      → Holds s.lines
      → Holds s'.lines
  reverse_payment-Holds paid user reason now s r s' h holds =
      elim (reverse_payment-eq-ok paid user reason now s h) [
        | inl same ↦ rw (sym same) holds
        | inr (entry, e, made) ↦
            create_internal-Holds
              (reversal_entry paid user reason now s.next_id (lines_of entry s.lines)) now
              (record s { next_id = s.next_id + 1 }) e s' made
              (swap-Named paid (lines_of entry s.lines) (lines_of-Named entry s.lines holds)) holds
      ]

  module _ (accounts : List Account) where
    find_account-named :
        (id company : ℕ) (table : List Account) {a : Account}
        → All (λ a. P a.id) table
        → find_account id company table ≡ some a
        → P id
    unfolding find_account
    find_account-named id company [] known found = absurd (ground arith)
    find_account-named id company (x ∷ table) {a} known found =
        elim (Bool-cases (id == x.id && company == x.company_id)) [
          | inl here ↦ let itself : x.id ≡ id = ground arith in rw (sym itself) known.0
          | inr there ↦ find_account-named id company table {a = a} known.1 (ground arith)
        ]

    check_accounts-Named :
        (company : ℕ) (lines : List LineInput)
        → All (λ a. P a.id) accounts
        → check_accounts accounts company lines ≡ ok tt
        → Named lines
    unfolding check_accounts
    check_accounts-Named company [] known h = tt
    check_accounts-Named company (l ∷ lines) known h =
        elim (Option-cases (find_account l.account_id company accounts)) [
          | inl absent ↦ absurd (ground arith)
          | inr (a, found) ↦ (
            find_account-named l.account_id company accounts known found,
            check_accounts-Named company lines known (ground arith),
          )
        ]

    find_active_account-named :
        (id company : ℕ) (table : List Account) {a : Account}
        → All (λ a. P a.id) table
        → find_active_account id company table ≡ some a
        → P a.id
    unfolding find_active_account
    find_active_account-named id company [] known found = absurd (ground arith)
    find_active_account-named id company (x ∷ table) {a} known found =
        elim (Bool-cases (id == x.id && company == x.company_id && x.is_active)) [
          | inl here ↦ let itself : x ≡ a = ground arith in rw (sym itself) known.0
          | inr there ↦ find_active_account-named id company table {a = a} known.1 (ground arith)
        ]

    resolve_account-named :
        (id : Option ℕ) (company : ℕ) {a : Account}
        → All (λ a. P a.id) accounts
        → resolve_account id company accounts ≡ ok a
        → P a.id
    unfolding resolve_account
    resolve_account-named none company known h = absurd (ground arith)
    resolve_account-named (some id) company {a} known h =
        find_active_account-named id company accounts {a = a} known (ground arith)

    payment_accounts-named :
        (paid : Payment) (cash : Account) (customer : Option Customer) (supplier : Option Supplier)
        {sides : ℕ × ℕ}
        → All (λ a. P a.id) accounts
        → P cash.id
        → payment_accounts accounts paid cash customer supplier ≡ ok sides
        → P sides.0 × P sides.1
    unfolding payment_accounts
    payment_accounts-named paid cash customer supplier {sides} known cash_known h =
        elim (direction-cases paid.direction) [
          | inl incoming ↦ elim (Option-cases customer) [
            | inl missing ↦ absurd (ground arith)
            | inr (c, given) ↦
                elim (Result-cases
                  (resolve_account c.receivable_account_id paid.company_id accounts)) [
                    | inl (a, found) ↦
                        let same : (cash.id, a.id) ≡ sides = ground arith in
                        rw (sym same)
                          (cash_known, resolve_account-named _ paid.company_id known found)
                    | inr (code, thrown) ↦ absurd (ground arith)
                  ]
          ]
          | inr (inr is_refund) ↦ absurd (ground arith)
          | inr (inl outgoing) ↦ elim (Option-cases supplier) [
            | inl missing ↦ absurd (ground arith)
            | inr (c, given) ↦
                elim (Result-cases
                  (resolve_account c.payable_account_id paid.company_id accounts)) [
                    | inl (a, found) ↦
                        let same : (a.id, cash.id) ≡ sides = ground arith in
                        rw (sym same)
                          (resolve_account-named _ paid.company_id known found, cash_known)
                    | inr (code, thrown) ↦ absurd (ground arith)
                  ]
          ]
        ]

    pub apply_create-Holds :
        (company user : ℕ) (dto : CreateJournalEntry) (time : ℕ) (s : Store) (e : JournalEntry)
        (s' : Store)
        → All (λ a. P a.id) accounts
        → apply_create accounts company user dto time s ≡ ok (e, s')
        → Holds s.lines
        → Holds s'.lines
    unfolding apply_create save_new
    apply_create-Holds company user dto time s e s' known h holds =
        let (_, checked, after_check) = >>=-eq-ok (check_accounts accounts company dto.lines) _ h in
        let (resolved, opened, rest) =
          >>=-eq-ok (resolve_open_period company time s) _ after_check in
        let (_, same_lines, _) = resolve-keeps company time s opened in
        let written =
          save_new (draft_entry company user dto time resolved.0) dto.lines company time
            resolved.1 in
        let same : written.1 ≡ s' = ground (arith, rest) in
        rw (sym same, same_lines)
          (All-append _ s.lines _ holds
            (line_rows-Holds _ _ dto.lines (check_accounts-Named company dto.lines known checked)))

    pub post_payment-Holds :
        (paid : Payment) (method : PaymentMethod) (customer : Option Customer)
        (supplier : Option Supplier) (user now : ℕ) (s : Store) (e : JournalEntry) (s' : Store)
        → All (λ a. P a.id) accounts
        → post_payment accounts paid method customer supplier user now s ≡ ok (e, s')
        → Holds s.lines
        → Holds s'.lines
    post_payment-Holds paid method customer supplier user now s e s' known h holds =
        elim (Option-cases
          (find_by_source paid.company_id JournalSourceType.payment paid.id s.entries)) [
            | inl fresh ↦
                let (cash, sides, has_cash, has_sides, made) =
                  post_payment-eq-ok accounts paid method customer supplier user now s fresh h in
                let (debit, credit) =
                  payment_accounts-named paid cash customer supplier known
                    (resolve_account-named method.gl_account_id paid.company_id known has_cash)
                    has_sides in
                create_internal-Holds (payment_entry paid user sides) now s e s' made
                  (debit, (credit, tt)) holds
            | inr (existing, found) ↦
                rw
                  (sym (
                    post_payment-existing accounts paid method customer supplier user now s found
                      h))
                  holds
          ]
