-- ===== src/Accounting/Examples.antt =====
-- The theorems of the accounting services at the small company of Accounting/Sample.
use erp_fashion_api.Common.{
  ℕ, ◌+◌, ◌≡◌, ◌↔◌, refl, inl, inr, Option, none, some, [], arith, ℤ, pos, ◌+ℤ◌, ◌-ℤ◌, ◌<ℤ◌, ok,
  throw, conflict,
}
use erp_fashion_api.Accounting.DoubleEntry.{
  IsBalanced, sum_lines, assert_one_sided_line, assert_balanced, assert_balanced_lem, total_debit,
  total_credit,
}
use erp_fashion_api.Accounting.Store.{
  Store, Account, JournalEntry, JournalEntryStatus, JournalSourceType, lines_of, find_entry,
  find_by_source, find_period, find_fiscal_year,
}
use erp_fashion_api.Accounting.Period.{resolve_open_period, find_joined}
use erp_fashion_api.Accounting.Journal.{
  CreateJournalEntry, create_internal, save_new, line_rows, create_journal, post_journal,
  cancel_journal, read_cancelled, save_entry,
}
use erp_fashion_api.Accounting.Journal.Lines.{IsSound}
use erp_fashion_api.Accounting.Journal.Lifecycle.{IsPostable}
use erp_fashion_api.Accounting.Journal.Final.{posted_is_final, cancel_overwrites_posted}
use erp_fashion_api.Accounting.Journal.Lookup.{IsDistinct}
use erp_fashion_api.Accounting.TrialBalance.{
  TrialBalanceQuery, query_trial_balance, debit_of, credit_of, posted_lines, is_in_scope,
}
use erp_fashion_api.Accounting.TrialBalance.Totals.{query_trial_balance_lem, total}
use erp_fashion_api.Accounting.Posting.{
  Payment, PaymentDirection, PaymentMethod, Customer, resolve_account, payment_accounts,
  find_active_account, post_payment, reverse_payment,
}
use erp_fashion_api.Accounting.Posting.Ledger.{ledger_net}
use erp_fashion_api.Accounting.Posting.Success.{IsConfigured, HasParty, post_payment_succeeds}
use erp_fashion_api.Accounting.Period.Open.{IsOpenFor}
use erp_fashion_api.Accounting.Posting.Effect.{share, post_payment_lem, reverse_payment_lem}
use erp_fashion_api.Accounting.History.{empty, start, created, posted, query_trial_balance_balances}
use erp_fashion_api.Accounting.Sample.{
  directory, two_lines, now, open_period, year_2026, entry, books,
}

two_lines-IsBalanced : IsBalanced two_lines
unfolding total_debit total_credit ◌+ℤ◌
two_lines-IsBalanced = ((λ e. cc e), (inl (omega arith, refl), (inr (omega arith, refl), tt)), refl)

abbrev totals : ℤ × ℤ
totals = (pos 5000, pos 5000)

assert_balanced_lem_example :
    (assert_balanced two_lines ≡ ok totals)
    ↔ IsBalanced two_lines × (totals ≡ (total_debit two_lines, total_credit two_lines))
assert_balanced_lem_example = assert_balanced_lem two_lines totals

books-IsSound : IsSound books
unfolding lines_of
books-IsSound = (
  ((omega arith, λ posted. absurd (cc posted)), ((omega arith, λ _. two_lines-IsBalanced), tt)),
  (omega arith, (omega arith, (omega arith, (omega arith, tt)))),
)

books-IsDistinct : IsDistinct books.entries
books-IsDistinct = ((λ e. omega (arith, e), tt), (tt, tt))

draft_10-IsPostable : IsPostable 10 7 books
unfolding find_entry lines_of find_period find_fiscal_year
draft_10-IsPostable = record {
  entry = entry 10 JournalEntryStatus.draft;
  period = open_period;
  fiscal_year = year_2026;
  found = refl;
  is_draft_now = refl;
  balanced = two_lines-IsBalanced;
  has_period = refl;
  has_year = refl;
  period_is_open = refl;
  year_is_open = refl;
}

abbrev rent : CreateJournalEntry
rent = record { branch_id = none; entry_date = some now; description = "rent"; lines = two_lines }

posted_11 : find_entry 11 7 books.entries ≡ some (entry 11 JournalEntryStatus.posted)
unfolding find_entry
posted_11 = refl

abbrev IsKept11 : Store → Type 0
IsKept11 s' =
    (find_entry 11 7 s'.entries ≡ some (entry 11 JournalEntryStatus.posted))
    × (lines_of 11 s'.lines ≡ lines_of 11 books.lines)

posted_is_final_example :
    (post_journal 11 7 3 now books ≡ (throw conflict, books))
    × (cancel_journal 11 7 books ≡ (throw conflict, books))
    × IsKept11 (create_journal directory 7 3 rent now books).1
    × IsKept11 (post_journal 10 7 3 now books).1
    × IsKept11 (cancel_journal 10 7 books).1
posted_is_final_example =
    posted_is_final 11 7 books (entry 11 JournalEntryStatus.posted) directory 10 7 3 now rent
      books-IsSound posted_11 refl (λ e. omega (arith, e))

abbrev cancelled_10 : JournalEntry
cancelled_10 = record draft_10-IsPostable.entry { status = JournalEntryStatus.cancelled }

abbrev after_post : Store
after_post = (post_journal 10 7 3 now books).1

cancel_overwrites_posted_example :
    (read_cancelled 10 7 books ≡ ok cancelled_10)
    × ((e : JournalEntry) × (find_entry 10 7 after_post.entries ≡ some e)
        × (e.status ≡ JournalEntryStatus.posted))
    × (find_entry 10 7 (save_entry cancelled_10 after_post).entries ≡ some cancelled_10)
cancel_overwrites_posted_example =
    cancel_overwrites_posted 10 7 3 now books books-IsDistinct draft_10-IsPostable

abbrev all_branches : TrialBalanceQuery
all_branches = record { branch_id = none; allowed_branch_ids = []; as_of_date = none }

query_trial_balance_lem_example :
    ((query_trial_balance directory.accounts 7 all_branches books).total_debit
      ≡ (query_trial_balance directory.accounts 7 all_branches books).total_credit)
    × ((query_trial_balance directory.accounts 7 all_branches books).total_debit
        ≡ total debit_of (posted_lines (is_in_scope 7 all_branches) books.entries books.lines))
    × ((query_trial_balance directory.accounts 7 all_branches books).total_credit
        ≡ total credit_of (posted_lines (is_in_scope 7 all_branches) books.entries books.lines))
query_trial_balance_lem_example =
    query_trial_balance_lem directory.accounts 7 all_branches books books-IsSound
      (refl, (refl, (refl, (refl, tt))))

-- The store after one request to create a journal and one to post it.
abbrev first_draft : Store
first_draft = (create_journal directory 7 3 rent now empty).1

query_trial_balance_balances_example :
    (query_trial_balance directory.accounts 7 all_branches
      (post_journal 3 7 3 now first_draft).1).total_debit
    ≡ (query_trial_balance directory.accounts 7 all_branches
        (post_journal 3 7 3 now first_draft).1).total_credit
query_trial_balance_balances_example =
    query_trial_balance_balances directory 7 all_branches (refl, (refl, tt))
      (posted 3 7 3 now (created 7 3 rent now start))

abbrev sale_receipt : Payment
sale_receipt = record {
  id = 40;
  payment_number = "PAY-2026-000001";
  company_id = 7;
  branch_id = none;
  direction = PaymentDirection.receipt;
  amount = pos 12550;
  payment_date = now;
}

abbrev bank_transfer : PaymentMethod
bank_transfer = record { gl_account_id = some 1 }

abbrev buyer : Option Customer
buyer = some (record { receivable_account_id = some 2 })

sale_receipt_is_new : find_by_source 7 JournalSourceType.payment 40 books.entries ≡ none
unfolding find_by_source
sale_receipt_is_new = refl

post_payment_succeeds_example :
    ((e : JournalEntry) × (s' : Store) × (post_payment directory.accounts sale_receipt bank_transfer
          buyer none 3 now books
        ≡ ok (e, s')))
    ↔ IsConfigured (some 1) 7 directory.accounts
      × HasParty PaymentDirection.receipt 7 directory.accounts buyer none
      × (pos 0 <ℤ pos 12550)
      × IsOpenFor 7 now books
post_payment_succeeds_example =
    post_payment_succeeds directory.accounts sale_receipt bank_transfer buyer none 3 now books
      sale_receipt_is_new

posted_receipt :
    (e : JournalEntry) × (s' : Store) × (post_payment directory.accounts sale_receipt bank_transfer
        buyer none 3 now books
      ≡ ok (e, s'))
unfolding post_payment resolve_account payment_accounts find_by_source find_active_account
    create_internal assert_balanced sum_lines assert_one_sided_line resolve_open_period find_joined
    find_fiscal_year ◌+ℤ◌ save_new line_rows
posted_receipt = (_, _, refl)

post_payment_lem_example :
    (cash : Account) × (sides : ℕ × ℕ) × (resolve_account (some 1) 7 directory.accounts ≡ ok cash)
    × (payment_accounts directory.accounts sale_receipt cash buyer none ≡ ok sides)
    × ((account : ℕ)
        → ledger_net account posted_receipt.1
          ≡ ledger_net account books
            +ℤ (share account sides.0 (pos 12550) -ℤ share account sides.1 (pos 12550)))
    × IsSound posted_receipt.1
    × (post_payment directory.accounts sale_receipt bank_transfer buyer none 3 now posted_receipt.1
        ≡ ok (posted_receipt.0, posted_receipt.1))
post_payment_lem_example =
    post_payment_lem directory.accounts sale_receipt bank_transfer buyer none 3 now books
      books-IsSound sale_receipt_is_new posted_receipt.2

next_day_is_open :
    resolve_open_period 7 20260302090000
      (record posted_receipt.1 { next_id = posted_receipt.1.next_id + 1 })
    ≡ ok (open_period, record posted_receipt.1 { next_id = posted_receipt.1.next_id + 1 })
unfolding posted_receipt resolve_open_period find_joined find_fiscal_year save_new
next_day_is_open = refl

reverse_payment_lem_example :
    (r : JournalEntry) × (s'' : Store) × (reverse_payment sale_receipt 3
        (some "returned")
        20260302090000
        posted_receipt.1
      ≡ ok (some r, s''))
    × ((account : ℕ) → ledger_net account s'' ≡ ledger_net account books)
    × IsSound s''
reverse_payment_lem_example =
    reverse_payment_lem directory.accounts sale_receipt bank_transfer buyer none 3 now books
      (some "returned") 20260302090000 books-IsSound sale_receipt_is_new posted_receipt.2
      next_day_is_open
