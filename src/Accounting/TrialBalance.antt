-- ===== src/Accounting/TrialBalance.antt =====
-- `TrialBalanceService.query` (src/modules/accounting/services/trial-balance.service.ts): the posted
-- lines of a company, by account.
pub mod Totals
use erp_fashion_api.Common.{
  ℕ, Bool, true, ◌&&◌, ◌||◌, Option, none, some, List, [], ◌∷◌, ◌++◌, ◌==◌, leb, if◌then◌else◌, ℤ,
  pos, ◌+ℤ◌,
}
use erp_fashion_api.Accounting.DoubleEntry.{LineInput}
use erp_fashion_api.Accounting.Store.{
  Store, Account, JournalEntry, JournalEntryLine, is_posted, lines_of,
}

-- `allowed_branch_ids` is empty where the caller may see every branch.
pub record TrialBalanceQuery : Type 0 where
  pub branch_id : Option ℕ
  pub allowed_branch_ids : List ℕ
  pub as_of_date : Option ℕ

abbrev contains : List ℕ → ℕ → Bool
contains [] id = Bool.false
contains (x ∷ xs) id = id == x || contains xs id

-- A branch compared by SQL: a missing one equals nothing.
abbrev passes : (ℕ → Bool) → Option ℕ → Bool
passes test none = Bool.false
passes test (some id) = test id

abbrev in_branch : TrialBalanceQuery → JournalEntry → Bool
in_branch query e = elim query.branch_id [
  | some id ↦ passes (λ b. b == id) e.branch_id
  | none ↦ elim query.allowed_branch_ids [
    | [] ↦ true
    | x ∷ xs ↦ passes (contains (x ∷ xs)) e.branch_id
  ]
]

abbrev in_time : TrialBalanceQuery → JournalEntry → Bool
in_time query e = elim query.as_of_date [ none ↦ true | some time ↦ leb e.entry_date time ]

-- The `WHERE` clause, but for the status.
abbrev pub is_in_scope : ℕ → TrialBalanceQuery → JournalEntry → Bool
is_in_scope company query e = e.company_id == company && in_branch query e && in_time query e

-- The lines joined to their entries, of the posted entries in scope.
unfoldable pub posted_lines :
    (JournalEntry → Bool) → List JournalEntry → List JournalEntryLine → List LineInput
posted_lines keep [] lines = []
posted_lines keep (e ∷ entries) lines =
    (if is_posted e.status && keep e then lines_of e.id lines else [])
    ++ posted_lines keep entries lines

-- `SUM(line.<column>)` of one account's lines.
unfoldable pub account_sum : (LineInput → ℤ) → ℕ → List LineInput → ℤ
account_sum column account [] = pos 0
account_sum column account (l ∷ lines) =
    (if l.account_id == account then column l else pos 0) +ℤ account_sum column account lines

abbrev pub has_line : ℕ → List LineInput → Bool
has_line account [] = Bool.false
has_line account (l ∷ lines) = l.account_id == account || has_line account lines

pub record TrialBalanceRow : Type 0 where
  pub account_id : ℕ
  pub total_debit : ℤ
  pub total_credit : ℤ

abbrev pub debit_of : LineInput → ℤ
debit_of l = l.debit_amount

abbrev pub credit_of : LineInput → ℤ
credit_of l = l.credit_amount

-- `GROUP BY account.id`, over the lines joined to their accounts.
unfoldable pub trial_rows : List Account → List LineInput → List TrialBalanceRow
unfolding account_sum
trial_rows [] lines = []
trial_rows (a ∷ accounts) lines =
    let rest = trial_rows accounts lines in
    if has_line a.id lines
    then record {
      account_id = a.id;
      total_debit = account_sum debit_of a.id lines;
      total_credit = account_sum credit_of a.id lines;
    }
      ∷ rest
    else rest

abbrev pub sum_rows : (TrialBalanceRow → ℤ) → List TrialBalanceRow → ℤ
sum_rows column [] = pos 0
sum_rows column (row ∷ rows) = column row +ℤ sum_rows column rows

pub record TrialBalanceResult : Type 0 where
  pub rows : List TrialBalanceRow
  pub total_debit : ℤ
  pub total_credit : ℤ

-- `query`
unfoldable pub query_trial_balance :
    List Account → ℕ → TrialBalanceQuery → Store → TrialBalanceResult
unfolding trial_rows posted_lines
query_trial_balance accounts company query s =
    let rows = trial_rows accounts (posted_lines (is_in_scope company query) s.entries s.lines) in
    record {
      rows = rows;
      total_debit = sum_rows (λ row. row.total_debit) rows;
      total_credit = sum_rows (λ row. row.total_credit) rows;
    }
