-- ===== src/Accounting/TrialBalance/Totals.antt =====
-- The trial balance balances.
use erp_fashion_api.Common.{
  ℕ, ◌+◌, ◌≡◌, refl, sym, ap, ◌∙◌, inl, inr, Bool, Bool-cases, List, [], ◌∷◌, ◌++◌, ◌==◌,
  if◌then◌else◌, arith, ℤ, pos, ◌+ℤ◌, int_laws, All, All-append, +ℤ_zero, zero_+ℤ, +ℤ_assoc, ◌&&◌,
}
use erp_fashion_api.Accounting.DoubleEntry.{LineInput, total_debit, total_credit}
use erp_fashion_api.Accounting.Store.{
  Store, Account, JournalEntry, JournalEntryLine, is_posted, lines_of,
}
use erp_fashion_api.Accounting.Journal.Lines.{IsSound, IsEntry}
use erp_fashion_api.Accounting.TrialBalance.{
  TrialBalanceQuery, TrialBalanceRow, is_in_scope, posted_lines, account_sum, has_line, debit_of,
  credit_of, trial_rows, sum_rows, query_trial_balance,
}

unfoldable pub total : (LineInput → ℤ) → List LineInput → ℤ
total column [] = pos 0
total column (l ∷ lines) = column l +ℤ total column lines

-- The sum of a column over all accounts.
spread : (ℕ → ℤ) → List Account → ℤ
spread f [] = pos 0
spread f (a ∷ accounts) = f a.id +ℤ spread f accounts

abbrev pub occurrences : ℕ → List Account → ℕ
occurrences id [] = 0
occurrences id (a ∷ accounts) = (if id == a.id then 1 else 0) + occurrences id accounts

spread-add :
    (f g : ℕ → ℤ) (accounts : List Account)
    → spread (λ a. f a +ℤ g a) accounts ≡ spread f accounts +ℤ spread g accounts
unfolding spread
spread-add f g [] = sym (+ℤ_zero (pos 0))
spread-add f g (a ∷ accounts) = grind (int_laws, spread-add f g accounts)

spread-zero : (accounts : List Account) → spread (λ _. pos 0) accounts ≡ pos 0
unfolding spread
spread-zero [] = refl
spread-zero (a ∷ accounts) = zero_+ℤ _ ∙ spread-zero accounts

spread-absent :
    (id : ℕ) (d : ℤ) (accounts : List Account)
    → occurrences id accounts ≡ 0
    → spread (λ a. if id == a then d else pos 0) accounts ≡ pos 0
unfolding spread
spread-absent id d [] h = refl
spread-absent id d (a ∷ accounts) h = elim (Bool-cases (id == a.id)) [
  | inl here ↦ absurd (ground arith)
  | inr there ↦ rw there (zero_+ℤ _ ∙ spread-absent id d accounts (ground arith))
]

spread-once :
    (id : ℕ) (d : ℤ) (accounts : List Account)
    → occurrences id accounts ≡ 1
    → spread (λ a. if id == a then d else pos 0) accounts ≡ d
unfolding spread
spread-once id d [] h = absurd (omega (arith, h))
spread-once id d (a ∷ accounts) h = elim (Bool-cases (id == a.id)) [
  | inl here ↦ rw (here, spread-absent id d accounts (ground arith)) (+ℤ_zero d)
  | inr there ↦ rw there (zero_+ℤ _ ∙ spread-once id d accounts (ground arith))
]

spread-total :
    (column : LineInput → ℤ) (accounts : List Account) (lines : List LineInput)
    → All (λ l. occurrences l.account_id accounts ≡ 1) lines
    → spread (λ a. account_sum column a lines) accounts ≡ total column lines
unfolding account_sum total
spread-total column accounts [] h = spread-zero accounts
spread-total column accounts (l ∷ lines) h =
    spread-add (λ a. if l.account_id == a then column l else pos 0)
      (λ a. account_sum column a lines) accounts
    ∙ rw (spread-once l.account_id (column l) accounts h.0, spread-total column accounts lines h.1)
        refl

-- An account without a line adds nothing.
account_sum-absent :
    (column : LineInput → ℤ) (account : ℕ) (lines : List LineInput)
    → has_line account lines ≡ Bool.false
    → account_sum column account lines ≡ pos 0
unfolding account_sum
account_sum-absent column account [] h = refl
account_sum-absent column account (l ∷ lines) h = elim (Bool-cases (l.account_id == account)) [
  | inl here ↦ absurd (ground arith)
  | inr there ↦ rw there (zero_+ℤ _ ∙ account_sum-absent column account lines (ground arith))
]

row_of : List LineInput → ℕ → TrialBalanceRow
row_of lines account = record {
  account_id = account;
  total_debit = account_sum debit_of account lines;
  total_credit = account_sum credit_of account lines;
}

sum_rows-trial_rows :
    (field : TrialBalanceRow → ℤ) (column : LineInput → ℤ) (accounts : List Account)
    (lines : List LineInput)
    → ((account : ℕ) → field (row_of lines account) ≡ account_sum column account lines)
    → sum_rows field (trial_rows accounts lines) ≡ spread (λ a. account_sum column a lines) accounts
unfolding trial_rows spread row_of
sum_rows-trial_rows field column [] lines same = refl
sum_rows-trial_rows field column (a ∷ accounts) lines same =
    let rest = sum_rows-trial_rows field column accounts lines same in
    elim (Bool-cases (has_line a.id lines)) [
      | inl some_line ↦
          rw (some_line, same a.id) (ap (λ n. account_sum column a.id lines +ℤ n) rest)
      | inr no_line ↦
          rw (no_line, account_sum-absent column a.id lines no_line) (rest ∙ sym (zero_+ℤ _))
    ]

pub total-append :
    (column : LineInput → ℤ) (xs ys : List LineInput)
    → total column (xs ++ ys) ≡ total column xs +ℤ total column ys
unfolding total
total-append column [] ys = sym (zero_+ℤ _)
total-append column (x ∷ xs) ys =
    ap (λ n. column x +ℤ n) (total-append column xs ys) ∙ sym (+ℤ_assoc _ _ _)

total-debit_of : (lines : List LineInput) → total debit_of lines ≡ total_debit lines
unfolding total total_debit
total-debit_of [] = refl
total-debit_of (l ∷ lines) = ap (λ n. l.debit_amount +ℤ n) (total-debit_of lines)

total-credit_of : (lines : List LineInput) → total credit_of lines ≡ total_credit lines
unfolding total total_credit
total-credit_of [] = refl
total-credit_of (l ∷ lines) = ap (λ n. l.credit_amount +ℤ n) (total-credit_of lines)

module _ (P : LineInput → Type 0) (keep : JournalEntry → Bool) where
  lines_of-All :
      (entry : ℕ) (lines : List JournalEntryLine)
      → All (λ l. P l.input) lines
      → All P (lines_of entry lines)
  unfolding lines_of
  lines_of-All entry [] h = tt
  lines_of-All entry (l ∷ lines) h = elim (Bool-cases (entry == l.journal_entry_id)) [
    | inl own ↦ rw own (h.0, lines_of-All entry lines h.1)
    | inr other ↦ rw other (lines_of-All entry lines h.1)
  ]

  posted_lines-All :
      (entries : List JournalEntry) (lines : List JournalEntryLine)
      → All (λ l. P l.input) lines
      → All P (posted_lines keep entries lines)
  unfolding posted_lines
  posted_lines-All [] lines h = tt
  posted_lines-All (e ∷ entries) lines h =
      let rest = posted_lines-All entries lines h in
      elim (Bool-cases (is_posted e.status && keep e)) [
        | inl counted ↦ rw counted (All-append P _ _ (lines_of-All e.id lines h) rest)
        | inr skipped ↦ rw skipped rest
      ]

posted_lines-total :
    (keep : JournalEntry → Bool) (next : ℕ) (entries : List JournalEntry)
    (lines : List JournalEntryLine)
    → All (IsEntry next lines) entries
    → total debit_of (posted_lines keep entries lines)
      ≡ total credit_of (posted_lines keep entries lines)
unfolding posted_lines total lines_of total_credit
posted_lines-total keep next [] lines h = refl
posted_lines-total keep next (e ∷ entries) lines h =
    let rest = posted_lines-total keep next entries lines h.1 in
    elim (Bool-cases (is_posted e.status && keep e)) [
      | inl counted ↦
          let balanced = h.0.1 (ground arith) in
          rw
            (counted, total-append, total-append, rest, total-debit_of, total-credit_of, balanced.2)
            refl
      | inr skipped ↦ rw skipped rest
    ]

-- Where every posted journal is balanced and each line's account stands once in the table of
-- accounts, the trial balance of a company, for any branches and any date, has total debits equal
-- to total credits, and both are the sums over all lines of the posted journals in scope: grouping
-- by account loses and doubles nothing.
pub query_trial_balance_lem :
    (accounts : List Account) (company : ℕ) (query : TrialBalanceQuery) (s : Store)
    → IsSound s
    → All (λ l. occurrences l.input.account_id accounts ≡ 1) s.lines
    → let result = query_trial_balance accounts company query s in
      let lines = posted_lines (is_in_scope company query) s.entries s.lines in
      (result.total_debit ≡ result.total_credit)
      × (result.total_debit ≡ total debit_of lines)
      × (result.total_credit ≡ total credit_of lines)
unfolding query_trial_balance row_of
query_trial_balance_lem accounts company query s sound known =
    let lines = posted_lines (is_in_scope company query) s.entries s.lines in
    let once =
      posted_lines-All (λ l. occurrences l.account_id accounts ≡ 1) (is_in_scope company query)
        s.entries s.lines known in
    let debit =
      sum_rows-trial_rows (λ row. row.total_debit) debit_of accounts lines (λ a. refl)
      ∙ spread-total debit_of accounts lines once in
    let credit =
      sum_rows-trial_rows (λ row. row.total_credit) credit_of accounts lines (λ a. refl)
      ∙ spread-total credit_of accounts lines once in
    (debit ∙ posted_lines-total _ s.next_id s.entries s.lines sound.0 ∙ sym credit, debit, credit)
