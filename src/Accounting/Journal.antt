-- ===== src/Accounting/Journal.antt =====
-- `JournalEntriesService` (src/modules/accounting/services/journal-entries.service.ts).
pub mod Lines
pub mod Balanced
pub mod Lookup
pub mod Lifecycle
pub mod Final
use Prim.Native.String.{String}
use erp_fashion_api.Common.{
  ℕ, ◌+◌, Bool, not, ◌&&◌, Option, none, some, List, [], ◌∷◌, ◌++◌, length, ◌==◌, if◌then◌else◌, ℤ,
  Result, ok, ◌>>=◌, ◌>>◌, throw_if, or_throw, run, run_after, validation_error, not_found,
  conflict, internal_error,
}
use erp_fashion_api.Decimal.{Text}
use erp_fashion_api.Numbering.{generate_number}
use erp_fashion_api.Accounting.DoubleEntry.{LineInput, assert_balanced, total_debit, total_credit}
use erp_fashion_api.Accounting.Store.{
  Store, Account, AccountingPeriod, JournalEntry, JournalEntryStatus, JournalEntryLine,
  JournalSourceType, is_draft, is_closed, is_locked, year_of, find_account, find_entry,
  find_fiscal_year, find_period, lines_of,
}
use erp_fashion_api.Accounting.Period.{resolve_open_period}

pub record Company : Type 0 where
  pub id : ℕ
  pub is_active : Bool

pub record Branch : Type 0 where
  pub id : ℕ
  pub company_id : ℕ
  pub is_active : Bool

-- The tables that the service only reads.
pub record Directory : Type 0 where
  pub companies : List Company
  pub branches : List Branch
  pub accounts : List Account

pub record CreateJournalEntry : Type 0 where
  pub branch_id : Option ℕ
  pub entry_date : Option ℕ
  pub description : String
  pub lines : List LineInput

-- `findActiveByIdOrNull`, of companies and of branches.
unfoldable pub find_active_company : ℕ → List Company → Option Company
find_active_company id [] = none
find_active_company id (c ∷ companies) =
    if id == c.id && c.is_active then some c else find_active_company id companies

unfoldable pub find_active_branch : ℕ → List Branch → Option Branch
find_active_branch id [] = none
find_active_branch id (b ∷ branches) =
    if id == b.id && b.is_active then some b else find_active_branch id branches

abbrev pub check_branch : ℕ → List Branch → Option ℕ → Result (Unit {0})
check_branch company branches none = ok tt
check_branch company branches (some id) = do
  branch ← or_throw (find_active_branch id branches) validation_error
  throw_if (not (branch.company_id == company)) validation_error

-- The checks that `create` makes before it opens its transaction.
unfoldable pub validate : Directory → ℕ → CreateJournalEntry → Result (Unit {0})
unfolding find_active_company find_active_branch
validate directory company dto = do
  found ← or_throw (find_active_company company directory.companies) validation_error
  check_branch company directory.branches dto.branch_id

-- `assertLinesReferenceValidAccounts`
unfoldable pub check_accounts : List Account → ℕ → List LineInput → Result (Unit {0})
unfolding find_account
check_accounts accounts company [] = ok tt
check_accounts accounts company (line ∷ lines) = do
  account ← or_throw (find_account line.account_id company accounts) validation_error
  throw_if (not account.is_active) validation_error
  check_accounts accounts company lines

-- The rows that the lines of an entry are saved as.
unfoldable pub line_rows : ℕ → ℕ → List LineInput → List JournalEntryLine
line_rows entry id [] = []
line_rows entry id (line ∷ lines) =
    record { id = id; journal_entry_id = entry; input = line } ∷ line_rows entry (id + 1) lines

abbrev je : Text
je = b'J' ∷ b'E' ∷ []

-- Numbers an entry, and saves it with its lines.
unfoldable pub save_new :
    (ℕ → Text → JournalEntry) → List LineInput → ℕ → ℕ → Store → JournalEntry × Store
unfolding line_rows
save_new entry_of lines company time s =
    let (number, counters) = generate_number je s.next_id company (year_of time) s.counters in
    let entry = entry_of (s.next_id + 1) number in
    (
      entry,
      record s {
        entries = s.entries ++ (entry ∷ []);
        lines = s.lines ++ line_rows (s.next_id + 1) (s.next_id + 2) lines;
        counters = counters;
        next_id = s.next_id + 2 + length lines;
      },
    )

abbrev pub draft_entry : ℕ → ℕ → CreateJournalEntry → ℕ → AccountingPeriod → ℕ → Text → JournalEntry
draft_entry company user dto time period id number = record {
  id = id;
  journal_number = number;
  company_id = company;
  branch_id = dto.branch_id;
  accounting_period_id = period.id;
  entry_date = time;
  status = JournalEntryStatus.draft;
  source_type = some JournalSourceType.manual;
  source_id = none;
  description = dto.description;
  total_debit = total_debit dto.lines;
  total_credit = total_credit dto.lines;
  created_by = user;
  posted_by = none;
  posted_at = none;
}

-- `dto.entryDate ? new Date(dto.entryDate) : new Date()`
abbrev entry_time : CreateJournalEntry → ℕ → ℕ
entry_time dto now = elim dto.entry_date [ none ↦ now | some time ↦ time ]

-- The body of the transaction of `create`.
unfoldable pub apply_create :
    List Account → ℕ → ℕ → CreateJournalEntry → ℕ → Store → Result (JournalEntry × Store)
apply_create accounts company user dto time s = do
  check_accounts accounts company dto.lines
  resolved ← resolve_open_period company time s
  ok (save_new (draft_entry company user dto time resolved.0) dto.lines company time resolved.1)

-- `create`
unfoldable pub create_journal :
    Directory → ℕ → ℕ → CreateJournalEntry → ℕ → Store → Result JournalEntry × Store
create_journal directory company user dto now =
    run_after (validate directory company dto)
      (λ _. apply_create directory.accounts company user dto (entry_time dto now))

-- `manager.update(JournalEntry, id, ...)`
unfoldable pub update_entry :
    ℕ → (JournalEntry → JournalEntry) → List JournalEntry → List JournalEntry
update_entry id change [] = []
update_entry id change (e ∷ entries) =
    if id == e.id then change e ∷ entries else e ∷ update_entry id change entries

abbrev pub stamp : ℤ × ℤ → ℕ → ℕ → JournalEntry → JournalEntry
stamp totals user now e = record e {
  status = JournalEntryStatus.posted;
  total_debit = totals.0;
  total_credit = totals.1;
  posted_by = some user;
  posted_at = some now;
}

-- The body of the transaction of `post`.
unfoldable pub apply_post : ℕ → ℕ → ℕ → ℕ → Store → Result (JournalEntry × Store)
unfolding update_entry
apply_post id company user now s = do
  entry ← or_throw (find_entry id company s.entries) not_found
  throw_if (not (is_draft entry.status)) conflict
  totals ← assert_balanced (lines_of id s.lines)
  period ← or_throw (find_period entry.accounting_period_id s.periods) internal_error
  fiscal_year ← or_throw (find_fiscal_year period.fiscal_year_id s.fiscal_years) internal_error
  throw_if (is_closed fiscal_year.status) conflict
  throw_if (is_locked period.status) conflict
  ok (
    stamp totals user now entry,
    record s { entries = update_entry id (stamp totals user now) s.entries },
  )

-- `post`
unfoldable pub post_journal : ℕ → ℕ → ℕ → ℕ → Store → Result JournalEntry × Store
post_journal id company user now = run (apply_post id company user now)

-- `cancel` up to its save: the entry as read, with its new status.
unfoldable pub read_cancelled : ℕ → ℕ → Store → Result JournalEntry
read_cancelled id company s = do
  entry ← or_throw (find_entry id company s.entries) not_found
  throw_if (not (is_draft entry.status)) conflict
  ok (record entry { status = JournalEntryStatus.cancelled })

-- `journalEntryRepository.save(entry)` on a row that exists: every column as the object has it.
unfoldable pub save_entry : JournalEntry → Store → Store
unfolding update_entry
save_entry entry s = record s { entries = update_entry entry.id (λ _. entry) s.entries }

abbrev pub apply_cancel : ℕ → ℕ → Store → Result (JournalEntry × Store)
apply_cancel id company s = do entry ← read_cancelled id company s; ok (entry, save_entry entry s)

-- `cancel`, with nothing in between.
unfoldable pub cancel_journal : ℕ → ℕ → Store → Result JournalEntry × Store
cancel_journal id company = run (apply_cancel id company)

pub record InternalEntry : Type 0 where
  pub company_id : ℕ
  pub branch_id : Option ℕ
  pub entry_date : ℕ
  pub description : String
  pub source_type : JournalSourceType
  pub source_id : ℕ
  pub user_id : ℕ
  pub lines : List LineInput

abbrev pub internal_entry : InternalEntry → ℕ → ℤ × ℤ → AccountingPeriod → ℕ → Text → JournalEntry
internal_entry params now totals period id number = record {
  id = id;
  journal_number = number;
  company_id = params.company_id;
  branch_id = params.branch_id;
  accounting_period_id = period.id;
  entry_date = params.entry_date;
  status = JournalEntryStatus.posted;
  source_type = some params.source_type;
  source_id = some params.source_id;
  description = params.description;
  total_debit = totals.0;
  total_credit = totals.1;
  created_by = params.user_id;
  posted_by = some params.user_id;
  posted_at = some now;
}

-- `createInternal`, in its caller's transaction.
unfoldable pub create_internal : InternalEntry → ℕ → Store → Result (JournalEntry × Store)
create_internal params now s = do
  totals ← assert_balanced params.lines
  resolved ← resolve_open_period params.company_id params.entry_date s
  ok (
      save_new (internal_entry params now totals resolved.0) params.lines params.company_id
        params.entry_date resolved.1)
