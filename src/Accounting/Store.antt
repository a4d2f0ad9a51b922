-- ===== src/Accounting/Store.antt =====
-- The tables of src/modules/accounting (its entities) and the rows that its services only read. A
-- time is the number of its digits, YYYYMMDDhhmmss, and a date the number YYYYMMDD.
use Prim.Native.String.{String}
use erp_fashion_api.Common.{
  ℕ, ◌/◌, Bool, ◌&&◌, Option, none, some, List, [], ◌∷◌, ◌==◌, if◌then◌else◌, ℤ,
}
use erp_fashion_api.Decimal.{Text}
use erp_fashion_api.Numbering.{Counter}
use erp_fashion_api.Accounting.DoubleEntry.{LineInput}

pub record Account : Type 0 where
  pub id : ℕ
  pub company_id : ℕ
  pub is_active : Bool

pub data FiscalYearStatus : Type 0 where
  opened closed : FiscalYearStatus

pub record FiscalYear : Type 0 where
  pub id : ℕ
  pub company_id : ℕ
  pub start_date : ℕ
  pub end_date : ℕ
  pub status : FiscalYearStatus

pub data AccountingPeriodStatus : Type 0 where
  opened locked : AccountingPeriodStatus

pub record AccountingPeriod : Type 0 where
  pub id : ℕ
  pub fiscal_year_id : ℕ
  pub start_date : ℕ
  pub end_date : ℕ
  pub status : AccountingPeriodStatus

pub data JournalEntryStatus : Type 0 where
  draft posted cancelled : JournalEntryStatus

pub data JournalSourceType : Type 0 where
  manual payment opening_balance : JournalSourceType

pub record JournalEntry : Type 0 where
  pub id : ℕ
  pub journal_number : Text
  pub company_id : ℕ
  pub branch_id : Option ℕ
  pub accounting_period_id : ℕ
  pub entry_date : ℕ
  pub status : JournalEntryStatus
  pub source_type : Option JournalSourceType
  pub source_id : Option ℕ
  pub description : String
  pub total_debit : ℤ
  pub total_credit : ℤ
  pub created_by : ℕ
  pub posted_by : Option ℕ
  pub posted_at : Option ℕ

pub record JournalEntryLine : Type 0 where
  pub id : ℕ
  pub journal_entry_id : ℕ
  pub input : LineInput

pub record Store : Type 0 where
  pub entries : List JournalEntry
  pub lines : List JournalEntryLine
  pub periods : List AccountingPeriod
  pub fiscal_years : List FiscalYear
  pub counters : List Counter
  pub next_id : ℕ

abbrev pub is_draft : JournalEntryStatus → Bool
is_draft JournalEntryStatus.draft = Bool.true
is_draft JournalEntryStatus.posted = Bool.false
is_draft JournalEntryStatus.cancelled = Bool.false

abbrev pub is_posted : JournalEntryStatus → Bool
is_posted JournalEntryStatus.draft = Bool.false
is_posted JournalEntryStatus.posted = Bool.true
is_posted JournalEntryStatus.cancelled = Bool.false

abbrev pub is_closed : FiscalYearStatus → Bool
is_closed FiscalYearStatus.opened = Bool.false
is_closed FiscalYearStatus.closed = Bool.true

abbrev pub is_locked : AccountingPeriodStatus → Bool
is_locked AccountingPeriodStatus.opened = Bool.false
is_locked AccountingPeriodStatus.locked = Bool.true

abbrev pub same_source : JournalSourceType → JournalSourceType → Bool
same_source JournalSourceType.manual JournalSourceType.manual = Bool.true
same_source JournalSourceType.payment JournalSourceType.payment = Bool.true
same_source JournalSourceType.opening_balance JournalSourceType.opening_balance = Bool.true
same_source _ _ = Bool.false

-- `toDateOnly`, and `getUTCFullYear`.
abbrev pub date_only : ℕ → ℕ
date_only time = time / 1_000_000

abbrev pub year_of : ℕ → ℕ
year_of time = time / 10_000_000_000

unfoldable pub find_account : ℕ → ℕ → List Account → Option Account
find_account id company [] = none
find_account id company (a ∷ accounts) =
    if id == a.id && company == a.company_id then some a else find_account id company accounts

unfoldable pub find_entry : ℕ → ℕ → List JournalEntry → Option JournalEntry
find_entry id company [] = none
find_entry id company (e ∷ entries) =
    if id == e.id && company == e.company_id then some e else find_entry id company entries

unfoldable pub find_fiscal_year : ℕ → List FiscalYear → Option FiscalYear
find_fiscal_year id [] = none
find_fiscal_year id (y ∷ years) = if id == y.id then some y else find_fiscal_year id years

unfoldable pub find_period : ℕ → List AccountingPeriod → Option AccountingPeriod
find_period id [] = none
find_period id (p ∷ periods) = if id == p.id then some p else find_period id periods

-- `manager.find(JournalEntryLine, { where: { journalEntryId } })`, without the rows' own ids.
unfoldable pub lines_of : ℕ → List JournalEntryLine → List LineInput
lines_of entry [] = []
lines_of entry (l ∷ lines) =
    if entry == l.journal_entry_id then l.input ∷ lines_of entry lines else lines_of entry lines

-- `findBySource`
abbrev is_source : ℕ → JournalSourceType → ℕ → JournalEntry → Bool
is_source company source id e =
    company == e.company_id
    && elim e.source_type [ none ↦ Bool.false | some t ↦ same_source source t ]
    && elim e.source_id [ none ↦ Bool.false | some i ↦ id == i ]

unfoldable pub find_by_source : ℕ → JournalSourceType → ℕ → List JournalEntry → Option JournalEntry
find_by_source company source id [] = none
find_by_source company source id (e ∷ entries) =
    if is_source company source id e then some e else find_by_source company source id entries
