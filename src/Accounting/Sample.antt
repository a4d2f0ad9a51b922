-- ===== src/Accounting/Sample.antt =====
-- A small company: two accounts, one draft journal of two lines and one that is posted.
use erp_fashion_api.Common.{ℕ, true, none, some, List, [], ◌∷◌, ℤ, pos}
use erp_fashion_api.Accounting.DoubleEntry.{LineInput}
use erp_fashion_api.Accounting.Store.{
  Store, Account, AccountingPeriod, AccountingPeriodStatus, FiscalYear, FiscalYearStatus,
  JournalEntry, JournalEntryStatus, JournalSourceType,
}
use erp_fashion_api.Accounting.Journal.{Directory}

abbrev pub bank : Account
bank = record { id = 1; company_id = 7; is_active = true }

abbrev receivable : Account
receivable = record { id = 2; company_id = 7; is_active = true }

abbrev pub directory : Directory
directory = record {
  companies = record { id = 7; is_active = true } ∷ [];
  branches = [];
  accounts = bank ∷ receivable ∷ [];
}

abbrev line : ℕ → ℤ → ℤ → LineInput
line account debit credit = record {
  account_id = account;
  debit_amount = debit;
  credit_amount = credit;
  reference_type = none;
  reference_id = none;
  description = none;
}

abbrev pub two_lines : List LineInput
two_lines = line 1 (pos 5000) (pos 0) ∷ line 2 (pos 0) (pos 5000) ∷ []

abbrev pub now : ℕ
now = 20260301120000

abbrev pub open_period : AccountingPeriod
open_period = record {
  id = 4;
  fiscal_year_id = 5;
  start_date = 20260101;
  end_date = 20261231;
  status = AccountingPeriodStatus.opened;
}

abbrev pub year_2026 : FiscalYear
year_2026 = record {
  id = 5;
  company_id = 7;
  start_date = 20260101;
  end_date = 20261231;
  status = FiscalYearStatus.opened;
}

-- A store with a draft (10), a posted journal (11), and an open year.
abbrev pub entry : ℕ → JournalEntryStatus → JournalEntry
entry id status = record {
  id = id;
  journal_number = [];
  company_id = 7;
  branch_id = none;
  accounting_period_id = 4;
  entry_date = now;
  status = status;
  source_type = some JournalSourceType.manual;
  source_id = none;
  description = "rent";
  total_debit = pos 5000;
  total_credit = pos 5000;
  created_by = 3;
  posted_by = none;
  posted_at = none;
}

abbrev pub books : Store
books = record {
  entries = entry 10 JournalEntryStatus.draft ∷ entry 11 JournalEntryStatus.posted ∷ [];
  lines =
      record { id = 20; journal_entry_id = 10; input = line 1 (pos 5000) (pos 0) }
      ∷ record { id = 21; journal_entry_id = 10; input = line 2 (pos 0) (pos 5000) }
      ∷ record { id = 22; journal_entry_id = 11; input = line 1 (pos 5000) (pos 0) }
      ∷ record { id = 23; journal_entry_id = 11; input = line 2 (pos 0) (pos 5000) }
      ∷ [];
  periods = open_period ∷ [];
  fiscal_years = year_2026 ∷ [];
  counters = [];
  next_id = 30;
}
