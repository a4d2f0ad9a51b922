-- ===== src/Accounting/Period.antt =====
-- `AccountingPeriodResolverService`
-- (src/modules/accounting/services/accounting-period-resolver.service.ts).
pub mod Open
use erp_fashion_api.Common.{
  ℕ, ◌+◌, ◌*◌, Bool, ◌&&◌, Option, none, some, List, [], ◌∷◌, ◌++◌, ◌==◌, leb, if◌then◌else◌,
  Result, ok, ◌>>=◌, ◌>>◌, throw_if, conflict,
}
use erp_fashion_api.Accounting.Store.{
  Store, AccountingPeriod, AccountingPeriodStatus, FiscalYear, FiscalYearStatus, find_fiscal_year,
  is_closed, is_locked, date_only, year_of,
}

abbrev pub covers : ℕ → AccountingPeriod → Bool
covers date p = leb p.start_date date && leb date p.end_date

abbrev pub year_start : ℕ → ℕ
year_start year = year * 10_000 + 101

abbrev pub year_end : ℕ → ℕ
year_end year = year * 10_000 + 1231

abbrev pub spans_year : ℕ → AccountingPeriod → Bool
spans_year year p = p.start_date == year_start year && p.end_date == year_end year

abbrev pub is_of_company : ℕ → Option FiscalYear → Bool
is_of_company company none = Bool.false
is_of_company company (some y) = company == y.company_id

-- The first period that passes a test, joined with its fiscal year, in one company.
unfoldable pub find_joined :
    ℕ
    → (AccountingPeriod → Bool)
    → List FiscalYear
    → List AccountingPeriod
    → Option (AccountingPeriod × Option FiscalYear)
find_joined company test years [] = none
find_joined company test years (p ∷ periods) =
    if is_of_company company (find_fiscal_year p.fiscal_year_id years) && test p
    then some (p, find_fiscal_year p.fiscal_year_id years)
    else find_joined company test years periods

abbrev pub check_year : Option FiscalYear → Result (Unit {0})
check_year none = ok tt
check_year (some y) = throw_if (is_closed y.status) conflict

-- The year's period, unless there is one by now: a fiscal year and a period, both open.
unfoldable pub open_year : ℕ → ℕ → Store → AccountingPeriod × Store
unfolding find_joined
open_year company year s =
    let period : AccountingPeriod = record {
      id = s.next_id + 1;
      fiscal_year_id = s.next_id;
      start_date = year_start year;
      end_date = year_end year;
      status = AccountingPeriodStatus.opened;
    } in
    let fiscal_year : FiscalYear = record {
      id = s.next_id;
      company_id = company;
      start_date = year_start year;
      end_date = year_end year;
      status = FiscalYearStatus.opened;
    } in
    elim (find_joined company (spans_year year) s.fiscal_years s.periods) [
      | some found ↦ (found.0, s)
      | none ↦ (
        period,
        record s {
          periods = s.periods ++ (period ∷ []);
          fiscal_years = s.fiscal_years ++ (fiscal_year ∷ []);
          next_id = s.next_id + 2;
        },
      )
    ]

-- `resolveOpenPeriod`
unfoldable pub resolve_open_period : ℕ → ℕ → Store → Result (AccountingPeriod × Store)
unfolding open_year
resolve_open_period company time s =
    elim (find_joined company (covers (date_only time)) s.fiscal_years s.periods) [
      | some found ↦ do
        check_year found.1
        throw_if (is_locked found.0.status) conflict
        ok (found.0, s)
      | none ↦ ok (open_year company (year_of time) s)
    ]
