-- ===== src/Accounting/Period/Open.antt =====
-- The period that a date resolves to.
use erp_fashion_api.Common.{
  ℕ, ◌≤◌, ◌≡◌, ◌⊎◌, ◌↔◌, refl, sym, inl, inr, Bool, true, Bool-cases, Option-cases, Option, none,
  some, List, [], ◌∷◌, ◌++◌, arith, ok, throw, conflict, throw_if, ◌||◌, ◌&&◌,
}
use erp_fashion_api.Accounting.Store.{
  Store, AccountingPeriod, AccountingPeriodStatus, FiscalYear, is_closed, is_locked, date_only,
  year_of, find_fiscal_year,
}
use erp_fashion_api.Accounting.Period.{
  covers, spans_year, year_start, year_end, find_joined, is_of_company, open_year,
  resolve_open_period, check_year,
}

-- The date of a time lies in its year: the month and the day are those of a calendar.
abbrev pub IsCalendar : ℕ → Type 0
IsCalendar time =
    (year_start (year_of time) ≤ date_only time) × (date_only time ≤ year_end (year_of time))

find_joined-passes :
    (company : ℕ) (test : AccountingPeriod → Bool) (years : List FiscalYear)
    (periods : List AccountingPeriod) {found : AccountingPeriod × Option FiscalYear}
    → find_joined company test years periods ≡ some found
    → test found.0 ≡ true
unfolding find_joined
find_joined-passes company test years [] h = absurd (ground arith)
find_joined-passes company test years (p ∷ periods) {found} h =
    elim (Bool-cases (is_of_company company (find_fiscal_year p.fiscal_year_id years) && test p)) [
      | inl here ↦ let itself : p ≡ found.0 = ground arith in rw (sym itself) (ground arith)
      | inr there ↦ find_joined-passes company test years periods {found = found} (ground arith)
    ]

-- Where no period passes the weaker of two tests, none passes the stronger.
find_joined-weaker :
    (company : ℕ) (strong weak : AccountingPeriod → Bool) (years : List FiscalYear)
    (periods : List AccountingPeriod)
    → ((p : AccountingPeriod) → strong p ≡ true → weak p ≡ true)
    → find_joined company weak years periods ≡ none
    → find_joined company strong years periods ≡ none
unfolding find_joined
find_joined-weaker company strong weak years [] implies h = refl
find_joined-weaker company strong weak years (p ∷ periods) implies h =
    elim (Bool-cases (strong p)) [
      | inl passed ↦ ground (
        arith,
        implies p passed,
        find_joined-weaker company strong weak years periods implies (ground arith),
      )
      | inr failed ↦
          ground
            (arith, find_joined-weaker company strong weak years periods implies (ground arith))
    ]

spans_year-covers :
    (time : ℕ) (p : AccountingPeriod)
    → IsCalendar time
    → spans_year (year_of time) p ≡ true
    → covers (date_only time) p ≡ true
spans_year-covers time p calendar h = ground arith

-- A covering period that nothing can be posted to: it is locked, or its year is closed.
abbrev is_year_closed : Option FiscalYear → Bool
is_year_closed none = Bool.false
is_year_closed (some y) = is_closed y.status

abbrev pub IsShut : AccountingPeriod × Option FiscalYear → Type 0
IsShut found = (is_year_closed found.1 || is_locked found.0.status) ≡ true

check_year_lem :
    (year : Option FiscalYear) → check_year year ≡ throw_if (is_year_closed year) conflict
check_year_lem none = refl
check_year_lem (some y) = refl

-- For a date of the calendar, a period is found or opened unless the one that covers the date is
-- locked or in a closed year, which is a conflict; the period returned covers the date and is open,
-- and a store in which it was found is as before.
resolve_open_period_lem :
    (company time : ℕ) (s : Store)
    → IsCalendar time
    → let covering = find_joined company (covers (date_only time)) s.fiscal_years s.periods in
      ((found : AccountingPeriod × Option FiscalYear) × (covering ≡ some found)
        × IsShut found
        × (resolve_open_period company time s ≡ throw conflict))
      ⊎ ((p : AccountingPeriod) × (s' : Store) × (resolve_open_period company time s ≡ ok (p, s'))
          × (covers (date_only time) p ≡ true)
          × (p.status ≡ AccountingPeriodStatus.opened)
          × ((s' ≡ s) ⊎ ((covering ≡ none) × (s'.periods ≡ s.periods ++ (p ∷ [])))))
unfolding resolve_open_period open_year
resolve_open_period_lem company time s calendar =
    elim (Option-cases (find_joined company (covers (date_only time)) s.fiscal_years s.periods)) [
      | inl absent ↦
          let spans =
            find_joined-weaker company (spans_year (year_of time)) (covers (date_only time))
              s.fiscal_years s.periods (λ p. spans_year-covers time p calendar) absent in
          inr (
            (open_year company (year_of time) s).0,
            (open_year company (year_of time) s).1,
            rw (resolve_open_period, absent) refl,
            rw (open_year, spans) (ground arith),
            rw (open_year, spans) refl,
            inr (absent, rw (open_year, spans) refl),
          )
      | inr (found, e) ↦
          let covering = find_joined-passes company _ s.fiscal_years s.periods e in
          elim (Bool-cases (is_year_closed found.1 || is_locked found.0.status)) [
            | inl shut ↦
                inl (
                  found,
                  e,
                  shut,
                  rw (resolve_open_period, e, check_year_lem found.1) (ground arith),
                )
            | inr clear ↦ inr (
              found.0,
              s,
              rw (resolve_open_period, e, check_year_lem found.1) (ground arith),
              covering,
              ground arith,
              inl refl,
            )
          ]
    ]

-- The first period of the company that covers the date, if there is one, is neither locked nor in a
-- closed year.
abbrev pub IsOpenFor : ℕ → ℕ → Store → Type 0
IsOpenFor company time s =
    (found : AccountingPeriod × Option FiscalYear)
    → find_joined company (covers (date_only time)) s.fiscal_years s.periods ≡ some found
    → ¬ IsShut found

pub resolve_open_period_iff :
    (company time : ℕ) (s : Store)
    → ((resolved : AccountingPeriod × Store) × (resolve_open_period company time s ≡ ok resolved))
      ↔ IsOpenFor company time s
unfolding resolve_open_period
resolve_open_period_iff company time s =
    elim (Option-cases (find_joined company (covers (date_only time)) s.fiscal_years s.periods)) [
      | inl absent ↦ (
        λ _ found there. absurd (cc (absent, there)),
        λ _. (open_year company (year_of time) s, rw (resolve_open_period, absent) refl),
      )
      | inr (found, e) ↦ elim (Bool-cases (is_year_closed found.1 || is_locked found.0.status)) [
        | inl shut ↦
            let fails : resolve_open_period company time s ≡ throw conflict =
              rw (resolve_open_period, e, check_year_lem found.1) (ground arith) in
            (λ (r, h). absurd (cc (h, fails)), λ clear. absurd (clear found e shut))
        | inr clear ↦ (
          λ _ other there shut.
              let same : found ≡ other = cc (e, there) in
              let shut' : (is_year_closed found.1 || is_locked found.0.status) ≡ true =
                rw same shut in
              absurd (cc (shut', clear)),
          λ _. ((found.0, s), rw (resolve_open_period, e, check_year_lem found.1) (ground arith)),
        )
      ]
    ]
