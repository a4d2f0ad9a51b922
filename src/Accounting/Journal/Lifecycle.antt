-- ===== src/Accounting/Journal/Lifecycle.antt =====
-- The life of a journal: when it can be posted, and what a posted one is safe from.
use erp_fashion_api.Common.{
  ℕ, ◌≡◌, ◌≢◌, ◌↔◌, refl, inl, inr, Option-cases, some, arith, Result-cases, ok, run,
}
use erp_fashion_api.Accounting.DoubleEntry.{
  IsBalanced, assert_balanced_lem, total_debit, total_credit,
}
use erp_fashion_api.Accounting.Store.{
  Store, AccountingPeriod, AccountingPeriodStatus, FiscalYear, FiscalYearStatus, JournalEntry,
  JournalEntryStatus, lines_of, find_entry, find_period, find_fiscal_year,
}
use erp_fashion_api.Accounting.Journal.{stamp, apply_post, post_journal, update_entry}
use erp_fashion_api.Accounting.Journal.Balanced.{apply_post-eq-ok}
use erp_fashion_api.Accounting.Journal.Lookup.{
  IsDistinct, find_entry-key, find_entry-update, find_entry-update_of_other,
}

-- What it takes to post: a draft of the company, balanced, in an open period of an open year.
pub record IsPostable (id company : ℕ) (s : Store) : Type 0 where
  pub entry : JournalEntry
  pub period : AccountingPeriod
  pub fiscal_year : FiscalYear
  pub found : find_entry id company s.entries ≡ some entry
  pub is_draft_now : entry.status ≡ JournalEntryStatus.draft
  pub balanced : IsBalanced (lines_of id s.lines)
  pub has_period : find_period entry.accounting_period_id s.periods ≡ some period
  pub has_year : find_fiscal_year period.fiscal_year_id s.fiscal_years ≡ some fiscal_year
  pub period_is_open : period.status ≡ AccountingPeriodStatus.opened
  pub year_is_open : fiscal_year.status ≡ FiscalYearStatus.opened

pub apply_post-passes :
    (id company user now : ℕ) (s : Store) (p : IsPostable id company s)
    → apply_post id company user now s
      ≡ ok (
        stamp
            (total_debit (lines_of id s.lines), total_credit (lines_of id s.lines))
            user
            now
            p.entry,
        record s {
          entries =
              update_entry id
                (stamp
                  (total_debit (lines_of id s.lines), total_credit (lines_of id s.lines))
                  user
                  now)
                s.entries;
        },
      )
unfolding apply_post
apply_post-passes id company user now s p =
    let passed = (assert_balanced_lem (lines_of id s.lines) _).1 (p.balanced, refl) in
    rw (p.found, p.is_draft_now, passed, p.has_period, p.has_year, p.year_is_open, p.period_is_open)
      refl

apply_post-IsPostable :
    (id company user now : ℕ) (s : Store) {e : JournalEntry} {s' : Store}
    → apply_post id company user now s ≡ ok (e, s')
    → IsPostable id company s
unfolding apply_post
apply_post-IsPostable id company user now s h =
    let (entry, totals, found, draft, balanced, _, _) = apply_post-eq-ok id company user now s h in
    elim (Option-cases (find_period entry.accounting_period_id s.periods)) [
      | inl absent ↦ absurd (ground arith)
      | inr (period, has_period) ↦
          elim (Option-cases (find_fiscal_year period.fiscal_year_id s.fiscal_years)) [
            | inl absent ↦ absurd (ground arith)
            | inr (fiscal_year, has_year) ↦ record {
              entry = entry;
              period = period;
              fiscal_year = fiscal_year;
              found = found;
              is_draft_now = draft;
              balanced = ((assert_balanced_lem (lines_of id s.lines) totals).0 balanced).0;
              has_period = has_period;
              has_year = has_year;
              period_is_open = ground arith;
              year_is_open = ground arith;
            }
          ]
    ]

module _ (id company user now : ℕ) (s : Store) where
  abbrev pub posting : JournalEntry → JournalEntry
  posting = stamp (total_debit (lines_of id s.lines), total_credit (lines_of id s.lines)) user now

  -- A journal is posted exactly when it is a draft of the company, its lines are balanced, and its
  -- period and that period's year are open. It then carries the two totals of its lines, the user
  -- and the time, every other journal is as before, and so are all the lines.
  post_journal_lem :
      IsDistinct s.entries
      → let outcome = post_journal id company user now s in
        (((e : JournalEntry) × (outcome.0 ≡ ok e)) ↔ IsPostable id company s)
        × ((p : IsPostable id company s)
            → (outcome.0 ≡ ok (posting p.entry))
              × (find_entry id company outcome.1.entries ≡ some (posting p.entry))
              × ((other company' : ℕ)
                  → other ≢ id
                  → find_entry other company' outcome.1.entries
                    ≡ find_entry other company' s.entries)
              × (outcome.1.lines ≡ s.lines))
  unfolding post_journal run
  post_journal_lem distinct = (
    (
      λ posted. elim (Result-cases (apply_post id company user now s)) [
        | inl (written, done) ↦ apply_post-IsPostable id company user now s done
        | inr (code, thrown) ↦ absurd (ground arith)
      ],
      λ p. (posting p.entry, rw (apply_post-passes id company user now s p) refl),
    ),
    λ p.
        let key = find_entry-key id company s.entries p.found in
        rw (apply_post-passes id company user now s p) (
          refl,
          find_entry-update id company posting s.entries {e = p.entry} key.0 key.1 distinct p.found,
          λ other company' n.
              find_entry-update_of_other other id company' posting s.entries (λ e same. same) n,
          refl,
        ),
  )
