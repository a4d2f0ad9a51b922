-- ===== src/Accounting/Journal/Balanced.antt =====
-- Every posted journal is balanced, whatever the journal service is asked to do.
use erp_fashion_api.Common.{
  ℕ, ◌+◌, ◌≡◌, ◌<◌, ◌≤◌, refl, sym, inl, inr, Bool-cases, Option-cases, some, List, [], ◌∷◌, ◌++◌,
  length, ◌==◌, arith, ℤ, All, All-append, All-map, Result-cases, ok, run_inv, run_after_inv,
  >>=-eq-ok,
}
use erp_fashion_api.Decimal.{Text}
use erp_fashion_api.Accounting.DoubleEntry.{
  LineInput, IsBalanced, assert_balanced, assert_balanced_lem,
}
use erp_fashion_api.Accounting.Store.{
  Store, Account, AccountingPeriod, JournalEntry, JournalEntryStatus, lines_of, find_entry,
  date_only, year_of,
}
use erp_fashion_api.Accounting.Period.{
  resolve_open_period, open_year, find_joined, spans_year, covers,
}
use erp_fashion_api.Accounting.Journal.{
  Directory, CreateJournalEntry, InternalEntry, line_rows, save_new, draft_entry, stamp,
  internal_entry, validate, apply_create, create_journal, apply_cancel, apply_post, post_journal,
  cancel_journal, create_internal, update_entry, save_entry, read_cancelled,
}
use erp_fashion_api.Accounting.Journal.Lines.{
  IsEntry, IsSound, line_rows-below, lines_of-saved, lines_of-saved_other,
}

pub save_new-IsSound :
    (entry_of : ℕ → Text → JournalEntry) (lines : List LineInput) (company time : ℕ) (s : Store)
    → ((id : ℕ) (number : Text) → (entry_of id number).id ≡ id)
    → ((id : ℕ) (number : Text)
        → (entry_of id number).status ≡ JournalEntryStatus.posted
        → IsBalanced lines)
    → IsSound s
    → IsSound (save_new entry_of lines company time s).1
unfolding save_new
save_new-IsSound entry_of lines company time s keeps_id balanced (entries, below) =
    let entry = s.next_id + 1 in
    let next = s.next_id + 2 + length lines in
    let all_lines = s.lines ++ line_rows entry (s.next_id + 2) lines in
    let own = lines_of-saved entry lines s below (omega arith) (s.next_id + 2) in
    let kept : (e : JournalEntry) → IsEntry s.next_id s.lines e → IsEntry next all_lines e = λ e h.
      let same = lines_of-saved_other entry lines s below (omega arith) (s.next_id + 2) e.id h.0 in
      (omega (arith, h.0), λ posted. rw same (h.1 posted)) in
    let added : (number : Text) → IsEntry next all_lines (entry_of entry number) = λ number.
      rw (keeps_id entry number) (omega arith, λ posted. rw own (balanced entry number posted)) in
    (
      All-append _ s.entries _ (All-map _ _ s.entries kept entries) (added _, tt),
      All-append (λ l. l.journal_entry_id < next) s.lines (line_rows entry (s.next_id + 2) lines)
          (All-map _ _ s.lines (λ l b. omega arith) below)
          (line_rows-below entry _ next lines (omega arith)),
    )

open_year-keeps :
    (company year : ℕ) (s : Store)
    → let s' = (open_year company year s).1 in
      (s'.entries ≡ s.entries) × (s'.lines ≡ s.lines) × (s.next_id ≤ s'.next_id)
unfolding open_year
open_year-keeps company year s =
    elim (Option-cases (find_joined company (spans_year year) s.fiscal_years s.periods)) [
      | inl e ↦ rw (e, open_year) (refl, refl, omega arith)
      | inr (p, e) ↦ rw (e, open_year) (refl, refl, omega arith)
    ]

pub resolve-keeps :
    (company time : ℕ) (s : Store) {p : AccountingPeriod} {s' : Store}
    → resolve_open_period company time s ≡ ok (p, s')
    → (s'.entries ≡ s.entries) × (s'.lines ≡ s.lines) × (s.next_id ≤ s'.next_id)
unfolding resolve_open_period
resolve-keeps company time s h =
    elim (Option-cases (find_joined company (covers (date_only time)) s.fiscal_years s.periods)) [
      | inl e ↦ ground (arith, open_year-keeps company (year_of time) s)
      | inr (p, e) ↦ ground arith
    ]

-- The parts of soundness that do not see the periods.
pub IsSound-resolve :
    (company time : ℕ) (s : Store) {p : AccountingPeriod} {s' : Store}
    → resolve_open_period company time s ≡ ok (p, s')
    → IsSound s
    → IsSound s'
IsSound-resolve company time s {p} {s'} h (entries, below) =
    let (same_entries, same_lines, grown) = resolve-keeps company time s h in
    rw (same_entries, same_lines)
      (
        All-map _ _ s.entries (λ e b. (omega (arith, b.0), b.1)) entries,
        All-map _ _ s.lines (λ l b. omega (arith, b)) below,
      )

update_entry-All {κ} :
    (P : JournalEntry → Type κ) (id : ℕ) (change : JournalEntry → JournalEntry)
    (entries : List JournalEntry)
    → ((e : JournalEntry) → e.id ≡ id → P e → P (change e))
    → All P entries
    → All P (update_entry id change entries)
unfolding update_entry
update_entry-All P id change [] keep h = tt
update_entry-All P id change (e ∷ entries) keep h = elim (Bool-cases (id == e.id)) [
  | inl same ↦ rw same (keep e (ground arith) h.0, h.1)
  | inr other ↦ rw other (h.0, update_entry-All P id change entries keep h.1)
]

pub apply_post-eq-ok :
    (id company user now : ℕ) (s : Store) {e : JournalEntry} {s' : Store}
    → apply_post id company user now s ≡ ok (e, s')
    → (entry : JournalEntry) × (totals : ℤ × ℤ) × (find_entry id company s.entries ≡ some entry)
      × (entry.status ≡ JournalEntryStatus.draft)
      × (assert_balanced (lines_of id s.lines) ≡ ok totals)
      × (e ≡ stamp totals user now entry)
      × (s' ≡ record s { entries = update_entry id (stamp totals user now) s.entries })
unfolding apply_post
apply_post-eq-ok id company user now s h = elim (Option-cases (find_entry id company s.entries)) [
  | inl absent ↦ absurd (ground arith)
  | inr (entry, found) ↦ elim (Result-cases (assert_balanced (lines_of id s.lines))) [
    | inl (totals, balanced) ↦
        (entry, totals, found, ground arith, balanced, ground arith, ground arith)
    | inr (code, thrown) ↦ absurd (ground arith)
  ]
]

pub apply_post-IsSound :
    (id company user now : ℕ) (s : Store) (e : JournalEntry) (s' : Store)
    → apply_post id company user now s ≡ ok (e, s')
    → IsSound s
    → IsSound s'
apply_post-IsSound id company user now s e s' h (entries, below) =
    let (_, totals, _, _, balanced, _, same) = apply_post-eq-ok id company user now s h in
    let valid = ((assert_balanced_lem (lines_of id s.lines) totals).0 balanced).0 in
    rw same (
      update_entry-All (IsEntry s.next_id s.lines) id (stamp totals user now) s.entries
          (λ e here b. (b.0, λ _. rw here valid)) entries,
      below,
    )

pub create_internal-IsSound :
    (params : InternalEntry) (now : ℕ) (s : Store) (e : JournalEntry) (s' : Store)
    → create_internal params now s ≡ ok (e, s')
    → IsSound s
    → IsSound s'
unfolding create_internal
create_internal-IsSound params now s e s' h sound =
    elim (Result-cases (assert_balanced params.lines)) [
      | inl (totals, balanced) ↦
          elim (Result-cases (resolve_open_period params.company_id params.entry_date s)) [
            | inl (resolved, opened) ↦
                let written =
                  save_new (internal_entry params now totals resolved.0) params.lines
                    params.company_id params.entry_date resolved.1 in
                let same : written.1 ≡ s' = ground arith in
                rw (sym same) (
                  save_new-IsSound (internal_entry params now totals resolved.0) params.lines
                    params.company_id params.entry_date resolved.1 (λ id number. refl)
                    (λ _ _ _. ((assert_balanced_lem params.lines totals).0 balanced).0)
                    (IsSound-resolve params.company_id params.entry_date s opened sound))
            | inr (code, thrown) ↦ absurd (ground arith)
          ]
      | inr (code, thrown) ↦ absurd (ground arith)
    ]

apply_create-IsSound :
    (accounts : List Account) (company user : ℕ) (dto : CreateJournalEntry) (time : ℕ) (s : Store)
    (e : JournalEntry) (s' : Store)
    → apply_create accounts company user dto time s ≡ ok (e, s')
    → IsSound s
    → IsSound s'
unfolding apply_create
apply_create-IsSound accounts company user dto time s e s' h sound =
    elim (Result-cases (resolve_open_period company time s)) [
      | inl (resolved, opened) ↦
          let written =
            save_new (draft_entry company user dto time resolved.0) dto.lines company time
              resolved.1 in
          let same : written.1 ≡ s' = ground arith in
          rw (sym same) (
            save_new-IsSound (draft_entry company user dto time resolved.0) dto.lines company time
              resolved.1 (λ id number. refl) (λ _ _ h. absurd (cc h))
              (IsSound-resolve company time s opened sound))
      | inr (code, thrown) ↦ absurd (ground arith)
    ]

pub read_cancelled-eq-ok :
    (id company : ℕ) (s : Store) {e : JournalEntry}
    → read_cancelled id company s ≡ ok e
    → e.status ≡ JournalEntryStatus.cancelled
unfolding read_cancelled
read_cancelled-eq-ok id company s h = elim (Option-cases (find_entry id company s.entries)) [
  | inl absent ↦ absurd (ground arith)
  | inr (entry, found) ↦ ground arith
]

pub apply_cancel-IsSound :
    (id company : ℕ) (s : Store) (e : JournalEntry)
    → read_cancelled id company s ≡ ok e
    → IsSound s
    → IsSound (save_entry e s)
unfolding save_entry
apply_cancel-IsSound id company s e h (entries, below) =
    let cancelled = read_cancelled-eq-ok id company s h in
    (
      update_entry-All (IsEntry s.next_id s.lines) e.id (λ _. e) s.entries
          (λ old here b. (omega (arith, here, b.0), λ posted. absurd (cc (posted, cancelled))))
          entries,
      below,
    )

module _ (s : Store) (sound : IsSound s) where
  pub post_journal-IsSound :
      (id company user now : ℕ) → IsSound (post_journal id company user now s).1
  unfolding post_journal
  post_journal-IsSound id company user now =
      run_inv IsSound (apply_post id company user now) s sound
        (λ e s' done. apply_post-IsSound id company user now s e s' done sound)

  pub cancel_journal-IsSound : (id company : ℕ) → IsSound (cancel_journal id company s).1
  unfolding cancel_journal
  cancel_journal-IsSound id company =
      run_inv IsSound (apply_cancel id company) s sound (λ e s' done.
        let (entry, read, same) = >>=-eq-ok (read_cancelled id company s) _ done in
        let saved : save_entry entry s ≡ s' = cc same in
        rw (sym saved) (apply_cancel-IsSound id company s entry read sound))

  pub create_journal-IsSound :
      (directory : Directory) (company user : ℕ) (dto : CreateJournalEntry) (now : ℕ)
      → IsSound (create_journal directory company user dto now s).1
  unfolding create_journal
  create_journal-IsSound directory company user dto now =
      run_after_inv IsSound (validate directory company dto) _ s sound
        (λ _ e s' _ done. apply_create-IsSound _ _ _ _ _ s e s' done sound)

pub IsSound-next : (s : Store) → IsSound s → IsSound (record s { next_id = s.next_id + 1 })
IsSound-next s (entries, below) = (
  All-map _ _ s.entries (λ e b. (omega (arith, b.0), b.1)) entries,
  All-map _ _ s.lines (λ l b. omega (arith, b)) below,
)
