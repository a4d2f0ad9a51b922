-- ===== src/Accounting/Journal/Final.antt =====
-- What a posted journal is safe from, and what it is not.
use erp_fashion_api.Common.{
  ℕ, ◌+◌, ◌≡◌, ◌≢◌, refl, sym, ap, ◌∙◌, inl, inr, Bool-cases, Option-cases, some, List, [], ◌∷◌,
  ◌==◌, ◌&&◌, arith, All, Result-cases, ok, throw, conflict, run, run_inv, run_after_inv, >>=-eq-ok,
}
use erp_fashion_api.Accounting.Store.{
  Store, Account, JournalEntry, JournalEntryStatus, lines_of, find_entry,
}
use erp_fashion_api.Accounting.Journal.{
  Directory, CreateJournalEntry, save_new, draft_entry, stamp, validate, apply_create,
  create_journal, apply_post, post_journal, cancel_journal, update_entry, save_entry,
  read_cancelled, apply_cancel,
}
use erp_fashion_api.Accounting.Journal.Balanced.{apply_post-eq-ok, resolve-keeps}
use erp_fashion_api.Accounting.Journal.Lines.{
  IsSound, IsEntry, lines_of-append, lines_of-rows_of_other,
}
use erp_fashion_api.Accounting.Period.{resolve_open_period}
use mathlib.Core.List.{append-nil}
use erp_fashion_api.Accounting.Journal.Lookup.{
  IsDistinct, find_entry-key, find_entry-update, find_entry-update_of_other, find_entry-append,
}
use erp_fashion_api.Accounting.Journal.Lifecycle.{IsPostable, apply_post-passes, posting}

pub find_entry-All {κ} :
    (P : JournalEntry → Type κ) (id company : ℕ) (entries : List JournalEntry) {e : JournalEntry}
    → All P entries
    → find_entry id company entries ≡ some e
    → P e
unfolding find_entry
find_entry-All P id company [] h found = absurd (ground arith)
find_entry-All P id company (x ∷ entries) {e} h found =
    elim (Bool-cases (id == x.id && company == x.company_id)) [
      | inl here ↦ let itself : x ≡ e = ground arith in rw (sym itself) h.0
      | inr there ↦ find_entry-All P id company entries {e = e} h.1 (ground arith)
    ]

read_cancelled-key :
    (id company : ℕ) (s : Store) {e : JournalEntry}
    → read_cancelled id company s ≡ ok e
    → (e.id ≡ id) × (e.company_id ≡ company)
unfolding read_cancelled
read_cancelled-key id company s h = elim (Option-cases (find_entry id company s.entries)) [
  | inl absent ↦ absurd (ground arith)
  | inr (entry, found) ↦ ground (arith, find_entry-key id company s.entries found)
]

module _ (id company : ℕ) (s : Store) (e : JournalEntry) where
  -- The journal and its lines are in a later store what they are in this one.
  abbrev IsKept : Store → Type 0
  IsKept s' =
      (find_entry id company s'.entries ≡ some e) × (lines_of id s'.lines ≡ lines_of id s.lines)

  apply_create-IsKept :
      (accounts : List Account) (company' user : ℕ) (dto : CreateJournalEntry) (time : ℕ)
      (new : JournalEntry) (s' : Store)
      → IsSound s
      → find_entry id company s.entries ≡ some e
      → apply_create accounts company' user dto time s ≡ ok (new, s')
      → IsKept s'
  unfolding apply_create save_new
  apply_create-IsKept accounts company' user dto time new s' sound found done =
      elim (Result-cases (resolve_open_period company' time s)) [
        | inl (resolved, opened) ↦
            let (same_entries, same_lines, grown) = resolve-keeps company' time s opened in
            let key = find_entry-key id company s.entries found in
            let used =
              find_entry-All (IsEntry s.next_id s.lines) id company s.entries {e = e} sound.0
                found in
            let fresh : id ≢ resolved.1.next_id + 1 = omega (arith, used.0, key.0, grown) in
            let written =
              save_new (draft_entry company' user dto time resolved.0) dto.lines company' time
                resolved.1 in
            let same : written.1 ≡ s' = ground arith in
            rw (sym same) (
              find_entry-append id company resolved.1.entries _ {e = e} (rw same_entries found),
              lines_of-append id resolved.1.lines _
                  ∙ rw (same_lines, lines_of-rows_of_other id _ _ dto.lines fresh) (append-nil _),
            )
        | inr (code, thrown) ↦ absurd (ground arith)
      ]

  save_entry-IsKept :
      (entry : JournalEntry)
      → id ≢ entry.id
      → find_entry id company s.entries ≡ some e
      → IsKept (save_entry entry s)
  unfolding save_entry
  save_entry-IsKept entry n found = (
    find_entry-update_of_other id entry.id company (λ _. entry) s.entries (λ _ _. refl) n ∙ found,
    refl,
  )

  -- A posted journal of a company stays as it is, lines included: to post it again or to cancel it
  -- is a conflict that changes nothing, and no request to create a journal, and none to post or
  -- cancel another one, changes it.
  pub posted_is_final :
      (directory : Directory) (other company' user now : ℕ) (dto : CreateJournalEntry)
      → IsSound s
      → find_entry id company s.entries ≡ some e
      → e.status ≡ JournalEntryStatus.posted
      → other ≢ id
      → (post_journal id company user now s ≡ (throw conflict, s))
        × (cancel_journal id company s ≡ (throw conflict, s))
        × IsKept (create_journal directory company' user dto now s).1
        × IsKept (post_journal other company' user now s).1
        × IsKept (cancel_journal other company' s).1
  unfolding post_journal cancel_journal create_journal run apply_post read_cancelled
  posted_is_final directory other company' user now dto sound found posted n = (
    rw (found, posted) refl,
    rw (found, posted) refl,
    run_after_inv IsKept (validate directory company' dto) _ s (found, refl)
        (λ _ new s' _ done. apply_create-IsKept _ company' user dto _ new s' sound found done),
    run_inv IsKept (apply_post other company' user now) s (found, refl)
        (λ new s' done.
          let (_, totals, _, _, _, _, same) = apply_post-eq-ok other company' user now s done in
          rw same (
            find_entry-update_of_other id other company (stamp totals user now) s.entries
                  (λ e same. same) (λ e. n (sym e))
                ∙ found,
            refl,
          )),
    run_inv IsKept (apply_cancel other company') s (found, refl)
        (λ new s' done.
          let (entry, read, same) = >>=-eq-ok (read_cancelled other company' s) _ done in
          let key = read_cancelled-key other company' s read in
          let saved : save_entry entry s ≡ s' = cc same in
          rw (sym saved) (save_entry-IsKept entry (λ e. n (sym key.0 ∙ sym e)) found)),
  )

update_entry-update_entry :
    (id : ℕ) (first next : JournalEntry → JournalEntry) (entries : List JournalEntry)
    → ((e : JournalEntry) → (first e).id ≡ e.id)
    → update_entry id next (update_entry id first entries)
      ≡ update_entry id (λ e. next (first e)) entries
unfolding update_entry
update_entry-update_entry id first next [] keeps = refl
update_entry-update_entry id first next (e ∷ entries) keeps =
    ground (arith, keeps e, update_entry-update_entry id first next entries keeps)

-- Where another request posts a draft after `cancel` has read it and before `cancel` saves it, both
-- succeed: the journal, posted by then, ends up cancelled, as it was read, and its lines no longer
-- count.
pub cancel_overwrites_posted :
    (id company user now : ℕ) (s : Store)
    → IsDistinct s.entries
    → (p : IsPostable id company s)
    → let posted = (post_journal id company user now s).1 in
      let read = record p.entry { status = JournalEntryStatus.cancelled } in
      (read_cancelled id company s ≡ ok read)
      × ((e : JournalEntry) × (find_entry id company posted.entries ≡ some e)
          × (e.status ≡ JournalEntryStatus.posted))
      × (find_entry id company (save_entry read posted).entries ≡ some read)
unfolding read_cancelled save_entry post_journal run
cancel_overwrites_posted id company user now s distinct p =
    let key = find_entry-key id company s.entries p.found in
    let read : JournalEntry = record p.entry { status = JournalEntryStatus.cancelled } in
    let change = posting id company user now s in
    (
      rw (p.found, p.is_draft_now) refl,
      (
        change p.entry,
        rw (apply_post-passes id company user now s p) (
            find_entry-update id company change s.entries {e = p.entry} key.0 key.1 distinct
              p.found),
        refl,
      ),
      rw (apply_post-passes id company user now s p) (
          ap
            (λ k.
              find_entry id company (update_entry k (λ _. read) (update_entry id change s.entries)))
            key.0
          ∙ ap (find_entry id company)
              (update_entry-update_entry id change (λ _. read) s.entries (λ e. refl))
          ∙ find_entry-update id company (λ _. read) s.entries {e = p.entry} key.0 key.1 distinct
              p.found),
    )
