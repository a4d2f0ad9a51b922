-- ===== src/Accounting/Journal/Lookup.antt =====
-- Journals looked up by id, before and after one of them is updated.
use erp_fashion_api.Common.{
  ℕ, ◌≡◌, ◌≢◌, refl, inl, inr, Bool-cases, none, some, List, [], ◌∷◌, ◌++◌, ◌==◌, ◌&&◌, arith,
  All-map, All,
}
use erp_fashion_api.Accounting.Store.{JournalEntry, find_entry}
use erp_fashion_api.Accounting.Journal.{update_entry}

-- Ids are a primary key.
abbrev pub IsDistinct : List JournalEntry → Type 0
IsDistinct [] = Unit
IsDistinct (e ∷ entries) = All (λ e'. e.id ≢ e'.id) entries × IsDistinct entries

find_entry-absent :
    (id company : ℕ) (entries : List JournalEntry)
    → All (λ e. id ≢ e.id) entries
    → find_entry id company entries ≡ none
unfolding find_entry
find_entry-absent id company [] h = refl
find_entry-absent id company (e ∷ entries) h =
    ground (arith, h.0, find_entry-absent id company entries h.1)

pub find_entry-key :
    (id company : ℕ) (entries : List JournalEntry) {e : JournalEntry}
    → find_entry id company entries ≡ some e
    → (e.id ≡ id) × (e.company_id ≡ company)
unfolding find_entry
find_entry-key id company [] h = ground arith
find_entry-key id company (x ∷ entries) {e} h =
    elim (Bool-cases (id == x.id && company == x.company_id)) [
      | inl here ↦ ground arith
      | inr there ↦ find_entry-key id company entries {e = e} (ground arith)
    ]

pub find_entry-update :
    (id company : ℕ) (change : JournalEntry → JournalEntry) (entries : List JournalEntry)
    {e : JournalEntry}
    → (change e).id ≡ id
    → (change e).company_id ≡ company
    → IsDistinct entries
    → find_entry id company entries ≡ some e
    → find_entry id company (update_entry id change entries) ≡ some (change e)
unfolding find_entry update_entry
find_entry-update id company change [] same_id same_company d h = absurd (ground arith)
find_entry-update id company change (x ∷ entries) {e} same_id same_company d h =
    elim (Bool-cases (id == x.id)) [
      | inl here ↦
          let absent =
            find_entry-absent id company entries (All-map _ _ entries (λ e' n. ground arith) d.0) in
          let itself : x ≡ e = ground (arith, absent) in
          let changed : ((change x).id ≡ id) × ((change x).company_id ≡ company) =
            rw itself (same_id, same_company) in
          rw here (ground (arith, changed))
      | inr there ↦
          let later : find_entry id company entries ≡ some e = ground arith in
          rw there (
            ground
              (arith, find_entry-update id company change entries same_id same_company d.1 later))
    ]

pub find_entry-update_of_other :
    (id other company : ℕ) (change : JournalEntry → JournalEntry) (entries : List JournalEntry)
    → ((e : JournalEntry) → e.id ≡ other → (change e).id ≡ other)
    → id ≢ other
    → find_entry id company (update_entry other change entries) ≡ find_entry id company entries
unfolding find_entry update_entry
find_entry-update_of_other id other company change [] keeps n = refl
find_entry-update_of_other id other company change (x ∷ entries) keeps n =
    let rest = find_entry-update_of_other id other company change entries keeps n in
    elim (Bool-cases (other == x.id)) [
      | inl here ↦ rw here (ground (arith, keeps x))
      | inr there ↦ rw there (ground (arith, rest))
    ]

pub find_entry-append :
    (id company : ℕ) (entries more : List JournalEntry) {e : JournalEntry}
    → find_entry id company entries ≡ some e
    → find_entry id company (entries ++ more) ≡ some e
unfolding find_entry
find_entry-append id company [] more h = ground arith
find_entry-append id company (x ∷ entries) more {e} h =
    elim (Bool-cases (id == x.id && company == x.company_id)) [
      | inl here ↦ ground arith
      | inr there ↦ ground (arith, find_entry-append id company entries more {e = e} (ground arith))
    ]
