-- ===== src/Accounting/Journal/Lines.antt =====
-- The lines of a journal, before and after another one is saved.
use erp_fashion_api.Common.{ℕ, ◌+◌, ◌≡◌, ◌≢◌, ◌<◌, ◌≤◌, refl, List, [], ◌∷◌, ◌++◌, arith, All}
use mathlib.Core.List.{append-nil}
use erp_fashion_api.Accounting.DoubleEntry.{LineInput, IsBalanced}
use erp_fashion_api.Accounting.Store.{
  Store, JournalEntry, JournalEntryStatus, JournalEntryLine, lines_of,
}
use erp_fashion_api.Accounting.Journal.{line_rows}

-- An entry with a used id, whose lines are balanced if it is posted.
abbrev pub IsEntry : ℕ → List JournalEntryLine → JournalEntry → Type 0
IsEntry next lines e =
    (e.id < next) × (e.status ≡ JournalEntryStatus.posted → IsBalanced (lines_of e.id lines))

abbrev pub IsSound : Store → Type 0
IsSound s =
    All (IsEntry s.next_id s.lines) s.entries × All (λ l. l.journal_entry_id < s.next_id) s.lines

pub lines_of-append :
    (entry : ℕ) (xs ys : List JournalEntryLine)
    → lines_of entry (xs ++ ys) ≡ lines_of entry xs ++ lines_of entry ys
unfolding lines_of
lines_of-append entry [] ys = refl
lines_of-append entry (x ∷ xs) ys = ground (arith, lines_of-append entry xs ys)

lines_of-fresh :
    (entry next : ℕ) (lines : List JournalEntryLine)
    → All (λ l. l.journal_entry_id < next) lines
    → next ≤ entry
    → lines_of entry lines ≡ []
unfolding lines_of
lines_of-fresh entry next [] h n = refl
lines_of-fresh entry next (l ∷ lines) h n =
    ground (arith, h.0, lines_of-fresh entry next lines h.1 n)

pub lines_of-rows :
    (entry id : ℕ) (lines : List LineInput) → lines_of entry (line_rows entry id lines) ≡ lines
unfolding lines_of line_rows
lines_of-rows entry id [] = refl
lines_of-rows entry id (line ∷ lines) = ground (arith, lines_of-rows entry (id + 1) lines)

pub lines_of-rows_of_other :
    (entry other id : ℕ) (lines : List LineInput)
    → entry ≢ other
    → lines_of entry (line_rows other id lines) ≡ []
unfolding lines_of line_rows
lines_of-rows_of_other entry other id [] n = refl
lines_of-rows_of_other entry other id (line ∷ lines) n =
    ground (arith, n, lines_of-rows_of_other entry other (id + 1) lines n)

pub line_rows-below :
    (entry id next : ℕ) (lines : List LineInput)
    → entry < next
    → All (λ l. l.journal_entry_id < next) (line_rows entry id lines)
unfolding line_rows
line_rows-below entry id next [] h = tt
line_rows-below entry id next (line ∷ lines) h = (h, line_rows-below entry (id + 1) next lines h)

module _ (entry : ℕ) (lines : List LineInput) (s : Store)
    (below : All (λ l. l.journal_entry_id < s.next_id) s.lines) (fresh : s.next_id ≤ entry)
    (id : ℕ) where
  -- Saving an entry under a fresh id gives it its lines, and leaves the lines of the others.
  pub lines_of-saved : lines_of entry (s.lines ++ line_rows entry id lines) ≡ lines
  lines_of-saved =
      rw
        (
          lines_of-append entry s.lines (line_rows entry id lines),
          lines_of-fresh entry s.next_id s.lines below fresh,
        )
        (lines_of-rows entry id lines)

  pub lines_of-saved_other :
      (e : ℕ)
      → e < s.next_id
      → lines_of e (s.lines ++ line_rows entry id lines) ≡ lines_of e s.lines
  lines_of-saved_other e used =
      rw
        (
          lines_of-append e s.lines (line_rows entry id lines),
          lines_of-rows_of_other e entry id lines (omega (arith, used, fresh)),
        )
        (append-nil _)
