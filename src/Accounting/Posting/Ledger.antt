-- ===== src/Accounting/Posting/Ledger.antt =====
-- Balances of accounts over the posted journals, and what one more journal does to them.
use erp_fashion_api.Common.{
  ℕ, ◌<◌, ◌≡◌, refl, sym, ap, ◌∙◌, true, ◌&&◌, List, [], ◌∷◌, ◌++◌, map, ◌==◌, if◌then◌else◌, ℤ,
  pos, neg, ◌+ℤ◌, ◌-ℤ◌, int_laws, All, zero_+ℤ, +ℤ_assoc,
}
use mathlib.Core.List.{append-nil, append_assoc}
use erp_fashion_api.Accounting.DoubleEntry.{LineInput}
use erp_fashion_api.Accounting.Store.{
  Store, JournalEntry, JournalEntryStatus, JournalEntryLine, is_posted, lines_of,
}
use erp_fashion_api.Accounting.TrialBalance.{posted_lines, account_sum, debit_of, credit_of}
use erp_fashion_api.Accounting.Posting.{Payment, swap_sides}

-- Debits less credits of one account.
unfoldable pub net : ℕ → List LineInput → ℤ
net account lines = account_sum debit_of account lines -ℤ account_sum credit_of account lines

-- An account's balance over all posted journals.
unfoldable pub ledger_net : ℕ → Store → ℤ
ledger_net account s = net account (posted_lines (λ _. true) s.entries s.lines)

account_sum-append :
    (column : LineInput → ℤ) (account : ℕ) (xs ys : List LineInput)
    → account_sum column account (xs ++ ys)
      ≡ account_sum column account xs +ℤ account_sum column account ys
unfolding account_sum
account_sum-append column account [] ys = sym (zero_+ℤ _)
account_sum-append column account (x ∷ xs) ys =
    ap (λ n. (if x.account_id == account then column x else pos 0) +ℤ n)
      (account_sum-append column account xs ys)
    ∙ sym (+ℤ_assoc _ _ _)

pub net-append :
    (account : ℕ) (xs ys : List LineInput)
    → net account (xs ++ ys) ≡ net account xs +ℤ net account ys
unfolding net
net-append account xs ys = rw (account_sum-append, account_sum-append) (omega int_laws)

account_sum-swap :
    (paid : Payment) (account : ℕ) (lines : List LineInput)
    → (account_sum debit_of account (map (swap_sides paid) lines)
        ≡ account_sum credit_of account lines)
      × (account_sum credit_of account (map (swap_sides paid) lines)
          ≡ account_sum debit_of account lines)
unfolding account_sum
account_sum-swap paid account [] = (refl, refl)
account_sum-swap paid account (l ∷ lines) =
    let (debit, credit) = account_sum-swap paid account lines in (rw debit refl, rw credit refl)

pub net-swap :
    (paid : Payment) (account : ℕ) (lines : List LineInput)
    → net account (map (swap_sides paid) lines) ≡ neg (net account lines)
unfolding net
net-swap paid account lines =
    let (debit, credit) = account_sum-swap paid account lines in rw (debit, credit) (omega int_laws)

pub posted_lines-append :
    (entries more : List JournalEntry) (lines : List JournalEntryLine)
    → posted_lines (λ _. true) (entries ++ more) lines
      ≡ posted_lines (λ _. true) entries lines ++ posted_lines (λ _. true) more lines
unfolding posted_lines
posted_lines-append [] more lines = refl
posted_lines-append (e ∷ entries) more lines = rw (posted_lines-append entries more lines) (
    sym (
      append_assoc (if is_posted e.status && true then lines_of e.id lines else [])
        (posted_lines (λ _. true) entries lines) (posted_lines (λ _. true) more lines)))

pub posted_lines-one :
    (e : JournalEntry) (lines : List JournalEntryLine)
    → e.status ≡ JournalEntryStatus.posted
    → posted_lines (λ _. true) (e ∷ []) lines ≡ lines_of e.id lines
unfolding posted_lines
posted_lines-one e lines posted = rw posted (append-nil _)

pub posted_lines-same :
    (next : ℕ) (entries : List JournalEntry) (lines lines' : List JournalEntryLine)
    → All (λ e. e.id < next) entries
    → ((id : ℕ) → id < next → lines_of id lines' ≡ lines_of id lines)
    → posted_lines (λ _. true) entries lines' ≡ posted_lines (λ _. true) entries lines
unfolding posted_lines
posted_lines-same next [] lines lines' h same = refl
posted_lines-same next (e ∷ entries) lines lines' h same =
    rw (same e.id h.0, posted_lines-same next entries lines lines' h.1 same) refl
