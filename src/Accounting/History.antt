-- ===== src/Accounting/History.antt =====
-- Any sequence of requests to the accounting services, in any order, served or refused.
pub mod Accounts
use Prim.Native.String.{String}
use erp_fashion_api.Common.{
  ℕ, ◌+◌, ◌≡◌, sym, inl, inr, Option, List, [], All, ok, >>=-eq-ok, run, run_inv, run_after_inv,
}
use erp_fashion_api.Accounting.Store.{Store, AccountingPeriod, FiscalYear, JournalEntry, lines_of}
use erp_fashion_api.Accounting.Journal.{
  Directory, CreateJournalEntry, validate, create_journal, apply_post, post_journal, apply_cancel,
  cancel_journal, read_cancelled, save_entry,
}
use erp_fashion_api.Accounting.Journal.Balanced.{
  IsSound-next, apply_post-eq-ok, create_internal-IsSound, create_journal-IsSound,
  post_journal-IsSound, cancel_journal-IsSound,
}
use erp_fashion_api.Accounting.Journal.Lines.{IsSound}
use erp_fashion_api.Accounting.TrialBalance.{TrialBalanceQuery, query_trial_balance}
use erp_fashion_api.Accounting.TrialBalance.Totals.{occurrences, query_trial_balance_lem}
use erp_fashion_api.Accounting.Posting.{
  Payment, PaymentMethod, Customer, Supplier, post_payment, reverse_payment, reversal_entry,
}
use erp_fashion_api.Accounting.Posting.Internal.{reverse_payment-eq-ok}
use erp_fashion_api.Accounting.Posting.Effect.{post_payment-IsSound}
use erp_fashion_api.Accounting.History.Accounts.{
  Holds, apply_create-Holds, post_payment-Holds, reverse_payment-Holds,
}

abbrev pub empty : Store
empty = record {
  entries = [];
  lines = [];
  periods = [];
  fiscal_years = [];
  counters = [];
  next_id = 0;
}

-- `administered` is any change of periods and fiscal years by hand: locking, closing, splitting.
pub data Reach (directory : Directory) : Store → Type 0 where
  start : Reach directory empty
  created :
      {s : Store} (company user : ℕ) (dto : CreateJournalEntry) (now : ℕ)
      → Reach directory s
      → Reach directory (create_journal directory company user dto now s).1
  posted :
      {s : Store} (id company user now : ℕ)
      → Reach directory s
      → Reach directory (post_journal id company user now s).1
  cancelled :
      {s : Store} (id company : ℕ)
      → Reach directory s
      → Reach directory (cancel_journal id company s).1
  paid :
      {s : Store} (payment : Payment) (method : PaymentMethod) (customer : Option Customer)
      (supplier : Option Supplier) (user now : ℕ)
      → Reach directory s
      → Reach directory
          (run (post_payment directory.accounts payment method customer supplier user now) s).1
  reversed :
      {s : Store} (payment : Payment) (user : ℕ) (reason : Option String) (now : ℕ)
      → Reach directory s
      → Reach directory (run (reverse_payment payment user reason now) s).1
  administered :
      {s : Store} (periods : List AccountingPeriod) (fiscal_years : List FiscalYear)
      → Reach directory s
      → Reach directory (record s { periods = periods; fiscal_years = fiscal_years })

reverse_payment-IsSound :
    (payment : Payment) (user : ℕ) (reason : Option String) (now : ℕ) (s : Store)
    (r : Option JournalEntry) (s' : Store)
    → reverse_payment payment user reason now s ≡ ok (r, s')
    → IsSound s
    → IsSound s'
reverse_payment-IsSound payment user reason now s r s' h sound =
    elim (reverse_payment-eq-ok payment user reason now s h) [
      | inl same ↦ rw (sym same) sound
      | inr (entry, e, made) ↦
          create_internal-IsSound
            (reversal_entry payment user reason now s.next_id (lines_of entry s.lines)) now
            (record s { next_id = s.next_id + 1 }) e s' made (IsSound-next s sound)
    ]

pub Reach-IsSound : {directory : Directory} {s : Store} → Reach directory s → IsSound s
Reach-IsSound start = (tt, tt)
Reach-IsSound {directory} (created {s} company user dto now r) =
    create_journal-IsSound s (Reach-IsSound r) directory company user dto now
Reach-IsSound {directory} (posted {s} id company user now r) =
    post_journal-IsSound s (Reach-IsSound r) id company user now
Reach-IsSound {directory} (cancelled {s} id company r) =
    cancel_journal-IsSound s (Reach-IsSound r) id company
Reach-IsSound {directory} (paid {s} payment method customer supplier user now r) =
    run_inv IsSound (post_payment directory.accounts payment method customer supplier user now) s
      (Reach-IsSound r)
      (λ e s' done.
        post_payment-IsSound directory.accounts payment method customer supplier user now s done
          (Reach-IsSound r))
Reach-IsSound (reversed {s} payment user reason now r) =
    run_inv IsSound (reverse_payment payment user reason now) s (Reach-IsSound r)
      (λ e s' done. reverse_payment-IsSound payment user reason now s e s' done (Reach-IsSound r))
Reach-IsSound (administered periods fiscal_years r) = Reach-IsSound r

module _ (P : ℕ → Type 0) (directory : Directory)
    (known : All (λ a. P a.id) directory.accounts) where
  pub Reach-Holds : {s : Store} → Reach directory s → Holds P s.lines
  unfolding create_journal post_journal cancel_journal save_entry
  Reach-Holds start = tt
  Reach-Holds (created {s} company user dto now r) =
      run_after_inv (λ s. Holds P s.lines) (validate directory company dto) _ s (Reach-Holds r)
        (λ _ e s' _ done.
          apply_create-Holds P directory.accounts company user dto _ s e s' known done
            (Reach-Holds r))
  Reach-Holds (posted {s} id company user now r) =
      run_inv (λ s. Holds P s.lines) (apply_post id company user now) s (Reach-Holds r)
        (λ e s' done.
          let (_, _, _, _, _, _, same) = apply_post-eq-ok id company user now s done in
          rw same (Reach-Holds r))
  Reach-Holds (cancelled {s} id company r) =
      run_inv (λ s. Holds P s.lines) (apply_cancel id company) s (Reach-Holds r)
        (λ e s' done.
          let (entry, _, same) = >>=-eq-ok (read_cancelled id company s) _ done in
          let saved : save_entry entry s ≡ s' = cc same in rw (sym saved) (Reach-Holds r))
  Reach-Holds (paid {s} payment method customer supplier user now r) =
      run_inv (λ s. Holds P s.lines)
        (post_payment directory.accounts payment method customer supplier user now) s
        (Reach-Holds r)
        (λ e s' done.
          post_payment-Holds P directory.accounts payment method customer supplier user now s e s'
            known done (Reach-Holds r))
  Reach-Holds (reversed {s} payment user reason now r) =
      run_inv (λ s. Holds P s.lines) (reverse_payment payment user reason now) s (Reach-Holds r)
        (λ e s' done. reverse_payment-Holds P payment user reason now s e s' done (Reach-Holds r))
  Reach-Holds (administered periods fiscal_years r) = Reach-Holds r

-- After any history of requests and any administration of the periods, where the ids of the accounts
-- are unique, the trial balance of any company, for any branches and any date, is balanced.
pub query_trial_balance_balances :
    (directory : Directory) {s : Store} (company : ℕ) (query : TrialBalanceQuery)
    → All (λ a. occurrences a.id directory.accounts ≡ 1) directory.accounts
    → Reach directory s
    → let result = query_trial_balance directory.accounts company query s in
      result.total_debit ≡ result.total_credit
query_trial_balance_balances directory {s} company query unique r =
    (query_trial_balance_lem directory.accounts company query s (Reach-IsSound r)
      (Reach-Holds (λ id. occurrences id directory.accounts ≡ 1) directory unique r)).0
