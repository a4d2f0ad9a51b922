-- ===== src/Accounting/Posting.antt =====
-- `AccountingPostingService` (src/modules/accounting/services/accounting-posting.service.ts), for the
-- payments of src/modules/payments.
pub mod Ledger
pub mod Internal
pub mod Effect
pub mod Success
use Prim.Native.String.{String, ◌++◌, len}
use erp_fashion_api.Common.{
  ℕ, ◌+◌, Bool, Option, none, some, List, [], ◌∷◌, map, ◌==◌, ◌&&◌, if◌then◌else◌, ℤ, pos, Result,
  ok, throw, ◌>>=◌, or_throw, validation_error, unprocessable_entity,
}
use erp_fashion_api.Accounting.DoubleEntry.{LineInput, JournalReferenceType}
use erp_fashion_api.Accounting.Store.{
  Store, Account, JournalEntry, JournalSourceType, find_by_source, lines_of,
}
use erp_fashion_api.Accounting.Journal.{InternalEntry, create_internal}

pub data PaymentDirection : Type 0 where
  receipt payment refund : PaymentDirection

-- The columns of a payment that the service reads; `amount` counts cents.
pub record Payment : Type 0 where
  pub id : ℕ
  pub payment_number : String
  pub company_id : ℕ
  pub branch_id : Option ℕ
  pub direction : PaymentDirection
  pub amount : ℤ
  pub payment_date : ℕ

pub record PaymentMethod : Type 0 where
  pub gl_account_id : Option ℕ

pub record Customer : Type 0 where
  pub receivable_account_id : Option ℕ

pub record Supplier : Type 0 where
  pub payable_account_id : Option ℕ

unfoldable pub find_active_account : ℕ → ℕ → List Account → Option Account
find_active_account id company [] = none
find_active_account id company (a ∷ accounts) =
    if id == a.id && company == a.company_id && a.is_active
    then some a
    else find_active_account id company accounts

-- `resolveCashBankAccount`, `resolveReceivableAccount` and `resolvePayableAccount`, which differ in
-- where the id comes from.
unfoldable pub resolve_account : Option ℕ → ℕ → List Account → Result Account
unfolding find_active_account
resolve_account none company accounts = throw validation_error
resolve_account (some id) company accounts =
    or_throw (find_active_account id company accounts) validation_error

-- The accounts that a payment debits and credits, the cash or bank account being given.
unfoldable pub payment_accounts :
    List Account → Payment → Account → Option Customer → Option Supplier → Result (ℕ × ℕ)
unfolding resolve_account
payment_accounts accounts paid cash customer supplier = elim paid.direction [
  | receipt ↦ do
    c ← or_throw customer validation_error
    receivable ← resolve_account c.receivable_account_id paid.company_id accounts
    ok (cash.id, receivable.id)
  | payment ↦ do
    s ← or_throw supplier validation_error
    payable ← resolve_account s.payable_account_id paid.company_id accounts
    ok (payable.id, cash.id)
  | refund ↦ throw unprocessable_entity
]

abbrev pub direction_name : PaymentDirection → String
direction_name receipt = "RECEIPT"
direction_name payment = "PAYMENT"
direction_name refund = "REFUND"

abbrev pub payment_line : Payment → String → ℕ → ℤ → ℤ → LineInput
payment_line paid description account debit credit = record {
  account_id = account;
  debit_amount = debit;
  credit_amount = credit;
  reference_type = some JournalReferenceType.payment;
  reference_id = some paid.id;
  description = some description;
}

abbrev pub payment_entry : Payment → ℕ → ℕ × ℕ → InternalEntry
payment_entry paid user sides =
    let description = "Payment " ++ paid.payment_number in
    record {
      company_id = paid.company_id;
      branch_id = paid.branch_id;
      entry_date = paid.payment_date;
      description = description ++ " (" ++ direction_name paid.direction ++ ")";
      source_type = JournalSourceType.payment;
      source_id = paid.id;
      user_id = user;
      lines =
          payment_line paid description sides.0 paid.amount (pos 0)
          ∷ payment_line paid description sides.1 (pos 0) paid.amount
          ∷ [];
    }

-- `postPayment`, in its caller's transaction.
unfoldable pub post_payment :
    List Account
    → Payment
    → PaymentMethod
    → Option Customer
    → Option Supplier
    → ℕ
    → ℕ
    → Store
    → Result (JournalEntry × Store)
post_payment accounts paid method customer supplier user now s =
    elim (find_by_source paid.company_id JournalSourceType.payment paid.id s.entries) [
      | some existing ↦ ok (existing, s)
      | none ↦ do
        cash ← resolve_account method.gl_account_id paid.company_id accounts
        sides ← payment_accounts accounts paid cash customer supplier
        create_internal (payment_entry paid user sides) now s
    ]

abbrev pub swap_sides : Payment → LineInput → LineInput
swap_sides paid line = record {
  account_id = line.account_id;
  debit_amount = line.credit_amount;
  credit_amount = line.debit_amount;
  reference_type = some JournalReferenceType.payment;
  reference_id = some paid.id;
  description = some ("Reversal of payment " ++ paid.payment_number);
}

-- `reason ? \`: ${reason}\` : \'\'`
abbrev reason_suffix : Option String → String
reason_suffix none = ""
reason_suffix (some reason) = if len reason == 0 then "" else ": " ++ reason

abbrev pub reversal_entry : Payment → ℕ → Option String → ℕ → ℕ → List LineInput → InternalEntry
reversal_entry paid user reason now source lines = record {
  company_id = paid.company_id;
  branch_id = paid.branch_id;
  entry_date = now;
  description = "Reverse payment " ++ paid.payment_number ++ reason_suffix reason;
  source_type = JournalSourceType.manual;
  source_id = source;
  user_id = user;
  lines = map (swap_sides paid) lines;
}

-- The reversal of an entry's lines, if there are any, under a fresh source id.
abbrev pub reverse_lines :
    Payment → ℕ → Option String → ℕ → Store → List LineInput → Result (Option JournalEntry × Store)
reverse_lines paid user reason now s [] = ok (none, s)
reverse_lines paid user reason now s (line ∷ lines) = do
  reversed ←
      create_internal (reversal_entry paid user reason now s.next_id (line ∷ lines)) now
        (record s { next_id = s.next_id + 1 })
  ok (some reversed.0, reversed.1)

abbrev pub is_refund : PaymentDirection → Bool
is_refund receipt = Bool.false
is_refund payment = Bool.false
is_refund refund = Bool.true

-- `reversePayment`, in its caller's transaction.
unfoldable pub reverse_payment :
    Payment → ℕ → Option String → ℕ → Store → Result (Option JournalEntry × Store)
reverse_payment paid user reason now s =
    if is_refund paid.direction
    then ok (none, s)
    else elim (find_by_source paid.company_id JournalSourceType.payment paid.id s.entries) [
      | none ↦ ok (none, s)
      | some original ↦ reverse_lines paid user reason now s (lines_of original.id s.lines)
    ]
