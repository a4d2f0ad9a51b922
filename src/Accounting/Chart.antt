-- ===== src/Accounting/Chart.antt =====
-- The chart of accounts: `AccountsService` (src/modules/accounting/services/accounts.service.ts).
pub mod Forest
mod Examples
use Prim.Native.String.{String}
use text.Mathlib.Text.{◌==◌ as str_eq}
use erp_fashion_api.Common.{
  ℕ, zero, suc, ◌+◌, Bool, true, false, not, ◌&&◌, Option, none, some, List, [], ◌∷◌, ◌++◌, ◌==◌,
  if◌then◌else◌, is_some, row, find_row, update_row, Result, ok, throw, ◌>>=◌, ◌>>◌, throw_if,
  or_throw, settle, validation_error, not_found, conflict, internal_error,
}
use erp_fashion_api.Accounting.Journal.{Company, find_active_company}

pub data AccountType : Type 0 where
  asset liability equity revenue expense : AccountType

pub record Account : Type 0 where
  pub id : ℕ
  pub company_id : ℕ
  pub code : String
  pub name : String
  pub account_type : AccountType
  pub parent_id : Option ℕ
  pub is_active : Bool
  pub is_system_account : Bool

pub record Chart : Type 0 where
  pub accounts : List Account
  pub next_id : ℕ

pub record CreateAccount : Type 0 where
  pub code : String
  pub name : String
  pub account_type : AccountType
  pub parent_id : Option ℕ

-- What is missing stays as it is; a parent that is given may be none.
pub record UpdateAccount : Type 0 where
  pub name : Option String
  pub parent_id : Option (Option ℕ)
  pub is_active : Option Bool

abbrev pub account_key : Account → ℕ
account_key a = a.id

abbrev pub find_chart_account : ℕ → ℕ → List Account → Option Account
find_chart_account id company = find_row account_key (λ a. company == a.company_id) id

-- `findOne({ where: { id }, select: ['parentId'] })`, and `current?.parentId ?? null`.
abbrev pub parent_of : ℕ → List Account → Option ℕ
parent_of id accounts = elim (row account_key id accounts) [ none ↦ none | some a ↦ a.parent_id ]

-- `assertValidParent`
abbrev pub assert_valid_parent : ℕ → ℕ → List Account → Result (Unit {0})
assert_valid_parent parent company accounts =
    throw_if (not (is_some (find_chart_account parent company accounts))) validation_error

-- The loop of `assertNoCycle`, with the steps that are left.
unfoldable pub walk : ℕ → ℕ → Option ℕ → List Account → Result (Unit {0})
walk steps account none accounts = ok tt
walk zero account (some current) accounts = throw validation_error
walk (suc steps) account (some current) accounts =
    let rest = walk steps account (parent_of current accounts) accounts in
    if current == account then throw validation_error else rest

unfoldable pub count_accounts : ℕ → List Account → ℕ
count_accounts company [] = 0
count_accounts company (a ∷ accounts) =
    (if company == a.company_id then 1 else 0) + count_accounts company accounts

-- `assertNoCycle`
abbrev pub assert_no_cycle : ℕ → ℕ → ℕ → List Account → Result (Unit {0})
assert_no_cycle account parent company accounts =
    walk (count_accounts company accounts) account (some parent) accounts

unfoldable pub find_account_code : ℕ → String → List Account → Option Account
find_account_code company code [] = none
find_account_code company code (a ∷ accounts) =
    if company == a.company_id && str_eq code a.code
    then some a
    else find_account_code company code accounts

abbrev check_parent : Option ℕ → ℕ → List Account → Result (Unit {0})
check_parent none company accounts = ok tt
check_parent (some parent) company accounts = assert_valid_parent parent company accounts

-- What `create` checks.
unfoldable pub check_account : List Company → ℕ → CreateAccount → List Account → Result (Unit {0})
unfolding find_active_company find_account_code
check_account companies company dto accounts = do
  found ← or_throw (find_active_company company companies) validation_error
  check_parent dto.parent_id company accounts
  throw_if (is_some (find_account_code company dto.code accounts)) conflict

abbrev new_account : ℕ → CreateAccount → ℕ → Account
new_account company dto id = record {
  id = id;
  company_id = company;
  code = dto.code;
  name = dto.name;
  account_type = dto.account_type;
  parent_id = dto.parent_id;
  is_active = true;
  is_system_account = false;
}

-- The insertion: the index on the company and the code is unique.
unfoldable pub insert_account : ℕ → CreateAccount → Chart → Result (Account × Chart)
unfolding find_account_code
insert_account company dto s = do
  throw_if (is_some (find_account_code company dto.code s.accounts)) internal_error
  let account = new_account company dto s.next_id
  ok (account, record { accounts = s.accounts ++ (account ∷ []); next_id = s.next_id + 1 })

-- `create`, with what other requests do between its checks and its insertion.
unfoldable pub create_account :
    List Company → ℕ → CreateAccount → (Chart → Chart) → Chart → Result Account × Chart
create_account companies company dto others s =
    settle
      (do check_account companies company dto s.accounts; insert_account company dto (others s))
      (others s)

-- The parent that `update` gives the account.
unfoldable pub new_parent : ℕ → ℕ → Option (Option ℕ) → Account → List Account → Result (Option ℕ)
unfolding walk count_accounts
new_parent id company none account accounts = ok account.parent_id
new_parent id company (some none) account accounts = ok none
new_parent id company (some (some parent)) account accounts = do
  throw_if (parent == id) validation_error
  assert_valid_parent parent company accounts
  assert_no_cycle id parent company accounts
  ok (some parent)

abbrev or_keep {ℓ} : {A : Type ℓ} → Option A → A → A
or_keep none old = old
or_keep (some new) old = new

abbrev pub updated_account : UpdateAccount → Option ℕ → Account → Account
updated_account dto parent account = record account {
  parent_id = parent;
  name = or_keep dto.name account.name;
  is_active = or_keep dto.is_active account.is_active;
}

-- `save(account)`
abbrev pub save_account : Account → Chart → Chart
save_account a s = record s { accounts = update_row account_key a.id (λ _. a) s.accounts }

-- `update`, with what other requests do between its reads and its save.
unfoldable pub update_account :
    ℕ → ℕ → UpdateAccount → (Chart → Chart) → Chart → Result Account × Chart
update_account id company dto others s =
    settle
      (do
        account ← or_throw (find_chart_account id company s.accounts) not_found
        parent ← new_parent id company dto.parent_id account s.accounts
        let saved = updated_account dto parent account
        ok (saved, save_account saved (others s)))
      (others s)
