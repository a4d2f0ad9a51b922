-- ===== src/Accounting/Chart/Examples.antt =====
-- Cash and bank, each put below the other.
use erp_fashion_api.Common.{ℕ, ◌≡◌, refl, true, false, none, some, [], ◌∷◌, ok, find_row, arith}
use erp_fashion_api.Accounting.Chart.{
  Account, AccountType, Chart, UpdateAccount, find_chart_account, new_parent, updated_account,
  update_account,
}
use erp_fashion_api.Accounting.Chart.Forest.{
  IsForest, top, update_account-IsForest, updates_may_cycle,
}

abbrev account : ℕ → Account
account id = record {
  id = id;
  company_id = 1;
  code = "A";
  name = "An account";
  account_type = AccountType.asset;
  parent_id = none;
  is_active = true;
  is_system_account = false;
}

abbrev two : Chart
two = record { accounts = account 11 ∷ (account 12 ∷ []); next_id = 13 }

abbrev below_account : ℕ → UpdateAccount
below_account id = record { name = none; parent_id = some (some id); is_active = none }

two-IsForest : IsForest two.accounts
two-IsForest id = top (ground arith)

update_account-IsForest_example :
    IsForest (update_account 11 1 (below_account 12) (λ c. c) two).1.accounts
update_account-IsForest_example =
    update_account-IsForest 11 1 (below_account 12) two (refl, (refl, tt)) two-IsForest

first_found : find_chart_account 11 1 two.accounts ≡ some (account 11)
unfolding find_row
first_found = refl

second_found : find_chart_account 12 1 two.accounts ≡ some (account 12)
unfolding find_row
second_found = refl

first_accepted : new_parent 11 1 (some (some 12)) (account 11) two.accounts ≡ ok (some 12)
unfolding new_parent find_row
first_accepted = refl

second_accepted : new_parent 12 1 (some (some 11)) (account 12) two.accounts ≡ ok (some 11)
unfolding new_parent find_row
second_accepted = refl

updates_may_cycle_example :
    ((update_account 12 1 (below_account 11) (λ d. d) two).0
      ≡ ok (updated_account (below_account 11) (some 11) (account 12)))
    × ((update_account 11 1
          (below_account 12)
          (λ c. (update_account 12 1 (below_account 11) (λ d. d) two).1)
          two).0
        ≡ ok (updated_account (below_account 12) (some 12) (account 11)))
    × (¬ IsForest
        (update_account 11 1
          (below_account 12)
          (λ c. (update_account 12 1 (below_account 11) (λ d. d) two).1)
          two).1.accounts)
updates_may_cycle_example =
    updates_may_cycle 11 12 1 (below_account 12) (below_account 11) two (account 11) (account 12)
      (refl, (refl, tt)) first_found second_found refl first_accepted second_accepted
