-- ===== src/Loyalty/Examples.antt =====
-- One customer, one program, one sale.
use erp_fashion_api.Common.{
  ℕ, ◌≡◌, ◌&&◌, ◌==◌, refl, Bool, true, none, some, [], ◌∷◌, ℤ, pos, neg, ◌+ℤ◌, ◌≤ℤ◌, ◌<ℤ◌, Result,
  ok, throw, unprocessable_entity,
}
use erp_fashion_api.Loyalty.{
  LoyaltyProgram, LoyaltyPointTransaction, Customer, Ledger, SourceType, find_program,
  get_active_program_or_null, find_customer, find_transaction, get_available_balance, redeem_row,
  earn_row, reversal_row, append_row, redeem_standalone,
}
use erp_fashion_api.Loyalty.Balance.{redeem_standalone_lem}

-- One point for each unit of currency from 10.00 on, worth 0.05 each.
abbrev program : LoyaltyProgram
program = record {
  company_id = 7;
  points_per_currency_unit = 10_000;
  redemption_value_per_point = 500;
  minimum_purchase_for_earning = 1000;
  is_active = true;
}

abbrev buyer : Customer
buyer = record { id = 5; company_id = 7 }

abbrev nothing : Ledger
nothing = record { transactions = []; next_id = 0 }

abbrev sale_row : LoyaltyPointTransaction
sale_row = earn_row 0 7 5 31 125 3

abbrev after_sale : Ledger
after_sale = append_row sale_row nothing

program_is_active : get_active_program_or_null 7 (program ∷ []) ≡ some program
unfolding get_active_program_or_null find_program
program_is_active = refl

buyer_is_customer : find_customer 5 7 (buyer ∷ []) ≡ some buyer
unfolding find_customer
buyer_is_customer = refl

sale_is_new : find_transaction 7 SourceType.sale 31 nothing.transactions ≡ none
unfolding find_transaction
sale_is_new = refl

abbrev redeemed : Result LoyaltyPointTransaction × Ledger
redeemed = redeem_standalone (program ∷ []) (buyer ∷ []) 7 5 3 100 none after_sale

abbrev balance_of : ℕ → ℕ → Ledger → ℤ
balance_of company customer s = get_available_balance company customer s.transactions

redeem_standalone_lem_example :
    (pos 100 ≤ℤ balance_of 7 5 after_sale
      → (redeemed.0 ≡ ok (redeem_row 1 7 5 100 none program 3))
        × (balance_of 7 5 redeemed.1 ≡ balance_of 7 5 after_sale +ℤ neg (pos 100))
        × (pos 0 ≤ℤ balance_of 7 5 redeemed.1)
        × ((company' customer' : ℕ)
            → (company' == 7 && customer' == 5) ≡ Bool.false
            → balance_of company' customer' redeemed.1 ≡ balance_of company' customer' after_sale))
    × (balance_of 7 5 after_sale <ℤ pos 100 → redeemed ≡ (throw unprocessable_entity, after_sale))
redeem_standalone_lem_example =
    redeem_standalone_lem (program ∷ []) (buyer ∷ []) 7 5 3 100 none after_sale buyer program
      buyer_is_customer program_is_active

return_is_new : find_transaction 7 SourceType.sale_return 32 after_sale.transactions ≡ none
unfolding find_transaction
return_is_new = refl

sale_was_earned : find_transaction 7 SourceType.sale 31 after_sale.transactions ≡ some sale_row
unfolding find_transaction
sale_was_earned = refl

abbrev return_row : LoyaltyPointTransaction
return_row = reversal_row 1 7 5 32 25 0 3
