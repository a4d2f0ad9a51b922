-- ===== src/Loyalty.antt =====
-- `LoyaltyService` and the lookup of `LoyaltyProgramService` (src/modules/loyalty/services).
pub mod Balance
mod Examples
use Prim.Native.String.{String}
use erp_fashion_api.Double.{floor, mul, of_cents, of_decimal, to_fixed}
use erp_fashion_api.Common.{
  ℕ, ◌+◌, ◌*◌, ◌/◌, Bool, ◌&&◌, Option, none, some, List, [], ◌∷◌, ◌++◌, ◌==◌, ltb, if◌then◌else◌,
  ℤ, pos, neg, ◌+ℤ◌, ltb_ℤ, Result, ok, ◌>>=◌, ◌>>◌, throw_if, or_throw, run, not_found,
  unprocessable_entity,
}

-- The two rates have four decimals and count ten-thousandths; amounts count cents.
pub record LoyaltyProgram : Type 0 where
  pub company_id : ℕ
  pub points_per_currency_unit : ℕ
  pub redemption_value_per_point : ℕ
  pub minimum_purchase_for_earning : ℕ
  pub is_active : Bool

pub data LoyaltyPointTransactionType : Type 0 where
  earn redeem reversal adjustment : LoyaltyPointTransactionType

pub data SourceType : Type 0 where
  sale sale_return : SourceType

pub record LoyaltyPointTransaction : Type 0 where
  pub id : ℕ
  pub company_id : ℕ
  pub customer_id : ℕ
  pub type : LoyaltyPointTransactionType
  pub points_delta : ℤ
  pub redemption_value : Option ℕ
  pub source_type : Option SourceType
  pub source_id : Option ℕ
  pub reverses_transaction_id : Option ℕ
  pub notes : Option String
  pub created_by : Option ℕ

pub record Customer : Type 0 where
  pub id : ℕ
  pub company_id : ℕ

-- The ledger; ids count up with its rows.
pub record Ledger : Type 0 where
  pub transactions : List LoyaltyPointTransaction
  pub next_id : ℕ

unfoldable pub find_program : ℕ → List LoyaltyProgram → Option LoyaltyProgram
find_program company [] = none
find_program company (p ∷ programs) =
    if company == p.company_id then some p else find_program company programs

abbrev if_active : LoyaltyProgram → Option LoyaltyProgram
if_active p = if p.is_active then some p else none

-- `getActiveProgramOrNull`
unfoldable pub get_active_program_or_null : ℕ → List LoyaltyProgram → Option LoyaltyProgram
unfolding find_program
get_active_program_or_null company programs = elim (find_program company programs) [
  | none ↦ none
  | some p ↦ if_active p
]

unfoldable pub find_customer : ℕ → ℕ → List Customer → Option Customer
find_customer id company [] = none
find_customer id company (c ∷ customers) =
    if id == c.id && company == c.company_id then some c else find_customer id company customers

-- `getAvailableBalance`
unfoldable pub get_available_balance : ℕ → ℕ → List LoyaltyPointTransaction → ℤ
get_available_balance company customer [] = pos 0
get_available_balance company customer (t ∷ ts) =
    (if company == t.company_id && customer == t.customer_id then t.points_delta else pos 0)
    +ℤ get_available_balance company customer ts

abbrev same_source : SourceType → SourceType → Bool
same_source sale sale = Bool.true
same_source sale_return sale_return = Bool.true
same_source _ _ = Bool.false

abbrev pub is_source : ℕ → SourceType → ℕ → LoyaltyPointTransaction → Bool
is_source company source id t =
    company == t.company_id
    && elim t.source_type [ none ↦ Bool.false | some s ↦ same_source source s ]
    && elim t.source_id [ none ↦ Bool.false | some i ↦ id == i ]

unfoldable pub find_transaction :
    ℕ → SourceType → ℕ → List LoyaltyPointTransaction → Option LoyaltyPointTransaction
find_transaction company source id [] = none
find_transaction company source id (t ∷ ts) =
    if is_source company source id t then some t else find_transaction company source id ts

abbrev pub append_row : LoyaltyPointTransaction → Ledger → Ledger
append_row t s = record s { transactions = s.transactions ++ (t ∷ []); next_id = s.next_id + 1 }

-- `Math.floor(grandTotal * Number(pointsPerCurrencyUnit))`, of cents and ten-thousandths.
unfoldable pub points_for : LoyaltyProgram → ℕ → ℕ
unfolding floor mul of_decimal
points_for program grand_total =
    floor (mul (of_cents grand_total) (of_decimal program.points_per_currency_unit 10_000))

abbrev pub earn_row : ℕ → ℕ → ℕ → ℕ → ℕ → ℕ → LoyaltyPointTransaction
earn_row id company customer sale_id points user = record {
  id = id;
  company_id = company;
  customer_id = customer;
  type = LoyaltyPointTransactionType.earn;
  points_delta = pos points;
  redemption_value = none;
  source_type = some SourceType.sale;
  source_id = some sale_id;
  reverses_transaction_id = none;
  notes = none;
  created_by = some user;
}

-- The part of `earnForSale` for a company with an active program.
abbrev pub earn_with :
    LoyaltyProgram → ℕ → ℕ → ℕ → ℕ → ℕ → Ledger → Option LoyaltyPointTransaction × Ledger
earn_with program company customer sale_id grand_total user s =
    let points = points_for program grand_total in
    let row = earn_row s.next_id company customer sale_id points user in
    if ltb grand_total program.minimum_purchase_for_earning
    then (none, s)
    else if points == 0
    then (none, s)
    else (some row, append_row row s)

-- `earnForSale`, in its caller's transaction.
unfoldable pub earn_for_sale :
    List LoyaltyProgram → ℕ → ℕ → ℕ → ℕ → ℕ → Ledger → Option LoyaltyPointTransaction × Ledger
earn_for_sale programs company customer sale_id grand_total user s =
    elim (find_transaction company SourceType.sale sale_id s.transactions) [
      | some existing ↦ (some existing, s)
      | none ↦ elim (get_active_program_or_null company programs) [
        | none ↦ (none, s)
        | some program ↦ earn_with program company customer sale_id grand_total user s
      ]
    ]

abbrev pub reversal_row : ℕ → ℕ → ℕ → ℕ → ℕ → ℕ → ℕ → LoyaltyPointTransaction
reversal_row id company customer return_id points original user = record {
  id = id;
  company_id = company;
  customer_id = customer;
  type = LoyaltyPointTransactionType.reversal;
  points_delta = neg (pos points);
  redemption_value = none;
  source_type = some SourceType.sale_return;
  source_id = some return_id;
  reverses_transaction_id = some original;
  notes = none;
  created_by = some user;
}

-- `reverseForSaleReturn`, in its caller's transaction.
unfoldable pub reverse_for_sale_return :
    ℕ → ℕ → ℕ → ℕ → ℕ → ℕ → Ledger → Option LoyaltyPointTransaction × Ledger
reverse_for_sale_return company customer sale_id return_id points user s =
    if points == 0
    then (none, s)
    else elim (find_transaction company SourceType.sale_return return_id s.transactions) [
      | some existing ↦ (some existing, s)
      | none ↦ elim (find_transaction company SourceType.sale sale_id s.transactions) [
        | none ↦ (none, s)
        | some original ↦
            let row = reversal_row s.next_id company customer return_id points original.id user in
            (some row, append_row row s)
      ]
    ]

-- `(points * Number(redemptionValuePerPoint)).toFixed(2)`
unfoldable pub redemption_value_of : ℕ → ℕ → ℕ
unfolding to_fixed mul of_decimal
redemption_value_of points rate = to_fixed (mul (of_decimal points 1) (of_decimal rate 10_000))

abbrev pub redeem_row : ℕ → ℕ → ℕ → ℕ → Option String → LoyaltyProgram → ℕ → LoyaltyPointTransaction
redeem_row id company customer points notes program user = record {
  id = id;
  company_id = company;
  customer_id = customer;
  type = LoyaltyPointTransactionType.redeem;
  points_delta = neg (pos points);
  redemption_value = some (redemption_value_of points program.redemption_value_per_point);
  source_type = none;
  source_id = none;
  reverses_transaction_id = none;
  notes = notes;
  created_by = some user;
}

-- `redeem`, in its caller's transaction.
unfoldable pub apply_redeem :
    List LoyaltyProgram
    → List Customer
    → ℕ
    → ℕ
    → ℕ
    → ℕ
    → Option String
    → Ledger
    → Result (LoyaltyPointTransaction × Ledger)
unfolding get_active_program_or_null get_available_balance find_customer
apply_redeem programs customers company customer user points notes s = do
  found ← or_throw (find_customer customer company customers) not_found
  program ← or_throw (get_active_program_or_null company programs) unprocessable_entity
  let balance = get_available_balance company customer s.transactions
  throw_if (ltb_ℤ balance (pos points)) unprocessable_entity
  let row = redeem_row s.next_id company customer points notes program user
  ok (row, append_row row s)

-- `redeemStandalone`
unfoldable pub redeem_standalone :
    List LoyaltyProgram
    → List Customer
    → ℕ
    → ℕ
    → ℕ
    → ℕ
    → Option String
    → Ledger
    → Result LoyaltyPointTransaction × Ledger
redeem_standalone programs customers company customer user points notes =
    run (apply_redeem programs customers company customer user points notes)
