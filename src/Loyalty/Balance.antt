-- ===== src/Loyalty/Balance.antt =====
-- Balances of points.
use Prim.Native.String.{String}
use erp_fashion_api.Common.{
  ℕ, ◌≡◌, refl, sym, ap, ◌∙◌, inl, inr, Bool, true, ◌≤◌, ◌<◌, Bool-cases, Option, none, some, List,
  [], ◌∷◌, ◌++◌, ◌==◌, ◌&&◌, if◌then◌else◌, arith, ℤ, pos, neg, ◌+ℤ◌, ◌≤ℤ◌, ◌<ℤ◌, int_laws, Result,
  ok, throw, run, unprocessable_entity, +ℤ_zero, zero_+ℤ, +ℤ_assoc,
}
use erp_fashion_api.Loyalty.{
  LoyaltyProgram, LoyaltyPointTransaction, Customer, Ledger, get_active_program_or_null,
  find_customer, get_available_balance, redeem_row, earn_row, reversal_row, append_row,
  apply_redeem, redeem_standalone, earn_for_sale, reverse_for_sale_return, find_transaction,
  SourceType, is_source, points_for,
}

-- What one row adds to the balance of one customer.
abbrev pub share : ℕ → ℕ → LoyaltyPointTransaction → ℤ
share company customer t =
    if company == t.company_id && customer == t.customer_id then t.points_delta else pos 0

get_available_balance-snoc :
    (company customer : ℕ) (ts : List LoyaltyPointTransaction) (t : LoyaltyPointTransaction)
    → get_available_balance company customer (ts ++ (t ∷ []))
      ≡ get_available_balance company customer ts +ℤ share company customer t
unfolding get_available_balance
get_available_balance-snoc company customer [] t = +ℤ_zero _ ∙ sym (zero_+ℤ _)
get_available_balance-snoc company customer (x ∷ ts) t =
    ap (λ n. share company customer x +ℤ n) (get_available_balance-snoc company customer ts t)
    ∙ sym (+ℤ_assoc _ _ _)

module _ (programs : List LoyaltyProgram) (customers : List Customer)
    (company customer user points : ℕ) (notes : Option String) (s : Ledger) where
  abbrev redeemed : Result LoyaltyPointTransaction × Ledger
  redeemed = redeem_standalone programs customers company customer user points notes s

  abbrev pub balance : ℤ
  balance = get_available_balance company customer s.transactions

  redeemed-enough :
      (c : Customer) (program : LoyaltyProgram)
      → find_customer customer company customers ≡ some c
      → get_active_program_or_null company programs ≡ some program
      → pos points ≤ℤ balance
      → redeemed ≡ (
        ok (redeem_row s.next_id company customer points notes program user),
        append_row (redeem_row s.next_id company customer points notes program user) s,
      )
  unfolding redeem_standalone run apply_redeem
  redeemed-enough c program is_customer is_active enough = ground arith

  -- A customer of a company with an active program can redeem points exactly up to the balance: then
  -- it falls by these points and is not negative, and no other balance changes; otherwise the answer
  -- is an error and nothing changes.
  pub redeem_standalone_lem :
      (c : Customer) (program : LoyaltyProgram)
      → find_customer customer company customers ≡ some c
      → get_active_program_or_null company programs ≡ some program
      → (pos points ≤ℤ balance
          → (redeemed.0 ≡ ok (redeem_row s.next_id company customer points notes program user))
            × (get_available_balance company customer redeemed.1.transactions
                ≡ balance +ℤ neg (pos points))
            × (pos 0 ≤ℤ get_available_balance company customer redeemed.1.transactions)
            × ((company' customer' : ℕ)
                → (company' == company && customer' == customer) ≡ Bool.false
                → get_available_balance company' customer' redeemed.1.transactions
                  ≡ get_available_balance company' customer' s.transactions))
        × (balance <ℤ pos points → redeemed ≡ (throw unprocessable_entity, s))
  unfolding redeem_standalone run apply_redeem
  redeem_standalone_lem c program is_customer is_active =
      let row = redeem_row s.next_id company customer points notes program user in
      let own : share company customer row ≡ neg (pos points) = ground arith in
      (
        λ enough. rw (redeemed-enough c program is_customer is_active enough) (
          refl,
          get_available_balance-snoc company customer s.transactions row
              ∙ ap (λ n. balance +ℤ n) own,
          rw (get_available_balance-snoc company customer s.transactions row, own)
              (omega (int_laws, enough)),
          λ company' customer' other.
              get_available_balance-snoc company' customer' s.transactions row
              ∙ ap (λ n. get_available_balance company' customer' s.transactions +ℤ n)
                  (rw other refl)
              ∙ +ℤ_zero _,
        ),
        λ short. rw (redeem_standalone, run, apply_redeem, is_customer, is_active) (ground arith),
      )

find_transaction-append :
    (company id : ℕ) (source : SourceType) (ts : List LoyaltyPointTransaction)
    (t : LoyaltyPointTransaction)
    → find_transaction company source id ts ≡ none
    → is_source company source id t ≡ true
    → find_transaction company source id (ts ++ (t ∷ [])) ≡ some t
unfolding find_transaction
find_transaction-append company id source [] t absent found = rw found refl
find_transaction-append company id source (x ∷ ts) t absent found =
    elim (Bool-cases (is_source company source id x)) [
      | inl here ↦ absurd (ground arith)
      | inr there ↦ rw there (find_transaction-append company id source ts t (ground arith) found)
    ]

module _ (programs : List LoyaltyProgram) (company customer sale_id user : ℕ) (s : Ledger) where
  abbrev earned : ℕ → Ledger → Option LoyaltyPointTransaction × Ledger
  earned grand_total = earn_for_sale programs company customer sale_id grand_total user

  -- A confirmed sale of at least the minimum that is worth a point or more, in a company with an
  -- active program, raises the customer's balance by the whole points of its total, once: a second
  -- call for the sale returns the same row and writes nothing.
  earn_for_sale_lem :
      (program : LoyaltyProgram) (grand_total : ℕ)
      → get_active_program_or_null company programs ≡ some program
      → find_transaction company SourceType.sale sale_id s.transactions ≡ none
      → program.minimum_purchase_for_earning ≤ grand_total
      → 0 < points_for program grand_total
      → let row =
          earn_row s.next_id company customer sale_id (points_for program grand_total) user in
        (earned grand_total s ≡ (some row, append_row row s))
        × (get_available_balance company customer (append_row row s).transactions
            ≡ get_available_balance company customer s.transactions
              +ℤ pos (points_for program grand_total))
        × (earned grand_total (append_row row s) ≡ (some row, append_row row s))
  unfolding earn_for_sale
  earn_for_sale_lem program grand_total is_active fresh enough worth =
      let row = earn_row s.next_id company customer sale_id (points_for program grand_total) user in
      let found : is_source company SourceType.sale sale_id row ≡ true = ground arith in
      let own : share company customer row ≡ pos (points_for program grand_total) = ground arith in
      (
        rw (earn_for_sale, fresh, is_active) (ground arith),
        get_available_balance-snoc company customer s.transactions row
            ∙ ap (λ n. get_available_balance company customer s.transactions +ℤ n) own,
        rw
            (
              earn_for_sale,
              find_transaction-append company sale_id SourceType.sale s.transactions row fresh
                  found,
            )
            refl,
      )

  -- A confirmed return of a sale that earned points lowers the balance by the points to take back,
  -- once, even below zero: a second call for the return returns the same row and writes nothing.
  reverse_for_sale_return_lem :
      (return_id points : ℕ) (original : LoyaltyPointTransaction)
      → 0 < points
      → find_transaction company SourceType.sale_return return_id s.transactions ≡ none
      → find_transaction company SourceType.sale sale_id s.transactions ≡ some original
      → let row = reversal_row s.next_id company customer return_id points original.id user in
        let reversed = reverse_for_sale_return company customer sale_id return_id points user in
        (reversed s ≡ (some row, append_row row s))
        × (get_available_balance company customer (append_row row s).transactions
            ≡ get_available_balance company customer s.transactions +ℤ neg (pos points))
        × (reversed (append_row row s) ≡ (some row, append_row row s))
  unfolding reverse_for_sale_return
  reverse_for_sale_return_lem return_id points original positive fresh earned_row =
      let row = reversal_row s.next_id company customer return_id points original.id user in
      let found : is_source company SourceType.sale_return return_id row ≡ true = ground arith in
      let own : share company customer row ≡ neg (pos points) = ground arith in
      let again =
        find_transaction-append company return_id SourceType.sale_return s.transactions row fresh
          found in
      (
        ground arith,
        get_available_balance-snoc company customer s.transactions row
            ∙ ap (λ n. get_available_balance company customer s.transactions +ℤ n) own,
        ground arith,
      )
