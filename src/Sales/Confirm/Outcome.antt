-- ===== src/Sales/Confirm/Outcome.antt =====
-- What a request to confirm a sale ends in, alone and beside another one.
use mathlib.Core.Path.{subst}
use erp_fashion_api.Common.{
  ℕ, ◌≡◌, refl, ◌∙◌, inl, inr, Result, ok, throw, conflict, some, All, List, ◌==◌, if◌then◌else◌,
  ap, sym, ==_refl, +ℤ_assoc, run_after-ok, run_after_inv, run_after-throw, ◌+ℤ◌,
}
use erp_fashion_api.Inventory.Store.{MovesBy, MovesBy-IsReconciled, IsReconciled}
use erp_fashion_api.Loyalty.{LoyaltyProgram, earn_for_sale}
use erp_fashion_api.Sales.{Sale, SaleItem, SaleStatus, Store, find_sale, items_of}
use erp_fashion_api.Sales.Table.{sale_row, IsKeyed, sale_row-save, sale_row_of_find, find_sale-id}
use erp_fashion_api.Sales.Confirm.{
  finish_confirm, confirmed_of, confirm_checks, apply_confirm, confirm,
}
use erp_fashion_api.Sales.Confirm.Effect.{issued, Fits, apply_confirm-cases}

-- A sale that can be confirmed: a draft of the company with a warehouse.
pub record IsConfirmable (id company w : ℕ) (sale : Sale) (s : Store) : Type 0 where
  pub keyed : IsKeyed s.sales
  pub found : find_sale id company s.sales ≡ some sale
  pub is_draft : sale.status ≡ SaleStatus.draft
  pub from_warehouse : sale.warehouse_id ≡ some w

-- What a confirmation leaves behind, `s` being the store that its transaction began in.
pub record Confirmed (programs : List LoyaltyProgram) (user w : ℕ) (sale : Sale)
    (items : List SaleItem) (s s' : Store) : Type 0 where
  pub stock : MovesBy (issued w items) s.inventory s'.inventory
  pub points :
      s'.loyalty
      ≡ (earn_for_sale programs sale.company_id sale.customer_id sale.id sale.grand_total user
          s.loyalty).1
  pub row :
      (a : ℕ)
      → sale_row a s'.sales
        ≡ (if a == sale.id then some (confirmed_of user sale) else sale_row a s.sales)
  pub items_kept : s'.sale_items ≡ s.sale_items

module _ (programs : List LoyaltyProgram) (id company user w : ℕ) (sale : Sale) (s : Store)
    (c : IsConfirmable id company w sale s) where
  abbrev items : List SaleItem
  items = items_of sale.id s.sale_items

  checks_pass : confirm_checks id company s ≡ ok (w, sale, items)
  unfolding confirm_checks
  checks_pass = rw (c.found, c.is_draft, c.from_warehouse) refl

  -- Whatever has run between the read and the transaction, as long as the row is still there: the
  -- transaction goes through exactly when every item fits, and is otherwise a conflict.
  pub confirm_after :
      (others : Store → Store) (old : Sale)
      → sale_row sale.id (others s).sales ≡ some old
      → (All (Fits w (others s).inventory.stocks) items
          → ((confirm programs id company user others s).0 ≡ ok (confirmed_of user sale))
            × Confirmed programs user w sale items
                (others s)
                (confirm programs id company user others s).1)
        × (¬ All (Fits w (others s).inventory.stocks) items
            → confirm programs id company user others s ≡ (throw conflict, others s))
  unfolding confirm
  confirm_after others old there =
      elim (apply_confirm-cases programs user w sale items (others s)) [
        | inl (fits, (p, done, moves)) ↦
            let run = run_after-ok (apply_confirm programs user) (others s) checks_pass done in
            (
              λ _. (
                ap (λ r. r.0) run,
                rw run (record {
                  stock = moves;
                  points = refl;
                  row = λ a. sale_row-save (confirmed_of user sale) a (others s).sales old there;
                  items_kept = refl;
                }),
              ),
              λ unfit. absurd (unfit fits),
            )
        | inr (unfit, failed) ↦ (
          λ fits. absurd (unfit fits),
          λ _. run_after-throw (apply_confirm programs user) (others s) checks_pass failed,
        )
      ]

  own_row : sale_row sale.id s.sales ≡ some sale
  own_row =
      let (same, _) = find_sale-id id company s.sales sale c.found in
      subst (λ x. sale_row x s.sales ≡ some sale) (sym same)
        (sale_row_of_find id company s.sales sale c.keyed c.found)

  -- A draft with a warehouse is confirmed exactly when every single item fits what the warehouse
  -- holds of its variant. The items' base quantities then leave that warehouse, with a movement
  -- for each, no other balance changes, the customer earns the points of the sale, and the sale
  -- awaits shipment; otherwise it is a conflict and nothing changes.
  pub confirm_lem :
      (All (Fits w s.inventory.stocks) items
        → ((confirm programs id company user (λ t. t) s).0 ≡ ok (confirmed_of user sale))
          × Confirmed programs user w sale items s (confirm programs id company user (λ t. t) s).1)
      × (¬ All (Fits w s.inventory.stocks) items
          → confirm programs id company user (λ t. t) s ≡ (throw conflict, s))
  confirm_lem = confirm_after (λ t. t) sale own_row

-- Whatever has run between the read and the transaction, balances that add up to the log still do.
pub confirm-IsReconciled :
    (programs : List LoyaltyProgram) (id company user : ℕ) (others : Store → Store) (s : Store)
    → IsReconciled (others s).inventory
    → IsReconciled (confirm programs id company user others s).1.inventory
unfolding confirm
confirm-IsReconciled programs id company user others s was =
    run_after_inv (λ (t : Store). IsReconciled t.inventory) (confirm_checks id company s)
      (apply_confirm programs user) (others s) was
      λ (w, sale, items) a s' _ done.
        elim (apply_confirm-cases programs user w sale items (others s)) [
          | inr (unfit, failed) ↦ absurd (cc (done, failed))
          | inl (fits, (p, finished, moves)) ↦
              let after = finish_confirm programs user sale (others s) p in
              let same : after.1 ≡ s' = cc (done, finished) in
              rw (← same) (
                MovesBy-IsReconciled (issued w items) (others s).inventory after.1.inventory moves
                  was)
        ]

module _ (programs : List LoyaltyProgram) (id company user other w : ℕ) (sale : Sale) (s : Store)
    (c : IsConfirmable id company w sale s) where
  abbrev once : Store
  once = (confirm programs id company other (λ t. t) s).1

  abbrev twice : Result Sale × Store
  twice = confirm programs id company user (λ t. (confirm programs id company other (λ u. u) t).1) s

  -- Two requests that confirm one draft, the second of which has read it before the first writes:
  -- where the stock covers both, both succeed, and the goods of the sale leave the warehouse twice,
  -- in the stock and in the log.
  pub confirm_issues_twice :
      All (Fits w s.inventory.stocks) (items_of sale.id s.sale_items)
      → All (Fits w once.inventory.stocks) (items_of sale.id s.sale_items)
      → ((confirm programs id company other (λ t. t) s).0 ≡ ok (confirmed_of other sale))
        × (twice.0 ≡ ok (confirmed_of user sale))
        × MovesBy
            (λ a b.
              issued w (items_of sale.id s.sale_items) a b
              +ℤ issued w (items_of sale.id s.sale_items) a b)
            s.inventory
            twice.1.inventory
  confirm_issues_twice fits again =
      let (done, first) = (confirm_lem programs id company other w sale s c).0 fits in
      let there : sale_row sale.id once.sales ≡ some (confirmed_of other sale) =
        first.row sale.id ∙ rw (==_refl sale.id) in
      let (done', second) =
        (confirm_after programs id company user w sale s c
            (λ t. (confirm programs id company other (λ u. u) t).1) (confirmed_of other sale)
            there).0
          again in
      (
        done,
        done',
        λ a b. (
          (second.stock a b).0
              ∙ ap (λ n. n +ℤ issued w (items_of sale.id s.sale_items) a b) (first.stock a b).0
              ∙ +ℤ_assoc _ _ _,
          (second.stock a b).1
              ∙ ap (λ n. n +ℤ issued w (items_of sale.id s.sale_items) a b) (first.stock a b).1
              ∙ +ℤ_assoc _ _ _,
        ),
      )
