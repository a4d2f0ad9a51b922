-- ===== src/SaleReturns/Restock.antt =====
-- What the confirmation of a sale return does to the stock
-- (src/modules/sales-returns/services/sale-returns.service.ts).
use erp_fashion_api.Common.{
  ℕ, ◌+◌, ◌≡◌, refl, ◌∙◌, true, inl, inr, Bool-cases, some, List, [], ◌∷◌, Result, ok, ℤ, pos, ◌+ℤ◌,
  int_laws, total, total-sort_by, sort_by, run, run_inv, >>=-eq-ok, or_throw, throw_if, not,
  not_found, unprocessable_entity, internal_error,
}
use erp_fashion_api.Inventory.Stock.{
  WarehouseStock, StockMovement, find_stock, upsert_stock, on_hand, ledger_balance,
}
use erp_fashion_api.Inventory.Stock.Balance.{
  change_at, same_pair, find-upsert_self, on_hand-upsert, on_hand-update_add, ledger_balance-append,
}
use erp_fashion_api.Inventory.Store.{Warehouse, MovesBy, MovesBy-IsReconciled, IsReconciled}
use erp_fashion_api.Sales.{Sale}
use erp_fashion_api.SaleReturns.{
  Store, SaleReturn, SaleReturnItem, SaleReturnItemCondition, is_draft,
}
use erp_fashion_api.SaleReturns.Confirm.{
  find_return, return_items_of, resolve_warehouse, by_return_variant, back_on_shelf, put_back,
  return_movement, restock_items, confirmed_return, finish_confirm_return, find_any_sale,
  apply_confirm_return, confirm_return,
}

-- What one item puts back on the shelf, as each pair sees it, and what all of them do.
abbrev pub restocked_item : ℕ → ℕ → ℕ → SaleReturnItem → ℤ
restocked_item w a b i =
    change_at a b w i.row.product_variant_id (pos (back_on_shelf i.row.condition i.row.quantity))

abbrev pub restocked : ℕ → List SaleReturnItem → ℕ → ℕ → ℤ
restocked w items a b = total (restocked_item w a b) items

on_hand-put_back :
    (c : SaleReturnItemCondition) (q w v a b : ℕ) (stocks : List WarehouseStock)
    (r : WarehouseStock)
    → find_stock w v stocks ≡ some r
    → on_hand a b (put_back c w v (r.on_hand_quantity +ℤ pos (back_on_shelf c q)) stocks)
      ≡ on_hand a b stocks +ℤ change_at a b w v (pos (back_on_shelf c q))
on_hand-put_back SaleReturnItemCondition.restock q w v a b stocks r h =
    on_hand-update_add w v a b (pos q) stocks r h
on_hand-put_back SaleReturnItemCondition.damaged q w v a b stocks r h =
    elim (Bool-cases (same_pair a b w v)) [
      | inl e ↦ rw e (omega int_laws)
      | inr e ↦ rw e (omega int_laws)
    ]

-- The loop goes through, and the balances and the log move by what the items put back.
restock_items-Restocks :
    (w return user : ℕ) (items : List SaleReturnItem) (stocks : List WarehouseStock) (id : ℕ)
    → (p : List WarehouseStock × List StockMovement × ℕ) × (restock_items w return user items stocks
          id
        ≡ ok p)
      × ((a b : ℕ) → on_hand a b p.0 ≡ on_hand a b stocks +ℤ restocked w items a b)
      × ((a b : ℕ) → ledger_balance a b p.1 ≡ restocked w items a b)
unfolding restock_items ledger_balance
restock_items-Restocks w return user [] stocks id =
    ((stocks, [], id), refl, λ a b. omega int_laws, λ a b. refl)
restock_items-Restocks w return user (i ∷ items) stocks id =
    let v = i.row.product_variant_id in
    let next = upsert_stock id w v stocks in
    let (r, found, _) = find-upsert_self id w v stocks in
    let raised = r.on_hand_quantity +ℤ pos (back_on_shelf i.row.condition i.row.quantity) in
    let (p, done, balances, logged) =
      restock_items-Restocks w return user items (put_back i.row.condition w v raised next)
        (id + 2) in
    (
      (p.0, return_movement (id + 1) w return user i r ∷ p.1, p.2),
      rw (found, done),
      λ a b.
          rw
            (
              balances a b,
              on_hand-put_back i.row.condition i.row.quantity w v a b next r found,
              on_hand-upsert id w v a b stocks,
            )
            (omega int_laws),
      λ a b. rw (logged a b),
    )

-- The confirmation of a draft return, where a warehouse is known, goes through: every item that is
-- not damaged puts the quantity that its line counts back into that warehouse, whatever unit the
-- line was sold in, no other balance changes, and the log records the same.
pub confirm_return_lem :
    (warehouses : List Warehouse) (id company user now w : ℕ) (s : Store) (r : SaleReturn)
    (sale : Sale)
    → find_return id company s.returns ≡ some r
    → is_draft r.status ≡ true
    → find_any_sale r.sale_id s.shop.sales ≡ some sale
    → resolve_warehouse warehouses company sale.warehouse_id sale.branch_id ≡ ok w
    → ((confirm_return warehouses id company user now s).0 ≡ ok (confirmed_return user now r))
      × MovesBy
          (restocked w (return_items_of r.id s.return_items))
          s.shop.inventory
          (confirm_return warehouses id company user now s).1.shop.inventory
unfolding confirm_return run apply_confirm_return
confirm_return_lem warehouses id company user now w s r sale there draft sold resolved =
    let items = return_items_of r.id s.return_items in
    let (p, done, balances, logged) =
      restock_items-Restocks w r.id user (sort_by by_return_variant items) s.shop.inventory.stocks
        s.shop.inventory.next_id in
    (
      rw (there, draft, sold, resolved, done) refl,
      λ a b.
          rw (there, draft, sold, resolved, done)
            (
              balances a b ∙ rw (total-sort_by (restocked_item w a b) by_return_variant items) refl,
              ledger_balance-append a b s.shop.inventory.movements p.1
                  ∙ rw (logged a b, total-sort_by (restocked_item w a b) by_return_variant items)
                      refl,
            ),
    )

finished-IsReconciled :
    (company user now w : ℕ) (r : SaleReturn) (sale : Sale) (s : Store)
    (items : List SaleReturnItem) (q : List WarehouseStock × List StockMovement × ℕ)
    (a : SaleReturn) (s' : Store)
    → restock_items w r.id user items s.shop.inventory.stocks s.shop.inventory.next_id ≡ ok q
    → ◌≡◌ {A = Result (SaleReturn × Store)}
        (ok (finish_confirm_return company user now r sale w s q))
        (ok (a, s'))
    → IsReconciled s.shop.inventory
    → IsReconciled s'.shop.inventory
finished-IsReconciled company user now w r sale s items q a s' moved finished was =
    let inventory = s.shop.inventory in
    let (p, done, balances, logged) =
      restock_items-Restocks w r.id user items inventory.stocks inventory.next_id in
    let same : p ≡ q = cc (moved, done) in
    let after = (finish_confirm_return company user now r sale w s q).1 in
    let same' : after ≡ s' = cc finished in
    rw (← same') (
      MovesBy-IsReconciled (restocked w items) inventory after.shop.inventory
        (λ x y. (
          rw (← same) (balances x y),
          rw (← same) (ledger_balance-append x y inventory.movements p.1 ∙ rw (logged x y) refl),
        ))
        was)

-- Balances that add up to the log still do after a confirmation, served or refused.
pub confirm_return-IsReconciled :
    (warehouses : List Warehouse) (id company user now : ℕ) (s : Store)
    → IsReconciled s.shop.inventory
    → IsReconciled (confirm_return warehouses id company user now s).1.shop.inventory
unfolding confirm_return apply_confirm_return
confirm_return-IsReconciled warehouses id company user now s was =
    run_inv (λ (t : Store). IsReconciled t.shop.inventory)
      (apply_confirm_return warehouses id company user now) s was
      λ a s' done.
        let (r, _, h1) = >>=-eq-ok (or_throw (find_return id company s.returns) not_found) _ done in
        let (_, _, h2) = >>=-eq-ok (throw_if (not (is_draft r.status)) unprocessable_entity) _ h1 in
        let (sale, _, h3) =
          >>=-eq-ok (or_throw (find_any_sale r.sale_id s.shop.sales) internal_error) _ h2 in
        let (w, _, h4) =
          >>=-eq-ok (resolve_warehouse warehouses company sale.warehouse_id sale.branch_id) _ h3 in
        let items = sort_by by_return_variant (return_items_of r.id s.return_items) in
        let stocks = s.shop.inventory.stocks in
        let next = s.shop.inventory.next_id in
        let (q, moved, h5) = >>=-eq-ok (restock_items w r.id user items stocks next) _ h4 in
        finished-IsReconciled company user now w r sale s items q a s' moved h5 was
