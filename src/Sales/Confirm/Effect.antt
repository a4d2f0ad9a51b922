-- ===== src/Sales/Confirm/Effect.antt =====
-- What the confirmation of a sale does to the stock, to the log and to the sale.
use erp_fashion_api.Common.{
  ℕ, ◌+◌, ◌≡◌, ◌↔◌, ◌⊎◌, refl, ◌∙◌, inl, inr, true, Bool-cases, is_some, All, All-map, List, [],
  ◌∷◌, ok, throw, conflict, ℤ, pos, ◌+ℤ◌, ◌≤ℤ◌, neg, ltb_ℤ, arith, int_laws, total, total-sort_by,
  All-sort_by, All-of-sort_by,
}
use erp_fashion_api.Inventory.Stock.{
  WarehouseStock, StockMovement, find_stock, update_stock, on_hand, ledger_balance,
}
use erp_fashion_api.Inventory.Stock.Balance.{
  some_of_is_some, on_hand_of_find, on_hand-update_add, is_some-find-update, change_at,
  ledger_balance-append,
}
use erp_fashion_api.Inventory.Store.{MovesBy}
use erp_fashion_api.Inventory.Transfer.Lock.{Agrees, IsLocked, lock_rows-Locks}
use erp_fashion_api.Inventory.Transfer.Move.{Agrees-update}
use erp_fashion_api.Inventory.Transfer.Effect.{nothing_found, on_hand_locked}
use erp_fashion_api.Loyalty.{LoyaltyProgram}
use erp_fashion_api.Sales.{Sale, SaleItem, Store}
use erp_fashion_api.Sales.Confirm.{
  base_quantity, sorted_items, rows_of, check_stock, issue_movement, issue_items, finish_confirm,
  apply_confirm,
}

-- What one item takes from the warehouse, as each pair sees it, and what all of them do.
abbrev pub issued_item : ℕ → ℕ → ℕ → SaleItem → ℤ
issued_item w a b i = change_at a b w i.row.product_variant_id (neg (pos (base_quantity i)))

abbrev pub issued : ℕ → List SaleItem → ℕ → ℕ → ℤ
issued w items a b = total (issued_item w a b) items

-- An item asks for no more than the warehouse holds.
abbrev pub Fits : ℕ → List WarehouseStock → SaleItem → Type 0
Fits w stocks i = pos (base_quantity i) ≤ℤ on_hand w i.row.product_variant_id stocks

abbrev pub IsHeld : ℕ → List WarehouseStock → SaleItem → Type 0
IsHeld w rows i = is_some (find_stock w i.row.product_variant_id rows) ≡ true

check_stock-cases :
    (w : ℕ) (items : List SaleItem) (rows : List WarehouseStock)
    → All (IsHeld w rows) items
    → (check_stock w items rows ≡ ok tt) × All (Fits w rows) items
      ⊎ (check_stock w items rows ≡ throw conflict) × ¬ All (Fits w rows) items
unfolding check_stock
check_stock-cases w [] rows held = inl (refl, tt)
check_stock-cases w (i ∷ items) rows (h, held) =
    let v = i.row.product_variant_id in
    let (r, found) = some_of_is_some (find_stock w v rows) h in
    let here = on_hand_of_find w v rows r found in
    elim (Bool-cases (ltb_ℤ r.on_hand_quantity (pos (base_quantity i)))) [
      | inl short ↦ inr (rw (found, short), λ fits. absurd (ground (arith, fits.0)))
      | inr enough ↦ elim (check_stock-cases w items rows held) [
        | inl (passed, fits) ↦ inl (rw (found, enough) passed, (ground arith, fits))
        | inr (failed, unfit) ↦ inr (rw (found, enough) failed, λ fits. unfit fits.1)
      ]
    ]

-- With every item's row locked, the loop goes through, and the balances and the log move by what
-- the items say.
issue_items-Issues :
    (w sale user : ℕ) (items : List SaleItem) (rows stocks : List WarehouseStock) (id : ℕ)
    → Agrees rows stocks
    → All (IsHeld w rows) items
    → (p : List WarehouseStock × List StockMovement × ℕ) × (issue_items w sale user items rows
          stocks id
        ≡ ok p)
      × ((a b : ℕ) → on_hand a b p.0 ≡ on_hand a b stocks +ℤ issued w items a b)
      × ((a b : ℕ) → ledger_balance a b p.1 ≡ issued w items a b)
unfolding issue_items ledger_balance
issue_items-Issues w sale user [] rows stocks id agrees held =
    ((stocks, [], id), refl, λ a b. omega int_laws, λ a b. refl)
issue_items-Issues w sale user (i ∷ items) rows stocks id agrees (h, held) =
    let v = i.row.product_variant_id in
    let d = neg (pos (base_quantity i)) in
    let (r, found) = some_of_is_some (find_stock w v rows) h in
    let lowered = r.on_hand_quantity +ℤ d in
    let rows' = update_stock w v lowered rows in
    let stocks' = update_stock w v lowered stocks in
    let (p, done, balances, logged) =
      issue_items-Issues w sale user items rows' stocks' (id + 1)
        (Agrees-update w v lowered rows stocks agrees)
        (All-map (IsHeld w rows) (IsHeld w rows') items
          (λ j k. is_some-find-update w v w j.row.product_variant_id lowered rows ∙ k) held) in
    (
      (p.0, issue_movement id w sale user i r ∷ p.1, p.2),
      rw (found, done),
      λ a b.
          rw (balances a b, on_hand-update_add w v a b d stocks r (agrees w v r found))
            (omega int_laws),
      λ a b. rw (logged a b),
    )

IsHeld-of_locked :
    (w : ℕ) (items : List SaleItem) (rows : List WarehouseStock)
    → All (IsLocked rows) (rows_of w items)
    → All (IsHeld w rows) items
IsHeld-of_locked w [] rows h = tt
IsHeld-of_locked w (i ∷ items) rows h = (h.0, IsHeld-of_locked w items rows h.1)

-- Fitting the locked objects is fitting the table.
Fits-iff :
    (w : ℕ) (items : List SaleItem) (rows stocks : List WarehouseStock)
    → All (IsHeld w rows) items
    → ((i : SaleItem)
        → IsHeld w rows i
        → on_hand w i.row.product_variant_id rows ≡ on_hand w i.row.product_variant_id stocks)
    → All (Fits w rows) items ↔ All (Fits w stocks) items
Fits-iff w [] rows stocks held same = (λ f. f, λ f. f)
Fits-iff w (i ∷ items) rows stocks (h, held) same =
    let (to, from) = Fits-iff w items rows stocks held same in
    let e = same i h in (λ f. (rw (← e) f.0, to f.1), λ f. (rw e f.0, from f.1))

module _ (programs : List LoyaltyProgram) (user w : ℕ) (sale : Sale) (items : List SaleItem)
    (s : Store) where
  -- The transaction goes through exactly when every single item fits the warehouse's balance.
  pub apply_confirm-cases :
      All (Fits w s.inventory.stocks) items
        × ((p : List WarehouseStock × List StockMovement × ℕ) × (apply_confirm programs user
                (w, sale, items)
                s
              ≡ ok (finish_confirm programs user sale s p))
            × MovesBy
                (issued w items)
                s.inventory
                (finish_confirm programs user sale s p).1.inventory)
      ⊎ (¬ All (Fits w s.inventory.stocks) items)
        × (apply_confirm programs user (w, sale, items) s ≡ throw conflict)
  unfolding apply_confirm
  apply_confirm-cases =
      let sorted = sorted_items items in
      let stocks = s.inventory.stocks in
      let (p, locked, l) =
        lock_rows-Locks (rows_of w sorted) s.inventory.next_id stocks []
          (λ a b r h. absurd (nothing_found a b r h)) in
      let held = IsHeld-of_locked w sorted p.0 l.covers in
      let (to, from) = Fits-iff w sorted p.0 stocks held (λ i h.
        on_hand_locked p.0 p.1 w i.row.product_variant_id l.agrees h
        ∙ l.same w i.row.product_variant_id) in
      elim (check_stock-cases w sorted p.0 held) [
        | inl (passed, fits) ↦
            let (q, done, balances, logged) =
              issue_items-Issues w sale.id user sorted p.0 p.1 p.2 l.agrees held in
            inl (
              All-of-sort_by _ (Fits w stocks) items (to fits),
              (
                q,
                rw (locked, passed, done),
                λ a b. (
                  balances a b ∙ rw (l.same a b) (rw (total-sort_by (issued_item w a b) _ items)),
                  ledger_balance-append a b s.inventory.movements q.1
                      ∙ rw (logged a b) (rw (total-sort_by (issued_item w a b) _ items)),
                ),
              ),
            )
        | inr (failed, unfit) ↦
            inr (λ f. unfit (from (All-sort_by _ (Fits w stocks) items f)), rw (locked, failed))
      ]
