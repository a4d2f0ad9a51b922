-- ===== src/Inventory/Adjustment/Effect.antt =====
-- What a stock adjustment does to the balances and to the movement log.
use erp_fashion_api.Common.{
  ℕ, ◌+◌, ◌≡◌, Result-cases, inl, inr, ap, Bool-cases, Option-cases, run_after_inv, run_after-ok,
  run_after-throw, Result, ℤ, some, List, [], ◌∷◌, ◌++◌, ok, throw, conflict, pos, ◌<ℤ◌, ◌+ℤ◌, ◌≤ℤ◌,
  arith,
}
use erp_fashion_api.Inventory.Stock.{
  WarehouseStock, on_hand, find_stock, upsert_stock, update_stock,
}
use erp_fashion_api.Inventory.Stock.Balance.{
  change_at, same_pair, on_hand-update, on_hand-update_add, on_hand-upsert, ledger_balance-snoc,
  find-upsert_self,
}
use erp_fashion_api.Inventory.Store.{
  Store, StockAdjustment, Warehouse, ProductVariant, MovesBy, MovesBy-IsReconciled, IsReconciled,
  IsNonNegative,
}
use erp_fashion_api.Inventory.Adjustment.{
  CreateStockAdjustment, validate, create_adjustment, apply_adjustment, adjustment_movement,
}

module _ (company user : ℕ) (dto : CreateStockAdjustment) (year : ℕ) (s : Store) where
  abbrev locked : List WarehouseStock
  locked = upsert_stock (s.next_id + 1) dto.warehouse_id dto.product_variant_id s.stocks

  -- What a successful run has read and written.
  apply_adjustment-eq-ok :
      (s' : Store) (a : StockAdjustment)
      → apply_adjustment company user dto year s ≡ ok (a, s')
      → (r : WarehouseStock) × (find_stock dto.warehouse_id dto.product_variant_id locked ≡ some r)
        × (pos 0 ≤ℤ r.on_hand_quantity +ℤ dto.quantity_change)
        × (s'.stocks
            ≡ update_stock dto.warehouse_id dto.product_variant_id
                (r.on_hand_quantity +ℤ dto.quantity_change)
                locked)
        × (s'.movements
            ≡ s.movements
              ++ (adjustment_movement user dto s.next_id (r.on_hand_quantity +ℤ dto.quantity_change)
                  ∷ []))
  unfolding apply_adjustment
  apply_adjustment-eq-ok s' a h =
      elim (Option-cases (find_stock dto.warehouse_id dto.product_variant_id locked)) [
        | inl e ↦ ground arith
        | inr (r, e) ↦ (r, e, ground arith, ground arith, ground arith)
      ]

  apply_adjustment-MovesBy :
      (s' : Store) (a : StockAdjustment)
      → apply_adjustment company user dto year s ≡ ok (a, s')
      → MovesBy
          (λ w v. change_at w v dto.warehouse_id dto.product_variant_id dto.quantity_change)
          s
          s'
  apply_adjustment-MovesBy s' a h w v =
      let (r, found, _, stocks, movements) = apply_adjustment-eq-ok s' a h in
      (
        rw (
          stocks,
          on_hand-update_add dto.warehouse_id dto.product_variant_id w v dto.quantity_change locked
              r found,
          on_hand-upsert,
        ),
        rw (movements, ledger_balance-snoc),
      )

  apply_adjustment-IsNonNegative :
      (s' : Store) (a : StockAdjustment)
      → apply_adjustment company user dto year s ≡ ok (a, s')
      → IsNonNegative s
      → IsNonNegative s'
  apply_adjustment-IsNonNegative s' a h nonneg w v =
      let (r, found, covered, stocks, _) = apply_adjustment-eq-ok s' a h in
      rw
        (
          stocks,
          on_hand-update dto.warehouse_id dto.product_variant_id w v
              (r.on_hand_quantity +ℤ dto.quantity_change) locked r found,
          on_hand-upsert,
        )
        (elim (Bool-cases (same_pair w v dto.warehouse_id dto.product_variant_id)) [
          | inl e ↦ rw e covered
          | inr e ↦ rw e (nonneg w v)
        ])

  -- A run succeeds whenever the new quantity is not negative, and reports a conflict otherwise.
  apply_adjustment-total :
      pos 0 ≤ℤ on_hand dto.warehouse_id dto.product_variant_id s.stocks +ℤ dto.quantity_change
      → (a : StockAdjustment) × (s' : Store) × (apply_adjustment company user dto year s
          ≡ ok (a, s'))
  unfolding apply_adjustment
  apply_adjustment-total enough =
      let (r, found, here) =
        find-upsert_self (s.next_id + 1) dto.warehouse_id dto.product_variant_id s.stocks in
      let covered : pos 0 ≤ℤ r.on_hand_quantity +ℤ dto.quantity_change = rw here enough in
      elim (Result-cases (apply_adjustment company user dto year s)) [
        | inl (p, e) ↦ (p.0, p.1, e)
        | inr (e, bad) ↦ absurd (ground arith)
      ]

  apply_adjustment-conflict :
      on_hand dto.warehouse_id dto.product_variant_id s.stocks +ℤ dto.quantity_change <ℤ pos 0
      → apply_adjustment company user dto year s ≡ throw conflict
  unfolding apply_adjustment
  apply_adjustment-conflict short =
      let (r, found, here) =
        find-upsert_self (s.next_id + 1) dto.warehouse_id dto.product_variant_id s.stocks in
      let missing : r.on_hand_quantity +ℤ dto.quantity_change <ℤ pos 0 = rw here short in
      ground arith

module _ (warehouses : List Warehouse) (variants : List ProductVariant) (company user : ℕ)
    (dto : CreateStockAdjustment) (year : ℕ) (s : Store) where
  abbrev created : Result StockAdjustment × Store
  created = create_adjustment warehouses variants company user dto year s

  abbrev asked : ℕ → ℕ → ℤ
  asked w v = change_at w v dto.warehouse_id dto.product_variant_id dto.quantity_change

  pub create_adjustment-IsReconciled : IsReconciled s → IsReconciled created.1
  unfolding create_adjustment
  create_adjustment-IsReconciled h =
      run_after_inv IsReconciled (validate warehouses variants company dto)
        (λ _. apply_adjustment company user dto year) s h
        λ _ a s' _ done.
          MovesBy-IsReconciled asked s s'
            (apply_adjustment-MovesBy company user dto year s s' a done) h

  -- Whatever a request asks, balances that add up to the log, none of them negative, still do and
  -- still are not afterwards.
  create_adjustment-IsSound :
      IsReconciled s → IsNonNegative s → IsReconciled created.1 × IsNonNegative created.1
  unfolding create_adjustment
  create_adjustment-IsSound rec nonneg = (
    create_adjustment-IsReconciled rec,
    run_after_inv IsNonNegative (validate warehouses variants company dto)
        (λ _. apply_adjustment company user dto year) s nonneg
        λ _ a s' _ done. apply_adjustment-IsNonNegative company user dto year s s' a done nonneg,
  )

  -- A request that passes the checks is carried out exactly when the new quantity is not negative:
  -- then the one balance and its log move by the change asked for and all others stay, and
  -- otherwise the answer is a conflict and nothing changes.
  pub create_adjustment_lem :
      validate warehouses variants company dto ≡ ok tt
      → (pos 0 ≤ℤ on_hand dto.warehouse_id dto.product_variant_id s.stocks +ℤ dto.quantity_change
          → (a : StockAdjustment) × (created.0 ≡ ok a) × MovesBy asked s created.1)
        × (on_hand dto.warehouse_id dto.product_variant_id s.stocks +ℤ dto.quantity_change <ℤ pos 0
            → created ≡ (throw conflict, s))
  unfolding create_adjustment
  create_adjustment_lem good = (
    λ enough.
        let (a, s', done) = apply_adjustment-total company user dto year s enough in
        let run = run_after-ok (λ _. apply_adjustment company user dto year) s good done in
        (a, ap (λ p. p.0) run, rw run (apply_adjustment-MovesBy company user dto year s s' a done)),
    λ short.
        run_after-throw (λ _. apply_adjustment company user dto year) s good
          (apply_adjustment-conflict company user dto year s short),
  )
