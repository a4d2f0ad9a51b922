-- ===== src/Inventory/Reconciliation.antt =====
-- `InventoryLedgerService.getReconciliation`
-- (src/modules/inventory/services/inventory-ledger.service.ts).
use erp_fashion_api.Common.{
  ℕ, ◌≡◌, refl, inl, inr, Bool, true, false, Bool-cases, ◌&&◌, ◌||◌, Option, some, List, [], ◌∷◌,
  ◌==◌, if◌then◌else◌, Result, ok, validation_error, ℤ, pos, ◌-ℤ◌, eqb_ℤ, -ℤ_self, ==_iff, zero_+ℤ,
  +ℤ_zero, arith,
}
use erp_fashion_api.Inventory.Stock.{
  WarehouseStock, StockMovement, find_stock, on_hand, ledger_balance,
}
use erp_fashion_api.Inventory.Store.{Store, Warehouse, IsReconciled}

pub record ReconciliationResult : Type 0 where
  pub warehouse_stock_balance : ℤ
  pub ledger_balance_sum : ℤ
  pub difference : ℤ
  pub reconciled : Bool

-- The join with the warehouse, and the filter on its company.
unfoldable pub is_warehouse_of : ℕ → ℕ → List Warehouse → Bool
is_warehouse_of company w [] = false
is_warehouse_of company w (x ∷ warehouses) =
    (w == x.id && company == x.company_id) || is_warehouse_of company w warehouses

unfoldable pub company_stocks : ℕ → List Warehouse → List WarehouseStock → List WarehouseStock
company_stocks company warehouses [] = []
company_stocks company warehouses (r ∷ rows) =
    let rest = company_stocks company warehouses rows in
    if is_warehouse_of company r.warehouse_id warehouses then r ∷ rest else rest

unfoldable pub company_movements : ℕ → List Warehouse → List StockMovement → List StockMovement
company_movements company warehouses [] = []
company_movements company warehouses (m ∷ ms) =
    let rest = company_movements company warehouses ms in
    if is_warehouse_of company m.warehouse_id warehouses then m ∷ rest else rest

unfoldable pub get_reconciliation :
    ℕ
    → List Warehouse
    → Option ℕ
    → Option ℕ
    → List WarehouseStock
    → List StockMovement
    → Result ReconciliationResult
unfolding is_warehouse_of company_stocks company_movements
get_reconciliation company warehouses (some w) (some v) rows ms =
    let balance = on_hand w v (company_stocks company warehouses rows) in
    let total = ledger_balance w v (company_movements company warehouses ms) in
    ok (record {
      warehouse_stock_balance = balance;
      ledger_balance_sum = total;
      difference = balance -ℤ total;
      reconciled = eqb_ℤ (balance -ℤ total) (pos 0);
    })
get_reconciliation company warehouses _ _ rows ms = Result.throw validation_error

module _ (company : ℕ) (warehouses : List Warehouse) (w v : ℕ) where
  abbrev seen : ℤ → ℤ
  seen n = if is_warehouse_of company w warehouses then n else pos 0

  on_hand-company :
      (rows : List WarehouseStock)
      → on_hand w v (company_stocks company warehouses rows) ≡ seen (on_hand w v rows)
  unfolding company_stocks on_hand find_stock
  on_hand-company [] = ground arith
  on_hand-company (r ∷ rows) = elim (Bool-cases (w == r.warehouse_id)) [
    | inl same ↦
        let e = (==_iff w r.warehouse_id).0 same in
        elim (Bool-cases (is_warehouse_of company w warehouses)) [
          | inl ours ↦
              let there : is_warehouse_of company r.warehouse_id warehouses ≡ true =
                rw (← e) ours in
              ground (arith, on_hand-company rows)
          | inr not_ours ↦
              let there : is_warehouse_of company r.warehouse_id warehouses ≡ false =
                rw (← e) not_ours in
              ground (arith, on_hand-company rows)
        ]
    | inr other ↦ elim (Bool-cases (is_warehouse_of company r.warehouse_id warehouses)) [
      | inl ours ↦ ground (arith, on_hand-company rows)
      | inr not_ours ↦ ground (arith, on_hand-company rows)
    ]
  ]

  ledger_balance-company :
      (ms : List StockMovement)
      → ledger_balance w v (company_movements company warehouses ms) ≡ seen (ledger_balance w v ms)
  unfolding company_movements ledger_balance
  ledger_balance-company [] = ground arith
  ledger_balance-company (m ∷ ms) = elim (Bool-cases (w == m.warehouse_id)) [
    | inl same ↦
        let e = (==_iff w m.warehouse_id).0 same in
        elim (Bool-cases (is_warehouse_of company w warehouses)) [
          | inl ours ↦
              let there : is_warehouse_of company m.warehouse_id warehouses ≡ true =
                rw (← e) ours in
              ground (
                arith,
                zero_+ℤ (ledger_balance w v (company_movements company warehouses ms)),
                zero_+ℤ (ledger_balance w v ms),
                +ℤ_zero (pos 0),
                ledger_balance-company ms,
              )
          | inr not_ours ↦
              let there : is_warehouse_of company m.warehouse_id warehouses ≡ false =
                rw (← e) not_ours in
              ground (
                arith,
                zero_+ℤ (ledger_balance w v (company_movements company warehouses ms)),
                zero_+ℤ (ledger_balance w v ms),
                +ℤ_zero (pos 0),
                ledger_balance-company ms,
              )
        ]
    | inr other ↦ elim (Bool-cases (is_warehouse_of company m.warehouse_id warehouses)) [
      | inl ours ↦ ground (
        arith,
        zero_+ℤ (ledger_balance w v (company_movements company warehouses ms)),
        zero_+ℤ (ledger_balance w v ms),
        ledger_balance-company ms,
      )
      | inr not_ours ↦ ground (
        arith,
        zero_+ℤ (ledger_balance w v (company_movements company warehouses ms)),
        zero_+ℤ (ledger_balance w v ms),
        ledger_balance-company ms,
      )
    ]
  ]

  -- A store whose balances add up to its log is found reconciled, whoever asks.
  pub get_reconciliation-reconciled :
      (s : Store)
      → IsReconciled s
      → (res : ReconciliationResult) × (get_reconciliation company warehouses
            (some w)
            (some v)
            s.stocks
            s.movements
          ≡ ok res)
        × (res.warehouse_stock_balance ≡ seen (on_hand w v s.stocks))
        × (res.ledger_balance_sum ≡ seen (ledger_balance w v s.movements))
        × (res.difference ≡ pos 0)
        × (res.reconciled ≡ true)
  unfolding get_reconciliation
  get_reconciliation-reconciled s was =
      let stocks = on_hand-company s.stocks in
      let logged = ledger_balance-company s.movements in
      let zero : seen (on_hand w v s.stocks) -ℤ seen (ledger_balance w v s.movements) ≡ pos 0 =
        rw (was w v) (-ℤ_self _) in
      (
        record {
          warehouse_stock_balance = seen (on_hand w v s.stocks);
          ledger_balance_sum = seen (ledger_balance w v s.movements);
          difference = pos 0;
          reconciled = true;
        },
        rw (stocks, logged, zero),
        refl,
        refl,
        refl,
        refl,
      )
