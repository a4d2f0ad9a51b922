-- ===== src/Inventory/Receipt/Effect.antt =====
-- What a whole goods receipt does to the balances, the log and the handled quantities.
use mathlib.Core.Path.{subst}
use erp_fashion_api.Common.{
  ℕ, ◌+◌, ◌≡◌, ◌∙◌, ap, ok, >>=-eq-ok, All, List, ◌+ℤ◌, ◌≤ℤ◌, pos, arith, int_laws, [], ◌∷◌,
}
use erp_fashion_api.Numbering.{generate_number}
use erp_fashion_api.Inventory.Stock.{ledger_balance}
use erp_fashion_api.Inventory.Stock.Balance.{ledger_balance-append}
use erp_fashion_api.Inventory.Store.{Store, GoodsReceipt, Warehouse, ReceiptRow, MovesBy}
use erp_fashion_api.Inventory.Receipt.{
  sort_lines, receive_lines, finish_receipt, gr, prior_handled, apply_receipt,
}
use erp_fashion_api.Inventory.Orders.{Catalog, CreateGoodsReceipt, PurchaseOrder, check_order}
use erp_fashion_api.Inventory.Receipt.Lines.{
  gained, handled, handled-sort, prior_handled-append, IsAccepted, EachKeeps, receive_lines-Gains,
  receive_lines-IsAccepted, write_rows-Writes,
}

-- From `s` to `s'` the rows have been received: they are those of the request's lines in their order,
-- and their stock is in, logged and counted as handled.
pub record Receives (catalog : Catalog) (company : ℕ) (dto : CreateGoodsReceipt)
    (rows : List ReceiptRow) (s s' : Store) : Type 0 where
  pub rows_of : EachKeeps catalog company dto s.receipt_items (sort_lines dto.items) rows
  pub moves : MovesBy (gained dto.warehouse_id rows) s s'
  pub handles :
      (item : ℕ)
      → prior_handled item s'.receipt_items
        ≡ prior_handled item s.receipt_items + handled item dto.items

module _ (catalog : Catalog) (company user : ℕ) (dto : CreateGoodsReceipt) (date year : ℕ)
    (warehouse : Warehouse) (s : Store) where
  abbrev pub Accepted : Type 0
  Accepted = All (IsAccepted catalog company dto s.receipt_items) (sort_lines dto.items)

  pub apply_receipt-total :
      (order : PurchaseOrder)
      → check_order catalog company dto warehouse ≡ ok order
      → Accepted
      → (g : GoodsReceipt) × (s' : Store) × (apply_receipt catalog company user dto date year
            warehouse s
          ≡ ok (g, s'))
        × (rows : List ReceiptRow) × Receives catalog company dto rows s s'
  unfolding apply_receipt
  apply_receipt-total order checked accepted =
      let (p, received, gains, _, stocked, rows, each) =
        receive_lines-Gains catalog company dto s.receipt_items (sort_lines dto.items)
          (s.next_id + 1) s.stocks accepted in
      let (z, written, logged, handles) =
        write_rows-Writes dto.warehouse_id p.2 user p.0 p.1 (p.2 + 1) stocked in
      let (number, counters) = generate_number gr s.next_id company year s.receipt_counters in
      let done = finish_receipt company user dto date order s number counters p.2 p.1 z in
      (
        done.0,
        done.1,
        rw (checked, received, written),
        p.0,
        record {
          rows_of = each;
          moves = λ w v. (
            gains w v,
            ledger_balance-append w v s.movements z.1
                ∙ ap (λ n. ledger_balance w v s.movements +ℤ n) (logged w v),
          );
          handles = λ item.
              prior_handled-append item s.receipt_items z.0
              ∙ ap (λ n. prior_handled item s.receipt_items + n)
                  (handles item ∙ rows item ∙ handled-sort item dto.items);
        },
      )

  -- A run that goes through has found its order and accepted every line.
  pub apply_receipt-eq-ok :
      (g : GoodsReceipt) (s' : Store)
      → apply_receipt catalog company user dto date year warehouse s ≡ ok (g, s')
      → Accepted × ((rows : List ReceiptRow) × Receives catalog company dto rows s s')
  unfolding apply_receipt
  apply_receipt-eq-ok g s' h =
      let (order, checked, h') = >>=-eq-ok (check_order catalog company dto warehouse) _ h in
      let (p, received, _) =
        >>=-eq-ok
          (receive_lines catalog company dto s.receipt_items (sort_lines dto.items) (s.next_id + 1)
            s.stocks)
          _ h' in
      let accepted =
        receive_lines-IsAccepted catalog company dto s.receipt_items (sort_lines dto.items)
          (s.next_id + 1) s.stocks p received in
      let (g', s'', done, rows, r) = apply_receipt-total order checked accepted in
      let same : s'' ≡ s' = cc (h, done) in
      (accepted, (rows, subst (Receives catalog company dto rows s) same r))

pub gained-nonneg : (w : ℕ) (rows : List ReceiptRow) (a b : ℕ) → pos 0 ≤ℤ gained w rows a b
gained-nonneg w [] a b = omega arith
gained-nonneg w (row ∷ rows) a b = grind (int_laws, gained-nonneg w rows a b)
