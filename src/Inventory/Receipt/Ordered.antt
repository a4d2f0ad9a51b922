-- ===== src/Inventory/Receipt/Ordered.antt =====
-- What goods receipts keep: the stock, its log, and the quantities that were ordered.
use erp_fashion_api.Common.{
  ℕ, ◌+◌, ◌*◌, ◌/◌, ◌≤◌, ◌<◌, ◌≡◌, ◌≢◌, ◌↔◌, ap, inl, inr, Bool-cases, Result, ok, throw,
  validation_error, All, List, [], ◌∷◌, some, ◌==◌, ==_iff, leb, run_after_inv, run_after-ok, arith,
  int_laws,
}
use erp_fashion_api.Inventory.Store.{
  Store, GoodsReceipt, Warehouse, ReceiptRow, MovesBy-IsReconciled, IsReconciled, IsNonNegative,
}
use erp_fashion_api.Inventory.Receipt.{
  rejected_of, sort_lines, insert_line, prior_handled, apply_receipt, create_receipt,
}
use erp_fashion_api.Inventory.Orders.{
  Catalog, CreateGoodsReceipt, ReceiptLine, PurchaseOrder, PurchaseOrderItem, validate, check_order,
  find_order_item, compute_base_quantity,
}
use erp_fashion_api.Inventory.Receipt.Lines.{gained, handled, IsAccepted, check_line-Keeps}
use erp_fashion_api.Inventory.Receipt.Effect.{
  Receives, Accepted, apply_receipt-total, apply_receipt-eq-ok, gained-nonneg,
}

-- A quantity converts to `base` exactly if the factor, in ten-thousandths, makes it a whole number,
-- and is refused exactly if there is none.
compute_base_quantity_lem :
    (quantity factor : ℕ)
    → ((base : ℕ)
        → (compute_base_quantity quantity factor ≡ ok base) ↔ (base * 10_000 ≡ quantity * factor))
      × ((compute_base_quantity quantity factor ≡ throw validation_error)
          ↔ ((base : ℕ) → base * 10_000 ≢ quantity * factor))
unfolding compute_base_quantity
compute_base_quantity_lem quantity factor = (
  λ base. (λ h. ground arith, λ h. ground arith),
  (λ h base e. ground arith, λ h. ground (arith, h (quantity * factor / 10_000))),
)

module _ (P : ReceiptLine → Type 0) where
  All-of-insert :
      (l : ReceiptLine) (lines : List ReceiptLine) → All P (insert_line l lines) → All P (l ∷ lines)
  unfolding insert_line
  All-of-insert l [] h = h
  All-of-insert l (x ∷ lines) h =
      elim (Bool-cases (leb l.purchase_order_item_id x.purchase_order_item_id)) [
        | inl e ↦ rw e at h
        | inr e ↦
            let h' : All P (x ∷ insert_line l lines) = rw e at h in
            let rest = All-of-insert l lines h'.1 in (rest.0, (h'.0, rest.1))
      ]

  All-of-sort : (lines : List ReceiptLine) → All P (sort_lines lines) → All P lines
  unfolding sort_lines
  All-of-sort [] h = tt
  All-of-sort (l ∷ lines) h =
      let (p, ps) = All-of-insert l (sort_lines lines) h in (p, All-of-sort lines ps)

-- No order item is named by two lines.
abbrev pub IsDistinct : List ReceiptLine → Type 0
IsDistinct [] = Unit
IsDistinct (l ∷ lines) = (handled l.purchase_order_item_id lines ≡ 0) × IsDistinct lines

module _ (catalog : Catalog) (company : ℕ) (dto : CreateGoodsReceipt) (s : Store) where
  abbrev before : ℕ → ℕ
  before id = prior_handled id s.receipt_items

  -- With distinct order items, lines that are accepted one by one stay within their order item.
  handled_within :
      (lines : List ReceiptLine) (id : ℕ) (item : PurchaseOrderItem)
      → IsDistinct lines
      → All (IsAccepted catalog company dto s.receipt_items) lines
      → find_order_item id dto.purchase_order_id catalog.order_items ≡ some item
      → before id ≤ item.quantity
      → before id + handled id lines ≤ item.quantity
  handled_within [] id item d acc found low = omega arith
  handled_within (l ∷ lines) id item (first, d) ((row, checked), acc) found low =
      elim (Bool-cases (id == l.purchase_order_item_id)) [
        | inr other ↦ rw other (omega (arith, handled_within lines id item d acc found low))
        | inl same ↦
            let e = (==_iff id l.purchase_order_item_id).0 same in
            let k = check_line-Keeps catalog company dto s.receipt_items l row checked in
            let none_left : handled id lines ≡ 0 = rw e first in
            let same_item : k.item ≡ item = cc (e, k.found, found) in
            let bound : before id + (l.received_quantity + rejected_of l) ≤ item.quantity =
              rw (← same_item, e) k.within in
            rw (same, none_left) (omega arith)
      ]

module _ (catalog : Catalog) (company user : ℕ) (dto : CreateGoodsReceipt) (date year : ℕ)
    (s : Store) where
  abbrev created : Result GoodsReceipt × Store
  created = create_receipt catalog company user dto date year s

  pub create_receipt-IsReconciled : IsReconciled s → IsReconciled created.1
  unfolding create_receipt
  create_receipt-IsReconciled h =
      run_after_inv IsReconciled (validate catalog company dto)
        (apply_receipt catalog company user dto date year) s h
        λ w g s' _ done.
          let (_, (rows, r)) =
            apply_receipt-eq-ok catalog company user dto date year w s g s' done in
          MovesBy-IsReconciled (gained dto.warehouse_id rows) s s' r.moves h

  -- Whatever a receipt asks, balances that add up to the log, none of them negative, still do and
  -- still are not afterwards.
  create_receipt-IsSound :
      IsReconciled s → IsNonNegative s → IsReconciled created.1 × IsNonNegative created.1
  unfolding create_receipt
  create_receipt-IsSound rec nonneg = (
    create_receipt-IsReconciled rec,
    run_after_inv IsNonNegative (validate catalog company dto)
        (apply_receipt catalog company user dto date year) s nonneg
        λ w g s' _ done a b.
          let (_, (rows, r)) =
            apply_receipt-eq-ok catalog company user dto date year w s g s' done in
          let more = gained-nonneg dto.warehouse_id rows a b in
          let enough = nonneg a b in rw (r.moves a b).0 (omega int_laws),
  )

  -- If no order item is named by two lines, an order item that was not over-handled before is not
  -- over-handled afterwards, whatever is asked.
  pub create_receipt_within_order :
      (id : ℕ) (item : PurchaseOrderItem)
      → IsDistinct dto.items
      → find_order_item id dto.purchase_order_id catalog.order_items ≡ some item
      → prior_handled id s.receipt_items ≤ item.quantity
      → prior_handled id created.1.receipt_items ≤ item.quantity
  unfolding create_receipt
  create_receipt_within_order id item d found low =
      run_after_inv (λ t. prior_handled id t.receipt_items ≤ item.quantity)
        (validate catalog company dto) (apply_receipt catalog company user dto date year) s low
        λ w g s' _ done.
          let (acc, (rows, r)) =
            apply_receipt-eq-ok catalog company user dto date year w s g s' done in
          rw (r.handles id) (
            handled_within catalog company dto s dto.items id item d
              (All-of-sort (IsAccepted catalog company dto s.receipt_items) dto.items acc) found
              low)

  pub create_receipt_lem :
      (w : Warehouse) (order : PurchaseOrder)
      → validate catalog company dto ≡ ok w
      → check_order catalog company dto w ≡ ok order
      → Accepted catalog company user dto date year w s
      → (g : GoodsReceipt) × (created.0 ≡ ok g)
        × (rows : List ReceiptRow) × Receives catalog company dto rows s created.1
  unfolding create_receipt
  create_receipt_lem w order good checked acc =
      let (g, s', done, rows, r) =
        apply_receipt-total catalog company user dto date year w s order checked acc in
      let committed = run_after-ok (apply_receipt catalog company user dto date year) s good done in
      (g, ap (λ p. p.0) committed, rows, rw committed r)

  -- Whenever lines that each pass their own checks name one order item for more than is left of it
  -- together, the receipt goes through all the same and the item is over-handled afterwards.
  pub create_receipt_over_receives :
      (w : Warehouse) (order : PurchaseOrder) (id : ℕ) (item : PurchaseOrderItem)
      → validate catalog company dto ≡ ok w
      → check_order catalog company dto w ≡ ok order
      → Accepted catalog company user dto date year w s
      → find_order_item id dto.purchase_order_id catalog.order_items ≡ some item
      → item.quantity < prior_handled id s.receipt_items + handled id dto.items
      → (g : GoodsReceipt) × (created.0 ≡ ok g)
        × (item.quantity < prior_handled id created.1.receipt_items)
  create_receipt_over_receives w order id item good checked acc found over =
      let (g, done, rows, r) = create_receipt_lem w order good checked acc in
      (g, done, rw (r.handles id) over)
