-- ===== src/Inventory/Receipt/Lines.antt =====
-- What accepting and writing the lines of a receipt does.
use erp_fashion_api.Common.{
  ℕ, ◌+◌, ◌*◌, none, ◌≤◌, ◌≡◌, refl, ◌∙◌, sym, inl, inr, true, Bool-cases, Option-cases, is_some,
  some, All, List, [], ◌∷◌, ◌++◌, ◌==◌, ltb, if◌then◌else◌, ok, ℤ, pos, ◌+ℤ◌, arith, int_laws,
  +ℤ_zero, >>=-eq-ok,
}
use erp_fashion_api.Inventory.Stock.{
  WarehouseStock, StockMovement, find_stock, upsert_stock, update_stock, on_hand, ledger_balance,
}
use erp_fashion_api.Inventory.Stock.Balance.{
  change_at, find-upsert_self, on_hand-upsert, on_hand-update_add, is_some-find-update,
  some_of_is_some, is_some-find-upsert, is_some-upsert,
}
use erp_fashion_api.Inventory.Store.{GoodsReceiptItem, ReceiptRow}
use erp_fashion_api.Inventory.Receipt.{
  prior_handled, rejected_of, check_line, receive_stock, receive_lines, write_rows,
  receipt_movement, written_item, insert_line, sort_lines,
}
use erp_fashion_api.Inventory.Orders.{
  Catalog, ReceiptLine, CreateGoodsReceipt, PurchaseOrderItem, find_order_item,
  compute_base_quantity,
}

-- What one row adds to the stock of the receiving warehouse, as each pair sees it.
abbrev pub gained_row : ℕ → ReceiptRow → ℕ → ℕ → ℤ
gained_row w row a b =
    if ltb 0 row.received_quantity
    then change_at a b w row.product_variant_id (pos row.base_received_quantity)
    else pos 0

abbrev pub gained : ℕ → List ReceiptRow → ℕ → ℕ → ℤ
gained w [] a b = pos 0
gained w (row ∷ rows) a b = gained_row w row a b +ℤ gained w rows a b

-- What the lines handle of one order item, received and rejected.
abbrev pub handled : ℕ → List ReceiptLine → ℕ
handled item [] = 0
handled item (l ∷ lines) =
    (if item == l.purchase_order_item_id then l.received_quantity + rejected_of l else 0)
    + handled item lines

abbrev pub handled_rows : ℕ → List ReceiptRow → ℕ
handled_rows item [] = 0
handled_rows item (r ∷ rows) =
    (if item == r.purchase_order_item_id then r.received_quantity + r.rejected_quantity else 0)
    + handled_rows item rows

-- The pair of a row that has received something is in the table.
abbrev pub IsStocked : ℕ → List WarehouseStock → ReceiptRow → Type 0
IsStocked w stocks row =
    ltb 0 row.received_quantity ≡ true → is_some (find_stock w row.product_variant_id stocks) ≡ true

handled-insert :
    (item : ℕ) (l : ReceiptLine) (lines : List ReceiptLine)
    → handled item (insert_line l lines) ≡ handled item (l ∷ lines)
unfolding insert_line
handled-insert item l [] = refl
handled-insert item l (x ∷ lines) = ground (arith, handled-insert item l lines)

-- Sorting the lines changes nothing of what they handle.
pub handled-sort :
    (item : ℕ) (lines : List ReceiptLine) → handled item (sort_lines lines) ≡ handled item lines
unfolding sort_lines
handled-sort item [] = refl
handled-sort item (l ∷ lines) =
    handled-insert item l (sort_lines lines) ∙ ground (arith, handled-sort item lines)

pub prior_handled-append :
    (item : ℕ) (gs hs : List GoodsReceiptItem)
    → prior_handled item (gs ++ hs) ≡ prior_handled item gs + prior_handled item hs
unfolding prior_handled
prior_handled-append item [] hs = omega arith
prior_handled-append item (g ∷ gs) hs = omega (arith, prior_handled-append item gs hs)

module _ (catalog : Catalog) (company : ℕ) (dto : CreateGoodsReceipt)
    (gs : List GoodsReceiptItem) where
  -- The line passes its checks, which look at no other line.
  abbrev pub IsAccepted : ReceiptLine → Type 0
  IsAccepted line = (row : ReceiptRow) × (check_line catalog company dto gs line ≡ ok row)

  -- What a row that was accepted keeps of its line, and the bound that it has passed.
  pub record Keeps (line : ReceiptLine) (row : ReceiptRow) : Type 0 where
    pub item : PurchaseOrderItem
    pub found :
        find_order_item line.purchase_order_item_id dto.purchase_order_id catalog.order_items
        ≡ some item
    pub same_item : row.purchase_order_item_id ≡ line.purchase_order_item_id
    pub same_variant : row.product_variant_id ≡ line.product_variant_id
    pub same_received : row.received_quantity ≡ line.received_quantity
    pub same_rejected : row.rejected_quantity ≡ rejected_of line
    -- in base units, a factor counting ten-thousandths
    pub base_received :
        row.base_received_quantity * 10_000
        ≡ line.received_quantity
          * elim item.conversion_factor_to_base_snapshot [ none ↦ 10_000 | some f ↦ f ]
    pub base_rejected :
        row.base_rejected_quantity * 10_000
        ≡ rejected_of line
          * elim item.conversion_factor_to_base_snapshot [ none ↦ 10_000 | some f ↦ f ]
    pub within :
        prior_handled line.purchase_order_item_id gs + (line.received_quantity + rejected_of line)
        ≤ item.quantity

  pub check_line-Keeps :
      (line : ReceiptLine) (row : ReceiptRow)
      → check_line catalog company dto gs line ≡ ok row
      → Keeps line row
  unfolding check_line compute_base_quantity
  check_line-Keeps line row h =
      elim (Option-cases
        (find_order_item line.purchase_order_item_id dto.purchase_order_id catalog.order_items)) [
          | inl e ↦ absurd (ground arith)
          | inr (item, e) ↦ record {
            item = item;
            found = e;
            same_item = ground arith;
            same_variant = ground arith;
            same_received = ground arith;
            same_rejected = ground arith;
            base_received = ground arith;
            base_rejected = ground arith;
            within = ground arith;
          }
        ]

  -- Row by row, the rows are what the lines become.
  abbrev pub EachKeeps : List ReceiptLine → List ReceiptRow → Type 0
  EachKeeps [] [] = Unit
  EachKeeps (line ∷ lines) (row ∷ rows) = Keeps line row × EachKeeps lines rows
  EachKeeps _ _ = ⊥

-- Receiving one row raises the stock of its pair, keeps all rows of the table, and leaves the pair
-- there if anything was received.
receive_stock-Gains :
    (w : ℕ) (row : ReceiptRow) (id : ℕ) (stocks : List WarehouseStock)
    → (p : List WarehouseStock × ℕ) × (receive_stock w row id stocks ≡ ok p)
      × ((a b : ℕ) → on_hand a b p.0 ≡ on_hand a b stocks +ℤ gained_row w row a b)
      × ((a b : ℕ) → is_some (find_stock a b stocks) ≡ true → is_some (find_stock a b p.0) ≡ true)
      × IsStocked w p.0 row
unfolding receive_stock
receive_stock-Gains w row id stocks = elim (Bool-cases (ltb 0 row.received_quantity)) [
  | inr nothing ↦ (
    (stocks, id),
    rw nothing,
    λ a b. rw nothing (sym (+ℤ_zero _)),
    λ a b h. h,
    λ h. absurd (cc (h, nothing)),
  )
  | inl some_received ↦
      let v = row.product_variant_id in
      let next = upsert_stock id w v stocks in
      let (r, found, _) = find-upsert_self id w v stocks in
      let raised = r.on_hand_quantity +ℤ pos row.base_received_quantity in
      let kept = λ (a b : ℕ) (h : is_some (find_stock a b next) ≡ true).
        is_some-find-update w v a b raised next ∙ h in
      (
        (update_stock w v raised next, id + 1),
        rw (some_received, found),
        λ a b. rw (
          some_received,
          on_hand-update_add w v a b (pos row.base_received_quantity) next r found,
          on_hand-upsert,
        ),
        λ a b h. kept a b (is_some-upsert id w v a b stocks h),
        λ h. kept w v (is_some-find-upsert id w v stocks),
      )
]

module _ (catalog : Catalog) (company : ℕ) (dto : CreateGoodsReceipt)
    (gs : List GoodsReceiptItem) where
  -- If every line is accepted the loop goes through. Every balance grows by what the rows say, the
  -- rows handle what the lines handle, and the pair of each row that received something is there.
  pub receive_lines-Gains :
      (lines : List ReceiptLine) (id : ℕ) (stocks : List WarehouseStock)
      → All (IsAccepted catalog company dto gs) lines
      → (p : List ReceiptRow × List WarehouseStock × ℕ) × (receive_lines catalog company dto gs
            lines id stocks
          ≡ ok p)
        × ((a b : ℕ) → on_hand a b p.1 ≡ on_hand a b stocks +ℤ gained dto.warehouse_id p.0 a b)
        × ((a b : ℕ) → is_some (find_stock a b stocks) ≡ true → is_some (find_stock a b p.1) ≡ true)
        × All (IsStocked dto.warehouse_id p.1) p.0
        × ((item : ℕ) → handled_rows item p.0 ≡ handled item lines)
        × EachKeeps catalog company dto gs lines p.0
  unfolding receive_lines
  receive_lines-Gains [] id stocks accepted =
      (([], stocks, id), refl, λ a b. sym (+ℤ_zero _), λ a b h. h, tt, λ item. refl, tt)
  receive_lines-Gains (line ∷ lines) id stocks ((row, checked), accepted) =
      let (q, received, gains, kept, stocked) =
        receive_stock-Gains dto.warehouse_id row id stocks in
      let (p, done, more, kept', all_stocked, rows, each) =
        receive_lines-Gains lines q.1 q.0 accepted in
      let keeps = check_line-Keeps catalog company dto gs line row checked in
      (
        (row ∷ p.0, p.1, p.2),
        rw (checked, received, done),
        λ a b. rw (more a b, gains a b) (omega int_laws),
        λ a b h. kept' a b (kept a b h),
        (λ h. kept' dto.warehouse_id row.product_variant_id (stocked h), all_stocked),
        λ item. rw (rows item, keeps.same_item, keeps.same_received, keeps.same_rejected),
        (keeps, each),
      )

  -- If the loop goes through, every line was accepted.
  pub receive_lines-IsAccepted :
      (lines : List ReceiptLine) (id : ℕ) (stocks : List WarehouseStock)
      (p : List ReceiptRow × List WarehouseStock × ℕ)
      → receive_lines catalog company dto gs lines id stocks ≡ ok p
      → All (IsAccepted catalog company dto gs) lines
  unfolding receive_lines
  receive_lines-IsAccepted [] id stocks p h = tt
  receive_lines-IsAccepted (line ∷ lines) id stocks p h =
      let (row, checked, h') = >>=-eq-ok (check_line catalog company dto gs line) _ h in
      let (q, received, h'') = >>=-eq-ok (receive_stock dto.warehouse_id row id stocks) _ h' in
      let (rest, done, _) = >>=-eq-ok (receive_lines catalog company dto gs lines q.1 q.0) _ h'' in
      ((row, checked), receive_lines-IsAccepted lines q.1 q.0 rest done)

-- With every pair there, the items and movements are written, and the log adds up to the same.
pub write_rows-Writes :
    (w receipt user : ℕ) (rows : List ReceiptRow) (stocks : List WarehouseStock) (id : ℕ)
    → All (IsStocked w stocks) rows
    → (z : List GoodsReceiptItem × List StockMovement × ℕ) × (write_rows w receipt user rows stocks
          id
        ≡ ok z)
      × ((a b : ℕ) → ledger_balance a b z.1 ≡ gained w rows a b)
      × ((item : ℕ) → prior_handled item z.0 ≡ handled_rows item rows)
unfolding write_rows ledger_balance prior_handled
write_rows-Writes w receipt user [] stocks id stocked =
    (([], [], id), refl, λ a b. refl, λ item. refl)
write_rows-Writes w receipt user (row ∷ rows) stocks id (here, stocked) =
    let (z, done, logged, handles) =
      write_rows-Writes w receipt user rows stocks (id + 2) stocked in
    let item = written_item id receipt row in
    elim (Bool-cases (ltb 0 row.received_quantity)) [
      | inr nothing ↦ (
        (item ∷ z.0, z.1, z.2),
        rw (nothing, done),
        λ a b. rw (nothing, logged a b) (omega int_laws),
        λ i. rw (handles i),
      )
      | inl some_received ↦
          let (r, found) = some_of_is_some _ (here some_received) in
          (
            (item ∷ z.0, receipt_movement (id + 1) receipt user w row r ∷ z.1, z.2),
            rw (some_received, found, done),
            λ a b. rw (some_received, logged a b),
            λ i. rw (handles i),
          )
    ]
