-- ===== src/Inventory/Transfer/Move.antt =====
-- What moving the quantities of a transfer does to the balances, and what it logs.
use erp_fashion_api.Common.{
  ℕ, ◌+◌, ◌≡◌, refl, ◌∙◌, sym, inl, inr, true, Option-cases, is_some, All, All-map, List, [], ◌∷◌,
  ok, ℤ, pos, ◌+ℤ◌, neg, arith, int_laws, +ℤ_assoc,
}
use erp_fashion_api.Inventory.Stock.{
  WarehouseStock, StockMovement, find_stock, update_stock, on_hand, ledger_balance,
}
use erp_fashion_api.Inventory.Store.{StockTransferItem}
use erp_fashion_api.Inventory.Stock.Balance.{
  find-update, is_some-find-update, some_of_is_some, on_hand-update_add, change_at,
}
use erp_fashion_api.Inventory.Transfer.{
  TransferLine, CreateStockTransfer, move_items, write_items, transfer_item, out_movement,
  in_movement,
}
use erp_fashion_api.Inventory.Transfer.Lock.{Agrees}

-- What one line takes from the source and gives to the destination, as each pair sees it.
abbrev pub moved_line : ℕ → ℕ → TransferLine → ℕ → ℕ → ℤ
moved_line source destination i a b =
    change_at a b source i.product_variant_id (neg (pos i.quantity))
    +ℤ change_at a b destination i.product_variant_id (pos i.quantity)

abbrev pub moved : ℕ → ℕ → List TransferLine → ℕ → ℕ → ℤ
moved source destination [] a b = pos 0
moved source destination (i ∷ items) a b =
    moved_line source destination i a b +ℤ moved source destination items a b

-- Both rows of a line are locked.
abbrev pub IsCovered : ℕ → ℕ → List WarehouseStock → TransferLine → Type 0
IsCovered source destination rows i =
    (is_some (find_stock source i.product_variant_id rows) ≡ true)
    × (is_some (find_stock destination i.product_variant_id rows) ≡ true)

pub Agrees-update :
    (w v : ℕ) (n : ℤ) (rows stocks : List WarehouseStock)
    → Agrees rows stocks
    → Agrees (update_stock w v n rows) (update_stock w v n stocks)
Agrees-update w v n rows stocks agrees a b x h = elim (Option-cases (find_stock a b rows)) [
  | inl e ↦ absurd (ground (arith, is_some-find-update w v a b n rows))
  | inr (y, e) ↦
      ground
        (arith, find-update w v a b n rows y e, find-update w v a b n stocks y (agrees a b y e))
]

IsCovered-update :
    (source destination w v : ℕ) (n : ℤ) (rows : List WarehouseStock) (i : TransferLine)
    → IsCovered source destination rows i
    → IsCovered source destination (update_stock w v n rows) i
IsCovered-update source destination w v n rows i (s, d) = (
  is_some-find-update w v source i.product_variant_id n rows ∙ s,
  is_some-find-update w v destination i.product_variant_id n rows ∙ d,
)

-- With every line's rows locked, the loop goes through; the objects still agree with the table, the
-- rows stay locked, and every balance has moved by what the lines say.
pub move_items-Moves :
    (source destination : ℕ) (items : List TransferLine) (rows stocks : List WarehouseStock)
    → Agrees rows stocks
    → All (IsCovered source destination rows) items
    → (p : List WarehouseStock × List WarehouseStock) × (move_items source destination items rows
          stocks
        ≡ ok p)
      × ((j : TransferLine)
          → IsCovered source destination rows j
          → IsCovered source destination p.0 j)
      × ((a b : ℕ) → on_hand a b p.1 ≡ on_hand a b stocks +ℤ moved source destination items a b)
unfolding move_items
move_items-Moves source destination [] rows stocks agrees covered =
    ((rows, stocks), refl, λ j c. c, λ a b. omega int_laws)
move_items-Moves source destination (i ∷ items) rows stocks agrees ((cs, cd), covered) =
    let v = i.product_variant_id in
    let (s, found_s) = some_of_is_some (find_stock source v rows) cs in
    let lowered = s.on_hand_quantity +ℤ neg (pos i.quantity) in
    let rows' = update_stock source v lowered rows in
    let stocks' = update_stock source v lowered stocks in
    let agrees' = Agrees-update source v lowered rows stocks agrees in
    let cd' = is_some-find-update source v destination v lowered rows ∙ cd in
    let (d, found_d) = some_of_is_some (find_stock destination v rows') cd' in
    let raised = d.on_hand_quantity +ℤ pos i.quantity in
    let rows'' = update_stock destination v raised rows' in
    let stocks'' = update_stock destination v raised stocks' in
    let keep = λ (j : TransferLine) (c : IsCovered source destination rows j).
      IsCovered-update source destination destination v raised rows' j
        (IsCovered-update source destination source v lowered rows j c) in
    let (p, done, kept, balances) =
      move_items-Moves source destination items rows'' stocks''
        (Agrees-update destination v raised rows' stocks' agrees')
        (All-map (IsCovered source destination rows) (IsCovered source destination rows'') items
          keep covered) in
    (
      p,
      rw (found_s, found_d) done,
      λ j c. kept j (keep j c),
      λ a b.
          rw
            (
              balances a b,
              on_hand-update_add destination v a b (pos i.quantity) stocks' d
                  (agrees' destination v d found_d),
              on_hand-update_add source v a b (neg (pos i.quantity)) stocks s
                  (agrees source v s found_s),
            )
            (omega int_laws),
    )

-- With every line's rows locked, the log of the lines adds up to the same changes.
pub write_items-Writes :
    (dto : CreateStockTransfer) (transfer user : ℕ) (items : List TransferLine)
    (rows : List WarehouseStock) (id : ℕ)
    → All (IsCovered dto.source_warehouse_id dto.destination_warehouse_id rows) items
    → (p : List StockTransferItem × List StockMovement × ℕ) × (write_items dto transfer user items
          rows id
        ≡ ok p)
      × ((a b : ℕ)
          → ledger_balance a b p.1
            ≡ moved dto.source_warehouse_id dto.destination_warehouse_id items a b)
unfolding write_items ledger_balance
write_items-Writes dto transfer user [] rows id covered = (([], [], id), refl, λ a b. refl)
write_items-Writes dto transfer user (i ∷ items) rows id ((cs, cd), covered) =
    let v = i.product_variant_id in
    let (s, found_s) = some_of_is_some (find_stock dto.source_warehouse_id v rows) cs in
    let (d, found_d) = some_of_is_some (find_stock dto.destination_warehouse_id v rows) cd in
    let (p, done, logged) = write_items-Writes dto transfer user items rows (id + 3) covered in
    (
      (
        transfer_item transfer id i ∷ p.0,
        out_movement dto transfer user (id + 1) i s
            ∷ in_movement dto transfer user (id + 2) i d
            ∷ p.1,
        p.2,
      ),
      rw (found_s, found_d, done),
      λ a b. rw (logged a b) (sym (+ℤ_assoc _ _ _)),
    )
