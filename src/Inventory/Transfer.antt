-- ===== src/Inventory/Transfer.antt =====
-- `StockTransfersService` (src/modules/inventory/services/stock-transfers.service.ts), with
-- `lockWarehouseStockRows` (utils/stock-lock.ts).
pub mod Order
pub mod Lock
pub mod Move
pub mod Effect
pub mod Conservation
pub mod Deadlock
use Prim.Native.String.{String}
use erp_fashion_api.Common.{
  ℕ, ◌+◌, Bool, not, Option, some, List, [], ◌∷◌, ◌++◌, map, ◌==◌, leb, if◌then◌else◌, is_some, ℤ,
  pos, ◌+ℤ◌, neg, ltb_ℤ, Result, ok, ◌>>=◌, ◌>>◌, throw_if, or_throw, run_after, validation_error,
  not_found, conflict, internal_error,
}
use erp_fashion_api.Decimal.{Text}
use erp_fashion_api.Numbering.{Counter, generate_number}
use erp_fashion_api.Inventory.Stock.{
  WarehouseStock, StockMovement, StockMovementType, StockMovementReferenceType, find_stock,
  upsert_stock, update_stock,
}
use erp_fashion_api.Inventory.Store.{
  Store, Warehouse, ProductVariant, StockTransfer, StockTransferItem, is_active, find_warehouse,
  find_variant,
}

pub record TransferLine : Type 0 where
  pub product_variant_id : ℕ
  pub quantity : ℕ

pub record CreateStockTransfer : Type 0 where
  pub source_warehouse_id : ℕ
  pub destination_warehouse_id : ℕ
  pub notes : Option String
  pub items : List TransferLine

abbrev check_warehouse : ℕ → Warehouse → Result (Unit {0})
check_warehouse company w =
    throw_if (not (is_active w.status)) validation_error
    >> throw_if (not (w.company_id == company)) validation_error

-- The checks that `create` makes before it opens its transaction.
unfoldable pub validate : List Warehouse → ℕ → CreateStockTransfer → Result (Unit {0})
validate warehouses company dto = do
  throw_if (dto.source_warehouse_id == dto.destination_warehouse_id) validation_error
  source ← or_throw (find_warehouse dto.source_warehouse_id warehouses) not_found
  destination ← or_throw (find_warehouse dto.destination_warehouse_id warehouses) not_found
  check_warehouse company source
  check_warehouse company destination

-- Every line's variant is one of the company's and active.
unfoldable pub check_variants : List ProductVariant → ℕ → List TransferLine → Result (Unit {0})
check_variants variants company [] = ok tt
check_variants variants company (item ∷ items) = do
  variant ← or_throw (find_variant Bool.false item.product_variant_id company variants) not_found
  throw_if (not (is_active variant.status)) validation_error
  check_variants variants company items

-- A row to lock: warehouse and variant.
abbrev pub Target : Type 0
Target = ℕ × ℕ

unfoldable pub lock_targets : CreateStockTransfer → List Target
lock_targets dto =
    map (λ (i : TransferLine). (dto.source_warehouse_id, i.product_variant_id)) dto.items
    ++ map (λ (i : TransferLine). (dto.destination_warehouse_id, i.product_variant_id)) dto.items

-- The comparator of the sort: by warehouse, then by variant.
abbrev pub target_leb : Target → Target → Bool
target_leb (w, v) (w', v') = if w == w' then leb v v' else leb w w'

insert_target : Target → List Target → List Target
insert_target t [] = t ∷ []
insert_target t (u ∷ us) = if target_leb t u then t ∷ u ∷ us else u ∷ insert_target t us

-- `.sort(...)`
unfoldable pub sort_targets : List Target → List Target
unfolding insert_target
sort_targets [] = []
sort_targets (t ∷ ts) = insert_target t (sort_targets ts)

-- `lockWarehouseStockRows`: upserts and locks each row once, in the order given. The map of locked
-- rows is a list in the order of insertion; `id` is the next candidate id.
unfoldable pub lock_rows :
    List Target
    → ℕ
    → List WarehouseStock
    → List WarehouseStock
    → Result (List WarehouseStock × List WarehouseStock × ℕ)
lock_rows [] id stocks rows = ok (rows, stocks, id)
lock_rows ((w, v) ∷ targets) id stocks rows =
    let next = upsert_stock id w v stocks in
    let fresh = (do
      row ← or_throw (find_stock w v next) internal_error
      lock_rows targets (id + 1) next (rows ++ (row ∷ []))) in
    let again = lock_rows targets id stocks rows in
    if is_some (find_stock w v rows) then again else fresh

-- Every line fits the source's locked row.
unfoldable pub check_sources : ℕ → List TransferLine → List WarehouseStock → Result (Unit {0})
check_sources source [] rows = ok tt
check_sources source (item ∷ items) rows = do
  row ← or_throw (find_stock source item.product_variant_id rows) conflict
  throw_if (ltb_ℤ row.on_hand_quantity (pos item.quantity)) conflict
  check_sources source items rows

-- The loop that moves the quantities, on the locked row objects and on the table.
unfoldable pub move_items :
    ℕ
    → ℕ
    → List TransferLine
    → List WarehouseStock
    → List WarehouseStock
    → Result (List WarehouseStock × List WarehouseStock)
move_items source destination [] rows stocks = ok (rows, stocks)
move_items source destination (item ∷ items) rows stocks = do
  let v = item.product_variant_id
  source_row ← or_throw (find_stock source v rows) internal_error
  let lowered = source_row.on_hand_quantity +ℤ neg (pos item.quantity)
  let rows' = update_stock source v lowered rows
  destination_row ← or_throw (find_stock destination v rows') internal_error
  let raised = destination_row.on_hand_quantity +ℤ pos item.quantity
  move_items source destination items (update_stock destination v raised rows')
      (update_stock destination v raised (update_stock source v lowered stocks))

abbrev pub transfer_item : ℕ → ℕ → TransferLine → StockTransferItem
transfer_item transfer id item = record {
  id = id;
  stock_transfer_id = transfer;
  product_variant_id = item.product_variant_id;
  quantity = item.quantity;
}

abbrev pub out_movement :
    CreateStockTransfer → ℕ → ℕ → ℕ → TransferLine → WarehouseStock → StockMovement
out_movement dto transfer user id item source_row = record {
  id = id;
  warehouse_id = dto.source_warehouse_id;
  product_variant_id = item.product_variant_id;
  movement_type = StockMovementType.transfer_out;
  quantity_change = neg (pos item.quantity);
  quantity_after = source_row.on_hand_quantity;
  reference_type = StockMovementReferenceType.stock_transfer;
  reference_id = transfer;
  created_by = some user;
}

abbrev pub in_movement :
    CreateStockTransfer → ℕ → ℕ → ℕ → TransferLine → WarehouseStock → StockMovement
in_movement dto transfer user id item destination_row = record {
  id = id;
  warehouse_id = dto.destination_warehouse_id;
  product_variant_id = item.product_variant_id;
  movement_type = StockMovementType.transfer_in;
  quantity_change = pos item.quantity;
  quantity_after = destination_row.on_hand_quantity;
  reference_type = StockMovementReferenceType.stock_transfer;
  reference_id = transfer;
  created_by = some user;
}

-- The loop that writes a transfer item and two movements for each line, `id` being the next id.
unfoldable pub write_items :
    CreateStockTransfer
    → ℕ
    → ℕ
    → List TransferLine
    → List WarehouseStock
    → ℕ
    → Result (List StockTransferItem × List StockMovement × ℕ)
write_items dto transfer user [] rows id = ok ([], [], id)
write_items dto transfer user (item ∷ items) rows id = do
  let v = item.product_variant_id
  source_row ← or_throw (find_stock dto.source_warehouse_id v rows) internal_error
  destination_row ← or_throw (find_stock dto.destination_warehouse_id v rows) internal_error
  rest ← write_items dto transfer user items rows (id + 3)
  ok (
    transfer_item transfer id item ∷ rest.0,
    out_movement dto transfer user (id + 1) item source_row
        ∷ in_movement dto transfer user (id + 2) item destination_row
        ∷ rest.1,
    rest.2,
  )

abbrev pub trf : Text
trf = b'T' ∷ b'R' ∷ b'F' ∷ []

-- The transfer row, and the store with everything written: `id` is the row's id, `written` the
-- items, the movements and the next id.
abbrev pub finish_transfer :
    ℕ
    → ℕ
    → CreateStockTransfer
    → Store
    → Text
    → List Counter
    → ℕ
    → List WarehouseStock
    → List StockTransferItem × List StockMovement × ℕ
    → StockTransfer × Store
finish_transfer company user dto s number counters id stocks written =
    let transfer : StockTransfer = record {
      id = id;
      transfer_number = number;
      source_warehouse_id = dto.source_warehouse_id;
      destination_warehouse_id = dto.destination_warehouse_id;
      company_id = company;
      notes = dto.notes;
      created_by = user;
    } in
    (
      transfer,
      record s {
        stocks = stocks;
        movements = s.movements ++ written.1;
        transfers = s.transfers ++ (transfer ∷ []);
        transfer_items = s.transfer_items ++ written.0;
        transfer_counters = counters;
        next_id = written.2;
      },
    )

-- The body of the transaction.
unfoldable pub apply_transfer :
    List ProductVariant → ℕ → ℕ → CreateStockTransfer → ℕ → Store → Result (StockTransfer × Store)
apply_transfer variants company user dto year s = do
  let (number, counters) = generate_number trf s.next_id company year s.transfer_counters
  check_variants variants company dto.items
  locked ← lock_rows (sort_targets (lock_targets dto)) (s.next_id + 1) s.stocks []
  check_sources dto.source_warehouse_id dto.items locked.0
  moved ←
      move_items dto.source_warehouse_id dto.destination_warehouse_id dto.items locked.0 locked.1
  written ← write_items dto locked.2 user dto.items moved.0 (locked.2 + 1)
  ok (finish_transfer company user dto s number counters locked.2 moved.1 written)

-- `create`
unfoldable pub create_transfer :
    List Warehouse
    → List ProductVariant
    → ℕ
    → ℕ
    → CreateStockTransfer
    → ℕ
    → Store
    → Result StockTransfer × Store
create_transfer warehouses variants company user dto year =
    run_after (validate warehouses company dto) (λ _. apply_transfer variants company user dto year)
