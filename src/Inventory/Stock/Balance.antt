-- ===== src/Inventory/Stock/Balance.antt =====
-- What each table operation does to the balance of every (warehouse, variant) pair.
use erp_fashion_api.Common.{
  ℕ, ◌≡◌, refl, none, sym, ◌∙◌, inl, inr, Bool, true, Bool-cases, Option-cases, ◌&&◌, pos, some,
  List, [], ◌∷◌, ◌++◌, ◌==◌, if◌then◌else◌, is_some, Option, ℤ, ◌+ℤ◌, arith, int_laws,
}
use erp_fashion_api.Inventory.Stock.{
  WarehouseStock, StockMovement, find_stock, upsert_stock, update_stock, on_hand, ledger_balance,
}

abbrev pub same_pair : ℕ → ℕ → ℕ → ℕ → Bool
same_pair w v w' v' = w == w' && v == v'

pub is_some-find-upsert :
    (id w v : ℕ) (rows : List WarehouseStock)
    → is_some (find_stock w v (upsert_stock id w v rows)) ≡ true
unfolding find_stock upsert_stock
is_some-find-upsert id w v [] = ground arith
is_some-find-upsert id w v (r ∷ rows) = ground (arith, is_some-find-upsert id w v rows)

-- An upsert changes no balance.
pub on_hand-upsert :
    (id w v a b : ℕ) (rows : List WarehouseStock)
    → on_hand a b (upsert_stock id w v rows) ≡ on_hand a b rows
unfolding on_hand find_stock upsert_stock
on_hand-upsert id w v a b [] = ground arith
on_hand-upsert id w v a b (r ∷ rows) = ground (arith, on_hand-upsert id w v a b rows)

-- An upsert leaves every row that is there as it is.
pub find-upsert :
    (id w v a b : ℕ) (rows : List WarehouseStock) (r : WarehouseStock)
    → find_stock a b rows ≡ some r
    → find_stock a b (upsert_stock id w v rows) ≡ some r
unfolding find_stock upsert_stock
find-upsert id w v a b [] r h = cc
find-upsert id w v a b (x ∷ rows) r h = ground (arith, find-upsert id w v a b rows r)

-- An update of a row that is there sets the balance of its pair, and of no other.
pub find-update :
    (w v a b : ℕ) (n : ℤ) (rows : List WarehouseStock) (r : WarehouseStock)
    → find_stock a b rows ≡ some r
    → find_stock a b (update_stock w v n rows)
      ≡ some (if same_pair a b w v then record r { on_hand_quantity = n } else r)
unfolding find_stock update_stock
find-update w v a b n [] r h = cc
find-update w v a b n (x ∷ rows) r h = ground (arith, find-update w v a b n rows r)

pub on_hand-update :
    (w v a b : ℕ) (n : ℤ) (rows : List WarehouseStock) (r : WarehouseStock)
    → find_stock w v rows ≡ some r
    → on_hand a b (update_stock w v n rows) ≡ (if same_pair a b w v then n else on_hand a b rows)
unfolding on_hand find_stock update_stock
on_hand-update w v a b n [] r h = cc
on_hand-update w v a b n (x ∷ rows) r h = ground (arith, on_hand-update w v a b n rows r)

-- A movement that is appended adds its change to the ledger balance of its pair.
pub ledger_balance-append :
    (a b : ℕ) (ms ns : List StockMovement)
    → ledger_balance a b (ms ++ ns) ≡ ledger_balance a b ms +ℤ ledger_balance a b ns
unfolding ledger_balance
ledger_balance-append a b [] ns = omega int_laws
ledger_balance-append a b (m ∷ ms) ns = rw (ledger_balance-append a b ms ns) (omega int_laws)

pub on_hand_of_find :
    (w v : ℕ) (rows : List WarehouseStock) (r : WarehouseStock)
    → find_stock w v rows ≡ some r
    → on_hand w v rows ≡ r.on_hand_quantity
unfolding on_hand
on_hand_of_find w v rows r h = rw h

-- The change of one pair, as every other pair sees it.
abbrev pub change_at : ℕ → ℕ → ℕ → ℕ → ℤ → ℤ
change_at a b w v d = if same_pair a b w v then d else pos 0

same_pair_eq : (a b w v : ℕ) → same_pair a b w v ≡ true → (a ≡ w) × (b ≡ v)
same_pair_eq a b w v h = ground arith

-- Writing back what was read plus a change moves the balance of the pair by that change.
pub on_hand-update_add :
    (w v a b : ℕ) (d : ℤ) (rows : List WarehouseStock) (r : WarehouseStock)
    → find_stock w v rows ≡ some r
    → on_hand a b (update_stock w v (r.on_hand_quantity +ℤ d) rows)
      ≡ on_hand a b rows +ℤ change_at a b w v d
on_hand-update_add w v a b d rows r h = elim (Bool-cases (same_pair a b w v)) [
  | inl same ↦
      let here = on_hand_of_find w v rows r h in
      let (ea, eb) = same_pair_eq a b w v same in
      rw (on_hand-update w v a b _ rows r h, same) (cc (here, ea, eb))
  | inr other ↦ rw (on_hand-update w v a b _ rows r h, other) (omega int_laws)
]

pub ledger_balance-snoc :
    (a b : ℕ) (ms : List StockMovement) (m : StockMovement)
    → ledger_balance a b (ms ++ (m ∷ []))
      ≡ ledger_balance a b ms +ℤ change_at a b m.warehouse_id m.product_variant_id m.quantity_change
unfolding ledger_balance
ledger_balance-snoc a b ms m = rw (ledger_balance-append a b ms (m ∷ [])) (omega int_laws)

-- The row that an upsert guarantees, with the balance that the pair had.
pub find-upsert_self :
    (id w v : ℕ) (rows : List WarehouseStock)
    → (r : WarehouseStock) × (find_stock w v (upsert_stock id w v rows) ≡ some r)
      × (r.on_hand_quantity ≡ on_hand w v rows)
find-upsert_self id w v rows = elim (Option-cases (find_stock w v (upsert_stock id w v rows))) [
  | inl e ↦ absurd (cc (e, is_some-find-upsert id w v rows))
  | inr (r, e) ↦ (r, e, sym (on_hand_of_find w v _ r e) ∙ on_hand-upsert id w v w v rows)
]

-- A row added at the end is found only where nothing was found before.
pub find-snoc :
    (a b : ℕ) (rows : List WarehouseStock) (r : WarehouseStock)
    → find_stock a b (rows ++ (r ∷ [])) ≡ elim (find_stock a b rows) [
      | none ↦ if same_pair a b r.warehouse_id r.product_variant_id then some r else none
      | some x ↦ some x
    ]
unfolding find_stock
find-snoc a b [] r = refl
find-snoc a b (x ∷ rows) r = ground (arith, find-snoc a b rows r)

pub find_stock-pair :
    (a b : ℕ) (rows : List WarehouseStock) (r : WarehouseStock)
    → find_stock a b rows ≡ some r
    → same_pair a b r.warehouse_id r.product_variant_id ≡ true
unfolding find_stock
find_stock-pair a b [] r h = cc
find_stock-pair a b (x ∷ rows) r h = ground (arith, find_stock-pair a b rows r)

-- An update adds and removes no row.
pub is_some-find-update :
    (w v a b : ℕ) (n : ℤ) (rows : List WarehouseStock)
    → is_some (find_stock a b (update_stock w v n rows)) ≡ is_some (find_stock a b rows)
unfolding find_stock update_stock
is_some-find-update w v a b n [] = refl
is_some-find-update w v a b n (x ∷ rows) = ground (arith, is_some-find-update w v a b n rows)

pub some_of_is_some :
    (o : Option WarehouseStock) → is_some o ≡ true → (r : WarehouseStock) × (o ≡ some r)
some_of_is_some none h = cc
some_of_is_some (some r) h = (r, refl)

pub is_some-upsert :
    (id w v a b : ℕ) (rows : List WarehouseStock)
    → is_some (find_stock a b rows) ≡ true
    → is_some (find_stock a b (upsert_stock id w v rows)) ≡ true
is_some-upsert id w v a b rows h =
    let (r, found) = some_of_is_some (find_stock a b rows) h in
    rw (find-upsert id w v a b rows r found)
