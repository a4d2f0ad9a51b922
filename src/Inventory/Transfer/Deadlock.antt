-- ===== src/Inventory/Transfer/Deadlock.antt =====
-- Transfers lock their rows in one order, so no two of them wait for each other.
use mathlib.Core.Path.{subst}
use erp_fashion_api.Common.{
  ℕ, ◌+◌, ◌<◌, ◌≡◌, ◌⊎◌, inl, inr, false, Bool-cases, is_some, All, All-append, All-map, List, [],
  ◌∷◌, ◌++◌, ok, arith,
}
use erp_fashion_api.Inventory.Stock.{WarehouseStock, find_stock, upsert_stock}
use erp_fashion_api.Inventory.Stock.Balance.{find-upsert_self, find_stock-pair}
use erp_fashion_api.Inventory.Transfer.{
  Target, CreateStockTransfer, lock_targets, sort_targets, lock_rows,
}
use erp_fashion_api.Inventory.Transfer.Order.{◌≤ₜ◌, IsSorted, sort_targets-IsSorted}

abbrev pub key : WarehouseStock → Target
key r = (r.warehouse_id, r.product_variant_id)

infix 50 ◌<ₜ◌
abbrev pub ◌<ₜ◌ : Target → Target → Type 0
◌<ₜ◌ (w, v) (w', v') = (w < w') ⊎ ((w ≡ w') × (v < v'))

-- The rows, in the order in which they were locked, have rising keys.
abbrev pub IsAscending : List WarehouseStock → Type 0
IsAscending [] = Unit
IsAscending (r ∷ rows) = All (λ x. key r <ₜ key x) rows × IsAscending rows

IsAscending-snoc :
    (rows : List WarehouseStock) (x : WarehouseStock)
    → IsAscending rows
    → All (λ r. key r <ₜ key x) rows
    → IsAscending (rows ++ (x ∷ []))
IsAscending-snoc [] x a b = (tt, tt)
IsAscending-snoc (r ∷ rows) x (first, a) (b, bs) =
    (All-append (λ y. key r <ₜ key y) rows (x ∷ []) first (b, tt), IsAscending-snoc rows x a bs)

-- A row that is at most a target whose row is not there yet is strictly below it.
strictly_below :
    (w v : ℕ) (rows : List WarehouseStock)
    → is_some (find_stock w v rows) ≡ false
    → All (λ r. ◌≤ₜ◌ (key r) (w, v)) rows
    → All (λ r. key r <ₜ (w, v)) rows
unfolding find_stock
strictly_below w v [] h b = tt
strictly_below w v (r ∷ rows) h (b, bs) = (ground arith, strictly_below w v rows (ground arith) bs)

lock_rows-IsAscending :
    (targets : List Target) (id : ℕ) (stocks rows : List WarehouseStock)
    (p : List WarehouseStock × List WarehouseStock × ℕ)
    → IsSorted targets
    → IsAscending rows
    → All (λ r. All (λ t. ◌≤ₜ◌ (key r) t) targets) rows
    → lock_rows targets id stocks rows ≡ ok p
    → IsAscending p.0
unfolding lock_rows
lock_rows-IsAscending [] id stocks rows p sorted a below done =
    let same : rows ≡ p.0 = cc in subst IsAscending same a
lock_rows-IsAscending ((w, v) ∷ targets) id stocks rows p (first, sorted) a below done =
    let heads =
      All-map (λ r. All (λ t. ◌≤ₜ◌ (key r) t) ((w, v) ∷ targets)) (λ r. ◌≤ₜ◌ (key r) (w, v)) rows
        (λ r h. h.0) below in
    let tails =
      All-map (λ r. All (λ t. ◌≤ₜ◌ (key r) t) ((w, v) ∷ targets))
        (λ r. All (λ t. ◌≤ₜ◌ (key r) t) targets) rows (λ r h. h.1) below in
    elim (Bool-cases (is_some (find_stock w v rows))) [
      | inl there ↦ lock_rows-IsAscending targets id stocks rows p sorted a tails (rw there at done)
      | inr absent ↦
          let (r, found, _) = find-upsert_self id w v stocks in
          let pair = find_stock-pair w v (upsert_stock id w v stocks) r found in
          let ew : r.warehouse_id ≡ w = ground arith in
          let ev : r.product_variant_id ≡ v = ground arith in
          let rest : lock_rows targets (id + 1) (upsert_stock id w v stocks) (rows ++ (r ∷ []))
              ≡ ok p =
            rw (absent, found) at done in
          lock_rows-IsAscending targets (id + 1) (upsert_stock id w v stocks) (rows ++ (r ∷ [])) p
            sorted (IsAscending-snoc rows r a (rw (ew, ev) (strictly_below w v rows absent heads)))
            (All-append (λ x. All (λ t. ◌≤ₜ◌ (key x) t) targets) rows (r ∷ []) tails
              (rw (ew, ev) first, tt))
            rest
    ]

-- The keys of the rows that one transfer has locked include `t`.
abbrev pub Holds : List WarehouseStock → Target → Type 0
Holds [] t = ⊥
Holds (r ∷ rows) t = (key r ≡ t) ⊎ Holds rows t

-- `held` is what a transfer has locked before it asks for the row of `next`.
pub record IsWaiting (held : List WarehouseStock) (next : WarehouseStock) : Type 0 where
  pub dto : CreateStockTransfer
  pub id : ℕ
  pub stocks : List WarehouseStock
  pub later : List WarehouseStock
  pub stocks' : List WarehouseStock
  pub id' : ℕ
  pub locks :
      lock_rows (sort_targets (lock_targets dto)) id stocks []
      ≡ ok (held ++ (next ∷ later), stocks', id')

IsAscending-before :
    (held : List WarehouseStock) (x : WarehouseStock) (later : List WarehouseStock)
    → IsAscending (held ++ (x ∷ later))
    → All (λ r. key r <ₜ key x) held
IsAscending-before [] x later h = tt
IsAscending-before (r ∷ held) x later (first, h) =
    (at_next held first, IsAscending-before held x later h)
  where
    at_next :
        (ys : List WarehouseStock) → All (λ y. key r <ₜ key y) (ys ++ (x ∷ later)) → key r <ₜ key x
    at_next [] f = f.0
    at_next (y ∷ ys) f = at_next ys f.1

held_below :
    (held : List WarehouseStock) (next : WarehouseStock)
    → IsWaiting held next
    → All (λ r. key r <ₜ key next) held
held_below held next w = IsAscending-before held next w.later (
    lock_rows-IsAscending (sort_targets (lock_targets w.dto)) w.id w.stocks []
      (held ++ (next ∷ w.later), w.stocks', w.id') (sort_targets-IsSorted (lock_targets w.dto)) tt
      tt w.locks)

holds_below :
    (held : List WarehouseStock) (next : WarehouseStock) (t : Target)
    → All (λ r. key r <ₜ key next) held
    → Holds held t
    → t <ₜ key next
holds_below [] next t b h = elim h [ ]
holds_below (r ∷ held) next t (b, bs) (inl e) = rw (← e) b
holds_below (r ∷ held) next t (b, bs) (inr h) = holds_below held next t bs h

-- Of two transfers that each wait for their next row, at any point of their locking, it is never the
-- case that each holds the row that the other waits for.
pub transfers_never_deadlock :
    (held held' : List WarehouseStock) (next next' : WarehouseStock)
    → IsWaiting held next
    → IsWaiting held' next'
    → ¬ (Holds held' (key next) × Holds held (key next'))
transfers_never_deadlock held held' next next' w w' (h', h) =
    let up = holds_below held' next' (key next) (held_below held' next' w') h' in
    let down = holds_below held next (key next') (held_below held next w) h in ground arith
