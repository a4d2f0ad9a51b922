-- ===== src/Inventory/Transfer/Lock.antt =====
-- What locking the rows of a transfer establishes.
use erp_fashion_api.Common.{
  ℕ, ◌+◌, ◌≡◌, refl, ◌∙◌, inl, inr, true, false, Bool-cases, Option-cases, is_some, some, All, List,
  [], ◌∷◌, ◌++◌, ok, arith,
}
use erp_fashion_api.Inventory.Stock.{WarehouseStock, find_stock, upsert_stock, on_hand}
use erp_fashion_api.Inventory.Stock.Balance.{
  find-upsert, find-upsert_self, on_hand-upsert, find-snoc, find_stock-pair,
}
use erp_fashion_api.Inventory.Transfer.{Target, lock_rows}

-- The locked objects hold what the table holds.
abbrev pub Agrees : List WarehouseStock → List WarehouseStock → Type 0
Agrees rows stocks =
    (w v : ℕ) (r : WarehouseStock) → find_stock w v rows ≡ some r → find_stock w v stocks ≡ some r

abbrev pub IsLocked : List WarehouseStock → Target → Type 0
IsLocked rows t = is_some (find_stock t.0 t.1 rows) ≡ true

-- The rows `rows'` and the table `stocks'` that locking `targets` leads to.
pub record Locks (targets : List Target) (rows stocks rows' stocks' : List WarehouseStock)
    : Type 0 where
  pub agrees : Agrees rows' stocks'
  pub same : (w v : ℕ) → on_hand w v stocks' ≡ on_hand w v stocks
  pub kept :
      (w v : ℕ) → is_some (find_stock w v rows) ≡ true → is_some (find_stock w v rows') ≡ true
  pub covers : All (IsLocked rows') targets

Agrees-fresh :
    (id w v : ℕ) (rows stocks : List WarehouseStock) (r : WarehouseStock)
    → Agrees rows stocks
    → is_some (find_stock w v rows) ≡ false
    → find_stock w v (upsert_stock id w v stocks) ≡ some r
    → Agrees (rows ++ (r ∷ [])) (upsert_stock id w v stocks)
Agrees-fresh id w v rows stocks r agrees absent found a b x h =
    let pair = find_stock-pair w v (upsert_stock id w v stocks) r found in
    elim (Option-cases (find_stock a b rows)) [
      | inl e ↦ ground (arith, find-snoc a b rows r)
      | inr (y, e) ↦
          ground (arith, find-snoc a b rows r, agrees a b y, find-upsert id w v a b stocks y)
    ]

is_some-snoc :
    (a b : ℕ) (rows : List WarehouseStock) (r : WarehouseStock)
    → is_some (find_stock a b rows) ≡ true
    → is_some (find_stock a b (rows ++ (r ∷ []))) ≡ true
is_some-snoc a b rows r h = ground (arith, find-snoc a b rows r)

is_some-snoc_self :
    (id w v : ℕ) (rows stocks : List WarehouseStock) (r : WarehouseStock)
    → find_stock w v (upsert_stock id w v stocks) ≡ some r
    → is_some (find_stock w v (rows ++ (r ∷ []))) ≡ true
is_some-snoc_self id w v rows stocks r found =
    ground (arith, find-snoc w v rows r, find_stock-pair w v _ r found)

-- Locking always succeeds; the locked objects agree with the table, no balance has changed, and
-- every target is locked.
pub lock_rows-Locks :
    (targets : List Target) (id : ℕ) (stocks rows : List WarehouseStock)
    → Agrees rows stocks
    → (p : List WarehouseStock × List WarehouseStock × ℕ) × (lock_rows targets id stocks rows
        ≡ ok p)
      × Locks targets rows stocks p.0 p.1
unfolding lock_rows
lock_rows-Locks [] id stocks rows agrees = (
  (rows, stocks, id),
  refl,
  record { agrees = agrees; same = λ w v. refl; kept = λ w v h. h; covers = tt },
)
lock_rows-Locks ((w, v) ∷ targets) id stocks rows agrees =
    elim (Bool-cases (is_some (find_stock w v rows))) [
      | inl there ↦
          let (p, done, l) = lock_rows-Locks targets id stocks rows agrees in
          (
            p,
            rw there done,
            record {
              agrees = l.agrees;
              same = l.same;
              kept = l.kept;
              covers = (l.kept w v there, l.covers);
            },
          )
      | inr absent ↦
          let (r, found, _) = find-upsert_self id w v stocks in
          let next = upsert_stock id w v stocks in
          let (p, done, l) =
            lock_rows-Locks targets (id + 1) next (rows ++ (r ∷ []))
              (Agrees-fresh id w v rows stocks r agrees absent found) in
          (
            p,
            rw (absent, found) done,
            record {
              agrees = l.agrees;
              same = λ a b. l.same a b ∙ on_hand-upsert id w v a b stocks;
              kept = λ a b h. l.kept a b (is_some-snoc a b rows r h);
              covers = (l.kept w v (is_some-snoc_self id w v rows stocks r found), l.covers);
            },
          )
    ]
