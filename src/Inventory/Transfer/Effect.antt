-- ===== src/Inventory/Transfer/Effect.antt =====
-- What a whole stock transfer does.
use mathlib.Core.Path.{subst}
use erp_fashion_api.Common.{
  ErrorCode, ℕ, ◌≡◌, ◌↔◌, ◌⊎◌, refl, ap, sym, ◌∙◌, inl, inr, true, Bool-cases, is_some, some,
  Result-cases, All, All-map, List, [], ◌∷◌, ◌++◌, map, ok, throw, conflict, pos, ◌+ℤ◌, ◌≤ℤ◌, ltb_ℤ,
  arith, ◌+◌,
}
use erp_fashion_api.Numbering.{generate_number}
use erp_fashion_api.Inventory.Stock.{WarehouseStock, find_stock, on_hand, ledger_balance}
use erp_fashion_api.Inventory.Stock.Balance.{
  some_of_is_some, on_hand_of_find, ledger_balance-append,
}
use erp_fashion_api.Inventory.Store.{Store, StockTransfer, ProductVariant, MovesBy}
use erp_fashion_api.Inventory.Transfer.{
  Target, TransferLine, CreateStockTransfer, check_variants, lock_targets, sort_targets,
  check_sources, finish_transfer, trf, apply_transfer,
}
use erp_fashion_api.Inventory.Transfer.Order.{All-of-sort}
use erp_fashion_api.Inventory.Transfer.Lock.{Agrees, IsLocked, Locks, lock_rows-Locks}
use erp_fashion_api.Inventory.Transfer.Move.{moved, IsCovered, move_items-Moves, write_items-Writes}

pub nothing_found : (w v : ℕ) (r : WarehouseStock) → find_stock w v [] ≡ some r → ⊥
unfolding find_stock
nothing_found w v r h = cc

-- A line asks for no more than the source holds.
abbrev pub Fits : ℕ → List WarehouseStock → TransferLine → Type 0
Fits source stocks i = pos i.quantity ≤ℤ on_hand source i.product_variant_id stocks

check_sources-cases :
    (source destination : ℕ) (items : List TransferLine) (rows : List WarehouseStock)
    → All (IsCovered source destination rows) items
    → (check_sources source items rows ≡ ok tt) × All (Fits source rows) items
      ⊎ (check_sources source items rows ≡ throw conflict) × ¬ All (Fits source rows) items
unfolding check_sources
check_sources-cases source destination [] rows covered = inl (refl, tt)
check_sources-cases source destination (i ∷ items) rows ((cs, _), covered) =
    let v = i.product_variant_id in
    let (r, found) = some_of_is_some (find_stock source v rows) cs in
    let here = on_hand_of_find source v rows r found in
    elim (Bool-cases (ltb_ℤ r.on_hand_quantity (pos i.quantity))) [
      | inl short ↦ inr (rw (found, short), λ fits. absurd (ground (arith, fits.0)))
      | inr enough ↦ elim (check_sources-cases source destination items rows covered) [
        | inl (passed, fits) ↦ inl (rw (found, enough) passed, (ground arith, fits))
        | inr (failed, unfit) ↦ inr (rw (found, enough) failed, λ fits. unfit fits.1)
      ]
    ]

All-of-append : (P : Target → Type 0) (xs ys : List Target) → All P (xs ++ ys) → All P xs × All P ys
All-of-append P [] ys h = (tt, h)
All-of-append P (x ∷ xs) ys h = let (p, q) = All-of-append P xs ys h.1 in ((h.0, p), q)

-- Every target of the list of lock targets being locked, both rows of every line are.
IsCovered-of_locked :
    (source destination : ℕ) (items : List TransferLine) (rows : List WarehouseStock)
    → All (IsLocked rows) (map (λ (i : TransferLine). (source, i.product_variant_id)) items)
    → All (IsLocked rows) (map (λ (i : TransferLine). (destination, i.product_variant_id)) items)
    → All (IsCovered source destination rows) items
IsCovered-of_locked source destination [] rows s d = tt
IsCovered-of_locked source destination (i ∷ items) rows s d =
    ((s.0, d.0), IsCovered-of_locked source destination items rows s.1 d.1)

-- What the check reads off the locked objects is what the table held at the start.
pub on_hand_locked :
    (rows stocks : List WarehouseStock) (w v : ℕ)
    → Agrees rows stocks
    → is_some (find_stock w v rows) ≡ true
    → on_hand w v rows ≡ on_hand w v stocks
on_hand_locked rows stocks w v agrees h =
    let (r, found) = some_of_is_some (find_stock w v rows) h in
    on_hand_of_find w v rows r found ∙ sym (on_hand_of_find w v stocks r (agrees w v r found))

-- Fitting the locked objects is fitting the table, where the two hold the same.
Fits-iff :
    (source destination : ℕ) (items : List TransferLine) (rows stocks : List WarehouseStock)
    → All (IsCovered source destination rows) items
    → ((i : TransferLine)
        → IsCovered source destination rows i
        → on_hand source i.product_variant_id rows ≡ on_hand source i.product_variant_id stocks)
    → All (Fits source rows) items ↔ All (Fits source stocks) items
Fits-iff source destination [] rows stocks covered same = (λ f. f, λ f. f)
Fits-iff source destination (i ∷ items) rows stocks (c, covered) same =
    let (to, from) = Fits-iff source destination items rows stocks covered same in
    let e = same i c in (λ f. (rw (← e) f.0, to f.1), λ f. (rw e f.0, from f.1))

module _ (variants : List ProductVariant) (company user : ℕ) (dto : CreateStockTransfer) (year : ℕ)
    (s : Store) where
  abbrev source : ℕ
  source = dto.source_warehouse_id

  abbrev destination : ℕ
  destination = dto.destination_warehouse_id

  Locks-cover :
      (rows stocks rows' stocks' : List WarehouseStock)
      → Locks (sort_targets (lock_targets dto)) rows stocks rows' stocks'
      → All (IsCovered source destination rows') dto.items
  unfolding lock_targets
  Locks-cover rows stocks rows' stocks' l =
      let all = All-of-sort (IsLocked rows') (lock_targets dto) l.covers in
      let (s, d) = All-of-append (IsLocked rows') _ _ all in
      IsCovered-of_locked source destination dto.items rows' s d

  -- Once the variants are accepted a transfer goes through exactly when every single line fits the
  -- source's balance, and then moves the sum of the lines; otherwise it is a conflict.
  pub apply_transfer-cases :
      check_variants variants company dto.items ≡ ok tt
      → All (Fits source s.stocks) dto.items
          × ((t : StockTransfer) × (s' : Store) × (apply_transfer variants company user dto year s
                ≡ ok (t, s'))
              × MovesBy (moved source destination dto.items) s s')
        ⊎ (¬ All (Fits source s.stocks) dto.items)
          × (apply_transfer variants company user dto year s ≡ throw conflict)
  unfolding apply_transfer
  apply_transfer-cases good =
      let (p, locked, l) =
        lock_rows-Locks (sort_targets (lock_targets dto)) (s.next_id + 1) s.stocks []
          (λ w v r h. absurd (nothing_found w v r h)) in
      let covered = Locks-cover [] s.stocks p.0 p.1 l in
      let (to, from) = Fits-iff source destination dto.items p.0 s.stocks covered (λ i c.
        on_hand_locked p.0 p.1 source i.product_variant_id l.agrees c.0
        ∙ l.same source i.product_variant_id) in
      elim (check_sources-cases source destination dto.items p.0 covered) [
        | inl (passed, fits) ↦
            let (q, moves, kept, balances) =
              move_items-Moves source destination dto.items p.0 p.1 l.agrees covered in
            let (z, writes, logged) = write_items-Writes dto p.2 user dto.items q.0 (p.2 + 1) (
              All-map (IsCovered source destination p.0) (IsCovered source destination q.0)
                dto.items kept covered) in
            let (number, counters) =
              generate_number trf s.next_id company year s.transfer_counters in
            let done = finish_transfer company user dto s number counters p.2 q.1 z in
            inl (
              to fits,
              (
                done.0,
                done.1,
                rw (good, locked, passed, moves, writes),
                λ w v. (
                  balances w v ∙ ap (λ n. n +ℤ moved source destination dto.items w v) (l.same w v),
                  ledger_balance-append w v s.movements z.1
                      ∙ ap (λ n. ledger_balance w v s.movements +ℤ n) (logged w v),
                ),
              ),
            )
        | inr (failed, unfit) ↦ inr (λ f. unfit (from f), rw (good, locked, failed))
      ]

  variants_rejected :
      (e : ErrorCode)
      → check_variants variants company dto.items ≡ throw e
      → apply_transfer variants company user dto year s ≡ throw e
  unfolding apply_transfer
  variants_rejected e bad = rw bad

  -- A transfer that has gone through has passed the check line by line, and moved what was asked.
  pub apply_transfer-eq-ok :
      (t : StockTransfer) (s' : Store)
      → apply_transfer variants company user dto year s ≡ ok (t, s')
      → All (Fits source s.stocks) dto.items × MovesBy (moved source destination dto.items) s s'
  apply_transfer-eq-ok t s' done = elim (Result-cases (check_variants variants company dto.items)) [
    | inr (e, bad) ↦ absurd (cc (variants_rejected e bad))
    | inl (u, good) ↦ elim (apply_transfer-cases good) [
      | inl (fits, (t', s'', done', m)) ↦
          let same : s'' ≡ s' = cc in
          (fits, subst (λ z. MovesBy (moved source destination dto.items) s z) same m)
      | inr (unfit, failed) ↦ absurd (cc (failed, done))
    ]
  ]
