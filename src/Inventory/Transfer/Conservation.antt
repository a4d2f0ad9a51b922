-- ===== src/Inventory/Transfer/Conservation.antt =====
-- What a stock transfer moves between its two warehouses, and what it leaves alone.
use erp_fashion_api.Common.{
  ℕ, ◌+◌, ◌≡◌, ◌≢◌, ◌⊎◌, refl, ap, inl, inr, Bool-cases, Result, run_after_inv, run_after-ok,
  run_after-throw, All, List, [], ◌∷◌, ok, throw, conflict, pos, ◌+ℤ◌, ◌≤ℤ◌, ◌<ℤ◌, neg, arith,
  int_laws, ==_iff, +ℤ_zero, if◌then◌else◌, ◌==◌,
}
use erp_fashion_api.Inventory.Stock.{WarehouseStock, on_hand}
use erp_fashion_api.Inventory.Store.{
  Store, StockTransfer, Warehouse, ProductVariant, MovesBy, MovesBy-IsReconciled, IsReconciled,
  IsNonNegative,
}
use erp_fashion_api.Inventory.Transfer.{
  TransferLine, CreateStockTransfer, validate, check_variants, apply_transfer, create_transfer,
}
use erp_fashion_api.Inventory.Transfer.Move.{moved}
use erp_fashion_api.Inventory.Transfer.Effect.{Fits, apply_transfer-cases, apply_transfer-eq-ok}

-- What the lines ask for of one variant, in all.
abbrev pub requested : ℕ → List TransferLine → ℕ
requested v [] = 0
requested v (i ∷ items) = (if v == i.product_variant_id then i.quantity else 0) + requested v items

module _ (source destination : ℕ) (apart : source ≢ destination) where
  moved-source :
      (items : List TransferLine) (v : ℕ)
      → moved source destination items source v ≡ neg (pos (requested v items))
  moved-source [] v = omega int_laws
  moved-source (i ∷ items) v = grind (int_laws, moved-source items v)

  moved-destination :
      (items : List TransferLine) (v : ℕ)
      → moved source destination items destination v ≡ pos (requested v items)
  moved-destination [] v = refl
  moved-destination (i ∷ items) v = grind (int_laws, moved-destination items v)

moved_elsewhere :
    (source destination w : ℕ) (items : List TransferLine) (v : ℕ)
    → w ≢ source
    → w ≢ destination
    → moved source destination items w v ≡ pos 0
moved_elsewhere source destination w [] v h k = refl
moved_elsewhere source destination w (i ∷ items) v h k =
    grind (int_laws, moved_elsewhere source destination w items v h k)

-- No variant is asked for by two lines.
abbrev pub IsDistinct : List TransferLine → Type 0
IsDistinct [] = Unit
IsDistinct (i ∷ items) = (requested i.product_variant_id items ≡ 0) × IsDistinct items

-- With distinct variants, what fits line by line fits in all.
requested_fits :
    (source v : ℕ) (stocks : List WarehouseStock) (items : List TransferLine)
    → IsDistinct items
    → pos 0 ≤ℤ on_hand source v stocks
    → All (Fits source stocks) items
    → pos (requested v items) ≤ℤ on_hand source v stocks
requested_fits source v stocks [] d n f = n
requested_fits source v stocks (i ∷ items) (first, d) n (f, fs) =
    elim (Bool-cases (v == i.product_variant_id)) [
      | inl same ↦
          let e = (==_iff v i.product_variant_id).0 same in
          let none_left : requested v items ≡ 0 = rw e first in
          let fits : pos i.quantity ≤ℤ on_hand source v stocks = rw e f in
          rw (same, none_left) (omega arith)
      | inr other ↦ rw other (omega (arith, requested_fits source v stocks items d n fs))
    ]

module _ (warehouses : List Warehouse) (variants : List ProductVariant) (company user : ℕ)
    (dto : CreateStockTransfer) (year : ℕ) (s : Store) where
  abbrev created : Result StockTransfer × Store
  created = create_transfer warehouses variants company user dto year s

  abbrev source : ℕ
  source = dto.source_warehouse_id

  abbrev destination : ℕ
  destination = dto.destination_warehouse_id

  -- The two warehouses of a validated request differ.
  validate-apart : validate warehouses company dto ≡ ok tt → source ≢ destination
  unfolding validate
  validate-apart good = ground arith

  -- From `s` to `s'` the lines' quantities have left the source, reached the destination, and changed
  -- nothing in any other warehouse.
  pub record IsMoved (s' : Store) : Type 0 where
    pub from :
        (v : ℕ)
        → on_hand source v s'.stocks
          ≡ on_hand source v s.stocks +ℤ neg (pos (requested v dto.items))
    pub to :
        (v : ℕ)
        → on_hand destination v s'.stocks
          ≡ on_hand destination v s.stocks +ℤ pos (requested v dto.items)
    pub elsewhere :
        (w v : ℕ) → w ≢ source → w ≢ destination → on_hand w v s'.stocks ≡ on_hand w v s.stocks

  MovesBy-IsMoved :
      (s' : Store)
      → source ≢ destination
      → MovesBy (moved source destination dto.items) s s'
      → IsMoved s'
  MovesBy-IsMoved s' apart m = record {
    from = λ v. rw ((m source v).0, moved-source source destination apart dto.items v);
    to = λ v. rw ((m destination v).0, moved-destination source destination apart dto.items v);
    elsewhere =
        λ w v h k. rw ((m w v).0, moved_elsewhere source destination w dto.items v h k) (+ℤ_zero _);
  }

  -- A validated request for accepted variants goes through exactly when every single line fits what
  -- the source holds of its variant. The summed quantities then move from the source to the
  -- destination and no other warehouse changes; otherwise it is a conflict and nothing changes.
  pub create_transfer_lem :
      validate warehouses company dto ≡ ok tt
      → check_variants variants company dto.items ≡ ok tt
      → All (Fits source s.stocks) dto.items
          × ((t : StockTransfer) × (created.0 ≡ ok t) × IsMoved created.1)
        ⊎ (¬ All (Fits source s.stocks) dto.items) × (created ≡ (throw conflict, s))
  unfolding create_transfer
  create_transfer_lem good accepted =
      let work = λ (_ : Unit {0}). apply_transfer variants company user dto year in
      elim (apply_transfer-cases variants company user dto year s accepted) [
        | inl (fits, (t, s', done, moves)) ↦
            let committed = run_after-ok work s good done in
            inl (
              fits,
              (
                t,
                ap (λ p. p.0) committed,
                rw committed (MovesBy-IsMoved s' (validate-apart good) moves),
              ),
            )
        | inr (unfit, failed) ↦ inr (unfit, run_after-throw work s good failed)
      ]

  -- Whatever a request asks, balances that add up to the log still do afterwards.
  pub create_transfer-IsReconciled : IsReconciled s → IsReconciled created.1
  unfolding create_transfer
  create_transfer-IsReconciled h =
      run_after_inv IsReconciled (validate warehouses company dto)
        (λ _. apply_transfer variants company user dto year) s h
        λ _ t s' _ done.
          MovesBy-IsReconciled (moved source destination dto.items) s s'
            (apply_transfer-eq-ok variants company user dto year s t s' done).1 h

  IsMoved-IsNonNegative :
      (s' : Store)
      → IsDistinct dto.items
      → All (Fits source s.stocks) dto.items
      → IsMoved s'
      → IsNonNegative s
      → IsNonNegative s'
  IsMoved-IsNonNegative s' d fits m nonneg w v = elim (Bool-cases (w == source)) [
    | inl at_source ↦
        let all_fit = requested_fits source v s.stocks dto.items d (nonneg source v) fits in
        rw ((==_iff w source).0 at_source, m.from v) (omega int_laws)
    | inr off_source ↦ elim (Bool-cases (w == destination)) [
      | inl at_destination ↦
          let before = nonneg destination v in
          rw ((==_iff w destination).0 at_destination, m.to v) (omega int_laws)
      | inr off_destination ↦ rw (m.elsewhere w v (ground arith) (ground arith)) (nonneg w v)
    ]
  ]

  -- If no variant is asked for by two lines, balances that are not negative are not negative
  -- afterwards, whatever is asked.
  pub create_transfer-IsNonNegative :
      IsDistinct dto.items → IsNonNegative s → IsNonNegative created.1
  unfolding create_transfer
  create_transfer-IsNonNegative d h =
      run_after_inv IsNonNegative (validate warehouses company dto)
        (λ _. apply_transfer variants company user dto year) s h
        λ _ t s' good done.
          let (fits, m) = apply_transfer-eq-ok variants company user dto year s t s' done in
          IsMoved-IsNonNegative s' d fits (MovesBy-IsMoved s' (validate-apart good) m) h

  -- Whenever the lines fit one by one but not together, the transfer goes through all the same and
  -- leaves the source with a negative balance of that variant.
  pub create_transfer_overdraws :
      (v : ℕ)
      → validate warehouses company dto ≡ ok tt
      → check_variants variants company dto.items ≡ ok tt
      → All (Fits source s.stocks) dto.items
      → on_hand source v s.stocks <ℤ pos (requested v dto.items)
      → (t : StockTransfer) × (created.0 ≡ ok t) × (on_hand source v created.1.stocks <ℤ pos 0)
  create_transfer_overdraws v good accepted fits over = elim (create_transfer_lem good accepted) [
    | inl (_, (t, done, m)) ↦ (t, done, rw (m.from v) (omega int_laws))
    | inr (unfit, _) ↦ absurd (unfit fits)
  ]
