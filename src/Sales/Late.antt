-- ===== src/Sales/Late.antt =====
-- Handlers of a sale that run in no transaction, beside a payment.
use mathlib.Core.Path.{subst}
use erp_fashion_api.Common.{
  ℕ, ◌+◌, ◌≡◌, refl, ◌∙◌, sym, ap, ok, some, Result, Option, List, if◌then◌else◌, ==_refl, ==_iff,
  ◌-◌, arith,
}
use erp_fashion_api.Sales.{
  Sale, Store, find_sale, apply_payment, read_then_save, cancelled_of, shipped_of, delivered_of,
  cancel_sale, ship, deliver,
}
use erp_fashion_api.Sales.Table.{
  sale_row, IsKeyed, find_sale-id, sale_row_of_find, sale_row-save, sale_row-update_paid, paid_row,
  apply_payment-eq-ok,
}

-- What has been paid of a sale, by its row.
abbrev pub paid_of : Option Sale → ℕ
paid_of o = elim o [ Option.none ↦ 0 | some sale ↦ sale.paid_amount ]

module _ (id company : ℕ) (sale : Sale) (s : Store) (amount payer : ℕ) (sales : List Sale)
    (keyed : IsKeyed s.sales) (found : find_sale id company s.sales ≡ some sale)
    (applied : apply_payment id company amount payer s.sales ≡ ok sales) where
  -- The payment, which commits between the handler's read and its save.
  abbrev payment : Store → Store
  payment t = record t { sales = sales }

  own_row : sale_row id s.sales ≡ some sale
  own_row = sale_row_of_find id company s.sales sale keyed found

  paid_in_between :
      (b : ℕ) × (sale_row id sales ≡ some (paid_row (sale.paid_amount + amount) b payer sale))
  paid_in_between =
      let (old, there, _, written) =
        apply_payment-eq-ok id company amount payer s.sales sales keyed applied in
      let same : old ≡ sale = cc in
      (
        old.grand_total - (old.paid_amount + amount),
        rw (
          written,
          sale_row-update_paid id (old.paid_amount + amount)
              (old.grand_total - (old.paid_amount + amount)) payer id s.sales sale own_row,
          ==_refl id,
          same,
        ),
      )

  -- The outcome of a handler whose change keeps the id: it succeeds, and the row is what it read,
  -- changed.
  late_save :
      (change : Sale → Result Sale) (entity : Sale)
      → change sale ≡ ok entity
      → entity.id ≡ id
      → ((read_then_save change id company payment s).0 ≡ ok entity)
        × (sale_row id (read_then_save change id company payment s).1.sales ≡ some entity)
  late_save change entity changed same =
      let (b, row) = paid_in_between in
      let row' : sale_row entity.id sales
          ≡ some (paid_row (sale.paid_amount + amount) b payer sale) =
        subst (λ x. sale_row x sales ≡ some (paid_row (sale.paid_amount + amount) b payer sale))
          (sym same) row in
      (
        rw (found, changed),
        rw (found, changed)
            (sale_row-save entity id sales _ row'
              ∙ ap (λ b. if b then some entity else sale_row id sales)
                  ((==_iff id entity.id).1 (sym same))),
      )

  -- The payment counts before the handler `outcome` saves, and no longer afterwards.
  abbrev pub PaymentIsLost : Result Sale × Store → Sale → Type 0
  PaymentIsLost outcome entity =
      (outcome.0 ≡ ok entity)
      × (paid_of (sale_row id sales) ≡ sale.paid_amount + amount)
      × (paid_of (sale_row id outcome.1.sales) ≡ sale.paid_amount)

  loses :
      (change : Sale → Result Sale) (entity : Sale)
      → change sale ≡ ok entity
      → entity.id ≡ id
      → entity.paid_amount ≡ sale.paid_amount
      → PaymentIsLost (read_then_save change id company payment s) entity
  loses change entity changed same kept =
      let (done, row) = late_save change entity changed same in
      (done, rw (paid_in_between.1) refl, rw row kept)

  -- A payment that is applied to a sale between the read and the save of a cancellation, a shipment
  -- or a delivery is lost: the handler succeeds, and writes back the paid amount that it had read.
  pub late_save_loses_payment :
      (user now : ℕ) (entity : Sale)
      → (cancelled_of user sale ≡ ok entity
          → PaymentIsLost (cancel_sale id company user payment s) entity)
        × (shipped_of user now sale ≡ ok entity
            → PaymentIsLost (ship id company user now payment s) entity)
        × (delivered_of user now sale ≡ ok entity
            → PaymentIsLost (deliver id company user now payment s) entity)
  unfolding cancel_sale ship deliver
  late_save_loses_payment user now entity =
      let (same, _) = find_sale-id id company s.sales sale found in
      (
        λ e. loses (cancelled_of user) entity e (ground (arith, same)) (ground arith),
        λ e. loses (shipped_of user now) entity e (ground (arith, same)) (ground arith),
        λ e. loses (delivered_of user now) entity e (ground (arith, same)) (ground arith),
      )
