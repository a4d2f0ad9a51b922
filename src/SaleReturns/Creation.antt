-- ===== src/SaleReturns/Creation.antt =====
-- What the creation of a sale return counts and checks
-- (src/modules/sales-returns/services/sale-returns.service.ts).
use mathlib.Core.Path.{subst}
use erp_fashion_api.Common.{
  Bool, ℕ, ◌+◌, ◌*◌, ◌≤◌, ◌<◌, ◌≡◌, refl, ◌∙◌, true, Option, Option-cases, none, some, List, [],
  ◌∷◌, ◌++◌, ◌==◌, if◌then◌else◌, inl, inr, All, All-of-sort_by, sum_of, sum_of-sort_by, row,
  row-snoc, find_row-key, ok, >>=-eq-ok, throw_if, run-eq-ok, validation_error,
  unprocessable_entity, not, arith,
}
use erp_fashion_api.Payments.{SaleReturnStatus}
use erp_fashion_api.Sales.{Sale, SaleItem, find_sale}
use erp_fashion_api.SaleReturns.{
  Store, SaleReturn, SaleReturnItem, ReturnRow, CreateSaleReturn, CreateSaleReturnItem, counts,
  already_returned, find_sale_item, check_return_line, check_return_lines, by_sale_item,
  return_items_for, subtotal_of, discounts_of, finish_return, apply_create_return, create_return,
  return_key,
}
use erp_fashion_api.Common.{or_throw, sort_by, ==_refl}
use erp_fashion_api.Sales.{SaleStatus, same_status}
use erp_fashion_api.Sales.Table.{find_sale-id}

-- What a line asks to return of a sale item, and what all lines do.
abbrev pub asks : ℕ → CreateSaleReturnItem → ℕ
asks item line = if item == line.sale_item_id then line.quantity else 0

abbrev pub asked : ℕ → List CreateSaleReturnItem → ℕ
asked item lines = sum_of (asks item) lines

-- The line's item belongs to the sale, and what was returned of it before leaves room for the line.
abbrev pub FitsAlone : ℕ → Store → CreateSaleReturnItem → Type 0
FitsAlone sale s line =
    (i : SaleItem) × (find_sale_item line.sale_item_id sale s.shop.sale_items ≡ some i)
    × (already_returned line.sale_item_id s.returns s.return_items + line.quantity ≤ i.row.quantity)

-- Ids count up, so that the next one is not in use.
pub record IsFresh (s : Store) : Type 0 where
  pub returns : All (λ (r : SaleReturn). r.id < s.next_id) s.returns
  pub items : All (λ (i : SaleReturnItem). i.sale_return_id < s.next_id) s.return_items

abbrev row_asks : ℕ → ReturnRow → ℕ
row_asks item r = if item == r.sale_item_id then r.quantity else 0

-- What an accepted line leaves to be known.
record Keeps (sale : ℕ) (s : Store) (line : CreateSaleReturnItem) (r : ReturnRow) : Type 0 where
  pub fits : FitsAlone sale s line
  pub same_item : r.sale_item_id ≡ line.sale_item_id
  pub same_quantity : r.quantity ≡ line.quantity
  pub covered : r.discount_amount ≤ r.unit_price_snapshot * r.quantity

check_return_line-Keeps :
    (sale : ℕ) (s : Store) (line : CreateSaleReturnItem) (r : ReturnRow)
    → check_return_line sale s.shop.sale_items s.returns s.return_items line ≡ ok r
    → Keeps sale s line r
unfolding check_return_line
check_return_line-Keeps sale s line r h =
    elim (Option-cases (find_sale_item line.sale_item_id sale s.shop.sale_items)) [
      | inl e ↦ absurd (ground arith)
      | inr (i, e) ↦
          let (same, _) =
            find_row-key (λ (j : SaleItem). j.id) (λ j. sale == j.sale_id) line.sale_item_id
              s.shop.sale_items i e in
          record {
            fits = (i, e, ground (arith, same));
            same_item = ground (arith, same);
            same_quantity = ground arith;
            covered = ground arith;
          }
    ]

check_return_lines-Keeps :
    (sale : ℕ) (s : Store) (lines : List CreateSaleReturnItem) (rows : List ReturnRow)
    → check_return_lines sale s.shop.sale_items s.returns s.return_items lines ≡ ok rows
    → All (FitsAlone sale s) lines
      × ((item : ℕ) → sum_of (row_asks item) rows ≡ asked item lines)
      × (discounts_of rows ≤ subtotal_of rows)
unfolding check_return_lines discounts_of subtotal_of
check_return_lines-Keeps sale s [] rows h =
    let e : [] ≡ rows = cc in rw (← e) (tt, λ item. refl, omega arith)
check_return_lines-Keeps sale s (line ∷ lines) rows h =
    let (r, checked, h1) =
      >>=-eq-ok (check_return_line sale s.shop.sale_items s.returns s.return_items line) _ h in
    let (rest, more, h2) =
      >>=-eq-ok (check_return_lines sale s.shop.sale_items s.returns s.return_items lines) _ h1 in
    let k = check_return_line-Keeps sale s line r checked in
    let (fits, sums, covered) = check_return_lines-Keeps sale s lines rest more in
    let e : (r ∷ rest) ≡ rows = cc in
    rw (← e) (
      (k.fits, fits),
      λ item. rw (k.same_item, k.same_quantity, sums item) refl,
      omega (arith, k.covered, covered),
    )

-- A return that is added at the end counts, and what was there counts as before.
counts-old :
    (n : ℕ) (returns : List SaleReturn) (r : SaleReturn) (i : SaleReturnItem)
    → r.id ≡ n + 1
    → i.sale_return_id < n
    → counts (returns ++ (r ∷ [])) i ≡ counts returns i
counts-old n returns r i same less = ground (arith, row-snoc return_key i.sale_return_id returns r)

unused :
    (n : ℕ) (returns : List SaleReturn)
    → All (λ (r : SaleReturn). r.id < n) returns
    → row return_key (n + 1) returns ≡ none
unused n [] less = refl
unused n (r ∷ returns) less = ground (arith, unused n returns less.1)

returned-old :
    (n item : ℕ) (returns : List SaleReturn) (r : SaleReturn) (items : List SaleReturnItem)
    → r.id ≡ n + 1
    → All (λ (i : SaleReturnItem). i.sale_return_id < n) items
    → already_returned item (returns ++ (r ∷ [])) items ≡ already_returned item returns items
unfolding already_returned
returned-old n item returns r [] same less = refl
returned-old n item returns r (i ∷ items) same less =
    rw (counts-old n returns r i same less.0, returned-old n item returns r items same less.1)

returned-append :
    (item : ℕ) (returns : List SaleReturn) (xs ys : List SaleReturnItem)
    → already_returned item returns (xs ++ ys)
      ≡ already_returned item returns xs + already_returned item returns ys
unfolding already_returned
returned-append item returns [] ys = omega arith
returned-append item returns (x ∷ xs) ys = omega (arith, returned-append item returns xs ys)

not_thrown : (b : Bool) (u : Unit {0}) → throw_if (not b) unprocessable_entity ≡ ok u → b ≡ true
not_thrown b u h = ground arith

of_or_throw :
    (o : Option Sale) (sale : Sale) → or_throw o validation_error ≡ ok sale → o ≡ some sale
of_or_throw none sale h = cc
of_or_throw (some x) sale h = cc

counts-new :
    (returns : List SaleReturn) (r : SaleReturn) (id : ℕ) (x : ReturnRow)
    → row return_key r.id returns ≡ some r
    → r.status ≡ SaleReturnStatus.draft
    → counts returns (record { id = id; sale_return_id = r.id; row = x }) ≡ true
counts-new returns r id x there draft = ground (arith, there, draft)

returned-new :
    (item : ℕ) (returns : List SaleReturn) (r : SaleReturn) (rows : List ReturnRow) (next : ℕ)
    → row return_key r.id returns ≡ some r
    → r.status ≡ SaleReturnStatus.draft
    → already_returned item returns (return_items_for r.id rows next) ≡ sum_of (row_asks item) rows
unfolding already_returned return_items_for
returned-new item returns r [] next there draft = refl
returned-new item returns r (x ∷ rows) next there draft =
    let rest = returned-new item returns r rows (next + 1) there draft in
    let new = counts-new returns r next x there draft in ground (arith, rest, new)

module _ (company user : ℕ) (dto : CreateSaleReturn) (now : ℕ) (s : Store) (fresh : IsFresh s) where
  -- The rows of a request that goes through are counted, whatever is returned before.
  finish_return-counts :
      (sale : Sale) (rows : List ReturnRow) (item : ℕ)
      → let made = (finish_return company user dto sale now rows s).1 in
        already_returned item made.returns made.return_items
        ≡ already_returned item s.returns s.return_items + sum_of (row_asks item) rows
  finish_return-counts sale rows item =
      let r : SaleReturn = (finish_return company user dto sale now rows s).0 in
      let there : row return_key r.id (s.returns ++ (r ∷ [])) ≡ some r =
        row-snoc return_key r.id s.returns r
        ∙ rw (unused s.next_id s.returns fresh.returns, ==_refl r.id) refl in
      returned-append item (s.returns ++ (r ∷ [])) s.return_items
        (return_items_for r.id rows (s.next_id + 2))
      ∙ rw
          (
            returned-old s.next_id item s.returns r s.return_items refl fresh.items,
            returned-new item (s.returns ++ (r ∷ [])) r rows (s.next_id + 2) there refl,
          )
          refl

  -- What a return that has been written comes to.
  abbrev Outcome : SaleReturn → Store → Type 0
  Outcome r s' =
      All (FitsAlone dto.sale_id s) dto.items
      × ((item : ℕ)
          → already_returned item s'.returns s'.return_items
            ≡ already_returned item s.returns s.return_items + asked item dto.items)
      × (r.refund_amount + r.discount_amount ≡ r.subtotal)

  outcome :
      (sale : Sale) (rows : List ReturnRow) (r : SaleReturn) (s' : Store)
      → (finish_return company user dto sale now rows s).0 ≡ r
      → (finish_return company user dto sale now rows s).1 ≡ s'
      → sale.id ≡ dto.sale_id
      → All (FitsAlone sale.id s) dto.items
      → ((item : ℕ) → sum_of (row_asks item) rows ≡ asked item dto.items)
      → discounts_of rows ≤ subtotal_of rows
      → Outcome r s'
  outcome sale rows r s' e e' same fits sums covered =
      rw (← e, ← e')
        (
          subst (λ n. All (FitsAlone n s) dto.items) same fits,
          λ item. finish_return-counts sale rows item ∙ rw (sums item) refl,
          omega (arith, covered),
        )

  -- Where ids count up, a return that goes through is of a confirmed sale of the company. Each of its
  -- lines names an item of that sale and fits, on its own, what is left of it; afterwards every item
  -- counts what all lines ask for as returned, in addition to what it counted before. The refund and
  -- the discount add up to the subtotal.
  pub create_return_lem :
      (r : SaleReturn) (s' : Store)
      → create_return company user dto now s ≡ (ok r, s')
      → ((sale : Sale) × (find_sale dto.sale_id company s.shop.sales ≡ some sale)
          × (same_status sale.status SaleStatus.confirmed ≡ true))
        × All (FitsAlone dto.sale_id s) dto.items
        × ((item : ℕ)
            → already_returned item s'.returns s'.return_items
              ≡ already_returned item s.returns s.return_items + asked item dto.items)
        × (r.refund_amount + r.discount_amount ≡ r.subtotal)
  unfolding create_return apply_create_return
  create_return_lem r s' h' =
      let h = run-eq-ok (apply_create_return company user dto now) s s' r h' in
      let (sale, found, h1) =
        >>=-eq-ok (or_throw (find_sale dto.sale_id company s.shop.sales) validation_error) _ h in
      let (u, passed, h2) =
        >>=-eq-ok
          (throw_if (not (same_status sale.status SaleStatus.confirmed)) unprocessable_entity) _
          h1 in
      let (rows, checked, h3) =
        >>=-eq-ok
          (check_return_lines sale.id s.shop.sale_items s.returns s.return_items
            (sort_by by_sale_item dto.items))
          _ h2 in
      let (fits, sums, covered) = check_return_lines-Keeps sale.id s _ rows checked in
      let e : (finish_return company user dto sale now rows s).0 ≡ r = cc in
      let e' : (finish_return company user dto sale now rows s).1 ≡ s' = cc in
      let there = of_or_throw _ sale found in
      let (fit, counted, refund) =
        outcome sale rows r s' e e' (find_sale-id dto.sale_id company s.shop.sales sale there).0
          (All-of-sort_by by_sale_item (FitsAlone sale.id s) dto.items fits)
          (λ item. sums item ∙ sum_of-sort_by (asks item) by_sale_item dto.items) covered in
      (
        (sale, there, not_thrown (same_status sale.status SaleStatus.confirmed) u passed),
        fit,
        counted,
        refund,
      )
