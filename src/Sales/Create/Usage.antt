-- ===== src/Sales/Create/Usage.antt =====
-- How often a promotion is used, over any sequence of creations of sales and of promotions
-- (src/modules/sales/services/sales.service.ts, src/modules/promotions/services/promotions.service.ts).
use Prim.Native.String.{String}
use erp_fashion_api.Common.{
  ℕ, ◌+◌, ◌≤◌, ◌<◌, ◌≡◌, Option, none, some, List, [], All, All-map, inl, inr, Result, Result-cases,
  ok, throw, >>=-eq-ok, settle, arith,
}
use erp_fashion_api.Accounting.Journal.{Company}
use erp_fashion_api.Promotions.{
  Promotion, Table, CreatePromotion, create_promotion, resolve_and_lock_for_use, increment_usage,
}
use erp_fashion_api.Promotions.Usage.{
  IsWithinLimit, IsSound, opening-IsSound, increment_usage-IsSound, create_promotion-IsSound,
}
use erp_fashion_api.Sales.{Sale, Store}
use erp_fashion_api.Sales.Create.{
  Priced, apply_promotion, apply_create, after_first, after_lookup, create_sale,
}
use erp_fashion_api.Sales.Checks.{
  SaleCatalog, Asked, CreateSale, Creation, find_replay, check_sale, assert_valid_sales_account,
}
use erp_fashion_api.Sales.Create.Outcome.{write_sale-eq-ok}

abbrev pub table_of : Store → Table
table_of s = record { promotions = s.promotions; next_id = s.next_id }

abbrev pub with_table : Table → Store → Store
with_table t s = record s { promotions = t.promotions; next_id = t.next_id }

abbrev Sound : Store → Type 0
Sound s = IsSound (table_of s)

-- The stores that creations lead to, served or refused, in any order and with any interleaving, while
-- everything but an update of a promotion goes on beside them.
pub data Reach : Store → Type 0 where
  start : (s : Store) → s.promotions ≡ [] → Reach s
  elsewhere :
      {s : Store} (s' : Store)
      → s'.promotions ≡ s.promotions
      → s.next_id ≤ s'.next_id
      → Reach s
      → Reach s'
  added :
      {s : Store} (companies : List Company) (company user : ℕ) (dto : CreatePromotion)
      (others : Table → Table)
      → Reach s
      → Reach (with_table (others (table_of s)) s)
      → Reach (with_table (create_promotion companies company user dto others (table_of s)).1 s)
  sold :
      {s : Store} (catalog : SaleCatalog) (asked : Asked) (dto : CreateSale)
      (creation : Option Creation) (others : Store → Store)
      → Reach s
      → Reach (others s)
      → Reach (create_sale catalog asked dto creation others s).1

later-IsSound :
    (promotions : List Promotion) (n m : ℕ)
    → n ≤ m
    → IsSound (record { promotions = promotions; next_id = n })
    → IsSound (record { promotions = promotions; next_id = m })
later-IsSound promotions n m le was = record {
  within = was.within;
  keyed = was.keyed;
  fresh =
      All-map (λ (p : Promotion). p.id < n) (λ p. p.id < m) promotions (λ p less. omega arith)
        was.fresh;
}

apply_promotion-IsSound :
    (company : ℕ) (code : Option String) (priced : Priced) (time : ℕ) (t : Table)
    (used : ℕ × List Promotion)
    → apply_promotion company code priced time t.promotions ≡ ok used
    → IsSound t
    → IsSound (record t { promotions = used.1 })
unfolding apply_promotion
apply_promotion-IsSound company none priced time t used h was =
    let e : t.promotions ≡ used.1 = cc in rw (← e) was
apply_promotion-IsSound company (some code) priced time t used h was =
    let (p, found, h1) =
      >>=-eq-ok (resolve_and_lock_for_use company code priced.subtotal time t.promotions) _ h in
    let e : increment_usage p.id t.promotions ≡ used.1 = cc in
    rw (← e) (increment_usage-IsSound company code priced.subtotal time t p found was)

Sound-along : {s s' : Store} → s ≡ s' → Sound s → Sound s'
Sound-along e was = rw (← e) was

module _ (catalog : SaleCatalog) (asked : Asked) (dto : CreateSale)
    (creation : Option Creation) where
  after_lookup-Sound :
      (t s' : Store) (sale : Sale) (o : Option Sale)
      → after_lookup catalog asked dto creation t o ≡ ok (sale, s')
      → Sound t
      → Sound s'
  after_lookup-Sound t s' sale (some x) h was =
      let e : t.promotions ≡ s'.promotions = cc in
      let e' : t.next_id + 1 ≡ s'.next_id = cc in
      rw (← e, ← e') (later-IsSound t.promotions t.next_id (t.next_id + 1) (omega arith) was)
  after_lookup-Sound t s' sale none h was =
      let (priced, used, _, u, _, e) = write_sale-eq-ok catalog asked dto creation t s' sale h in
      Sound-along e (
        later-IsSound used.1 t.next_id _ (omega arith)
          (apply_promotion-IsSound _ _ priced _ (table_of t) used u was))

  apply_create-Sound :
      (t s' : Store) (sale : Sale)
      → apply_create catalog asked dto creation t ≡ ok (sale, s')
      → Sound t
      → Sound s'
  unfolding apply_create
  apply_create-Sound t s' sale h was =
      let (u, _, h1) =
        >>=-eq-ok
          (assert_valid_sales_account catalog dto.sales_account_id asked.company_id asked.user_id) _
          h in
      let (o, _, h2) = >>=-eq-ok (find_replay asked.company_id creation t.sales) _ h1 in
      after_lookup-Sound t s' sale o h2 was

  settled : (t : Store) → Sound t → Sound (settle (apply_create catalog asked dto creation t) t).1
  settled t was = elim (Result-cases (apply_create catalog asked dto creation t)) [
    | inr (e, failed) ↦ rw failed was
    | inl ((sale, s'), done) ↦ rw done (apply_create-Sound t s' sale done was)
  ]

  after_first-Sound :
      (others : Store → Store) (s : Store) (r : Result (Option Sale))
      → Sound s
      → Sound (others s)
      → Sound (after_first catalog asked dto creation others s r).1
  after_first-Sound others s (throw e) was then_was = was
  after_first-Sound others s (ok (some sale)) was then_was = was
  after_first-Sound others s (ok none) was then_was =
      elim (Result-cases (check_sale catalog asked.company_id dto)) [
        | inr (e, bad) ↦ rw (bad, after_first) then_was
        | inl (u, good) ↦ rw (good, after_first) (settled (others s) then_was)
      ]

Reach-Sound : {s : Store} → Reach s → Sound s
unfolding create_sale
Reach-Sound (start s none_yet) = rw none_yet (opening-IsSound s.next_id)
Reach-Sound (elsewhere {s} s' same le r) =
    rw same (later-IsSound s.promotions s.next_id s'.next_id le (Reach-Sound r))
Reach-Sound (added {s} companies company user dto others r r') =
    create_promotion-IsSound companies company user dto others (table_of s) (Reach-Sound r')
Reach-Sound (sold {s} catalog asked dto creation others r r') =
    after_first-Sound catalog asked dto creation others s
      (find_replay asked.company_id creation s.sales) (Reach-Sound r) (Reach-Sound r')

-- Over any history of creations of promotions and of sales, in any interleaving and whatever else
-- happens but an update of a promotion, no promotion is used more often than its limit.
pub usage_is_limited : {s : Store} → Reach s → All IsWithinLimit s.promotions
usage_is_limited r = (Reach-Sound r).within
