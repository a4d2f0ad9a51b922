-- ===== src/Promotions/Late.antt =====
-- A change of a promotion beside a sale that uses it
-- (src/modules/promotions/services/promotions.service.ts).
use mathlib.Core.Path.{subst}
use erp_fashion_api.Common.{
  ℕ, ◌≡◌, refl, ◌∙◌, some, List, [], ◌∷◌, ok, row, row-update, IsKeyed, row_of_find, update_row,
  ◌==◌, find_row-key, ==_refl, arith,
}
use erp_fashion_api.Promotions.{
  Promotion, Table, UpdatePromotion, promotion_key, find_promotion, updated_of, update_promotion,
  one_more_use, increment_usage, save_promotion,
}

-- A sale's use of the promotion, which commits between the read and the save of `update`.
abbrev pub used_once : ℕ → Table → Table
used_once id t = record t { promotions = increment_usage id t.promotions }

row-save :
    (entity : Promotion) (promotions : List Promotion) (x : Promotion)
    → row promotion_key entity.id promotions ≡ some x
    → row promotion_key entity.id (update_row promotion_key entity.id (λ _. entity) promotions)
      ≡ some entity
unfolding update_row
row-save entity [] x h = cc
row-save entity (y ∷ promotions) x h = ground (arith, row-save entity promotions x)

row-used :
    (id : ℕ) (promotions : List Promotion) (p : Promotion)
    → row promotion_key id promotions ≡ some p
    → row promotion_key id (increment_usage id promotions) ≡ some (one_more_use p)
row-used id promotions p h =
    row-update promotion_key one_more_use (λ _. refl) id id promotions p h ∙ rw (==_refl id) refl

module _ (id company user : ℕ) (dto : UpdatePromotion) (t : Table) (p entity : Promotion)
    (keyed : IsKeyed promotion_key t.promotions)
    (found : find_promotion id company t.promotions ≡ some p)
    (changed : updated_of user dto p ≡ ok entity) where
  own_row : row promotion_key id t.promotions ≡ some p
  own_row = row_of_find promotion_key (λ q. company == q.company_id) id t.promotions p keyed found

  same_id : (entity.id ≡ id) × (entity.usage_count ≡ p.usage_count)
  unfolding updated_of
  same_id =
      ground
        (arith, find_row-key promotion_key (λ q. company == q.company_id) id t.promotions p found)

  -- A use of a promotion that is counted between the read and the save of an update of the promotion
  -- is not counted any more after it: the update succeeds, and writes back the count that it had read.
  pub update_promotion_loses_use :
      ((update_promotion id company user dto (used_once id) t).0 ≡ ok entity)
      × (row promotion_key id (used_once id t).promotions ≡ some (one_more_use p))
      × (row promotion_key id (update_promotion id company user dto (used_once id) t).1.promotions
          ≡ some entity)
      × (entity.usage_count ≡ p.usage_count)
  unfolding update_promotion
  update_promotion_loses_use =
      let (same, count) = same_id in
      let used : row promotion_key entity.id (increment_usage id t.promotions)
          ≡ some (one_more_use p) =
        rw same (row-used id t.promotions p own_row) in
      (
        rw (found, changed) refl,
        row-used id t.promotions p own_row,
        rw (found, changed)
            (subst
              (λ n.
                row promotion_key n (save_promotion entity (used_once id t)).promotions
                ≡ some entity)
              same (row-save entity (increment_usage id t.promotions) (one_more_use p) used)),
        count,
      )
