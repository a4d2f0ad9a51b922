-- ===== src/Promotions/Usage.antt =====
-- The limit on the uses of a promotion (src/modules/promotions/services/promotions.service.ts).
use Prim.Native.String.{String}
use mathlib.Core.Path.{subst}
use erp_fashion_api.Common.{
  ℕ, ◌+◌, ◌≤◌, ◌<◌, ◌≡◌, refl, sym, false, Bool-cases, Option, none, some, List, [], ◌∷◌, ◌++◌, inl,
  inr, ◌==◌, All, All-append, All-map, row, IsKeyed, IsKeyed-snoc, IsKeyed-update, update_row,
  Result, Result-cases, ok, throw, throw_if, >>=-eq-ok, settle, arith, is_some, internal_error,
  Option-cases,
}
use erp_fashion_api.Accounting.Journal.{Company}
use erp_fashion_api.Promotions.{
  Promotion, Table, CreatePromotion, promotion_key, find_code, new_promotion, one_more_use,
  increment_usage, is_used_up, resolve_and_lock_for_use, check_promotion, insert_promotion,
  create_promotion,
}

abbrev Allows : Option ℕ → ℕ → Type 0
Allows none uses = Unit
Allows (some limit) uses = uses ≤ limit

abbrev pub IsWithinLimit : Promotion → Type 0
IsWithinLimit p = Allows p.usage_limit p.usage_count

-- No promotion has been used more often than its limit; ids are unique, and the next one is new.
pub record IsSound (t : Table) : Type 0 where
  pub within : All IsWithinLimit t.promotions
  pub keyed : IsKeyed promotion_key t.promotions
  pub fresh : All (λ (p : Promotion). p.id < t.next_id) t.promotions

pub opening-IsSound : (id : ℕ) → IsSound (record { promotions = []; next_id = id })
opening-IsSound id = record { within = tt; keyed = tt; fresh = tt }

-- The code leads to a row of the table.
find_code-row :
    (company : ℕ) (code : String) (promotions : List Promotion) (p : Promotion)
    → IsKeyed promotion_key promotions
    → find_code company code promotions ≡ some p
    → row promotion_key p.id promotions ≡ some p
unfolding find_code
find_code-row company code [] p k h = cc
find_code-row company code (x ∷ promotions) p k h =
    ground (arith, find_code-row company code promotions p k.1)

one_more-Allows :
    (limit : Option ℕ) (uses : ℕ) → is_used_up limit uses ≡ false → Allows limit (uses + 1)
one_more-Allows none uses h = tt
one_more-Allows (some n) uses h = ground arith

one_more :
    (p : Promotion)
    → is_used_up p.usage_limit p.usage_count ≡ false
    → IsWithinLimit (one_more_use p)
one_more p h = one_more-Allows p.usage_limit p.usage_count h

-- One more use of a row that is not used up stays within the limit.
increment_usage-All :
    (p : Promotion) (promotions : List Promotion)
    → row promotion_key p.id promotions ≡ some p
    → is_used_up p.usage_limit p.usage_count ≡ false
    → All IsWithinLimit promotions
    → All IsWithinLimit (increment_usage p.id promotions)
unfolding update_row
increment_usage-All p [] h free within = tt
increment_usage-All p (x ∷ promotions) h free within = elim (Bool-cases (p.id == x.id)) [
  | inl e ↦
      let same : x ≡ p = ground (arith, h) in
      rw e (subst (λ q. IsWithinLimit (one_more_use q)) (sym same) (one_more p free), within.1)
  | inr e ↦ rw e (within.0, increment_usage-All p promotions (ground arith) free within.1)
]

-- What the checks of a promotion's use leave to be known.
resolved-free :
    (company : ℕ) (code : String) (subtotal time : ℕ) (promotions : List Promotion) (p : Promotion)
    → resolve_and_lock_for_use company code subtotal time promotions ≡ ok p
    → (find_code company code promotions ≡ some p)
      × (is_used_up p.usage_limit p.usage_count ≡ false)
unfolding resolve_and_lock_for_use
resolved-free company code subtotal time promotions p h =
    elim (Option-cases (find_code company code promotions)) [
      | inl e ↦ absurd (ground arith)
      | inr (q, e) ↦ ground (arith, e)
    ]

All-update :
    (n id : ℕ) (promotions : List Promotion)
    → All (λ (p : Promotion). p.id < n) promotions
    → All (λ (p : Promotion). p.id < n) (increment_usage id promotions)
unfolding update_row
All-update n id [] less = tt
All-update n id (p ∷ promotions) less = elim (Bool-cases (id == p.id)) [
  | inl e ↦ rw e (less.0, less.1)
  | inr e ↦ rw e (less.0, All-update n id promotions less.1)
]

-- The use of a promotion keeps the table sound.
pub increment_usage-IsSound :
    (company : ℕ) (code : String) (subtotal time : ℕ) (t : Table) (p : Promotion)
    → resolve_and_lock_for_use company code subtotal time t.promotions ≡ ok p
    → IsSound t
    → IsSound (record t { promotions = increment_usage p.id t.promotions })
increment_usage-IsSound company code subtotal time t p h was =
    let (found, free) = resolved-free company code subtotal time t.promotions p h in
    record {
      within =
          increment_usage-All p t.promotions
            (find_code-row company code t.promotions p was.keyed found) free was.within;
      keyed = IsKeyed-update promotion_key one_more_use (λ _. refl) p.id t.promotions was.keyed;
      fresh = All-update t.next_id p.id t.promotions was.fresh;
    }

new-row :
    (n : ℕ) (promotions : List Promotion)
    → All (λ (p : Promotion). p.id < n) promotions
    → row promotion_key n promotions ≡ none
new-row n [] less = refl
new-row n (p ∷ promotions) less = ground (arith, new-row n promotions less.1)

abbrev inserted : ℕ → ℕ → CreatePromotion → Table → Table
inserted company user dto t = record {
  promotions = t.promotions ++ (new_promotion company user dto t.next_id ∷ []);
  next_id = t.next_id + 1;
}

unused : (limit : Option ℕ) → Allows limit 0
unused none = tt
unused (some n) = omega arith

-- A new promotion keeps the table sound.
inserted-IsSound :
    (company user : ℕ) (dto : CreatePromotion) (t : Table)
    → IsSound t
    → IsSound (inserted company user dto t)
inserted-IsSound company user dto t was =
    let p : Promotion = new_promotion company user dto t.next_id in
    record {
      within =
          All-append IsWithinLimit t.promotions (p ∷ []) was.within (unused dto.usage_limit, tt);
      keyed =
          IsKeyed-snoc promotion_key t.promotions p was.keyed
            (new-row t.next_id t.promotions was.fresh);
      fresh =
          All-append (λ (q : Promotion). q.id < t.next_id + 1) t.promotions (p ∷ [])
            (All-map (λ (q : Promotion). q.id < t.next_id) (λ q. q.id < t.next_id + 1) t.promotions
              (λ q less. omega arith) was.fresh)
            (omega arith, tt);
    }

insert_promotion-IsSound :
    (company user : ℕ) (dto : CreatePromotion) (t t' : Table) (p : Promotion)
    → insert_promotion company user dto t ≡ ok (p, t')
    → IsSound t
    → IsSound t'
unfolding insert_promotion
insert_promotion-IsSound company user dto t t' p h was =
    let (_, _, h1) =
      >>=-eq-ok (throw_if (is_some (find_code company dto.code t.promotions)) internal_error) _ h in
    let e : inserted company user dto t ≡ t' = cc in
    rw (← e) (inserted-IsSound company user dto t was)

settled :
    (r : Result (Promotion × Table)) (t : Table)
    → IsSound t
    → ((p : Promotion) (t' : Table) → r ≡ ok (p, t') → IsSound t')
    → IsSound (settle r t).1
settled (throw e) t was keep = was
settled (ok (p, t')) t was keep = keep p t' refl

pub create_promotion-IsSound :
    (companies : List Company) (company user : ℕ) (dto : CreatePromotion) (others : Table → Table)
    (t : Table)
    → IsSound (others t)
    → IsSound (create_promotion companies company user dto others t).1
unfolding create_promotion
create_promotion-IsSound companies company user dto others t was =
    elim (Result-cases (check_promotion companies company dto t.promotions)) [
      | inr (e, bad) ↦ rw bad was
      | inl (u, good) ↦ rw good (
          settled (insert_promotion company user dto (others t)) (others t) was
            λ p t' done. insert_promotion-IsSound company user dto (others t) t' p done was)
    ]
