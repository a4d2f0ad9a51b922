-- ===== src/Inventory/Transfer/Order.antt =====
-- The order in which a transfer locks its rows.
use erp_fashion_api.Common.{
  ◌≤◌, ◌<◌, ◌≡◌, ◌⊎◌, inl, inr, true, false, ◌∷◌, [], List, All, All-map, arith, Bool-cases,
}
use erp_fashion_api.Inventory.Transfer.{Target, target_leb, insert_target, sort_targets}

module _ {ℓ} (P : Target → Type ℓ) where
  All-of-insert : (t : Target) (us : List Target) → All P (insert_target t us) → P t × All P us
  unfolding insert_target
  All-of-insert t [] h = h
  All-of-insert t (u ∷ us) h = elim (Bool-cases (target_leb t u)) [
    | inl e ↦ rw e at h
    | inr e ↦
        let h' : P u × All P (insert_target t us) = rw e at h in
        let (p, ps) = All-of-insert t us h'.1 in (p, (h'.0, ps))
  ]

  All-insert : (t : Target) (us : List Target) → P t → All P us → All P (insert_target t us)
  unfolding insert_target
  All-insert t [] p ps = (p, tt)
  All-insert t (u ∷ us) p ps = elim (Bool-cases (target_leb t u)) [
    | inl e ↦ rw e (p, ps)
    | inr e ↦ rw e (ps.0, All-insert t us p ps.1)
  ]

  -- Sorting loses no target.
  pub All-of-sort : (ts : List Target) → All P (sort_targets ts) → All P ts
  unfolding sort_targets
  All-of-sort [] h = tt
  All-of-sort (t ∷ ts) h =
      let (p, ps) = All-of-insert t (sort_targets ts) h in (p, All-of-sort ts ps)

-- The two components of an order on targets.
abbrev pub ◌≤ₜ◌ : Target → Target → Type 0
◌≤ₜ◌ (w, v) (w', v') = (w < w') ⊎ ((w ≡ w') × (v ≤ v'))

abbrev pub IsSorted : List Target → Type 0
IsSorted [] = Unit
IsSorted (t ∷ ts) = All (λ u. ◌≤ₜ◌ t u) ts × IsSorted ts

target_leb→le : (t u : Target) → target_leb t u ≡ true → ◌≤ₜ◌ t u
target_leb→le (w, v) (w', v') h = ground arith

target_leb→ge : (t u : Target) → target_leb t u ≡ false → ◌≤ₜ◌ u t
target_leb→ge (w, v) (w', v') h = ground arith

le_trans : (t u z : Target) → ◌≤ₜ◌ t u → ◌≤ₜ◌ u z → ◌≤ₜ◌ t z
le_trans (a, b) (c, d) (e, f) h k = grind arith

insert_target-IsSorted :
    (t : Target) (us : List Target) → IsSorted us → IsSorted (insert_target t us)
unfolding insert_target
insert_target-IsSorted t [] h = (tt, tt)
insert_target-IsSorted t (u ∷ us) (first, rest) = elim (Bool-cases (target_leb t u)) [
  | inl e ↦
      let tu = target_leb→le t u e in
      rw e (
        (tu, All-map (λ z. ◌≤ₜ◌ u z) (λ z. ◌≤ₜ◌ t z) us (λ z. le_trans t u z tu) first),
        (first, rest),
      )
  | inr e ↦ rw e (
    All-insert (λ z. ◌≤ₜ◌ u z) t us (target_leb→ge t u e) first,
    insert_target-IsSorted t us rest,
  )
]

-- The targets are sorted before any row is locked.
pub sort_targets-IsSorted : (ts : List Target) → IsSorted (sort_targets ts)
unfolding sort_targets
sort_targets-IsSorted [] = tt
sort_targets-IsSorted (t ∷ ts) =
    insert_target-IsSorted t (sort_targets ts) (sort_targets-IsSorted ts)
