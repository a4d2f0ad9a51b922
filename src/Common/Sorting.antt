-- ===== src/Common/Sorting.antt =====
-- `[...items].sort(compare)` as a stable insertion sort, and what sorting keeps.
use mathlib.Core.Path.{◌≡◌, refl}
use mathlib.Core.Logic.{inl, inr}
use mathlib.Core.Bool.{Bool}
use mathlib.Core.List.{List, [], ◌∷◌, ◌++◌}
use Prim.Native.Nat.{ℕ, ◌+◌}
use native.Mathlib.Omega.{arith}
use erp_fashion_api.Common.Tests.{if◌then◌else◌, Bool-cases}
use erp_fashion_api.Common.Lists.{All}
use erp_fashion_api.Common.Int.{ℤ, pos, ◌+ℤ◌, int_laws}

module _ {ℓ} {A : Type ℓ} (le : A → A → Bool) where
  insert_by : A → List A → List A
  insert_by x [] = x ∷ []
  insert_by x (y ∷ ys) = if le x y then x ∷ y ∷ ys else y ∷ insert_by x ys

  unfoldable pub sort_by : List A → List A
  unfolding insert_by
  sort_by [] = []
  sort_by (x ∷ xs) = insert_by x (sort_by xs)

  module _ {κ} (P : A → Type κ) where
    All-insert_by : (x : A) (ys : List A) → P x → All P ys → All P (insert_by x ys)
    unfolding insert_by
    All-insert_by x [] p ps = (p, tt)
    All-insert_by x (y ∷ ys) p ps = elim (Bool-cases (le x y)) [
      | inl e ↦ rw e (p, ps)
      | inr e ↦ rw e (ps.0, All-insert_by x ys p ps.1)
    ]

    All-of-insert_by : (x : A) (ys : List A) → All P (insert_by x ys) → P x × All P ys
    unfolding insert_by
    All-of-insert_by x [] h = h
    All-of-insert_by x (y ∷ ys) h = elim (Bool-cases (le x y)) [
      | inl e ↦ rw e at h
      | inr e ↦
          let h' : P y × All P (insert_by x ys) = rw e at h in
          let (p, ps) = All-of-insert_by x ys h'.1 in (p, (h'.0, ps))
    ]

    pub All-sort_by : (xs : List A) → All P xs → All P (sort_by xs)
    unfolding sort_by
    All-sort_by [] h = tt
    All-sort_by (x ∷ xs) h = All-insert_by x (sort_by xs) h.0 (All-sort_by xs h.1)

    pub All-of-sort_by : (xs : List A) → All P (sort_by xs) → All P xs
    unfolding sort_by
    All-of-sort_by [] h = tt
    All-of-sort_by (x ∷ xs) h =
        let (p, ps) = All-of-insert_by x (sort_by xs) h in (p, All-of-sort_by xs ps)

module _ {ℓ} {A : Type ℓ} (f : A → ℤ) where
  abbrev pub total : List A → ℤ
  total [] = pos 0
  total (x ∷ xs) = f x +ℤ total xs

  total-insert_by :
      (le : A → A → Bool) (x : A) (ys : List A) → total (insert_by le x ys) ≡ f x +ℤ total ys
  unfolding insert_by
  total-insert_by le x [] = refl
  total-insert_by le x (y ∷ ys) = elim (Bool-cases (le x y)) [
    | inl e ↦ rw e
    | inr e ↦ rw (e, total-insert_by le x ys) (omega int_laws)
  ]

  -- A sum does not depend on the order.
  pub total-sort_by : (le : A → A → Bool) (xs : List A) → total (sort_by le xs) ≡ total xs
  unfolding sort_by
  total-sort_by le [] = refl
  total-sort_by le (x ∷ xs) = rw (total-insert_by le x (sort_by le xs), total-sort_by le xs)

module _ {ℓ} {A : Type ℓ} (f : A → ℕ) where
  abbrev pub sum_of : List A → ℕ
  sum_of [] = 0
  sum_of (x ∷ xs) = f x + sum_of xs

  pub sum_of-append : (xs ys : List A) → sum_of (xs ++ ys) ≡ sum_of xs + sum_of ys
  sum_of-append [] ys = omega arith
  sum_of-append (x ∷ xs) ys = omega (arith, sum_of-append xs ys)

  sum_of-insert_by :
      (le : A → A → Bool) (x : A) (ys : List A) → sum_of (insert_by le x ys) ≡ f x + sum_of ys
  unfolding insert_by
  sum_of-insert_by le x [] = refl
  sum_of-insert_by le x (y ∷ ys) = elim (Bool-cases (le x y)) [
    | inl e ↦ rw e
    | inr e ↦ rw e (omega (arith, sum_of-insert_by le x ys))
  ]

  pub sum_of-sort_by : (le : A → A → Bool) (xs : List A) → sum_of (sort_by le xs) ≡ sum_of xs
  unfolding sort_by
  sum_of-sort_by le [] = refl
  sum_of-sort_by le (x ∷ xs) = rw (sum_of-insert_by le x (sort_by le xs), sum_of-sort_by le xs)
