-- ===== src/Common/Table.antt =====
-- A table with a primary key: lookups, an update of one row, and an append.
use mathlib.Core.Path.{◌≡◌, refl}
use mathlib.Core.Logic.{inl, inr}
use mathlib.Core.Bool.{Bool, true, ◌&&◌}
use mathlib.Core.Option.{Option, none, some}
use mathlib.Core.List.{List, [], ◌∷◌, ◌++◌}
use Prim.Native.Nat.{ℕ}
use native.Mathlib.Omega.{arith}
use erp_fashion_api.Common.Tests.{◌==◌, if◌then◌else◌, is_some, Bool-cases, Option-cases}

module _ {ℓ} {A : Type ℓ} (key : A → ℕ) where
  -- `findOne({ where: { id, ... } })`, with the other conditions as a test.
  unfoldable pub find_row : (A → Bool) → ℕ → List A → Option A
  find_row test id [] = none
  find_row test id (x ∷ xs) = if id == key x && test x then some x else find_row test id xs

  -- The row of a key, whatever else holds of it.
  abbrev pub row : ℕ → List A → Option A
  row id [] = none
  row id (x ∷ xs) = if id == key x then some x else row id xs

  -- `update(Entity, id, ...)`
  unfoldable pub update_row : ℕ → (A → A) → List A → List A
  update_row id change [] = []
  update_row id change (x ∷ xs) = if id == key x then change x ∷ xs else x ∷ update_row id change xs

  abbrev pub IsKeyed : List A → Type ℓ
  IsKeyed [] = Unit
  IsKeyed (x ∷ xs) = (row (key x) xs ≡ none) × IsKeyed xs

  pub find_row-key :
      (test : A → Bool) (id : ℕ) (xs : List A) (x : A)
      → find_row test id xs ≡ some x
      → (key x ≡ id) × (test x ≡ true)
  unfolding find_row
  find_row-key test id [] x h = cc
  find_row-key test id (y ∷ xs) x h = ground (arith, find_row-key test id xs x)

  pub row_of_find :
      (test : A → Bool) (id : ℕ) (xs : List A) (x : A)
      → IsKeyed xs
      → find_row test id xs ≡ some x
      → row id xs ≡ some x
  unfolding find_row
  row_of_find test id [] x k h = cc
  row_of_find test id (y ∷ xs) x k h =
      ground (arith, row_of_find test id xs x k.1, find_row-key test id xs x)

  pub row-snoc :
      (a : ℕ) (xs : List A) (x : A)
      → row a (xs ++ (x ∷ []))
        ≡ elim (row a xs) [ none ↦ if a == key x then some x else none | some y ↦ some y ]
  row-snoc a [] x = refl
  row-snoc a (y ∷ xs) x = ground (arith, row-snoc a xs x)

  pub IsKeyed-snoc :
      (xs : List A) (x : A) → IsKeyed xs → row (key x) xs ≡ none → IsKeyed (xs ++ (x ∷ []))
  IsKeyed-snoc [] x k h = (refl, tt)
  IsKeyed-snoc (y ∷ xs) x (fresh, k) h =
      (ground (arith, row-snoc (key y) xs x), IsKeyed-snoc xs x k (ground arith))

  module _ (change : A → A) (keeps : (x : A) → key (change x) ≡ key x) where
    -- An update changes the row of its key, and no other.
    pub row-update :
        (id a : ℕ) (xs : List A) (x : A)
        → row id xs ≡ some x
        → row a (update_row id change xs) ≡ (if a == id then some (change x) else row a xs)
    unfolding update_row
    row-update id a [] x h = cc
    row-update id a (y ∷ xs) x h = ground (arith, row-update id a xs x, keeps y)

    is_some-row-update :
        (id a : ℕ) (xs : List A) → is_some (row a (update_row id change xs)) ≡ is_some (row a xs)
    unfolding update_row
    is_some-row-update id a [] = refl
    is_some-row-update id a (y ∷ xs) = ground (arith, is_some-row-update id a xs, keeps y)

    none-row-update :
        (id a : ℕ) (xs : List A) → row a xs ≡ none → row a (update_row id change xs) ≡ none
    none-row-update id a xs h = elim (Option-cases (row a (update_row id change xs))) [
      | inl e ↦ e
      | inr (x, e) ↦ absurd (ground (arith, is_some-row-update id a xs))
    ]

    pub IsKeyed-update : (id : ℕ) (xs : List A) → IsKeyed xs → IsKeyed (update_row id change xs)
    unfolding update_row
    IsKeyed-update id [] k = tt
    IsKeyed-update id (y ∷ xs) (fresh, k) = elim (Bool-cases (id == key y)) [
      | inl e ↦ rw e (rw (keeps y) fresh, k)
      | inr e ↦ rw e (none-row-update id (key y) xs fresh, IsKeyed-update id xs k)
    ]
