-- ===== src/Numbering/Retry.antt =====
-- `retryOnDuplicateEntry` (src/modules/inventory/utils/upsert-retry.ts).
use mathlib.Core.Path.{subst}
use native.Mathlib.Decide.{dec_lt}
use erp_fashion_api.Common.{
  ℕ, zero, suc, ◌+◌, ◌≤◌, ◌<◌, ◌≡◌, ◌⊎◌, inl, inr, refl, Bool, true, false, ◌||◌, arith, Option,
  none, some, ◌==◌, if◌then◌else◌, Bool-cases,
}

-- The fields of a driver error that the code reads. `is_dup_entry` says that a `code` is the text
-- 'ER_DUP_ENTRY'.
pub record DbError : Type 0 where
  pub code_is_dup_entry : Option Bool
  pub errno : Option ℕ
  pub driver_code_is_dup_entry : Option Bool
  pub driver_errno : Option ℕ

-- `a ?? b`
abbrev or_else {ℓ} : {A : Type ℓ} → Option A → Option A → Option A
or_else none b = b
or_else (some a) b = some a

abbrev is_true : Option Bool → Bool
is_true none = false
is_true (some b) = b

abbrev is_1062 : Option ℕ → Bool
is_1062 none = false
is_1062 (some n) = n == 1062

unfoldable pub is_duplicate_entry : DbError → Bool
is_duplicate_entry e =
    is_true (or_else e.code_is_dup_entry e.driver_code_is_dup_entry)
    || is_1062 (or_else e.errno e.driver_errno)

pub data Attempt (A : Type 0) : Type 0 where
  done : A → Attempt A
  failed : DbError → Attempt A

-- One round of the loop: return, throw the error, or go on to `rest`.
settle : {A : Type 0} → Attempt A → ℕ → Attempt A × ℕ → Attempt A × ℕ
settle (done a) attempt rest = (done a, attempt)
settle (failed e) attempt rest = if is_duplicate_entry e then rest else (failed e, attempt)

-- The loop from `attempt` on, with `left` further attempts: what it ends in, and the number of the
-- last attempt made. `work n` is what the nth attempt ends in.
retry_from : {A : Type 0} → (ℕ → Attempt A) → ℕ → ℕ → Attempt A × ℕ
retry_from work zero attempt = (work attempt, attempt)
retry_from work (suc left) attempt =
    let rest = retry_from work left (attempt + 1) in settle (work attempt) attempt rest

-- `maxAttempts` is at least 1, as all callers leave it at 5.
unfoldable pub retry_on_duplicate_entry : {A : Type 0} → (ℕ → Attempt A) → ℕ → Attempt A × ℕ
unfolding retry_from settle is_duplicate_entry
retry_on_duplicate_entry work zero = retry_from work 0 1
retry_on_duplicate_entry work (suc more) = retry_from work more 1

-- Attempt `n` ended in a duplicate-entry error.
abbrev pub IsDuplicate : {A : Type 0} → Attempt A → Type 0
IsDuplicate (done a) = ⊥
IsDuplicate (failed e) = is_duplicate_entry e ≡ true

-- Attempt `n` did not end in a duplicate-entry error.
abbrev pub IsFinal : {A : Type 0} → Attempt A → Type 0
IsFinal (done a) = Unit
IsFinal (failed e) = is_duplicate_entry e ≡ false

abbrev Ran : {A : Type 0} → (ℕ → Attempt A) → ℕ → ℕ → Attempt A × ℕ → Type 0
Ran work left first (result, last) =
    (result ≡ work last)
    × (first ≤ last)
    × (last ≤ first + left)
    × ((n : ℕ) → first ≤ n → n < last → IsDuplicate (work n))
    × (IsFinal (work last) ⊎ (last ≡ first + left))

failed-injective : {A : Type 0} {a b : DbError} → ◌≡◌ {A = Attempt A} (failed a) (failed b) → a ≡ b
failed-injective h = cc

Attempt-cases :
    {A : Type 0} (r : Attempt A)
    → IsFinal r ⊎ ((e : DbError) × (r ≡ failed e) × (is_duplicate_entry e ≡ true))
Attempt-cases (done a) = inl tt
Attempt-cases (failed e) = elim (Bool-cases (is_duplicate_entry e)) [
  | inl dup ↦ inr (e, refl, dup)
  | inr other ↦ inl other
]

settle_final :
    {A : Type 0} (r : Attempt A) (n : ℕ) (rest : Attempt A × ℕ)
    → IsFinal r
    → settle r n rest ≡ (r, n)
unfolding settle
settle_final (done a) n rest h = refl
settle_final (failed e) n rest h = rw h

settle-IsDuplicate :
    {A : Type 0} (r : Attempt A) (e : DbError) (n : ℕ) (rest : Attempt A × ℕ)
    → r ≡ failed e
    → is_duplicate_entry e ≡ true
    → (settle r n rest ≡ rest) × IsDuplicate r
unfolding settle
settle-IsDuplicate (done a) e n rest same dup = cc
settle-IsDuplicate (failed e') e n rest same dup =
    let d : is_duplicate_entry e' ≡ true = rw (failed-injective same) dup in (rw d, d)

Duplicates-step :
    {A : Type 0} (work : ℕ → Attempt A) (first last : ℕ)
    → IsDuplicate (work first)
    → ((n : ℕ) → first + 1 ≤ n → n < last → IsDuplicate (work n))
    → (n : ℕ) → first ≤ n
    → n < last
    → IsDuplicate (work n)
Duplicates-step work first last d ds n low high = elim (dec_lt first n) [
  | yes above ↦ ds n (omega arith) high
  | no here ↦ subst (λ k. IsDuplicate (work k)) (omega arith) d
]

retry_from-Ran :
    {A : Type 0} (work : ℕ → Attempt A) (left first : ℕ)
    → Ran work left first (retry_from work left first)
unfolding retry_from
retry_from-Ran work zero first =
    (refl, omega arith, omega arith, λ n low high. absurd (omega arith), inr (omega arith))
retry_from-Ran work (suc left) first = elim (Attempt-cases (work first)) [
  | inl final ↦
      rw (settle_final (work first) first _ final)
        (refl, omega arith, omega arith, λ n low high. absurd (omega arith), inl final)
  | inr (e, same, dup) ↦
      let rest = retry_from work left (first + 1) in
      let (result, low, high, ds, stop) = retry_from-Ran work left (first + 1) in
      let (on, d) = settle-IsDuplicate (work first) e first rest same dup in
      rw on (
        result,
        omega arith,
        omega arith,
        Duplicates-step work first rest.1 d ds,
        elim stop [ inl f ↦ inl f | inr m ↦ inr (omega arith) ],
      )
]

-- With at least one attempt allowed, the result is that of the last attempt made; that is at most
-- attempt `max`; every earlier one ended in a duplicate-entry error; and the last one did not, unless
-- it was attempt `max`.
pub retry_on_duplicate_entry_lem :
    {A : Type 0} (work : ℕ → Attempt A) (max : ℕ)
    → 1 ≤ max
    → let (result, last) = retry_on_duplicate_entry work max in
      (result ≡ work last)
      × (1 ≤ last)
      × (last ≤ max)
      × ((n : ℕ) → 1 ≤ n → n < last → IsDuplicate (work n))
      × (IsFinal (work last) ⊎ (last ≡ max))
unfolding retry_on_duplicate_entry
retry_on_duplicate_entry_lem work zero h = elim h [ ]
retry_on_duplicate_entry_lem work (suc more) h =
    let (result, low, high, ds, stop) = retry_from-Ran work more 1 in
    (result, low, omega arith, ds, elim stop [ inl f ↦ inl f | inr m ↦ inr (omega arith) ])
