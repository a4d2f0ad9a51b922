-- ===== src/Common/Outcome.antt =====
-- Exceptions as values, and the transaction wrapper: core/errors/error-codes.ts and
-- core/transaction/transaction.service.ts.
use mathlib.Core.Path.{◌≡◌, refl}
use mathlib.Core.Logic.{◌⊎◌, inl, inr}
use mathlib.Core.Bool.{Bool, true, false}
use mathlib.Core.Option.{Option, none, some}

-- The codes an `AppException` carries.
pub data ErrorCode : Type 0 where
  validation_error unauthorized forbidden not_found conflict unprocessable_entity rate_limited :
      ErrorCode
  internal_error : ErrorCode

-- What a call ends in: a value, or a thrown `AppException`.
pub data Result {ℓ} (A : Type ℓ) : Type ℓ where
  ok : A → Result A
  throw : ErrorCode → Result A

infixl 5 ◌>>=◌
-- A statement after another: skipped once something is thrown.
abbrev pub ◌>>=◌ {κ μ} : {V : Type κ} → {W : Type μ} → Result V → (V → Result W) → Result W
throw code >>= next = throw code
ok v >>= next = next v

infixl 5 ◌>>◌
abbrev pub ◌>>◌ {μ} : {W : Type μ} → (check : Result (Unit {0})) → (next : Result W) → Result W
check >> next = check >>= λ _. next

abbrev pub throw_if : Bool → ErrorCode → Result (Unit {0})
throw_if true e = throw e
throw_if false e = ok tt

abbrev pub or_throw {ℓ} : {A : Type ℓ} → Option A → ErrorCode → Result A
or_throw none e = throw e
or_throw (some a) e = ok a

-- The end of a transaction: commit, or roll back to the state that it began in.
abbrev pub settle {ℓ κ} : {S : Type ℓ} {A : Type κ} → Result (A × S) → S → Result A × S
settle (ok (a, s')) s = (ok a, s')
settle (throw e) s = (throw e, s)

-- `TransactionService.run`: the work's writes are kept if it returns and undone if it throws.
unfoldable pub run {ℓ κ} : {S : Type ℓ} {A : Type κ} → (S → Result (A × S)) → S → Result A × S
run work s = settle (work s) s

pub >>=-eq-ok {κ μ} :
    {V : Type κ}
    → {W : Type μ} → {w : W} → (first : Result V) → (next : V → Result W) → first >>= next ≡ ok w
    → (v : V) × (first ≡ ok v) × (next v ≡ ok w)
>>=-eq-ok (throw code) next returned = cc
>>=-eq-ok (ok v) next returned = (v, refl, returned)

pub Result-cases {ℓ} :
    {A : Type ℓ} (r : Result A) → ((a : A) × (r ≡ ok a)) ⊎ ((e : ErrorCode) × (r ≡ throw e))
Result-cases (ok a) = inl (a, refl)
Result-cases (throw e) = inr (e, refl)

-- Checks that come before the transaction: where they throw, none is opened.
unfoldable pub run_after {ℓ κ μ} :
    {S : Type ℓ} {A : Type κ} {B : Type μ} → Result B → (B → S → Result (A × S)) → S → Result A × S
unfolding run
run_after (throw e) work s = (throw e, s)
run_after (ok b) work s = run (work b) s

module _ {ℓ κ μ} {S : Type ℓ} {A : Type κ} (P : S → Type μ) where
  -- What holds before holds afterwards, if every run of the work that returns keeps it.
  pub run_inv :
      (work : S → Result (A × S)) (s : S)
      → P s
      → ((a : A) (s' : S) → work s ≡ ok (a, s') → P s')
      → P (run work s).1
  unfolding run
  run_inv work s h keep = elim (Result-cases (work s)) [
    | inl (p, e) ↦ rw (e, run) (keep p.0 p.1 e)
    | inr (c, e) ↦ rw (e, run) h
  ]

  pub run_after_inv {ν} :
      {B : Type ν} (checks : Result B) (work : B → S → Result (A × S)) (s : S)
      → P s
      → ((b : B) (a : A) (s' : S) → checks ≡ ok b → work b s ≡ ok (a, s') → P s')
      → P (run_after checks work s).1
  unfolding run_after
  run_after_inv (throw e) work s h keep = h
  run_after_inv (ok b) work s h keep = run_inv (work b) s h (λ a s' e. keep b a s' refl e)

pub run_after-ok {ℓ κ μ} :
    {S : Type ℓ} {A : Type κ} {B : Type μ} {checks : Result B} {b : B}
    (work : B → S → Result (A × S)) (s : S) {a : A} {s' : S}
    → checks ≡ ok b
    → work b s ≡ ok (a, s')
    → run_after checks work s ≡ (ok a, s')
unfolding run_after run
run_after-ok work s c e = rw (c, e, run)

pub run_after-throw {ℓ κ μ} :
    {S : Type ℓ} {A : Type κ} {B : Type μ} {checks : Result B} {b : B}
    (work : B → S → Result (A × S)) (s : S) {e : ErrorCode}
    → checks ≡ ok b
    → work b s ≡ throw e
    → run_after checks work s ≡ (throw e, s)
unfolding run_after run
run_after-throw work s c e = rw (c, e, run)

settled {ℓ κ} :
    {S : Type ℓ} {A : Type κ} (r : Result (A × S)) (s s' : S) (a : A)
    → settle r s ≡ (ok a, s')
    → r ≡ ok (a, s')
settled (throw e) s s' a h = absurd (cc h)
settled (ok (b, t)) s s' a h = cc

-- What a transaction that returned has written is what its work returned.
pub run-eq-ok {ℓ κ} :
    {S : Type ℓ} {A : Type κ} (work : S → Result (A × S)) (s s' : S) (a : A)
    → run work s ≡ (ok a, s')
    → work s ≡ ok (a, s')
unfolding run
run-eq-ok work s s' a h = settled (work s) s s' a h
