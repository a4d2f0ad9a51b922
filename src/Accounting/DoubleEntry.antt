-- ===== src/Accounting/DoubleEntry.antt =====
-- The double-entry checks of src/modules/accounting/utils/double-entry.ts. An amount is a
-- DECIMAL(14,2) and counts cents, which is what `toCents` makes of it.
use Prim.Native.String.{String}
use erp_fashion_api.Common.{
  ℕ, ◌≡◌, ◌≢◌, ◌↔◌, refl, ◌⊎◌, inl, inr, Bool, not, ◌||◌, Option, List, [], ◌∷◌, arith, ℤ, pos,
  ◌+ℤ◌, ◌<ℤ◌, ltb_ℤ, eqb_ℤ, All, Result, ok, throw, ◌>>=◌, ◌>>◌, throw_if, >>=-eq-ok, Bool-cases,
  ◌∙◌, zero_+ℤ, sym, ap, eq_of_parts, validation_error, +ℤ_assoc, +ℤ_zero,
}

pub data JournalReferenceType : Type 0 where
  payment sale purchase_order : JournalReferenceType

-- `CreateJournalEntryLineDto`, and the columns of a saved line that come from it.
pub record LineInput : Type 0 where
  pub account_id : ℕ
  pub debit_amount : ℤ
  pub credit_amount : ℤ
  pub reference_type : Option JournalReferenceType
  pub reference_id : Option ℕ
  pub description : Option String

abbrev same : Bool → Bool → Bool
same Bool.true b = b
same Bool.false b = not b

-- `assertOneSidedLine`
unfoldable pub assert_one_sided_line : LineInput → Result (Unit {0})
assert_one_sided_line line = do
  throw_if (ltb_ℤ line.debit_amount (pos 0) || ltb_ℤ line.credit_amount (pos 0)) validation_error
  let debit_set = ltb_ℤ (pos 0) line.debit_amount
  let credit_set = ltb_ℤ (pos 0) line.credit_amount
  throw_if (same debit_set credit_set) validation_error

-- The loop of `assertBalanced`, with the two totals so far.
unfoldable pub sum_lines : List LineInput → ℤ → ℤ → Result (ℤ × ℤ)
sum_lines [] debit credit = ok (debit, credit)
sum_lines (line ∷ lines) debit credit =
    assert_one_sided_line line
    >> sum_lines lines (debit +ℤ line.debit_amount) (credit +ℤ line.credit_amount)

-- `assertBalanced`: the totals, in cents, of lines that balance.
unfoldable pub assert_balanced : List LineInput → Result (ℤ × ℤ)
unfolding sum_lines
assert_balanced [] = throw validation_error
assert_balanced (line ∷ lines) = do
  totals ← sum_lines (line ∷ lines) (pos 0) (pos 0)
  throw_if (not (eqb_ℤ totals.0 totals.1)) validation_error
  ok totals

-- Exactly one of the two amounts is positive, and the other is zero.
abbrev pub IsOneSided : LineInput → Type 0
IsOneSided line =
    ((pos 0 <ℤ line.debit_amount) × (line.credit_amount ≡ pos 0))
    ⊎ ((pos 0 <ℤ line.credit_amount) × (line.debit_amount ≡ pos 0))

unfoldable pub total_debit : List LineInput → ℤ
total_debit [] = pos 0
total_debit (line ∷ lines) = line.debit_amount +ℤ total_debit lines

unfoldable pub total_credit : List LineInput → ℤ
total_credit [] = pos 0
total_credit (line ∷ lines) = line.credit_amount +ℤ total_credit lines

-- What a posted journal is: some lines, each of them one-sided, whose debits equal their credits.
abbrev pub IsBalanced : List LineInput → Type 0
IsBalanced lines = (lines ≢ []) × All IsOneSided lines × (total_debit lines ≡ total_credit lines)

assert_one_sided_line-eq-ok :
    (line : LineInput) → assert_one_sided_line line ≡ ok tt → IsOneSided line
unfolding assert_one_sided_line
assert_one_sided_line-eq-ok line h = elim (Bool-cases (ltb_ℤ (pos 0) line.debit_amount)) [
  | inl e ↦ inl (ground arith, eq_of_parts _ _ (ground arith))
  | inr e ↦ inr (ground arith, eq_of_parts _ _ (ground arith))
]

assert_one_sided_line-passes :
    (line : LineInput) → IsOneSided line → assert_one_sided_line line ≡ ok tt
unfolding assert_one_sided_line
assert_one_sided_line-passes line h = ground arith

sum_lines-eq-ok :
    (lines : List LineInput) (d c : ℤ) {totals : ℤ × ℤ}
    → sum_lines lines d c ≡ ok totals
    → All IsOneSided lines
      × (totals.0 ≡ d +ℤ total_debit lines)
      × (totals.1 ≡ c +ℤ total_credit lines)
unfolding sum_lines total_debit total_credit
sum_lines-eq-ok [] d c h = (tt, ground (arith, +ℤ_zero d), ground (arith, +ℤ_zero c))
sum_lines-eq-ok (line ∷ lines) d c h =
    let (_, checked, rest) =
      >>=-eq-ok (assert_one_sided_line line)
        (λ _. sum_lines lines (d +ℤ line.debit_amount) (c +ℤ line.credit_amount)) h in
    let (sided, debit, credit) = sum_lines-eq-ok lines _ _ rest in
    (
      (assert_one_sided_line-eq-ok line checked, sided),
      debit ∙ +ℤ_assoc _ _ _,
      credit ∙ +ℤ_assoc _ _ _,
    )

sum_lines-passes :
    (lines : List LineInput) (d c : ℤ)
    → All IsOneSided lines
    → sum_lines lines d c ≡ ok (d +ℤ total_debit lines, c +ℤ total_credit lines)
unfolding sum_lines total_debit total_credit
sum_lines-passes [] d c h = rw (+ℤ_zero d, +ℤ_zero c)
sum_lines-passes (line ∷ lines) d c h = rw (
  assert_one_sided_line-passes line h.0,
  sum_lines-passes lines (d +ℤ line.debit_amount) (c +ℤ line.credit_amount) h.1,
  +ℤ_assoc d line.debit_amount,
  +ℤ_assoc c line.credit_amount,
)

assert_balanced-eq-ok :
    (lines : List LineInput) {totals : ℤ × ℤ}
    → assert_balanced lines ≡ ok totals
    → IsBalanced lines × (totals ≡ (total_debit lines, total_credit lines))
unfolding assert_balanced
assert_balanced-eq-ok [] h = ground arith
assert_balanced-eq-ok (line ∷ lines) {totals} h =
    let (sums, summed, rest) =
      >>=-eq-ok (sum_lines (line ∷ lines) (pos 0) (pos 0))
        (λ sums. throw_if (not (eqb_ℤ sums.0 sums.1)) validation_error >> ok sums) h in
    let (sided, debit, credit) = sum_lines-eq-ok (line ∷ lines) _ _ summed in
    let equal : sums.0 ≡ sums.1 = eq_of_parts _ _ (ground arith) in
    let kept : sums ≡ totals = ground arith in
    (
      (λ e. cc e, sided, sym (zero_+ℤ _) ∙ sym debit ∙ equal ∙ credit ∙ zero_+ℤ _),
      sym kept ∙ cc (debit ∙ zero_+ℤ _, credit ∙ zero_+ℤ _),
    )

assert_balanced-passes :
    (lines : List LineInput)
    → IsBalanced lines
    → assert_balanced lines ≡ ok (total_debit lines, total_credit lines)
unfolding assert_balanced
assert_balanced-passes [] b = absurd (b.0 refl)
assert_balanced-passes (line ∷ lines) b =
    let summed = sum_lines-passes (line ∷ lines) (pos 0) (pos 0) b.1 in
    rw (summed, zero_+ℤ (total_debit (line ∷ lines)), zero_+ℤ (total_credit (line ∷ lines)), b.2)
      (ground arith)

-- Lines pass the balance check exactly when there is one at least, each has exactly one positive
-- amount and the other zero, and the debits add up to the credits; the totals returned are then the
-- two sums.
pub assert_balanced_lem :
    (lines : List LineInput) (totals : ℤ × ℤ)
    → (assert_balanced lines ≡ ok totals)
      ↔ IsBalanced lines × (totals ≡ (total_debit lines, total_credit lines))
assert_balanced_lem lines totals =
    (assert_balanced-eq-ok lines, λ h. assert_balanced-passes lines h.0 ∙ ap ok (sym h.1))
