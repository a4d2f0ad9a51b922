-- ===== src/Numbering.antt =====
-- Document numbers: the per-company, per-year counters and the number format of
-- src/modules/inventory/utils/document-number.ts, with the bounded retry of utils/upsert-retry.ts.
pub mod Retry
mod Examples
use erp_fashion_api.Common.{
  ℕ, ◌+◌, ◌≤◌, ◌≡◌, ◌≢◌, ap, Bool, ◌&&◌, List, [], ◌∷◌, ◌++◌, arith, ◌==◌, if◌then◌else◌,
}
use erp_fashion_api.Decimal.{
  Text, decimal, pad_start, read_digits, read_digits-decimal, read_digits-pad_start,
}

-- `${prefix}-${year}-${String(sequence).padStart(6, '0')}`
unfoldable pub format_document_number : Text → ℕ → ℕ → Text
format_document_number prefix year sequence =
    prefix ++ (b'-' ∷ (decimal year ++ (b'-' ∷ pad_start 6 (decimal sequence))))

-- One row of a `company_..._counters` table, unique by company and year.
pub record Counter : Type 0 where
  pub id : ℕ
  pub company_id : ℕ
  pub year : ℕ
  pub last_sequence : ℕ

abbrev is_counter : ℕ → ℕ → Counter → Bool
is_counter company year c = company == c.company_id && year == c.year

-- `last_sequence` of a row, 0 where there is none yet.
unfoldable pub last_sequence_of : ℕ → ℕ → List Counter → ℕ
last_sequence_of company year [] = 0
last_sequence_of company year (c ∷ cs) =
    if is_counter company year c then c.last_sequence else last_sequence_of company year cs

-- The upsert of the row, the locked read and the update to the next sequence, in one pass.
advance : ℕ → ℕ → ℕ → List Counter → List Counter
advance id company year [] =
    record { id = id; company_id = company; year = year; last_sequence = 1 } ∷ []
advance id company year (c ∷ cs) =
    if is_counter company year c
    then record c { last_sequence = c.last_sequence + 1 } ∷ cs
    else c ∷ advance id company year cs

-- `generateReceiptNumber`, `generateTransferNumber`, `generateAdjustmentNumber`,
-- `generateJournalNumber`: the number given out and the table after it.
unfoldable pub generate_number : Text → ℕ → ℕ → ℕ → List Counter → Text × List Counter
unfolding last_sequence_of advance
generate_number prefix id company year counters = (
  format_document_number prefix year (last_sequence_of company year counters + 1),
  advance id company year counters,
)

append-cancel : (xs ys zs : Text) → xs ++ ys ≡ xs ++ zs → ys ≡ zs
append-cancel [] ys zs h = h
append-cancel (x ∷ xs) ys zs h = append-cancel xs ys zs (cc)

-- Under one prefix and year, different sequences have different numbers, at any number of digits.
pub format_document_number_injective :
    (prefix : Text) (year m n : ℕ)
    → format_document_number prefix year m ≡ format_document_number prefix year n
    → m ≡ n
unfolding format_document_number
format_document_number_injective prefix year m n h =
    let after_prefix = append-cancel prefix _ _ h in
    let after_dash : decimal year ++ (b'-' ∷ pad_start 6 (decimal m))
        ≡ decimal year ++ (b'-' ∷ pad_start 6 (decimal n)) =
      cc in
    let after_year = append-cancel (decimal year) _ _ after_dash in
    let digits : pad_start 6 (decimal m) ≡ pad_start 6 (decimal n) = cc in
    cc (
      ap (read_digits 0) digits,
      read_digits-pad_start 6 (decimal m),
      read_digits-pad_start 6 (decimal n),
      read_digits-decimal m,
      read_digits-decimal n,
    )

last_sequence_of-advance :
    (id company year a b : ℕ) (cs : List Counter)
    → last_sequence_of a b (advance id company year cs)
      ≡ (if company == a && year == b then last_sequence_of a b cs + 1 else last_sequence_of a b cs)
unfolding last_sequence_of advance
last_sequence_of-advance id company year a b [] = ground arith
last_sequence_of-advance id company year a b (c ∷ cs) =
    ground (arith, last_sequence_of-advance id company year a b cs)

-- The counters reached from `start` by generating numbers, for whatever companies and years.
pub data Generated (start : List Counter) : List Counter → Type 0 where
  none_yet : Generated start start
  one_more :
      {cs : List Counter} (prefix : Text) (id company year : ℕ)
      → Generated start cs
      → Generated start (generate_number prefix id company year cs).1

last_sequence_of-le-Generated :
    (a b : ℕ) {start cs : List Counter}
    → Generated start cs
    → last_sequence_of a b start ≤ last_sequence_of a b cs
unfolding generate_number
last_sequence_of-le-Generated a b none_yet = omega arith
last_sequence_of-le-Generated a b (one_more {cs} prefix id company year g) =
    ground
      (arith, last_sequence_of-advance id company year a b cs, last_sequence_of-le-Generated a b g)

-- Whatever numbers are generated in between, for this company and year or for others, a number that
-- is given out later for the same company, year and prefix differs from one given out earlier.
pub generate_number_fresh :
    (prefix : Text) (id id' company year : ℕ) (cs later : List Counter)
    → Generated (generate_number prefix id company year cs).1 later
    → (generate_number prefix id company year cs).0
      ≢ (generate_number prefix id' company year later).0
unfolding generate_number
generate_number_fresh prefix id id' company year cs later g same =
    let grown = last_sequence_of-le-Generated company year g in
    let equal = format_document_number_injective prefix year _ _ same in
    ground (arith, grown, equal, last_sequence_of-advance id company year company year cs)
