-- ===== src/Numbering/Examples.antt =====
-- Runs of the numbering and of the retry, and their theorems at concrete inputs.
use erp_fashion_api.Common.{
  ℕ, ◌≡◌, ◌≢◌, ◌⊎◌, refl, none, some, [], ◌∷◌, ◌≤◌, ◌<◌, ◌==◌, if◌then◌else◌, arith,
}
use erp_fashion_api.Decimal.{Text, decimal, pad_start}
use erp_fashion_api.Numbering.{
  format_document_number, generate_number, none_yet, generate_number_fresh,
}
use erp_fashion_api.Numbering.Retry.{
  DbError, Attempt, done, failed, retry_on_duplicate_entry, retry_on_duplicate_entry_lem,
  IsDuplicate, IsFinal,
}

abbrev adj : Text
adj = b'A' ∷ b'D' ∷ b'J' ∷ []

-- ADJ-2026-000042
adj_42 :
    format_document_number adj 2026 42
    ≡ b'A' ∷ b'D' ∷ b'J' ∷ b'-' ∷ b'2' ∷ b'0' ∷ b'2' ∷ b'6' ∷ b'-' ∷ b'0' ∷ b'0' ∷ b'0' ∷ b'0'
      ∷ b'4' ∷ b'2' ∷ []
unfolding format_document_number decimal pad_start
adj_42 = refl

generate_number_fresh_example :
    (generate_number adj 1 1 2026 []).0
    ≢ (generate_number adj 2 1 2026 (generate_number adj 1 1 2026 []).1).0
generate_number_fresh_example =
    generate_number_fresh adj 1 2 1 2026 [] (generate_number adj 1 1 2026 []).1 none_yet

abbrev duplicate : DbError
duplicate = record {
  code_is_dup_entry = none;
  errno = none;
  driver_code_is_dup_entry = none;
  driver_errno = some 1062;
}

-- Two duplicates, then a success.
abbrev third_time : ℕ → Attempt ℕ
third_time n = if n == 3 then done 9 else failed duplicate

third_time_run : retry_on_duplicate_entry third_time 5 ≡ (done 9, 3)
unfolding retry_on_duplicate_entry
third_time_run = refl

retry_on_duplicate_entry_lem_example :
    let (result, last) = retry_on_duplicate_entry third_time 5 in
    (result ≡ third_time last)
    × (1 ≤ last)
    × (last ≤ 5)
    × ((n : ℕ) → 1 ≤ n → n < last → IsDuplicate (third_time n))
    × (IsFinal (third_time last) ⊎ (last ≡ 5))
retry_on_duplicate_entry_lem_example = retry_on_duplicate_entry_lem third_time 5 (omega arith)
