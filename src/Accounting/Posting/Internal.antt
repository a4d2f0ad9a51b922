-- ===== src/Accounting/Posting/Internal.antt =====
-- What `createInternal` and a reversal have written where they succeed.
use Prim.Native.String.{String}
use erp_fashion_api.Common.{
  >>=-eq-ok, ◌⊎◌, ℕ, ◌+◌, ◌<◌, ◌≤◌, ◌≡◌, refl, sym, ap, ◌∙◌, inl, inr, true, Bool-cases,
  Option-cases, Option, none, some, List, [], ◌∷◌, ◌++◌, map, arith, ◌+ℤ◌, All, All-map,
  Result-cases, ok,
}
use erp_fashion_api.Accounting.DoubleEntry.{
  LineInput, IsOneSided, IsBalanced, total_debit, total_credit, assert_balanced,
  assert_balanced_lem,
}
use erp_fashion_api.Accounting.Store.{
  Store, AccountingPeriod, JournalEntry, JournalEntryStatus, JournalSourceType, lines_of,
  find_by_source,
}
use erp_fashion_api.Accounting.Period.{resolve_open_period}
use erp_fashion_api.Accounting.Journal.{InternalEntry, create_internal, internal_entry, save_new}
use erp_fashion_api.Accounting.Journal.Balanced.{IsSound-resolve, resolve-keeps}
use erp_fashion_api.Accounting.Journal.Lines.{IsSound, lines_of-saved, lines_of-saved_other}
use erp_fashion_api.Accounting.TrialBalance.{posted_lines}
use erp_fashion_api.Accounting.Posting.{
  Payment, swap_sides, reverse_payment, reverse_lines, reversal_entry, is_refund,
}
use erp_fashion_api.Accounting.Posting.Ledger.{
  net, ledger_net, net-append, posted_lines-append, posted_lines-one, posted_lines-same,
}

-- What a successful `createInternal` has written: one posted entry with a fresh id, its lines, and
-- no other lines for any older entry.
pub create_internal-eq-ok :
    (params : InternalEntry) (now : ℕ) (s : Store) {e : JournalEntry} {s' : Store}
    → IsSound s
    → create_internal params now s ≡ ok (e, s')
    → IsBalanced params.lines
      × (e.status ≡ JournalEntryStatus.posted)
      × (e.company_id ≡ params.company_id)
      × (e.source_type ≡ some params.source_type)
      × (e.source_id ≡ some params.source_id)
      × (s'.entries ≡ s.entries ++ (e ∷ []))
      × (s.next_id ≤ e.id)
      × (lines_of e.id s'.lines ≡ params.lines)
      × ((id : ℕ) → id < s.next_id → lines_of id s'.lines ≡ lines_of id s.lines)
unfolding create_internal save_new
create_internal-eq-ok params now s {e} {s'} sound h =
    elim (Result-cases (assert_balanced params.lines)) [
      | inl (totals, balanced) ↦
          elim (Result-cases (resolve_open_period params.company_id params.entry_date s)) [
            | inl (resolved, opened) ↦
                let (same_entries, same_lines, grown) =
                  resolve-keeps params.company_id params.entry_date s opened in
                let below =
                  (IsSound-resolve params.company_id params.entry_date s opened sound).1 in
                let next = resolved.1.next_id in
                let written =
                  save_new (internal_entry params now totals resolved.0) params.lines
                    params.company_id params.entry_date resolved.1 in
                let same_entry : written.0 ≡ e = ground arith in
                let same : written.1 ≡ s' = ground arith in
                rw (sym same, sym same_entry)
                  (
                    ((assert_balanced_lem params.lines totals).0 balanced).0,
                    refl,
                    refl,
                    refl,
                    refl,
                    rw same_entries refl,
                    omega (arith, grown),
                    lines_of-saved (next + 1) params.lines resolved.1 below (omega arith)
                        (next + 2),
                    λ id used.
                        lines_of-saved_other (next + 1) params.lines resolved.1 below (omega arith)
                          (next + 2) id (omega (arith, used, grown))
                        ∙ ap (lines_of id) same_lines,
                  )
            | inr (code, thrown) ↦ absurd (ground arith)
          ]
      | inr (code, thrown) ↦ absurd (ground arith)
    ]

pub create_internal-ledger_net :
    (params : InternalEntry) (now account : ℕ) (s : Store) {e : JournalEntry} {s' : Store}
    → IsSound s
    → create_internal params now s ≡ ok (e, s')
    → ledger_net account s' ≡ ledger_net account s +ℤ net account params.lines
unfolding ledger_net
create_internal-ledger_net params now account s {e} {s'} sound h =
    let (_, posted, _, _, _, entries, _, own, others) =
      create_internal-eq-ok params now s sound h in
    let old =
      posted_lines-same s.next_id s.entries s.lines s'.lines
        (All-map _ _ s.entries (λ e h. h.0) sound.0) others in
    let new : posted_lines (λ _. true) (e ∷ []) s'.lines ≡ params.lines =
      posted_lines-one e s'.lines posted ∙ own in
    rw (entries, posted_lines-append, net-append, old, new) refl

pub find_by_source-append :
    (company id : ℕ) (source : JournalSourceType) (entries more : List JournalEntry)
    → find_by_source company source id entries ≡ none
    → find_by_source company source id (entries ++ more) ≡ find_by_source company source id more
unfolding find_by_source
find_by_source-append company id source [] more h = refl
find_by_source-append company id source (e ∷ entries) more h =
    ground (arith, find_by_source-append company id source entries more)

pub find_by_source-own :
    (company id : ℕ) (e : JournalEntry)
    → e.company_id ≡ company
    → e.source_type ≡ some JournalSourceType.payment
    → e.source_id ≡ some id
    → find_by_source company JournalSourceType.payment id (e ∷ []) ≡ some e
unfolding find_by_source
find_by_source-own company id e c t i = rw (t, i) (ground (arith, c))

swap-IsOneSided :
    (paid : Payment) (lines : List LineInput)
    → All IsOneSided lines
    → All IsOneSided (map (swap_sides paid) lines)
swap-IsOneSided paid [] h = tt
swap-IsOneSided paid (l ∷ lines) h =
    (elim h.0 [ inl d ↦ inr d | inr c ↦ inl c ], swap-IsOneSided paid lines h.1)

swap-totals :
    (paid : Payment) (lines : List LineInput)
    → (total_debit (map (swap_sides paid) lines) ≡ total_credit lines)
      × (total_credit (map (swap_sides paid) lines) ≡ total_debit lines)
unfolding total_debit total_credit
swap-totals paid [] = (refl, refl)
swap-totals paid (l ∷ lines) =
    let (debit, credit) = swap-totals paid lines in (rw debit refl, rw credit refl)

-- A reversal of balanced lines is balanced.
pub swap-IsBalanced :
    (paid : Payment) (lines : List LineInput)
    → IsBalanced lines
    → IsBalanced (map (swap_sides paid) lines)
swap-IsBalanced paid [] b = absurd (b.0 refl)
swap-IsBalanced paid (l ∷ lines) b =
    let (debit, credit) = swap-totals paid (l ∷ lines) in
    ((λ e. cc e), swap-IsOneSided paid (l ∷ lines) b.1, debit ∙ sym b.2 ∙ sym credit)

pub create_internal-passes :
    (params : InternalEntry) (now : ℕ) (s : Store) {resolved : AccountingPeriod × Store}
    → IsBalanced params.lines
    → resolve_open_period params.company_id params.entry_date s ≡ ok resolved
    → (e : JournalEntry) × (s' : Store) × (create_internal params now s ≡ ok (e, s'))
unfolding create_internal
create_internal-passes params now s {resolved} balanced opened =
    let passed = (assert_balanced_lem params.lines _).1 (balanced, refl) in
    let written =
      save_new
        (internal_entry params now (total_debit params.lines, total_credit params.lines) resolved.0)
        params.lines params.company_id params.entry_date resolved.1 in
    (written.0, written.1, rw (passed, opened) refl)

-- The period's part of a run that succeeds.
pub create_internal-resolves :
    (params : InternalEntry) (now : ℕ) (s : Store) {e : JournalEntry} {s' : Store}
    → create_internal params now s ≡ ok (e, s')
    → (resolved : AccountingPeriod × Store) × (resolve_open_period params.company_id
          params.entry_date s
        ≡ ok resolved)
unfolding create_internal
create_internal-resolves params now s h =
    elim (Result-cases (resolve_open_period params.company_id params.entry_date s)) [
      | inl (resolved, opened) ↦ (resolved, opened)
      | inr (code, thrown) ↦ elim (Result-cases (assert_balanced params.lines)) [
        | inl (totals, balanced) ↦ absurd (ground arith)
        | inr (code', unbalanced) ↦ absurd (ground arith)
      ]
    ]

pub create_internal-IsBalanced :
    (params : InternalEntry) (now : ℕ) (s : Store) {e : JournalEntry} {s' : Store}
    → create_internal params now s ≡ ok (e, s')
    → IsBalanced params.lines
unfolding create_internal
create_internal-IsBalanced params now s h = elim (Result-cases (assert_balanced params.lines)) [
  | inl (totals, balanced) ↦ ((assert_balanced_lem params.lines totals).0 balanced).0
  | inr (code, unbalanced) ↦ absurd (ground arith)
]

reverse_lines-eq-ok :
    (paid : Payment) (user : ℕ) (reason : Option String) (now : ℕ) (s : Store)
    (lines : List LineInput) {r : Option JournalEntry} {s' : Store}
    → reverse_lines paid user reason now s lines ≡ ok (r, s')
    → (s ≡ s')
      ⊎ ((e : JournalEntry) × (create_internal
              (reversal_entry paid user reason now s.next_id lines)
              now
              (record s { next_id = s.next_id + 1 })
            ≡ ok (e, s')))
reverse_lines-eq-ok paid user reason now s [] h = inl (ground arith)
reverse_lines-eq-ok paid user reason now s (l ∷ lines) h =
    let (written, made, rest) =
      >>=-eq-ok
        (create_internal (reversal_entry paid user reason now s.next_id (l ∷ lines)) now
          (record s { next_id = s.next_id + 1 }))
        (λ reversed. ok (some reversed.0, reversed.1)) h in
    inr (written.0, cc (made, rest))

-- A reversal that succeeds changes nothing, or it saves the lines of some entry, swapped.
pub reverse_payment-eq-ok :
    (paid : Payment) (user : ℕ) (reason : Option String) (now : ℕ) (s : Store)
    {r : Option JournalEntry} {s' : Store}
    → reverse_payment paid user reason now s ≡ ok (r, s')
    → (s ≡ s')
      ⊎ ((entry : ℕ) × (e : JournalEntry) × (create_internal
              (reversal_entry paid user reason now s.next_id (lines_of entry s.lines))
              now
              (record s { next_id = s.next_id + 1 })
            ≡ ok (e, s')))
unfolding reverse_payment
reverse_payment-eq-ok paid user reason now s {r} {s'} h =
    elim (Bool-cases (is_refund paid.direction)) [
      | inl refund ↦ inl (ground arith)
      | inr other ↦
          elim (Option-cases
            (find_by_source paid.company_id JournalSourceType.payment paid.id s.entries)) [
              | inl absent ↦ inl (ground arith)
              | inr (original, found) ↦
                  elim (reverse_lines-eq-ok paid user reason now s (lines_of original.id s.lines)
                    {r = r} {s' = s'} (ground arith)) [
                      | inl same ↦ inl same
                      | inr made ↦ inr (original.id, made.0, made.1)
                    ]
            ]
    ]
