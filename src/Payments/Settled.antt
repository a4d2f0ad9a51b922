-- ===== src/Payments/Settled.antt =====
-- The store in which paid and allocated amounts agree, and what the checks of a request establish.
pub mod Creation
pub mod Change
use erp_fashion_api.Common.{
  ℕ, ◌+◌, ◌≤◌, ◌≡◌, Bool, true, none, List, [], ◌∷◌, All, row, IsKeyed, ok, arith, >>=-eq-ok,
}
use erp_fashion_api.Accounting.Posting.{PaymentDirection}
use erp_fashion_api.Payments.{
  Target, Allocation, PaymentReferenceType, CreatePayment, Catalog, Store, reference_type_for,
  allocated_total, assert_allocations_valid, validate, validate_parties,
}
use erp_fashion_api.Payments.Change.{payment_key}
use erp_fashion_api.Payments.PaidSales.{paid_at, HasKeys}
use erp_fashion_api.Payments.Totals.{is_settled, same_type_eq}
use erp_fashion_api.Payments.Allocated.{allocated, IsBelow}

-- What is paid of every document is what the allocations of confirmed payments give it, and ids are
-- primary keys that have been given out.
pub record IsSettled (s : Store) : Type 0 where
  pub documents_keyed : HasKeys s.documents
  pub payments_keyed : IsKeyed payment_key s.payments
  pub fresh : (x : ℕ) → s.next_id ≤ x → row payment_key x s.payments ≡ none
  pub owned : All (IsBelow s.next_id) s.allocations
  pub settled : (k : Target) → paid_at k s.documents ≡ allocated k s.payments s.allocations

-- Checked allocations are to documents of the type of the direction.
allocated_total-types :
    (test : PaymentReferenceType → Bool) (expected : PaymentReferenceType)
    (allocations : List Allocation) (sum n : ℕ)
    → test expected ≡ true
    → allocated_total expected allocations sum ≡ ok n
    → All (λ (a : Allocation). test a.reference_type ≡ true) allocations
unfolding allocated_total
allocated_total-types test expected [] sum n h e = tt
allocated_total-types test expected (a ∷ allocations) sum n h e =
    let same : a.reference_type ≡ expected =
      same_type_eq a.reference_type expected (ground arith) in
    (
      rw same h,
      allocated_total-types test expected allocations (sum + a.allocated_amount) n h (ground arith),
    )

pub assert_allocations_valid-types :
    (test : PaymentReferenceType → Bool) (direction : PaymentDirection) (amount : ℕ)
    (allocations : List Allocation)
    → test (reference_type_for direction) ≡ true
    → assert_allocations_valid direction amount allocations ≡ ok tt
    → All (λ (a : Allocation). test a.reference_type ≡ true) allocations
unfolding assert_allocations_valid
assert_allocations_valid-types test direction amount allocations own h =
    let (n, e, _) = >>=-eq-ok (allocated_total (reference_type_for direction) allocations 0) _ h in
    allocated_total-types test (reference_type_for direction) allocations 0 n own e

pub settles : (direction : PaymentDirection) → is_settled (reference_type_for direction) ≡ true
settles direction = ground arith

pub validate-types :
    (catalog : Catalog) (company : ℕ) (dto : CreatePayment)
    → validate catalog company dto ≡ ok tt
    → All (λ (a : Allocation). is_settled a.reference_type ≡ true) dto.allocations
unfolding validate
validate-types catalog company dto h =
    let (_, _, rest) = >>=-eq-ok (validate_parties catalog company dto) _ h in
    assert_allocations_valid-types is_settled dto.direction dto.amount dto.allocations
      (settles dto.direction) rest
