-- ===== src/Payments/Allocated.antt =====
-- What the allocations of confirmed payments add up to, document by document.
use erp_fashion_api.Common.{
  ℕ, ◌+◌, ◌≤◌, ◌<◌, ◌≡◌, ◌≢◌, refl, ◌∙◌, Bool, true, false, Bool-cases, inl, inr, Option, none,
  some, List, [], ◌∷◌, ◌++◌, ◌==◌, if◌then◌else◌, All, sum_of, row, row-snoc, row-update,
  update_row, arith, ==_iff, ==_refl,
}
use erp_fashion_api.Payments.{Target, Allocation, Payment, PaymentAllocation, target_of}
use erp_fashion_api.Payments.Create.{allocation_rows}
use erp_fashion_api.Payments.Change.{payment_key, is_confirmed, allocations_of, delete_allocations}
use erp_fashion_api.Payments.PaidSales.{at}
use erp_fashion_api.Payments.Totals.{asked_at}

abbrev pub status_counts : Option Payment → Bool
status_counts o = elim o [ none ↦ false | some p ↦ is_confirmed p.status ]

-- The payment of this id is there and confirmed.
abbrev pub counts : ℕ → List Payment → Bool
counts id payments = status_counts (row payment_key id payments)

abbrev pub share : Target → List Payment → PaymentAllocation → ℕ
share k payments a =
    if counts a.payment_id payments
    then at k (target_of a.allocation) a.allocation.allocated_amount
    else 0

-- The allocations of confirmed payments to one document, added up.
abbrev pub allocated : Target → List Payment → List PaymentAllocation → ℕ
allocated k payments allocations = sum_of (share k payments) allocations

-- Every allocation is of a payment below this id.
abbrev pub IsBelow : ℕ → PaymentAllocation → Type 0
IsBelow n a = a.payment_id < n

counts-snoc :
    (x : ℕ) (payments : List Payment) (p : Payment)
    → x ≢ p.id
    → counts x (payments ++ (p ∷ [])) ≡ counts x payments
counts-snoc x payments p other = ground (arith, row-snoc payment_key x payments p)

pub counts-snoc_self :
    (payments : List Payment) (p : Payment)
    → row payment_key p.id payments ≡ none
    → counts p.id (payments ++ (p ∷ [])) ≡ is_confirmed p.status
counts-snoc_self payments p fresh = ground (arith, row-snoc payment_key p.id payments p)

-- A new payment with a fresh id changes nothing of the allocations that are there.
pub allocated-snoc :
    (k : Target) (payments : List Payment) (p : Payment) (n : ℕ)
    (allocations : List PaymentAllocation)
    → n ≤ p.id
    → All (IsBelow n) allocations
    → allocated k (payments ++ (p ∷ [])) allocations ≡ allocated k payments allocations
allocated-snoc k payments p n [] le below = refl
allocated-snoc k payments p n (a ∷ allocations) le (first, below) =
    let e = counts-snoc a.payment_id payments p (λ same. absurd (omega arith)) in
    rw (e, allocated-snoc k payments p n allocations le below)

-- The rows of a confirmed payment add up to what the request asks.
pub allocated-rows :
    (k : Target) (payments : List Payment) (id : ℕ) (allocations : List Allocation) (n : ℕ)
    → counts id payments ≡ true
    → allocated k payments (allocation_rows id allocations n) ≡ asked_at k allocations
unfolding allocation_rows
allocated-rows k payments id [] n c = refl
allocated-rows k payments id (a ∷ allocations) n c =
    rw (c, allocated-rows k payments id allocations (n + 1) c)

pub IsBelow-rows :
    (m id : ℕ) (allocations : List Allocation) (n : ℕ)
    → id < m
    → All (IsBelow m) (allocation_rows id allocations n)
unfolding allocation_rows
IsBelow-rows m id [] n lt = tt
IsBelow-rows m id (a ∷ allocations) n lt = (lt, IsBelow-rows m id allocations (n + 1) lt)

pub IsBelow-mono :
    (n m : ℕ) (allocations : List PaymentAllocation)
    → n ≤ m
    → All (IsBelow n) allocations
    → All (IsBelow m) allocations
IsBelow-mono n m [] le all = tt
IsBelow-mono n m (a ∷ allocations) le (first, all) =
    (omega arith, IsBelow-mono n m allocations le all)

pub IsBelow-delete :
    (m id : ℕ) (allocations : List PaymentAllocation)
    → All (IsBelow m) allocations
    → All (IsBelow m) (delete_allocations id allocations)
unfolding delete_allocations
IsBelow-delete m id [] all = tt
IsBelow-delete m id (a ∷ allocations) (first, all) = elim (Bool-cases (id == a.payment_id)) [
  | inl e ↦ rw e (IsBelow-delete m id allocations all)
  | inr e ↦ rw e (first, IsBelow-delete m id allocations all)
]

module _ (change : Payment → Payment)
    (keeps : (x : Payment) → payment_key (change x) ≡ payment_key x) (id : ℕ)
    (payments : List Payment) (p : Payment) (found : row payment_key id payments ≡ some p) where
  counts-update :
      (x : ℕ)
      → counts x (update_row payment_key id change payments)
        ≡ (if x == id then is_confirmed (change p).status else counts x payments)
  counts-update x = elim (Bool-cases (x == id)) [
    | inl e ↦ rw (row-update payment_key change keeps id x payments p found, e)
    | inr e ↦ rw (row-update payment_key change keeps id x payments p found, e)
  ]

  pub counts-update_self :
      counts id (update_row payment_key id change payments) ≡ is_confirmed (change p).status
  counts-update_self = counts-update id ∙ rw (==_refl id)

  -- Where an update keeps a payment confirmed, the sums stay.
  pub allocated-update :
      (k : Target) (allocations : List PaymentAllocation)
      → is_confirmed p.status ≡ is_confirmed (change p).status
      → allocated k (update_row payment_key id change payments) allocations
        ≡ allocated k payments allocations
  allocated-update k [] same = refl
  allocated-update k (a ∷ allocations) same = elim (Bool-cases (a.payment_id == id)) [
    | inl e ↦
        let here : a.payment_id ≡ id = (==_iff _ _).0 e in
        let own : counts a.payment_id payments ≡ is_confirmed p.status = rw (here, found) in
        rw (counts-update a.payment_id, e, own, same, allocated-update k allocations same)
    | inr e ↦ rw (counts-update a.payment_id, e, allocated-update k allocations same)
  ]

  -- Where an update cancels a confirmed payment, its allocations no longer count.
  pub allocated-cancel :
      (k : Target) (allocations : List PaymentAllocation)
      → is_confirmed p.status ≡ true
      → is_confirmed (change p).status ≡ false
      → allocated k payments allocations
        ≡ allocated k (update_row payment_key id change payments) allocations
          + asked_at k (allocations_of id allocations)
  unfolding allocations_of
  allocated-cancel k [] was is = refl
  allocated-cancel k (a ∷ allocations) was is = elim (Bool-cases (id == a.payment_id)) [
    | inl e ↦
        let here : id ≡ a.payment_id = (==_iff _ _).0 e in
        let own : counts a.payment_id payments ≡ true = rw (← here, found) was in
        let gone : counts a.payment_id (update_row payment_key id change payments) ≡ false =
          counts-update a.payment_id ∙ rw (← here, ==_refl id) is in
        rw (e, own, gone) (omega (arith, allocated-cancel k allocations was is))
    | inr e ↦
        let other : (a.payment_id == id) ≡ false = ground arith in
        let same : counts a.payment_id (update_row payment_key id change payments)
            ≡ counts a.payment_id payments =
          counts-update a.payment_id ∙ rw other in
        rw (e, same) (omega (arith, allocated-cancel k allocations was is))
  ]

-- Deleting the allocations of a confirmed payment takes off what they say.
pub allocated-delete :
    (k : Target) (payments : List Payment) (id : ℕ) (allocations : List PaymentAllocation)
    → counts id payments ≡ true
    → allocated k payments allocations
      ≡ allocated k payments (delete_allocations id allocations)
        + asked_at k (allocations_of id allocations)
unfolding allocations_of delete_allocations
allocated-delete k payments id [] c = refl
allocated-delete k payments id (a ∷ allocations) c = elim (Bool-cases (id == a.payment_id)) [
  | inl e ↦
      let here : id ≡ a.payment_id = (==_iff _ _).0 e in
      let own : counts a.payment_id payments ≡ true = rw (← here) c in
      rw (e, own) (omega (arith, allocated-delete k payments id allocations c))
  | inr e ↦ rw e (omega (arith, allocated-delete k payments id allocations c))
]
