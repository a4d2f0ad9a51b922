-- ===== src/Leave/Sole.antt =====
-- Leave requests whose id occurs once in the table, and what later requests may do to the table.
use erp_fashion_api.Common.{
  ℕ, ◌<◌, ◌≡◌, ◌⊎◌, refl, sym, ap, ◌∙◌, inl, inr, Bool, true, false, Bool-cases, none, some, List,
  [], ◌∷◌, ◌++◌, ◌==◌, arith, All, All-append, run,
}
use erp_fashion_api.Leave.{
  LeaveRequest, Employee, LeaveType, CreateLeaveRequest, Store, Decision, find_request,
  save_request, apply_create, transition, cancel,
}

-- The stores that requests lead to from `s`, served or refused.
pub data Later (employees : List Employee) (types : List LeaveType) (s : Store)
    : Store → Type 0 where
  at_once : Later employees types s s
  then_created :
      {t : Store} (actor company : ℕ) (dto : CreateLeaveRequest) (own_only : Bool)
      → Later employees types s t
      → Later employees types s (run (apply_create employees types actor company dto own_only) t).1
  then_decided :
      {t : Store} (id actor company : ℕ) (decision : Decision) (now : ℕ)
      → Later employees types s t
      → Later employees types s (transition employees id actor company decision now t).1
  then_cancelled :
      {t : Store} (id actor company now : ℕ)
      → Later employees types s t
      → Later employees types s (cancel employees id actor company now t).1

-- The row `r` is there, and is the only one with its id.
abbrev pub IsSole : LeaveRequest → List LeaveRequest → Type 0
IsSole r [] = ⊥
IsSole r (x ∷ xs) =
    (x ≡ r) × All (λ (y : LeaveRequest). (r.id == y.id) ≡ false) xs
    ⊎ ((r.id == x.id) ≡ false) × IsSole r xs

-- The row is there for good, and ids that follow are new.
pub record IsKept (r : LeaveRequest) (s : Store) : Type 0 where
  pub sole : IsSole r s.requests
  pub old : r.id < s.next_id

pub IsSole-append :
    (r p : LeaveRequest) (xs : List LeaveRequest)
    → (r.id == p.id) ≡ false
    → IsSole r xs
    → IsSole r (xs ++ (p ∷ []))
IsSole-append r p [] other none_there = absurd none_there
IsSole-append r p (x ∷ xs) other (inl (same, rest)) =
    inl (same, All-append _ xs (p ∷ []) rest (other, tt))
IsSole-append r p (x ∷ xs) other (inr (differs, rest)) =
    inr (differs, IsSole-append r p xs other rest)

absent-save :
    (id : ℕ) (e : LeaveRequest) (xs : List LeaveRequest)
    → (id == e.id) ≡ false
    → All (λ (y : LeaveRequest). (id == y.id) ≡ false) xs
    → All (λ (y : LeaveRequest). (id == y.id) ≡ false) (save_request e xs)
unfolding save_request
absent-save id e [] other h = tt
absent-save id e (x ∷ xs) other (here, rest) = elim (Bool-cases (e.id == x.id)) [
  | inl it ↦ rw it (other, rest)
  | inr not_it ↦ rw not_it (here, absent-save id e xs other rest)
]

pub IsSole-save :
    (r e : LeaveRequest) (xs : List LeaveRequest)
    → (r.id == e.id) ≡ false
    → IsSole r xs
    → IsSole r (save_request e xs)
unfolding save_request
IsSole-save r e [] other none_there = absurd none_there
IsSole-save r e (x ∷ xs) other (inl (same, rest)) =
    let ids : x.id ≡ r.id = ap (λ (y : LeaveRequest). y.id) same in
    let differs : (e.id == x.id) ≡ false = ground arith in
    rw differs (inl (same, absent-save r.id e xs other rest))
IsSole-save r e (x ∷ xs) other (inr (differs, rest)) = elim (Bool-cases (e.id == x.id)) [
  | inl it ↦ rw it (inr (other, rest))
  | inr not_it ↦ rw not_it (inr (differs, IsSole-save r e xs other rest))
]

-- Saved under its id, a row takes the place of the one that was there.
pub IsSole-save_self :
    (r e : LeaveRequest) (xs : List LeaveRequest)
    → e.id ≡ r.id
    → IsSole r xs
    → IsSole e (save_request e xs)
unfolding save_request
IsSole-save_self r e [] same none_there = absurd none_there
IsSole-save_self r e (x ∷ xs) same (inl (here, rest)) =
    let ids : x.id ≡ r.id = ap (λ (y : LeaveRequest). y.id) here in
    let it : (e.id == x.id) ≡ true = ground arith in rw it (inl (refl, rw same rest))
IsSole-save_self r e (x ∷ xs) same (inr (differs, rest)) =
    let not_it : (e.id == x.id) ≡ false = rw same differs in
    rw not_it (inr (not_it, IsSole-save_self r e xs same rest))

absent-found :
    (id company : ℕ) (r : LeaveRequest) (xs : List LeaveRequest)
    → All (λ (y : LeaveRequest). (r.id == y.id) ≡ false) xs
    → (id == r.id) ≡ true
    → find_request id company xs ≡ none
unfolding find_request
absent-found id company r [] h it = refl
absent-found id company r (x ∷ xs) (here, rest) it =
    ground (arith, absent-found id company r xs rest it)

-- The row is what a lookup of its id finds.
pub find_request-sole :
    (id company : ℕ) (r e : LeaveRequest) (xs : List LeaveRequest)
    → IsSole r xs
    → find_request id company xs ≡ some e
    → (id == r.id) ≡ true
    → e ≡ r
unfolding find_request
find_request-sole id company r e [] none_there found it = absurd none_there
find_request-sole id company r e (x ∷ xs) (inl (same, rest)) found it =
    let ids : x.id ≡ r.id = ap (λ (y : LeaveRequest). y.id) same in
    let rest_none = absent-found id company r xs rest it in
    let itself : x ≡ e = ground arith in sym itself ∙ same
find_request-sole id company r e (x ∷ xs) (inr (differs, rest)) found it =
    find_request-sole id company r e xs rest (ground arith) it

pub find_request-finds :
    (r : LeaveRequest) (xs : List LeaveRequest)
    → IsSole r xs
    → find_request r.id r.company_id xs ≡ some r
unfolding find_request
find_request-finds r [] none_there = absurd none_there
find_request-finds r (x ∷ xs) (inl (same, rest)) =
    let ids : x.id ≡ r.id = ap (λ (y : LeaveRequest). y.id) same in
    let companies : x.company_id ≡ r.company_id = ap (λ (y : LeaveRequest). y.company_id) same in
    ground arith
find_request-finds r (x ∷ xs) (inr (differs, rest)) = rw differs (find_request-finds r xs rest)
